-- ===== src/Lib.antt =====
-- The release, security and faucet policies of the USDB explorer.
--
-- The repository ships a public block explorer for the USDB test network: a deployment manager and
-- its configuration (explorer/*.py), the scripts that release it (scripts/*.py), a gateway in Go and
-- a patched frontend. This library is about the Python code that decides: which release came
-- before, what changed since and what an upgrade needs; whether a scanned image passes and a build
-- may be published; what an installer keeps and switches; which configuration is accepted; how a
-- deployment is prepared, replaced and started; and what a check of a running one reports.
--
-- A release is described by its notes (Notes), scanned (Security) and published (Publish). An
-- installer verifies it and switches the commands to it (Install). The deployment manager then loads
-- the configuration (Config, Faucet), prepares a generation of files (Deploy), and starts it where
-- the host has the memory (Resources) and the upstream is accepted (Rpc). A check of the ingress
-- (Reach) tells what fails.
--
-- Files:
--   Prelude, Prelude/*      names of the libraries passed on, tests, lists, integers, members.
--   Python/Value, Exn       the values of `json.loads`, their `==`, `get` and truth, and exceptions
--                           as values: a function that may raise returns a `Result`. The text of an
--                           error is kept up to what it quotes.
--   Python/Text, Regex      the methods of `str`, and `re.fullmatch` by derivatives.
--   Python/Order, Sorting   `<` on tuples and lists, and `sorted` as a stable insertion sort.
--   Notes/Version           scripts/release_notes.py: `version_key`, `tag_identity`,
--                           `previous_published`; its order in Version/Order, its choice in
--                           Version/Previous.
--   Notes/Fragment          `validate_fragment` and its helpers; what it accepts in
--                           Fragment/Texts and Fragment/Canonical.
--   Notes/Commits           `_classify_release_notes`, `commit_records`.
--   Notes/Changes           `fragments_at`, `source_changes`, `range_changes`; Changes/AppendOnly
--                           and Changes/Evidence.
--   Notes/Inputs            `requires_notes`, `source_inputs`.
--   Notes/Build             `build_changes`; its flags in Build/Flags.
--   Notes/Tests, Examples   runs on concrete inputs, and the theorems at them.
--   Faucet                  explorer/faucet_config.py: `amount`, `validate_faucet`; Faucet/Amount
--                           and Faucet/Policy.
--   Security                explorer/public_config.py: `security_enforcement`; in Reference and
--                           Scan, `canonical_reference` and `evaluate` of
--                           scripts/image_security.py; Policy, Findings, Targets and Verdict have
--                           the proofs.
--   Rpc                     explorer/public_checks.py: in Calls, computations over an explicit world;
--                           in Failure and Read, `rpc_failure` and `ReadRpc`; in Chain, Trace and
--                           Preflight, `block`, `identity_check`, `pending_trace_sample` and
--                           `preflight`; Guard, Safety, ReadOnly, Report and Errors have the proofs.
--   Publish                 explorer/publish_release.py: `release_assets`, `resolve_build`; in
--                           Promotion, `promote`; Complete and Published have the proofs.
--   Resources               explorer/usdb_public.py: `memory_bytes`, `require_resources`; the proofs
--                           in Budget.
--   Config                  explorer/public_config.py: `fields`, `endpoint`; in Upstream the `rpc`
--                           settings of `load_config`, over `urlsplit`; the proofs in Loopback. In
--                           Memory its `resources`.
--   Config                  in Images `image_lock`, with Locked; in Ingress the `ingress` of
--                           `load_config` and `ipv6_binding`, with Listening; in Load the whole of
--                           `load_config`, with Accepted. Settings, Published and Configured
--                           tie the accepted ingress to the configured one.
--   Install                 explorer/install_release.py: in Archive `extract_release`, with Bounded;
--                           in Verify `verify_release`, with Verified; in Links and Activate the
--                           switch of the command links and its roll-back, with Atomic; in Run
--                           `install`, with Kept and Switched.
--   Reach                   explorer/ingress_checks.py: `ingress_targets`; in Report `error_document`,
--                           `diagnosis` and `check_ingresses`, in Probe `probe_ingress`; the proofs in
--                           Targets, Honest and Total.
--   Deploy                  explorer/usdb_public.py: `verify`, `verify_kit`; in Prepare and Replace
--                           `prepare`, in Up the command `up` of `execute`; the proofs in Replaced,
--                           Kept, Verifies and Started. Json sorts the keys as `write_json` does.
--
-- How the code is modelled: a dict is an association list with unique use of its keys, a text is a
-- native `String`, a whole number is an `ℤ` over the native `ℕ`, and a number with a fraction is
-- kept as its literal, so only numbers that are not whole are `float`. Loops are structural
-- recursion, and no function has fuel but the printing of a number, whose fuel is the number plus
-- one. A comprehension that may raise is `each` or `keep_each`.
--
-- Parameters: the output of a `git` command, the GitHub API, the parsed JSON of a text (with its
-- check for duplicate keys), the assignments of a Python file, SHA-256, `urlsplit` and
-- `ipaddress`, the answers of Docker and of the upstream, and what the renderers of the documents
-- write. `str.isdigit` is the test for ASCII digits, which is what a tag that the pattern accepts
-- can hold. The trailers that `re.findall` reads in several lines are found by `find_notes`, which
-- goes through the text once. `build_changes` takes the previous release as an `Identity`, so the
-- check of its keys is gone.
--
-- Not modelled: Docker itself, sockets, the format of tar files, the prompts of the setup, the
-- rendering of documents, and the code in Go and TypeScript. The system calls of a switch or of a
-- replacement fail at most once in a run; two failures in a row leave what the code cannot put
-- back. The writes into the staging directory of `prepare` are one call behind the rendering.
-- `range_changes` is given no empty revision.
pub mod Prelude
pub mod Python
pub mod Notes
pub mod Faucet
pub mod Security
pub mod Rpc
pub mod Publish
pub mod Resources
pub mod Config
pub mod Install
pub mod Reach
pub mod Deploy
