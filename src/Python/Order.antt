-- ===== src/Python/Order.antt =====
-- Strict orders as Python's `<`, tuples and lists under it, and `sorted`.
pub mod Sorting
use usdb_explorer.Prelude.{
  ℕ, ◌≡◌, refl, ap₂, Bool, true, false, List, [], ◌∷◌, arith, ltb, if◌then◌else◌,
}

pub record StrictOrder {A : Type 0} (lt : A → A → Bool) : Type 0 where
  pub irrefl : (a : A) → lt a a ≡ false
  pub trans : (a b c : A) → lt a b ≡ true → lt b c ≡ true → lt a c ≡ true
  pub connected : (a b : A) → lt a b ≡ false → lt b a ≡ false → a ≡ b

-- What sorting needs: elements that neither precedes may differ.
pub record WeakOrder {A : Type 0} (lt : A → A → Bool) : Type 0 where
  pub asymm : (a b : A) → lt a b ≡ true → lt b a ≡ false
  pub le_trans : (a b c : A) → lt b a ≡ false → lt c b ≡ false → lt c a ≡ false

-- Elements in the order of a key.
pub WeakOrder-key :
    {A B : Type 0} {lt : B → B → Bool} (key : A → B)
    → WeakOrder lt
    → WeakOrder (λ a b. lt (key a) (key b))
WeakOrder-key key o = record {
  asymm = λ a b. o.asymm (key a) (key b);
  le_trans = λ a b c. o.le_trans (key a) (key b) (key c);
}

pub ltb-StrictOrder : StrictOrder ltb
ltb-StrictOrder = record {
  irrefl = λ a. ground arith;
  trans = λ a b c h k. ground arith;
  connected = λ a b h k. ground arith;
}

module _ {A : Type 0} (lt : A → A → Bool) where
  -- `<` of two lists: the first difference decides, and a prefix is smaller.
  unfoldable pub lex : List A → List A → Bool
  lex [] [] = false
  lex [] (y ∷ ys) = true
  lex (x ∷ xs) [] = false
  lex (x ∷ xs) (y ∷ ys) =
      let rest = lex xs ys in if lt x y then true else if lt y x then false else rest

module _ {A : Type 0} {lt : A → A → Bool} (o : StrictOrder lt) where
  pub asymm : (a b : A) → lt a b ≡ true → lt b a ≡ false
  asymm a b h = ground (arith, o.trans a b a h, o.irrefl a)

  -- `not (b < a)` is transitive.
  pub le_trans : (a b c : A) → lt b a ≡ false → lt c b ≡ false → lt c a ≡ false
  le_trans a b c h k = ground (arith, o.connected a b, o.trans c a b)

  pub StrictOrder-IsWeak : WeakOrder lt
  StrictOrder-IsWeak = record { asymm = asymm; le_trans = le_trans }

  lex_irrefl : (xs : List A) → lex lt xs xs ≡ false
  unfolding lex
  lex_irrefl [] = refl
  lex_irrefl (x ∷ xs) = ground (arith, o.irrefl x, lex_irrefl xs)

  lex_trans : (xs ys zs : List A) → lex lt xs ys ≡ true → lex lt ys zs ≡ true → lex lt xs zs ≡ true
  unfolding lex
  lex_trans [] [] zs h k = k
  lex_trans [] (y ∷ ys) [] h k = k
  lex_trans [] (y ∷ ys) (z ∷ zs) h k = refl
  lex_trans (x ∷ xs) [] zs h k = cc
  lex_trans (x ∷ xs) (y ∷ ys) [] h k = k
  lex_trans (x ∷ xs) (y ∷ ys) (z ∷ zs) h k = ground (
    arith,
    o.connected x y,
    o.connected y z,
    o.trans x y z,
    asymm x z,
    asymm x y,
    asymm y z,
    lex_trans xs ys zs,
  )

  lex-connected : (xs ys : List A) → lex lt xs ys ≡ false → lex lt ys xs ≡ false → xs ≡ ys
  unfolding lex
  lex-connected [] [] h k = refl
  lex-connected [] (y ∷ ys) h k = cc
  lex-connected (x ∷ xs) [] h k = cc
  lex-connected (x ∷ xs) (y ∷ ys) h k =
      ground (arith, o.connected x y, asymm x y, lex-connected xs ys)

  pub lex-StrictOrder : StrictOrder (lex lt)
  lex-StrictOrder = record { irrefl = lex_irrefl; trans = lex_trans; connected = lex-connected }

module _ {A B : Type 0} (ltA : A → A → Bool) (ltB : B → B → Bool) where
  -- `<` of two pairs.
  unfoldable pub lex_pair : A × B → A × B → Bool
  lex_pair (a, b) (c, d) = if ltA a c then true else if ltA c a then false else ltB b d

module _ {A B : Type 0} {ltA : A → A → Bool} {ltB : B → B → Bool} where
  pub lex_pair-StrictOrder : StrictOrder ltA → StrictOrder ltB → StrictOrder (lex_pair ltA ltB)
  unfolding lex_pair
  lex_pair-StrictOrder o p = record {
    irrefl = λ (a, b). ground (arith, o.irrefl a, p.irrefl b);
    trans = λ (a, b) (c, d) (e, f) h k. ground (
      arith,
      o.connected a c,
      o.connected c e,
      o.trans a c e,
      asymm o a e,
      asymm o a c,
      asymm o c e,
      p.trans b d f,
    );
    connected = λ (a, b) (c, d) h k. ground (arith, o.connected a c, asymm o a c, p.connected b d);
  }

-- `False < True`
abbrev pub lt_bool : Bool → Bool → Bool
lt_bool false true = true
lt_bool _ _ = false

pub lt_bool-StrictOrder : StrictOrder lt_bool
lt_bool-StrictOrder = record {
  irrefl = λ a. ground arith;
  trans = λ a b c h k. ground arith;
  connected = λ a b h k. ground arith;
}
