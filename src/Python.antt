-- ===== src/Python.antt =====
-- What the program uses of Python: values of JSON documents, exceptions, text and `re`.
pub mod Value
pub mod Exn
pub mod Text
pub mod Regex
pub mod Order
