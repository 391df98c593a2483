-- ===== src/Js.antt =====
-- The JavaScript values that the program handles, and what it uses of the language's own text
-- functions.
pub mod Text
pub mod Value
