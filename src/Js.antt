-- ===== src/Js.antt =====
-- What the pages use of the language: texts, sets of texts, loosely typed values.
pub mod Text
pub mod TextSet
pub mod Value
