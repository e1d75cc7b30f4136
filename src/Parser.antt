-- ===== src/Parser.antt =====
-- The parser (crates/parser): the syntax tree that it hands to the binder.
pub mod Ast
