-- ===== src/Binder.antt =====
-- The binder (crates/binder): names and types of expressions.
pub mod Types
pub mod Ast
pub mod Context
pub mod Number
pub mod Coercion
pub mod Frame
pub mod Call
pub mod Operator
pub mod Expression
pub mod Statement
pub mod CreateTable
pub mod Modify
pub mod Equality
pub mod Grouping
