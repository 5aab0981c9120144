-- ===== src/Formula.antt =====
-- packages/formula: the formula language, from its text to typed expressions.
pub mod Syntax
pub mod Post
pub mod Lexer
pub mod Parser
pub mod Types
pub mod Functions
pub mod Tables
pub mod Rules
pub mod Signatures
pub mod Check
pub mod Runtime
pub mod Values
pub mod Evaluate
pub mod Environment
mod Tests
