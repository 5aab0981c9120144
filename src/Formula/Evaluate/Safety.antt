-- ===== src/Formula/Evaluate/Safety.antt =====
-- Evaluation by packages/formula/src/evaluate.ts of what the checker lets through.
pub mod Dates
pub mod Arithmetic
pub mod Operators
pub mod TextCalls
pub mod DateCalls
pub mod Arguments
pub mod Stored
pub mod Calls
pub mod Sound
