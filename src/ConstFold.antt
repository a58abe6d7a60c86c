-- ===== src/ConstFold.antt =====
-- The pass that folds constants, src/constfold.c, and the part of the interpreter that computes
-- the operators on the values of literals.
pub mod Doubles
pub mod Fold
pub mod Statements
pub mod Value
mod Same
pub mod Literals
mod Preserves
mod Program
mod Kept
mod Again
pub mod Whole
mod Tests
