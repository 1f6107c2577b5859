-- ===== src/NumberTheory.antt =====
-- common-files/utils/crypto/number-theory.mjs and modular-division.mjs
pub mod Modular
pub mod Powers
pub mod Division
pub mod Bezout
pub mod Congruence
pub mod Quotients
pub mod Examples
