-- ===== src/Domain.antt =====
-- The package internal/domain: the identifier space and the arithmetic of identifiers.
pub mod Space
pub mod Value
pub mod Valid
pub mod Build
pub mod Arith
pub mod Ring
pub mod Digits
pub mod BigInt
pub mod Imaginary
pub mod Target
pub mod Hex
pub mod Proto
pub mod Text
