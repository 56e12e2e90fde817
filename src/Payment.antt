-- ===== src/Payment.antt =====
-- The fee and price arithmetic of `src/domain/payment.ts`.
pub mod Numeral
pub mod Amount
pub mod Token
pub mod Worth
pub mod Digits
pub mod Reading
pub mod Printing
pub mod Legs
pub mod Scale
pub mod Units
pub mod Quote
pub mod Cover
mod Tests
mod Examples
