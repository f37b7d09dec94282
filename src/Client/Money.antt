-- ===== src/Client/Money.antt =====
-- Balances, the history of the local actor, and payments (src/client/transfer_actor).
pub mod Balance
pub mod Paid
pub mod Payments
pub mod Laws
pub mod Events
pub mod Transfers
