-- ===== src/Payments.antt =====
-- src/payments: orders, receipts, approval and rejection.
pub mod Rejection
pub mod Prices
pub mod Orders
pub mod Receipts
pub mod Approval
pub mod Machine
pub mod Refusal
