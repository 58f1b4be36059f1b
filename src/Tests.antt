-- ===== src/Tests.antt =====
-- The theorems at concrete tables.
pub mod Shop
pub mod Keys
pub mod Activating
pub mod Replacing
pub mod Paying
pub mod Orders
pub mod Access
pub mod Signing
pub mod Recovering
pub mod Linking
pub mod SigningIn
pub mod Registering
pub mod Administering
pub mod Releasing
pub mod Managing
pub mod Informing
pub mod Supporting
