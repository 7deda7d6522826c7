-- ===== src/Bdk.antt =====
-- What the crate takes from bdk_wallet, bitcoin and the JavaScript host. None of that code is in
-- the repository: its opaque types and operations are parameters, and of its enums there are
-- the variants that the crate's matches name.
pub mod Kinds
pub mod Opaque
pub mod Errors
pub mod Esplora
pub mod Fees
pub mod Builder
pub mod Chain
pub mod Keys
pub mod Wallet
pub mod Signing
pub mod Addresses
pub mod Transactions
pub mod Bitcoin
pub mod Values
