-- ===== src/Types.antt =====
-- `src/types`: the wrappers and enums that the crate exports to JavaScript.
pub mod Wrapper
pub mod Network
pub mod Address
pub mod Amount
pub mod Keychain
pub mod Error
pub mod Fee
pub mod Output
pub mod Psbt
pub mod Block
pub mod Chain
pub mod Event
pub mod WalletTx
pub mod Conversions
pub mod TxDetails
pub mod Records
pub mod Transaction
pub mod Script
pub mod LocalOutput
pub mod Balance
pub mod CheckPoint
pub mod ChangeSet
pub mod Wrappers
pub mod Panics
