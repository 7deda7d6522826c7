-- ===== src/Wallet.antt =====
-- src/bitcoin/wallet.rs: the wallet that JavaScript holds, a handle of a shared cell. Its methods
-- borrow the cell and call bdk_wallet.
pub mod Errors
pub mod Create
pub mod Read
pub mod Change
pub mod SignOptions
pub mod Session
pub mod Program
