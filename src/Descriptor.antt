-- ===== src/Descriptor.antt =====
-- src/bitcoin/descriptor.rs and its exports in src/utils/descriptor.rs: descriptors for a wallet's two keychains from a seed or a key, and
-- extended keys from SLIP-10 nodes.
pub mod Templates
pub mod Slip10
pub mod Exports
