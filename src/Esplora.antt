-- ===== src/Esplora.antt =====
-- src/bitcoin/esplora_client.rs: the client of an Esplora server, and the sleeper that its retries
-- wait on.
pub mod Client
pub mod Delay
pub mod Sleep
pub mod Workflow
