-- ===== src/Lib.antt =====
-- A verification library for bdk-wasm, which exports bdk_wallet and its relatives to JavaScript.
--
-- The program. A `Wallet` (src/bitcoin/wallet.rs) is a handle of a shared cell, `Rc<RefCell<..>>`,
-- around bdk_wallet's wallet. Its methods borrow the cell, convert their arguments, call bdk_wallet
-- and convert what it returns. `build_tx` and `build_fee_bump` give out a `TxBuilder`
-- (src/bitcoin/tx_builder.rs), which shares the cell and only collects settings until `finish`
-- borrows the cell and replays them on bdk_wallet's own builder. An `EsploraClient`
-- (src/bitcoin/esplora_client.rs) answers a wallet's request by an update that the wallet applies.
-- The functions of src/utils/descriptor.rs make descriptors and keys by those of
-- src/bitcoin/descriptor.rs. The values that pass between the two sides are the wrappers and enums
-- of src/types.
--
-- The files and the code:
--   Base        shared names, Boolean tests, results, panics, decimal numbers, and in Base/RefCell
--               the heap of cells that the wallets live in
--   Histories   what a sequence of setter calls leaves behind, for any setters
--   Bdk         the code that is not in the repository, as parameters: opaque types, the variants
--               that the crate's matches name, and one record of operations for each library part
--   Types       src/types and src/macros.rs: Wrapper, Network, Address, Amount, Keychain, Error,
--               Fee, Output, Transaction, Script, Psbt, Block, Chain, Event, TxDetails, LocalOutput,
--               Balance, CheckPoint and ChangeSet; WalletTx is of src/bitcoin/wallet_tx.rs; Wrappers
--               has the conversions that the source writes out; Conversions, Records and Panics have
--               proofs that are about several of these
--   TxBuilder   src/bitcoin/tx_builder.rs: the record `TxBuilder` and its constructors; Options has
--               the setters, Errors the error conversions, Finish the function `finish`, History
--               the histories of setter calls (in History/Canonical the short one that makes a
--               given builder), and Replay the list of calls on bdk_wallet's builder that a history
--               comes to
--   Wallet      src/bitcoin/wallet.rs: Create has the constructors, Read and Change the methods,
--               Errors the error conversions, SignOptions the options for signing, and Session
--               the sequences of calls on several wallets: Session/Perform runs them on the cells,
--               Session/Plain says what they do to wallets without cells, Session/Panics
--               follows these up to a panic, and Session/Isolation takes out the calls on one wallet;
--               Program is what JavaScript can do with any number of wallets and builders, step by
--               step, and Program/Calm the steps on which bdk_wallet does not panic
--   Descriptor  Templates and Slip10 are src/bitcoin/descriptor.rs, Exports is
--               src/utils/descriptor.rs
--   Esplora     src/bitcoin/esplora_client.rs: Client has the calls, Sleep the promise of a delay in an
--               event loop, Delay its length, and Workflow brings a wallet up to date by a client
--   ErrorCodes  what the error codes say, over all conversions
--   Tests       the theorems on a small stand-in for bdk_wallet
--
-- How state and operations correspond. A method of `Wallet` is a function of the handle, the
-- index of a cell, that takes a heap and gives the outcome and the new heap; a setter of `TxBuilder`
-- is a function of the record. A `Result` is `ok` or `err`, a panic is the outcome `panicked`, which
-- ends the program, since the compiled module aborts. A value of bdk_wallet that a method takes by
-- `&mut` is passed and returned. An enum that JavaScript gives as a string has the variant `invalid`
-- that wasm-bindgen makes of any other string. Fields keep their names but for `data`, which is
-- `data_bytes`.
--
-- Bounds and fuel. All functions are structural, so that none needs fuel. Numbers of Rust are
-- natural numbers where the code only passes them on or compares them; the wrap-around of `as i32`
-- is written out in Esplora/Delay. A hypothesis bounds a number by its Rust type where a proof
-- needs it.
--
-- What is assumed. The laws of a library (`IsLawful` in Bdk/Builder and Bdk/Chain) are arguments of
-- the theorems that need them: setting an option leaves the wallet alone that a builder borrows, a
-- push holds any data below 2 ^ 32 bytes, and a chain position answers by its variant. Two calls on
-- bdk_wallet panic on a number that is out of their range, and the crate passes any `u32` on:
-- `peek_address` on an index from 2 ^ 31 on, and the builder's `current_height`, which `finish` calls,
-- on a height from 500000000 on. Both are modelled with their panic; that they take the numbers below
-- is the argument `PeeksIndices` of Bdk/Wallet and `TakesHeights` of Bdk/Builder. Every other call of
-- a library is taken to return: the amounts that it adds up are taken not to exceed a `u64`. A
-- `JsFuture` is ready when its promise is settled (`IsPrompt` in Esplora/Sleep). The event loop is the
-- browser's: a timer runs in a turn that begins when it is due, and what the executor of a promise
-- throws rejects it.
--
-- Not modelled: how the client of bdk_esplora talks to its server (its answer is an argument), how a
-- future is woken, serde's reading of values, the strings that wasm-bindgen
-- generates for the enums, and the panic hook.
pub mod Base
pub mod Histories
pub mod Bdk
pub mod Types
pub mod TxBuilder
pub mod Wallet
pub mod Descriptor
pub mod Esplora
pub mod ErrorCodes
pub mod Tests
