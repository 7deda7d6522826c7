-- ===== src/Bdk/Esplora.antt =====
-- The asynchronous client of bdk_esplora, as an interface. `World` is the server and the network as
-- the client finds them: a call takes the world as it is and leaves it changed. An error is given by
-- its text. `F` is `f64`.
use bdk_wasm.Base.{ℕ, String, Option, List, Result}
use bdk_wasm.Bdk.Opaque.{BdkTypes}
use bdk_wasm.Bdk.Builder.{BuilderLib}
use bdk_wasm.Bdk.Wallet.{WalletLib}

pub record EsploraLib {T : BdkTypes} {L : BuilderLib T} (V : WalletLib L) (F : Type 0)
    : Type 1 where
  pub World : Type 0
  pub Builder : Type 0
  pub AsyncClient : Type 0
  pub FullScanResponse : Type 0
  pub SyncResponse : Type 0
  pub builder : String → Builder
  pub max_retries : ℕ → Builder → Builder
  pub build_async_with_sleeper : Builder → Result String AsyncClient
  pub full_scan :
      AsyncClient → V.FullScanRequest → ℕ → ℕ → World → Result String FullScanResponse × World
  pub sync : AsyncClient → V.SyncRequest → ℕ → World → Result String SyncResponse × World
  pub broadcast : AsyncClient → T.Transaction → World → Result String (Unit {0}) × World
  pub get_fee_estimates : AsyncClient → World → Result String (List (ℕ × F)) × World
  pub get_tx : AsyncClient → T.Txid → World → Result String (Option T.Transaction) × World
  -- bdk_wallet's own conversions of an answer.
  pub full_scan_update : FullScanResponse → V.Update
  pub sync_update : SyncResponse → V.Update
