-- ===== src/Esplora/Client.antt =====
-- `EsploraClient`, and the conversions of an answer into an `Update` of src/types/chain.rs.
use bdk_wasm.Base.{ℕ, String, Option, map_option}
use bdk_wasm.Base.Results.{JsResult, js_error, map_ok}
use bdk_wasm.Bdk.Opaque.{BdkTypes}
use bdk_wasm.Bdk.Builder.{BuilderLib}
use bdk_wasm.Bdk.Wallet.{WalletLib}
use bdk_wasm.Bdk.Esplora.{EsploraLib}
use bdk_wasm.Types.Wrapper.{Wrapper, wrap, deref, into_inner}
use bdk_wasm.Types.Fee.{FeeEstimates}
use bdk_wasm.Types.Output.{Txid}
use bdk_wasm.Types.Event.{Transaction}

module _ {T : BdkTypes} {L : BuilderLib T} {V : WalletLib L} {F : Type 0} (E : EsploraLib V F) where
  pub record EsploraClient : Type 0 where
    pub client : E.AsyncClient

  -- What an asynchronous method returns in the end, with the world after it.
  abbrev pub Awaits : Type 0 → Type 0
  Awaits A = E.World → JsResult A × E.World

  -- `EsploraClient::new`
  unfoldable pub client_new : String → ℕ → JsResult EsploraClient
  client_new url max_retries =
      map_ok (λ c. record { client = c })
        (js_error (E.build_async_with_sleeper (E.max_retries max_retries (E.builder url))))

  -- `From<BdkFullScanResponse<KeychainKind>> for Update`
  unfoldable pub update_from_full_scan : E.FullScanResponse → Wrapper V.Update
  update_from_full_scan result = wrap (E.full_scan_update result)

  -- `From<BdkSyncResponse> for Update`
  unfoldable pub update_from_sync : E.SyncResponse → Wrapper V.Update
  update_from_sync result = wrap (E.sync_update result)

  -- `EsploraClient::full_scan`
  unfoldable pub full_scan :
      EsploraClient → Wrapper V.FullScanRequest → ℕ → ℕ → Awaits (Wrapper V.Update)
  unfolding update_from_full_scan
  full_scan c request stop_gap parallel_requests world =
      let (r, after) = E.full_scan c.client (into_inner request) stop_gap parallel_requests world in
      (map_ok update_from_full_scan (js_error r), after)

  -- `EsploraClient::sync`
  unfoldable pub sync : EsploraClient → Wrapper V.SyncRequest → ℕ → Awaits (Wrapper V.Update)
  unfolding update_from_sync
  sync c request parallel_requests world =
      let (r, after) = E.sync c.client (into_inner request) parallel_requests world in
      (map_ok update_from_sync (js_error r), after)

  -- `EsploraClient::broadcast`
  unfoldable pub broadcast : EsploraClient → Transaction T → Awaits (Unit {0})
  broadcast c transaction world =
      let (r, after) = E.broadcast c.client (deref transaction) world in (js_error r, after)

  -- `EsploraClient::get_fee_estimates`
  unfoldable pub get_fee_estimates : EsploraClient → Awaits (FeeEstimates F)
  get_fee_estimates c world =
      let (r, after) = E.get_fee_estimates c.client world in (js_error r, after)

  -- `EsploraClient::get_tx`
  unfoldable pub get_tx : EsploraClient → Txid T → Awaits (Option (Transaction T))
  get_tx c txid world =
      let (r, after) = E.get_tx c.client (into_inner txid) world in
      (map_ok (map_option wrap) (js_error r), after)
