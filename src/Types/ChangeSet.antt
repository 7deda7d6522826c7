-- ===== src/Types/ChangeSet.antt =====
-- src/types/changeset.rs: change sets of the wallet.
use bdk_wasm.Base.{String, Bool, ok, err, Outcome, returned, panicked}
use bdk_wasm.Base.Results.{JsResult, js_error, map_ok}
use bdk_wasm.Bdk.Values.{ChangeSetLib}
use bdk_wasm.Types.Wrapper.{Wrapper, wrap, deref, into_inner}

module _ (L : ChangeSetLib) where
  abbrev pub ChangeSet : Type 0
  ChangeSet = Wrapper L.ChangeSet

module _ (L : ChangeSetLib) where
  -- `ChangeSet::merge`, with what it leaves in `self`
  unfoldable pub changeset_merge : ChangeSet L → ChangeSet L → ChangeSet L
  changeset_merge c other = wrap (L.merge (deref c) (into_inner other))

  -- `ChangeSet::is_empty`
  unfoldable pub changeset_is_empty : ChangeSet L → Bool
  changeset_is_empty c = L.is_empty (deref c)

  -- `ChangeSet::to_json`
  unfoldable pub changeset_to_json : ChangeSet L → Outcome String
  changeset_to_json c = elim (L.to_json (deref c)) [
    | ok text ↦ returned text
    | err _ ↦ panicked "Serialization should not fail"
  ]

  -- `ChangeSet::from_json`
  unfoldable pub changeset_from_json : String → JsResult (ChangeSet L)
  changeset_from_json text = map_ok wrap (js_error (L.from_json text))
