-- ===== src/Types/Balance.antt =====
-- src/types/balance.rs: the wallet's balance.
use bdk_wasm.Bdk.Values.{BdkBalance, BalanceLib}
use bdk_wasm.Bdk.Opaque.{BdkTypes}
use bdk_wasm.Types.Wrapper.{Wrapper, wrap, deref}
use bdk_wasm.Types.Amount.{Amount}

abbrev pub Balance : BdkTypes → Type 0
Balance T = Wrapper (BdkBalance T)

module _ {T : BdkTypes} where
  -- `Balance::immature`
  unfoldable pub balance_immature : Balance T → Amount T
  balance_immature b = wrap (deref b).immature

  -- `Balance::trusted_pending`
  unfoldable pub balance_trusted_pending : Balance T → Amount T
  balance_trusted_pending b = wrap (deref b).trusted_pending

  -- `Balance::untrusted_pending`
  unfoldable pub balance_untrusted_pending : Balance T → Amount T
  balance_untrusted_pending b = wrap (deref b).untrusted_pending

  -- `Balance::confirmed`
  unfoldable pub balance_confirmed : Balance T → Amount T
  balance_confirmed b = wrap (deref b).confirmed

module _ {T : BdkTypes} (L : BalanceLib T) where
  -- `Balance::trusted_spendable`
  unfoldable pub balance_trusted_spendable : Balance T → Amount T
  balance_trusted_spendable b = wrap (L.trusted_spendable (deref b))

  -- `Balance::total`
  unfoldable pub balance_total : Balance T → Amount T
  balance_total b = wrap (L.total (deref b))
