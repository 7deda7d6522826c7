-- ===== src/Types/Conversions.antt =====
-- The conversions of the exported enums and of the builder's ordering, in both directions.
use bdk_wasm.Base.{◌≡◌, ◌↔◌, ◌⊎◌, returned, arith}
use bdk_wasm.Bdk.Kinds.{BdkAddressType, BdkDenomination, BdkKeychainKind, BdkTxOrdering}
use bdk_wasm.Types.Address.{AddressType, address_type_from_bdk, address_type_into_bdk}
use bdk_wasm.Types.Amount.{Denomination, denomination_from_bdk, denomination_into_bdk}
use bdk_wasm.Types.Keychain.{KeychainKind, keychain_from_bdk, keychain_into_bdk}
use bdk_wasm.TxBuilder.{TxOrdering, ordering_from_bdk, ordering_into_bdk}

-- For address types, denominations and orderings the two conversions are converse to each other:
-- one leads from a value to another exactly when the other leads back, so that they lose nothing
-- and panic just on the values that the other side has no name for. So it is for keychains, but
-- that an unknown keychain is taken for the external one.
pub conversions_converse :
    ((a : AddressType) (b : BdkAddressType)
      → (address_type_into_bdk a ≡ returned b) ↔ (address_type_from_bdk b ≡ returned a))
    × ((a : Denomination) (b : BdkDenomination)
        → (denomination_into_bdk a ≡ returned b) ↔ (denomination_from_bdk b ≡ returned a))
    × ((a : TxOrdering) (b : BdkTxOrdering)
        → (ordering_into_bdk a ≡ b) ↔ (ordering_from_bdk b ≡ returned a))
    × ((a : KeychainKind) (b : BdkKeychainKind)
        → (keychain_into_bdk a ≡ b) ↔ (
            (keychain_from_bdk b ≡ a)
            ⊎ (a ≡ KeychainKind.invalid) × (b ≡ BdkKeychainKind.external)))
unfolding address_type_into_bdk address_type_from_bdk denomination_into_bdk denomination_from_bdk
    ordering_into_bdk ordering_from_bdk keychain_into_bdk keychain_from_bdk
conversions_converse =
    (λ a b. ground arith, λ a b. ground arith, λ a b. ground arith, λ a b. ground arith)
