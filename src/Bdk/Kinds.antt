-- ===== src/Bdk/Kinds.antt =====
-- The enums of bdk_wallet and bitcoin that the crate converts. `other` stands for the variants that
-- only a catch-all arm of a match reaches.

pub data BdkNetwork : Type 0 where
  bitcoin testnet testnet4 signet regtest other : BdkNetwork

pub data BdkNetworkKind : Type 0 where
  main test : BdkNetworkKind

pub data BdkAddressType : Type 0 where
  p2pkh p2sh p2wpkh p2wsh p2tr other : BdkAddressType

pub data BdkDenomination : Type 0 where
  bitcoin centi_bitcoin milli_bitcoin micro_bitcoin nano_bitcoin pico_bitcoin : BdkDenomination
  bit satoshi milli_satoshi other : BdkDenomination

pub data BdkKeychainKind : Type 0 where
  external internal : BdkKeychainKind

pub data BdkTxOrdering : Type 0 where
  shuffle untouched other : BdkTxOrdering

pub data BdkChangeSpendPolicy : Type 0 where
  change_allowed only_change change_forbidden : BdkChangeSpendPolicy
