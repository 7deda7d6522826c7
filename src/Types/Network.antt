-- ===== src/Types/Network.antt =====
-- src/types/network.rs: the network enums and the conversions between them and the library's.
-- `invalid` is the variant that wasm-bindgen adds to an enum of strings for a string that is none
-- of them; the `_` arms of the conversions out of such an enum take it.
pub mod Laws
use bdk_wasm.Bdk.Kinds.{BdkNetwork, BdkNetworkKind}

pub data NetworkKind : Type 0 where
  main test invalid : NetworkKind

pub data Network : Type 0 where
  bitcoin testnet testnet4 signet regtest invalid : Network

-- `From<BdkNetworkKind> for NetworkKind`
unfoldable pub kind_from_bdk : BdkNetworkKind → NetworkKind
kind_from_bdk BdkNetworkKind.main = NetworkKind.main
kind_from_bdk _ = NetworkKind.test

-- `From<NetworkKind> for BdkNetworkKind`
unfoldable pub kind_into_bdk : NetworkKind → BdkNetworkKind
kind_into_bdk NetworkKind.main = BdkNetworkKind.main
kind_into_bdk _ = BdkNetworkKind.test

-- `From<BdkNetwork> for NetworkKind`
unfoldable pub kind_of_bdk_network : BdkNetwork → NetworkKind
kind_of_bdk_network BdkNetwork.bitcoin = NetworkKind.main
kind_of_bdk_network _ = NetworkKind.test

-- `From<BdkNetwork> for Network`
unfoldable pub network_from_bdk : BdkNetwork → Network
network_from_bdk BdkNetwork.testnet = Network.testnet
network_from_bdk BdkNetwork.testnet4 = Network.testnet4
network_from_bdk BdkNetwork.signet = Network.signet
network_from_bdk BdkNetwork.regtest = Network.regtest
network_from_bdk _ = Network.bitcoin

-- `From<Network> for BdkNetwork`
unfoldable pub network_into_bdk : Network → BdkNetwork
network_into_bdk Network.testnet = BdkNetwork.testnet
network_into_bdk Network.testnet4 = BdkNetwork.testnet4
network_into_bdk Network.signet = BdkNetwork.signet
network_into_bdk Network.regtest = BdkNetwork.regtest
network_into_bdk _ = BdkNetwork.bitcoin

-- `From<Network> for BdkNetworkKind`
unfoldable pub bdk_kind_of_network : Network → BdkNetworkKind
bdk_kind_of_network Network.bitcoin = BdkNetworkKind.main
bdk_kind_of_network _ = BdkNetworkKind.test
