-- ===== src/Types/Network/Laws.antt =====
-- The network conversions lose nothing between the named networks, and agree on their kind.
use bdk_wasm.Base.{◌≡◌, ◌≢◌, ◌↔◌, arith}
use bdk_wasm.Bdk.Kinds.{BdkNetwork}
use bdk_wasm.Types.Network.{Network}
use bdk_wasm.Types.Network.{kind_into_bdk, kind_of_bdk_network}
use bdk_wasm.Types.Network.{network_from_bdk, network_into_bdk, bdk_kind_of_network}

-- Each way round, a network survives the two conversions exactly when it is one of the five that
-- both sides name.
pub network-round_trip :
    ((n : Network) → (network_from_bdk (network_into_bdk n) ≡ n) ↔ (n ≢ Network.invalid))
    × ((b : BdkNetwork) → (network_into_bdk (network_from_bdk b) ≡ b) ↔ (b ≢ BdkNetwork.other))
unfolding network_from_bdk network_into_bdk
network-round_trip = (λ n. ground arith, λ b. ground arith)

-- The kind of a network computed directly is the kind of its conversion, for exactly the networks
-- that are valid: for an invalid one the two routes give a test network and mainnet.
pub network-kind_agrees :
    (n : Network)
    → (kind_into_bdk (kind_of_bdk_network (network_into_bdk n)) ≡ bdk_kind_of_network n)
      ↔ (n ≢ Network.invalid)
unfolding kind_into_bdk kind_of_bdk_network network_into_bdk bdk_kind_of_network
network-kind_agrees n = ground arith
