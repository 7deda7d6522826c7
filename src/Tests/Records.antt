-- ===== src/Tests/Records.antt =====
-- Addresses and transaction records of the stand-in.
use text.Mathlib.Text.{◌==◌}
use bdk_wasm.Base.{◌≡◌, ◌↔◌, ◌⊎◌, String, none, some, [], ◌∷◌, map, map_option, ok, err}
use bdk_wasm.Base.{if◌then◌else◌}
use bdk_wasm.Base.Int.{ℤ}
use bdk_wasm.Bdk.Kinds.{BdkNetwork, BdkAddressType}
use bdk_wasm.Bdk.Errors.{ParseError}
use bdk_wasm.Bdk.Chain.{BdkChainPosition}
use bdk_wasm.Bdk.Addresses.{AddressLib}
use bdk_wasm.Bdk.Transactions.{BdkWalletTx, BdkTxDetails}
use bdk_wasm.Types.Wrapper.{wrap, into_inner}
use bdk_wasm.Types.Network.{Network, network_into_bdk}
use bdk_wasm.Types.Error.{BdkError}
use bdk_wasm.Types.Address.{from_parse_error}
use bdk_wasm.Types.Address.Methods.{address_from_string}
use bdk_wasm.Types.Address.Parsing.{address_from_string-steps}
use bdk_wasm.Types.WalletTx.{
  wallet_tx_from_bdk, wallet_tx_txid, wallet_tx_tx, wallet_tx_anchors, wallet_tx_last_seen,
  wallet_tx_first_seen, wallet_tx_chain_position,
}
use bdk_wasm.Types.TxDetails.{
  details_from_bdk, details_txid, details_sent, details_received, details_fee, details_fee_rate,
  details_balance_delta_sat, details_chain_position, details_tx,
}
use bdk_wasm.Types.Records.{records_read_back}
use bdk_wasm.Tests.Samples.{types, host}

-- Addresses are texts, and those of test networks begin as they do.
abbrev pub addresses : AddressLib types
addresses = record {
  Unchecked = String;
  Address = String;
  from_str = λ text. if text == "" then err (ParseError.bech32 "empty") else ok text;
  require_network = λ text network. elim network [
    | BdkNetwork.bitcoin ↦ ok text
    | _ ↦ err (ParseError.network_validation "mainnet address")
  ];
  from_script = λ script _. ok script;
  to_string = λ a. a;
  script_pubkey = λ a. a;
  address_type = λ _. some BdkAddressType.p2tr;
}

address_from_string-steps_example :
    ((a : String)
      → (address_from_string host addresses "bc1" Network.signet ≡ ok (wrap a)) ↔ (
          (u : String) × (addresses.from_str "bc1" ≡ ok u)
          × (addresses.require_network u BdkNetwork.signet ≡ ok a)))
    × ((e : BdkError types)
        → (address_from_string host addresses "bc1" Network.signet ≡ err e) ↔ (
            (p : ParseError types) × (from_parse_error host p ≡ e)
            × ((addresses.from_str "bc1" ≡ err p)
                ⊎ ((u : String) × (addresses.from_str "bc1" ≡ ok u)
                    × (addresses.require_network u BdkNetwork.signet ≡ err p)))))
unfolding network_into_bdk
address_from_string-steps_example = address_from_string-steps host addresses "bc1" Network.signet

abbrev wallet_tx : BdkWalletTx types
wallet_tx = record {
  tx_node = record {
    txid = 3;
    tx = "tx";
    anchors = record { block_id = record { height = 9; hash = "h" }; confirmation_time = 60 } ∷ [];
    last_seen = some 50;
    first_seen = none;
  };
  chain_position = BdkChainPosition.unconfirmed none (some 50);
}

abbrev tx_details : BdkTxDetails types
tx_details = record {
  txid = 3;
  sent = 700;
  received = 500;
  fee = some 10;
  fee_rate = none;
  balance_delta = ℤ.negsuc 199;
  chain_position = BdkChainPosition.unconfirmed none (some 50);
  tx = "tx";
}

records_read_back_example :
    (record {
      tx_node = record {
        txid = into_inner (wallet_tx_txid (wallet_tx_from_bdk wallet_tx));
        tx = into_inner (wallet_tx_tx (wallet_tx_from_bdk wallet_tx));
        anchors = map into_inner (wallet_tx_anchors (wallet_tx_from_bdk wallet_tx));
        last_seen = wallet_tx_last_seen (wallet_tx_from_bdk wallet_tx);
        first_seen = wallet_tx_first_seen (wallet_tx_from_bdk wallet_tx);
      };
      chain_position = into_inner (wallet_tx_chain_position (wallet_tx_from_bdk wallet_tx));
    }
      ≡ wallet_tx)
    × (record {
      txid = into_inner (details_txid (details_from_bdk tx_details));
      sent = into_inner (details_sent (details_from_bdk tx_details));
      received = into_inner (details_received (details_from_bdk tx_details));
      fee = map_option into_inner (details_fee (details_from_bdk tx_details));
      fee_rate = map_option into_inner (details_fee_rate (details_from_bdk tx_details));
      balance_delta = details_balance_delta_sat (details_from_bdk tx_details);
      chain_position = into_inner (details_chain_position (details_from_bdk tx_details));
      tx = into_inner (details_tx (details_from_bdk tx_details));
    }
        ≡ tx_details)
records_read_back_example = records_read_back wallet_tx tx_details
