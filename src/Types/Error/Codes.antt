-- ===== src/Types/Error/Codes.antt =====
-- The numbers that a code is seen as in JavaScript, and the sections of the enum that its comments
-- mark.
use bdk_wasm.Base.{ℕ, ◌≤◌, ◌<◌}
use bdk_wasm.Types.Error.{BdkErrorCode}

-- A C-like enum is exported by its discriminants, which count from 0.
unfoldable pub discriminant : BdkErrorCode → ℕ
discriminant BdkErrorCode.descriptor = 0
discriminant BdkErrorCode.policy = 1
discriminant BdkErrorCode.spending_policy_required = 2
discriminant BdkErrorCode.version0 = 3
discriminant BdkErrorCode.version1_csv = 4
discriminant BdkErrorCode.lock_time = 5
discriminant BdkErrorCode.rbf_sequence_csv = 6
discriminant BdkErrorCode.fee_too_low = 7
discriminant BdkErrorCode.fee_rate_too_low = 8
discriminant BdkErrorCode.no_utxos_selected = 9
discriminant BdkErrorCode.output_below_dust_limit = 10
discriminant BdkErrorCode.insufficient_funds = 11
discriminant BdkErrorCode.no_recipients = 12
discriminant BdkErrorCode.psbt = 13
discriminant BdkErrorCode.missing_key_origin = 14
discriminant BdkErrorCode.unknown_utxo = 15
discriminant BdkErrorCode.missing_non_witness_utxo = 16
discriminant BdkErrorCode.miniscript_psbt = 17
discriminant BdkErrorCode.transaction_not_found = 18
discriminant BdkErrorCode.transaction_confirmed = 19
discriminant BdkErrorCode.irreplaceable_transaction = 20
discriminant BdkErrorCode.fee_rate_unavailable = 21
discriminant BdkErrorCode.invalid_output_index = 22
discriminant BdkErrorCode.base58 = 23
discriminant BdkErrorCode.bech32 = 24
discriminant BdkErrorCode.witness_version = 25
discriminant BdkErrorCode.witness_program = 26
discriminant BdkErrorCode.unknown_hrp = 27
discriminant BdkErrorCode.legacy_address_too_long = 28
discriminant BdkErrorCode.invalid_base58_payload_length = 29
discriminant BdkErrorCode.invalid_legacy_prefix = 30
discriminant BdkErrorCode.network_validation = 31
discriminant BdkErrorCode.out_of_range = 32
discriminant BdkErrorCode.too_precise = 33
discriminant BdkErrorCode.missing_digits = 34
discriminant BdkErrorCode.input_too_large = 35
discriminant BdkErrorCode.invalid_character = 36
discriminant BdkErrorCode.cannot_connect = 37
discriminant BdkErrorCode.unexpected_connected_to_hash = 38
discriminant BdkErrorCode.unexpected = 39

-- The sections, under the headings of the enum.
abbrev pub IsTransactionCode : BdkErrorCode → Type 0
IsTransactionCode c = discriminant c < 18

abbrev pub IsFeeBumpCode : BdkErrorCode → Type 0
IsFeeBumpCode c = (18 ≤ discriminant c) × (discriminant c < 23)

abbrev pub IsAddressCode : BdkErrorCode → Type 0
IsAddressCode c = (23 ≤ discriminant c) × (discriminant c < 32)

abbrev pub IsAmountCode : BdkErrorCode → Type 0
IsAmountCode c = (32 ≤ discriminant c) × (discriminant c < 37)

abbrev pub IsBlockCode : BdkErrorCode → Type 0
IsBlockCode c = (37 ≤ discriminant c) × (discriminant c < 39)
