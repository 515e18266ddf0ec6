-- ===== src/Keyd/Signer/Btc/Tests.antt =====
-- The signer on one EVM and one Bitcoin payload.
use izan_wallet.Base.{
  ◌≢◌, ◌⊎◌, ◌+◌, ◌%◌, ◌≡◌, ◌<◌, ◌≤◌, refl, List, [], ◌∷◌, length, replicate, ok, fault, arith, All,
}
use izan_wallet.Base.Bytes.{Bytes, text, beq, le_value}
use izan_wallet.Keyd.Presets.{DerivePreset, preset_family, is_btc}
use izan_wallet.Keyd.Crypto.{TxPlan, Witness}
use izan_wallet.Keyd.Signer.{
  labelled_ed25519, ed25519_key_label, sign_with_raw, account_address, btc_preset_address,
}
use izan_wallet.Keyd.Signer.Toy.{evm_signed, evm_signs, toy_crypto, key_wallet}
use izan_wallet.Keyd.Signer.Der.{der_content, be_value, IsMinimal, der_content_correct}
use izan_wallet.Keyd.Signer.Identity.{sign_payload-signer}
use izan_wallet.Keyd.Signer.Btc.{
  BtcSignedTx, u64_mod, spend_of, read_plan, subspan4, put_values, sum_inputs, judge_outputs, judge,
  import_spend_key, spend_key, spend_public, sign_ecdsa, sign_input, sign_inputs, sign_btc_payload,
}
use izan_wallet.Keyd.Signer.Btc.Account.{sign_btc_payload-signer}
use izan_wallet.Keyd.Signer.Btc.Whitelist.{
  Nameable, Pays, total_in, total_out, sign_btc_payload-whitelist,
}
use izan_wallet.Keyd.Signer.Btc.Bounds.{sign_btc_payload-fault}

sign_payload-signer_example :
    account_address toy_crypto key_wallet 0 DerivePreset.meta_mask ≡ ok (41 ∷ [])
sign_payload-signer_example =
    sign_payload-signer toy_crypto key_wallet (2 ∷ []) 0 DerivePreset.meta_mask evm_signed evm_signs

-- A skeleton of one byte, and the value 1000 of the one input.
abbrev btc_payload : Bytes
btc_payload = 1 ∷ 0 ∷ 0 ∷ 0 ∷ 5 ∷ 232 ∷ 3 ∷ 0 ∷ 0 ∷ 0 ∷ 0 ∷ 0 ∷ 0 ∷ []

abbrev btc_signed : BtcSignedTx
btc_signed = record {
  tx = 1 ∷ [];
  txid = replicate 32 10;
  digest = replicate 32 4;
  signer = 42 ∷ [];
  fee = 100;
}

btc_signs :
    sign_btc_payload toy_crypto
      (λ i. replicate 32 i)
      key_wallet
      btc_payload
      0
      DerivePreset.btc_segwit
    ≡ ok btc_signed
unfolding sign_btc_payload read_plan subspan4 put_values spend_key import_spend_key spend_public
    btc_preset_address judge judge_outputs sum_inputs sign_inputs sign_input sign_ecdsa
    sign_with_raw labelled_ed25519 ed25519_key_label preset_family is_btc text beq le_value
btc_signs = refl

abbrev small : Bytes
small = 0 ∷ 200 ∷ []

der_content_correct_example :
    (be_value 0 (der_content small) ≡ be_value 0 small)
    × IsMinimal (der_content small)
    × (length (der_content small) ≤ length small + 1)
der_content_correct_example = der_content_correct 0 (200 ∷ [])

sign_btc_payload-signer_example :
    account_address toy_crypto key_wallet 0 DerivePreset.btc_segwit ≡ ok (42 ∷ [])
sign_btc_payload-signer_example =
    sign_btc_payload-signer toy_crypto (λ i. replicate 32 i) key_wallet btc_payload 0
      DerivePreset.btc_segwit btc_signed (refl, tt) btc_signs

sign_btc_payload-whitelist_example :
    (plan : TxPlan) × (witnesses : List Witness) × (read_plan toy_crypto.parse_skeleton btc_payload
      ≡ ok plan)
    × (length plan.outputs ≤ 2)
    × All
        (Nameable toy_crypto.address_for_script (toy_crypto.script_for_address btc_signed.signer))
        plan.outputs
    × ((length plan.outputs ≢ 2)
        ⊎ Pays (toy_crypto.script_for_address btc_signed.signer) plan.outputs)
    × (0 < btc_signed.fee)
    × (btc_signed.fee + total_out plan.outputs % u64_mod ≡ total_in plan.inputs % u64_mod)
    × (btc_signed.tx
        ≡ toy_crypto.assemble_tx
            (record plan { spend = spend_of DerivePreset.btc_segwit })
            witnesses)
    × (length witnesses ≡ length plan.inputs)
sign_btc_payload-whitelist_example =
    sign_btc_payload-whitelist toy_crypto (λ i. replicate 32 i) key_wallet btc_payload 0
      DerivePreset.btc_segwit btc_signed btc_signs

-- The length field is 2 ^ 32 - 1.
sign_btc_payload-fault_example :
    sign_btc_payload toy_crypto
      (λ i. [])
      key_wallet
      (255 ∷ 255 ∷ 255 ∷ 255 ∷ [])
      0
      DerivePreset.btc_segwit
    ≡ fault
unfolding preset_family is_btc le_value
sign_btc_payload-fault_example =
    sign_btc_payload-fault toy_crypto (λ i. []) key_wallet (255 ∷ 255 ∷ 255 ∷ 255 ∷ []) 0
      DerivePreset.btc_segwit refl (omega arith) (omega arith) (omega arith) (omega arith)
