-- ===== src/Keyd/Signer/Btc/Whitelist.antt =====
-- What a signed Bitcoin transaction pays, and to whom.
use izan_wallet.Base.{
  ◌≢◌, inl, inr, Bool-cases, ◌==◌, ℕ, ◌+◌, ◌%◌, ◌≤◌, ◌<◌, ◌≡◌, ◌⊎◌, inl, inr, refl, Bool, true,
  false, ◌||◌, List, [], ◌∷◌, ltb, length, All, ok, throw_if, arith, >>=-eq-ok,
}
use izan_wallet.Base.Bytes.{Bytes, text, beq, beq→eq}
use izan_wallet.Vault.Payload.{Wallet}
use izan_wallet.Keyd.Presets.{DerivePreset}
use izan_wallet.Keyd.Crypto.{TxInput, TxOutput, TxPlan, Witness, Crypto}
use izan_wallet.Keyd.Signer.{is_empty}
use izan_wallet.Keyd.Signer.Btc.Account.{sign_btc_payload-inv}
use izan_wallet.Keyd.Signer.Btc.{
  BtcSignedTx, SpendKey, read_plan, judge, judge_outputs, sum_inputs, u64_mod, spend_of, sign_input,
  sign_inputs, sign_btc_payload,
}

-- The sums without a bound.
abbrev pub total_in : List TxInput → ℕ
total_in [] = 0
total_in (i ∷ is) = i.value + total_in is

abbrev pub total_out : List TxOutput → ℕ
total_out [] = 0
total_out (o ∷ os) = o.value + total_out os

-- One of the outputs has the script `own`.
abbrev pub Pays : Bytes → List TxOutput → Type 0
Pays own [] = ⊥
Pays own (o ∷ os) = (o.script ≡ own) ⊎ Pays own os

sum_inputs-total_in :
    (acc : ℕ) (is : List TxInput)
    → acc < u64_mod
    → sum_inputs acc is ≡ (acc + total_in is) % u64_mod
unfolding sum_inputs
sum_inputs-total_in acc [] h = omega arith
sum_inputs-total_in acc (i ∷ is) h =
    omega (arith, sum_inputs-total_in ((acc + i.value) % u64_mod) is (omega arith))

module _ (address_for_script : Bytes → Bytes) (own : Bytes) where
  abbrev pub Nameable : TxOutput → Type 0
  Nameable o = is_empty (address_for_script o.script) ≡ false

  judge_outputs-ok :
      (os : List TxOutput) (t : ℕ) (seen : Bool) (t' : ℕ) (seen' : Bool)
      → t < u64_mod
      → judge_outputs address_for_script own os (t, seen) ≡ ok (t', seen')
      → All Nameable os
        × (t' ≡ (t + total_out os) % u64_mod)
        × (seen' ≡ true → (seen ≡ true) ⊎ Pays own os)
  unfolding judge_outputs
  judge_outputs-ok [] t seen t' seen' b h = (tt, ground arith, λ s. inl (ground arith))
  judge_outputs-ok (o ∷ os) t seen t' seen' b h =
      let (names, total, paid) =
        judge_outputs-ok os ((t + o.value) % u64_mod) (seen || beq o.script own) t' seen'
          (omega arith) (ground arith) in
      (
        (ground arith, names),
        omega (arith, total),
        λ s. elim (paid s) [ inl e ↦ own_first seen o os e | inr p ↦ inr (inr p) ],
      )
    where
      own_first :
          (seen : Bool) (o : TxOutput) (os : List TxOutput)
          → (seen || beq o.script own) ≡ true
          → (seen ≡ true) ⊎ Pays own (o ∷ os)
      own_first true o os e = inl refl
      own_first false o os e = inr (inl (beq→eq o.script own e))

  pub judge-ok :
      (plan : TxPlan) (fee : ℕ)
      → judge address_for_script own plan ≡ ok fee
      → (length plan.outputs ≤ 2)
        × All Nameable plan.outputs
        × (length plan.outputs ≡ 2 → Pays own plan.outputs)
        × (0 < fee)
        × (fee + total_out plan.outputs % u64_mod ≡ total_in plan.inputs % u64_mod)
  unfolding judge
  judge-ok plan fee h =
      let (u, few, h1) =
        >>=-eq-ok (throw_if (ltb 2 (length plan.outputs)) (text "signer: too many outputs to read"))
          _ h in
      let (r, read, h2) =
        >>=-eq-ok (judge_outputs address_for_script own plan.outputs (0, false)) _ h1 in
      let (names, total, paid) = judge_outputs-ok plan.outputs 0 false r.0 r.1 (omega arith) read in
      let sum = sum_inputs-total_in 0 plan.inputs (omega arith) in
      (ground arith, names, λ two. change r.1 (ground arith) paid, ground arith, ground arith)
    where
      change :
          (seen : Bool)
          → seen ≡ true
          → (seen ≡ true → (false ≡ true) ⊎ Pays own plan.outputs)
          → Pays own plan.outputs
      change seen e f = elim (f e) [ inl q ↦ absurd (ground arith) | inr p ↦ p ]

module _ {Hd : Type 0} (c : Crypto Hd) where
  length-sign_inputs :
      (key : SpendKey Hd) (plan : TxPlan) (own public h160 : Bytes) (aux : ℕ → Bytes) (i : ℕ)
      (is : List TxInput) (ws : List Witness)
      → sign_inputs c key plan own public h160 aux i is ≡ ok ws
      → length ws ≡ length is
  unfolding sign_inputs
  length-sign_inputs key plan own public h160 aux i [] ws h = ground arith
  length-sign_inputs key plan own public h160 aux i (x ∷ is) ws h =
      let (w, e1, h1) =
        >>=-eq-ok (sign_input c plan.spend key plan own public h160 (aux i) i) _ h in
      let (rest, e2, h2) = >>=-eq-ok (sign_inputs c key plan own public h160 aux (i + 1) is) _ h1 in
      ground (arith, length-sign_inputs key plan own public h160 aux (i + 1) is rest e2)

  -- A Bitcoin transaction is signed only if the plan that its payload holds has two outputs at most,
  -- an address names each of them, one of two pays the signer itself, and the fee, what the inputs
  -- hold more than the outputs in uint64_t, is positive. It carries one witness for each input.
  pub sign_btc_payload-whitelist :
      (aux : ℕ → Bytes) (w : Wallet) (payload : Bytes) (account : ℕ) (preset : DerivePreset)
      (s : BtcSignedTx)
      → sign_btc_payload c aux w payload account preset ≡ ok s
      → (plan : TxPlan) × (witnesses : List Witness) × (read_plan c.parse_skeleton payload
          ≡ ok plan)
        × (length plan.outputs ≤ 2)
        × All (Nameable c.address_for_script (c.script_for_address s.signer)) plan.outputs
        × ((length plan.outputs ≢ 2) ⊎ Pays (c.script_for_address s.signer) plan.outputs)
        × (0 < s.fee)
        × (s.fee + total_out plan.outputs % u64_mod ≡ total_in plan.inputs % u64_mod)
        × (s.tx ≡ c.assemble_tx (record plan { spend = spend_of preset }) witnesses)
        × (length witnesses ≡ length plan.inputs)
  sign_btc_payload-whitelist aux w payload account preset s h =
      let (
        plan, key, signer, fee, witnesses, e, read, k, a, judged, signed, same, paid, assembled,
      ) =
        sign_btc_payload-inv c aux w payload account preset s h in
      let (few, names, change, positive, sum) =
        judge-ok c.address_for_script (c.script_for_address signer) plan fee judged in
      (
        plan,
        witnesses,
        read,
        few,
        names,
        elim (Bool-cases (length plan.outputs == 2)) [
          | inl e ↦ inr (rw same (change (ground arith)))
          | inr e ↦ inl (λ h. ground arith)
        ],
        rw paid positive,
        rw paid sum,
        assembled,
        length-sign_inputs key _ _ _ _ aux 0 plan.inputs witnesses signed,
      )
