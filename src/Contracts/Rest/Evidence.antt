-- ===== src/Contracts/Rest/Evidence.antt =====
-- src/Contracts.cpp, validate_rest_contract: what its evidence says.
use test_exchanges_helper.Base.{
  ◌≡◌, inl, inr, refl, sym, ◌∙◌, Bool, true, false, not, ◌&&◌, List, [], ◌∷◌, Option, none, some,
  Bytes, String, codes, is_empty, length, if◌then◌else◌, Bool-cases, arith,
}
use test_exchanges_helper.Json.{Value, object, Fields}
use test_exchanges_helper.Contracts.Scalars.{member}
use test_exchanges_helper.Contracts.Envelope.{
  RestSpec, envelope_success, spec_for, is_private_contract,
}
use test_exchanges_helper.Contracts.Rest.{
  ContractEvidence, fresh_evidence, is_data_shape, is_tick_shape, is_ok, validate_htx_object,
  validate_htx, select_row, validate_row, validate_selected, validate_rows, validate_private,
  validate_spec, validate_rest_contract,
}
use test_exchanges_helper.Model.Outcomes.{RestContract, no_contract, htx_public_envelope}

-- `error.empty()`
unfoldable pub is_clear : String → Bool
is_clear String.[] = true
is_clear (String.◌∷◌ c s) = false

-- No error exactly with success, and success only with all that it rests on.
pub record IsConsistent (e : ContractEvidence) : Type 0 where
  pub clear : is_clear e.error ≡ e.schema_success
  pub grounded :
      e.schema_success ≡ true
      → (e.logical_success ≡ true) × (e.symbol_success ≡ true) × (e.missing_fields ≡ [])

-- Evidence that no branch has decided.
pub record IsPending (e : ContractEvidence) : Type 0 where
  pub no_success : e.schema_success ≡ false
  pub no_error : is_clear e.error ≡ true
  pub logical : e.logical_success ≡ true
  pub no_missing : e.missing_fields ≡ []

is_empty_nil : {A : Type 0} (xs : List A) → is_empty xs ≡ true → xs ≡ []
is_empty_nil [] h = refl
is_empty_nil (x ∷ xs) h = cc

error_choice :
    (b : Bool) (s t : String)
    → is_clear s ≡ true
    → is_clear t ≡ false
    → is_clear (if b then s else t) ≡ b
error_choice true s t h k = h
error_choice false s t h k = k

both : (a b : Bool) → (a && b) ≡ true → (a ≡ true) × (b ≡ true)
both a b h = ground arith

validate_row-IsConsistent :
    (c : RestContract) (spec : RestSpec) (e : ContractEvidence) (row : Fields) (s : Bytes)
    → IsPending e
    → IsConsistent (validate_row c spec e row s)
unfolding validate_row
validate_row-IsConsistent c spec e row s pending = record {
  clear = error_choice _ _ _ pending.no_error (unfold is_clear in refl);
  grounded = λ h. (pending.logical, (both _ _ h).0, is_empty_nil _ (both _ _ h).1);
}

-- Evidence that an error has decided.
failed :
    (e : ContractEvidence) (error : String)
    → e.schema_success ≡ false
    → is_clear error ≡ false
    → {units : String} → IsConsistent (record e { units = units; error = error })
failed e error h k {units} = record { clear = k ∙ sym h; grounded = λ success. cc }

validate_selected-IsConsistent :
    (c : RestContract) (spec : RestSpec) (e : ContractEvidence) (row : Option Fields) (s : Bytes)
    → IsPending e
    → IsConsistent (validate_selected c spec e row s)
unfolding validate_selected
validate_selected-IsConsistent c spec e none s pending =
    failed e _ pending.no_success (unfold is_clear in refl)
validate_selected-IsConsistent c spec e (some row) s pending =
    validate_row-IsConsistent c spec e row s pending

validate_rows-IsConsistent :
    (c : RestContract) (spec : RestSpec) (e : ContractEvidence) (rows : List Fields) (s : Bytes)
    → IsPending e
    → IsConsistent (validate_rows c spec e rows s)
unfolding validate_rows
validate_rows-IsConsistent c spec e [] s pending =
    failed (record e { row_count = 0 }) _ pending.no_success (unfold is_clear in refl)
validate_rows-IsConsistent c spec e (row ∷ rows) s pending =
    let counted = record e { row_count = length (row ∷ rows) } in
    validate_selected-IsConsistent c spec counted (select_row spec s (row ∷ rows)) s (record {
      no_success = pending.no_success;
      no_error = pending.no_error;
      logical = pending.logical;
      no_missing = pending.no_missing;
    })

validate_private-IsConsistent :
    (e : ContractEvidence) (v : Value) → IsPending e → IsConsistent (validate_private e v)
unfolding validate_private
validate_private-IsConsistent e v pending = record {
  clear = error_choice _ _ _ pending.no_error (unfold is_clear in refl);
  grounded = λ h. (pending.logical, refl, pending.no_missing);
}

fresh-IsPending :
    (c : RestContract) (units : String) (code : Bytes)
    → IsPending
        (record (fresh_evidence c) { units = units; api_code = code; logical_success = true })
unfolding is_clear
fresh-IsPending c units code = record {
  no_success = refl;
  no_error = refl;
  logical = refl;
  no_missing = refl;
}

validate_spec-IsConsistent :
    (c : RestContract) (spec : RestSpec) (v : Value) (s : Bytes)
    → IsConsistent (validate_spec c spec v s)
unfolding validate_spec
validate_spec-IsConsistent c spec v s = elim (Bool-cases (envelope_success spec.envelope v)) [
  | inl h ↦ elim (Bool-cases (is_private_contract c)) [
    | inl private ↦
        rw h (rw private (validate_private-IsConsistent _ v (fresh-IsPending c spec.units _)))
    | inr public ↦
        rw h (rw public (validate_rows-IsConsistent c spec _ _ s (fresh-IsPending c spec.units _)))
  ]
  | inr h ↦ rw h (record { clear = unfold is_clear in refl; grounded = λ success. cc })
]

validate_htx_object-IsConsistent :
    (e : ContractEvidence) (fs : Fields)
    → e.schema_success ≡ false
    → is_clear e.error ≡ true
    → e.missing_fields ≡ []
    → IsConsistent (validate_htx_object e fs)
unfolding validate_htx_object
validate_htx_object-IsConsistent e fs no_success no_error no_missing =
    elim (Bool-cases (is_ok (member fs (codes "status")))) [
      | inl okay ↦
          elim (Bool-cases (
            not (is_data_shape (member fs (codes "data")))
            && not (is_tick_shape (member fs (codes "tick"))))) [
              | inl shapeless ↦ rw okay (
                  rw shapeless (record {
                    clear = unfold is_clear in sym no_success;
                    grounded = λ success. cc;
                  }))
              | inr shaped ↦ rw okay (
                  rw shaped
                    (record { clear = no_error; grounded = λ success. (refl, refl, no_missing) }))
            ]
      | inr bad ↦
          rw bad (record { clear = unfold is_clear in sym no_success; grounded = λ success. cc })
    ]

validate_htx-IsConsistent :
    (v : Value) (s : Bytes) → IsConsistent (validate_htx (fresh_evidence htx_public_envelope) v s)
unfolding validate_htx
validate_htx-IsConsistent v (c ∷ s) =
    failed (fresh_evidence htx_public_envelope) "htx_envelope_symbol_proof_unavailable" refl
      (unfold is_clear in refl)
validate_htx-IsConsistent (object fs) [] =
    validate_htx_object-IsConsistent _ fs refl (unfold is_clear in refl) refl
validate_htx-IsConsistent _ [] =
    failed (fresh_evidence htx_public_envelope) "htx_public_envelope_not_object" refl
      (unfold is_clear in refl)

-- Every answer of a venue gets its evidence, and no exception: the error is empty exactly when the
-- schema is a success, and a schema that is a success goes with a logical success, a success of the
-- symbol and no missing field.
pub validate_rest_contract-IsConsistent :
    (c : RestContract) (v : Value) (s : Bytes)
    → (e : ContractEvidence) × (validate_rest_contract c v s ≡ some e) × IsConsistent e
unfolding validate_rest_contract
validate_rest_contract-IsConsistent htx_public_envelope v s =
    (_, refl, validate_htx-IsConsistent v s)
validate_rest_contract-IsConsistent no_contract v s =
    (_, refl, failed (fresh_evidence no_contract) _ refl (unfold is_clear in refl))
validate_rest_contract-IsConsistent _ v s =
    unfold spec_for in (_, refl, validate_spec-IsConsistent _ _ v s)
