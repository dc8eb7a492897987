-- ===== src/Verifier/Counts.antt =====
-- About the counts that `_verify_ops` of core/verifier.py keeps, and the checks behind them.
use agent_notes.Prelude.{
  ℕ, ◌≡◌, ◌+◌, ◌↔◌, ◌⊎◌, refl, Bool, false, Option, none, some, List, [], ◌∷◌, ◌++◌, arith, length,
  any, Bool-cases, inl, inr, if◌then◌else◌,
}
use agent_notes.Ops.{Op}
use agent_notes.Store.{Host}
use agent_notes.Verifier.{
  Violation, VerificationResult, no_result, Signing, tally, op_violations, verify_loop, verify_ops,
  verify_op_id, verify_hash_chain, verify_signature, apply_policy, found, is_error, warning, error,
  Severity,
}

-- A check found nothing, or a warning.
abbrev pub IsTolerated : Option Violation → Type 0
IsTolerated none = Unit
IsTolerated (some v) = v.severity ≡ warning

abbrev errors : List Violation → Bool
errors vs = any (λ (v : Violation). is_error v.severity) vs

errors-append :
    (xs ys : List Violation)
    → (errors (xs ++ ys) ≡ false) ↔ ((errors xs ≡ false) × (errors ys ≡ false))
errors-append [] ys = (λ h. (refl, h), λ h. h.1)
errors-append (v ∷ xs) ys = ground (arith, errors-append xs ys)

tolerated : (s : Severity) → (is_error s ≡ false) ↔ (s ≡ warning)
tolerated error = ground arith
tolerated warning = ground arith

errors-found : (o : Option Violation) → (errors (found o) ≡ false) ↔ IsTolerated o
errors-found none = (λ h. tt, λ h. refl)
errors-found (some v) = ground (arith, tolerated v.severity)

module _ (host : Host) (s : Signing) (key : Option s.Key) (check_policy : Bool) where
  -- The checks of one op that follows the ops `seen` find no error.
  abbrev pub IsClean : List ℕ → Op → Type 0
  IsClean seen op =
      IsTolerated (verify_op_id host op)
      × IsTolerated (verify_hash_chain op seen)
      × IsTolerated (verify_signature s op key)
      × ((check_policy ≡ false) ⊎ IsTolerated (apply_policy op))

  abbrev pub AllClean : List ℕ → List Op → Type 0
  AllClean seen [] = Unit
  AllClean seen (op ∷ ops) = IsClean seen op × AllClean (op.op_id ∷ seen) ops

  check_policy_errors :
      (op : Op)
      → (errors (if check_policy then found (apply_policy op) else []) ≡ false)
        ↔ ((check_policy ≡ false) ⊎ IsTolerated (apply_policy op))
  check_policy_errors op = elim (Bool-cases check_policy) [
    | inl t ↦ rw t (
      λ h. inr ((errors-found (apply_policy op)).0 h),
      λ o. elim o [ inl f ↦ absurd (cc f) | inr h ↦ (errors-found (apply_policy op)).1 h ],
    )
    | inr f ↦ rw f (λ h. inl refl, λ o. refl)
  ]

  op_violations_lem :
      (seen : List ℕ) (op : Op)
      → (errors (op_violations host s key check_policy seen op) ≡ false) ↔ IsClean seen op
  unfolding op_violations
  op_violations_lem seen op =
      let policy = check_policy_errors op in
      let last = if check_policy then found (apply_policy op) else [] in
      let signature = errors-append (found (verify_signature s op key)) last in
      let chain =
        errors-append (found (verify_hash_chain op seen))
          (found (verify_signature s op key) ++ last) in
      let whole =
        errors-append (found (verify_op_id host op))
          (found (verify_hash_chain op seen) ++ (found (verify_signature s op key) ++ last)) in
      (
        λ h.
            let (a, rest) = whole.0 h in
            let (b, more) = chain.0 rest in
            let (c, d) = signature.0 more in
            (
              (errors-found (verify_op_id host op)).0 a,
              (errors-found (verify_hash_chain op seen)).0 b,
              (errors-found (verify_signature s op key)).0 c,
              policy.0 d,
            ),
        λ (a, b, c, d). whole.1 (
          (errors-found (verify_op_id host op)).1 a,
          chain.1 (
            (errors-found (verify_hash_chain op seen)).1 b,
            signature.1 ((errors-found (verify_signature s op key)).1 c, policy.1 d),
          ),
        ),
      )

  tally_counts :
      (r : VerificationResult) (vs : List Violation)
      → r.passed + r.failed ≡ r.checked
      → ((tally r vs).passed + (tally r vs).failed ≡ (tally r vs).checked)
        × ((tally r vs).checked ≡ r.checked + 1)
        × (((tally r vs).failed ≡ 0) ↔ ((r.failed ≡ 0) × (errors vs ≡ false)))
  unfolding tally
  tally_counts r vs h = elim (Bool-cases (errors vs)) [
    | inl t ↦ rw t (ground arith)
    | inr f ↦ rw f (ground arith)
  ]

  loop_counts :
      (r : VerificationResult) (seen : List ℕ) (ops : List Op)
      → r.passed + r.failed ≡ r.checked
      → let end = verify_loop host s key check_policy r seen ops in
        (end.passed + end.failed ≡ end.checked)
        × (end.checked ≡ r.checked + length ops)
        × ((end.failed ≡ 0) ↔ ((r.failed ≡ 0) × AllClean seen ops))
  unfolding verify_loop
  loop_counts r seen [] h = (h, omega arith, (λ e. (e, tt), λ e. e.0))
  loop_counts r seen (op ∷ ops) h =
      let vs = op_violations host s key check_policy seen op in
      let (sum, one, failed) = tally_counts r vs h in
      let (sums, all, none_failed) = loop_counts (tally r vs) (op.op_id ∷ seen) ops sum in
      let clean = op_violations_lem seen op in
      (
        sums,
        omega arith,
        (
          λ e.
              let (before, rest) = none_failed.0 e in
              let (before_op, of_op) = failed.0 before in (before_op, (clean.0 of_op, rest)),
          λ e. none_failed.1 (failed.1 (e.0, clean.1 e.1.0), e.1.1),
        ),
      )

  -- Every op is counted once, as passed or as failed. None fails exactly if for every op, with the ops
  -- before it, the checks of its ID and its own sequence, of its parents, of its signature and, where
  -- asked for, of the policy find nothing or a warning.
  pub verify_ops_counts :
      (ops : List Op)
      → let end = verify_ops host s key check_policy ops in
        (end.passed + end.failed ≡ length ops)
        × (end.checked ≡ length ops)
        × ((end.failed ≡ 0) ↔ AllClean [] ops)
  unfolding verify_ops
  verify_ops_counts ops =
      let (sum, all, failed) = loop_counts no_result [] ops refl in
      (omega arith, omega arith, (λ e. (failed.0 e).1, λ e. failed.1 (refl, e)))
