-- ===== src/Guardrails/Laws.antt =====
-- What the guardrails decide.
use gctrl.Prelude.{
  ℕ, ◌-◌, ◌≤◌, ◌<◌, ◌≡◌, refl, sym, ap, subst, ◌∙◌, ◌↔◌, ◌⊎◌, inl, inr, Bool, true, ◌&&◌, ◌||◌,
  List, [], ◌∷◌, some, String, arith, eq_iff, ◌==◌, String_eq, any, all, All, drop, length,
  length-drop, ltb, Bool-cases,
}
use gctrl.Prelude.Decimal.{decimal, ◌⁀◌}
use gctrl.Guardrails.{
  Money, PolicyDecision, allow, warn, deny, is_deny, ExecutionContext, check_window, loop_detection,
  GuardrailEngine, evaluate, is_denied,
}

all_same :
    (op : String) (ops : List String) → (all (λ o. o == op) ops ≡ true) ↔ All (λ o. o ≡ op) ops
all_same op [] = (λ h. tt, λ h. refl)
all_same op (o ∷ ops) =
    let (there, back) = all_same op ops in
    let (same, equal) = eq_iff o op in
    (λ h. let (a, b) = split _ _ h in (same a, there b), λ (a, b). rw (equal a) (back b))
  where
    split : (a b : Bool) → (a && b) ≡ true → (a ≡ true) × (b ≡ true)
    split a b h = ground arith

module _ (money : Money) where
  -- Some policy of the engine denies.
  abbrev pub SomeDenies : GuardrailEngine money → ExecutionContext money → Type 0
  SomeDenies [] ctx = ⊥
  SomeDenies (p ∷ policies) ctx =
      ((m : String) × (p.check ctx ≡ some (deny m))) ⊎ SomeDenies policies ctx

  -- No policy panics.
  abbrev pub NonePanics : GuardrailEngine money → ExecutionContext money → Type 0
  NonePanics policies ctx = All (λ p. (d : PolicyDecision) × (p.check ctx ≡ some d)) policies

  deny_of : (d : PolicyDecision) → is_deny d ≡ true → (m : String) × (d ≡ deny m)
  deny_of allow h = cc h
  deny_of (warn m) h = cc h
  deny_of (deny m) h = (m, refl)

  -- The decisions of an engine that does not panic, and what they deny.
  evaluate-SomeDenies :
      (policies : GuardrailEngine money) (ctx : ExecutionContext money)
      → NonePanics policies ctx
      → (ds : List (String × PolicyDecision)) × (evaluate money policies ctx ≡ some ds)
        × ((any (λ d. is_deny d.1) ds ≡ true) ↔ SomeDenies policies ctx)
  unfolding evaluate
  evaluate-SomeDenies [] ctx h = ([], refl, (λ e. cc e, λ e. absurd e))
  evaluate-SomeDenies (p ∷ policies) ctx ((d, e), h) =
      let (ds, rest, (there, back)) = evaluate-SomeDenies policies ctx h in
      (
        (p.name, d) ∷ ds,
        rw (e, rest) refl,
        (
          λ hit. elim (Bool-cases (is_deny d)) [
            | inl hit_here ↦ let (m, same) = deny_of d hit_here in inl (m, e ∙ ap some same)
            | inr pass_here ↦ inr (there (rw pass_here at hit))
          ],
          λ some_. elim some_ [
            | inl (m, q) ↦ let same : d ≡ deny m = cc (e, q) in rw same refl
            | inr r ↦ or_true (is_deny d) _ (back r)
          ],
        ),
      )
    where
      or_true : (a b : Bool) → b ≡ true → (a || b) ≡ true
      or_true a b h = ground arith

  -- An engine none of whose policies panics denies exactly when one of its policies does.
  pub is_denied-SomeDenies :
      (policies : GuardrailEngine money) (ctx : ExecutionContext money)
      → NonePanics policies ctx
      → (is_denied money policies ctx ≡ some true) ↔ SomeDenies policies ctx
  unfolding is_denied
  is_denied-SomeDenies policies ctx h =
      let (ds, e, (there, back)) = evaluate-SomeDenies policies ctx h in
      (λ d. there (cc (rw (is_denied, e) at d)), λ d. rw (is_denied, e) (ap some (back d)))

  abbrev window_message : ℕ → String → String
  window_message threshold op =
      "detected " ⁀ decimal threshold ⁀ " identical operations: '" ⁀ op ⁀ "'"

  window_denies :
      (threshold : ℕ) (ops : List String)
      → 0 < length ops
      → ((m : String) × (check_window money threshold ops ≡ some (deny m)))
        ↔ ((op : String) × All (λ o. o ≡ op) ops)
  unfolding check_window
  window_denies threshold [] h = ground arith
  window_denies threshold (op ∷ ops) h =
      let (there, back) = all_same op (op ∷ ops) in
      (
        λ (m, e). elim (Bool-cases (all (λ o. o == op) (op ∷ ops))) [
          | inl same ↦ (op, there same)
          | inr differ ↦ cc (rw differ at e)
        ],
        λ (x, (same, rest)). (
          window_message threshold op,
          rw (back (subst (λ y. All (λ o. o ≡ y) (op ∷ ops)) (sym same) (same, rest))) refl,
        ),
      )

  window_answers :
      (threshold : ℕ) (ops : List String)
      → 0 < length ops
      → (d : PolicyDecision) × (check_window money threshold ops ≡ some d)
  unfolding check_window
  window_answers threshold [] h = ground arith
  window_answers threshold (op ∷ ops) h = elim (Bool-cases (all (λ o. o == op) (op ∷ ops))) [
    | inl same ↦ (deny (window_message threshold op), rw same refl)
    | inr differ ↦ (allow, rw differ refl)
  ]

  -- With a threshold that is not zero, the loop detection never panics, and it denies exactly when
  -- there are at least `threshold` recent operations and the last `threshold` of them are one.
  pub loop_detection-deny :
      (threshold : ℕ) (ctx : ExecutionContext money)
      → 0 < threshold
      → ((d : PolicyDecision) × ((loop_detection money threshold).check ctx ≡ some d))
        × (((m : String) × ((loop_detection money threshold).check ctx ≡ some (deny m))) ↔ (
            (threshold ≤ length ctx.recent_operations)
            × ((op : String) × All
                  (λ o. o ≡ op)
                  (drop (length ctx.recent_operations - threshold) ctx.recent_operations))))
  unfolding loop_detection
  loop_detection-deny threshold ctx pos =
      elim (Bool-cases (ltb (length ctx.recent_operations) threshold)) [
        | inl few ↦
            rw few ((allow, refl), (λ (m, e). cc e, λ (le, all_one). absurd (too_few _ _ few le)))
        | inr enough ↦
            let ops = ctx.recent_operations in
            let le : threshold ≤ length ops = ground (arith, enough) in
            let some_left : 0 < length (drop (length ops - threshold) ops) =
              omega (arith, length-drop (length ops - threshold) ops, le, pos) in
            let (there, back) =
              window_denies threshold (drop (length ops - threshold) ops) some_left in
            rw enough (
              window_answers threshold (drop (length ops - threshold) ops) some_left,
              (λ d. (le, there d), λ (l, all_one). back all_one),
            )
      ]
    where
      too_few : (n k : ℕ) → ltb n k ≡ true → k ≤ n → ⊥
      too_few n k few le = ground arith
