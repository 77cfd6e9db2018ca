-- ===== src/Guardrails/Examples.antt =====
-- The guardrails on small contexts, with costs in cents.
use gctrl.Prelude.{
  ℕ, ◌*◌, ◌/◌, ◌-◌, ◌≡◌, refl, ◌↔◌, ◌≤◌, true, [], ◌∷◌, none, some, String, arith, All, drop, ltb,
}
use gctrl.Guardrails.{
  Money, ExecutionContext, GuardrailEngine, deny, loop_detection, diff_size, is_denied,
  PolicyDecision,
}
use gctrl.Guardrails.Laws.{is_denied-SomeDenies, SomeDenies, loop_detection-deny}

abbrev cents : Money
cents = record {
  Amount = ℕ;
  gt = λ a b. ltb b a;
  four_fifths = λ a. a * 4 / 5;
  exceeds_message = λ a b. "over";
  close_message = λ a b. "near";
}

abbrev context : ExecutionContext cents
context = record {
  session_id = "s";
  agent_name = "a";
  current_cost_usd = 10;
  span_count = 4;
  recent_operations = "ls" ∷ "cat" ∷ "cat" ∷ "cat" ∷ [];
  pending_command = none;
  pending_diff_lines = some 900;
}

abbrev engine : GuardrailEngine cents
engine = diff_size cents 100 500 ∷ []

is_denied-SomeDenies_example :
    (is_denied cents engine context ≡ some true) ↔ SomeDenies cents engine context
unfolding diff_size
is_denied-SomeDenies_example = is_denied-SomeDenies cents engine context ((_, refl), tt)

loop_detection-deny_example :
    ((d : PolicyDecision) × ((loop_detection cents 3).check context ≡ some d))
    × (((m : String) × ((loop_detection cents 3).check context ≡ some (deny m))) ↔ (
        (3 ≤ 4)
        × ((op : String) × All (λ o. o ≡ op) (drop (4 - 3) ("ls" ∷ "cat" ∷ "cat" ∷ "cat" ∷ [])))))
loop_detection-deny_example = loop_detection-deny cents 3 context (omega arith)
