-- ===== src/Guardrails.antt =====
-- The guardrails of kernel/crates/gctrl-guardrails/src (engine.rs and policies.rs). Costs are
-- floating-point numbers and the messages that hold them are formatted by the standard library: both
-- come in as a record.
pub mod Laws
mod Examples
use gctrl.Prelude.{
  ℕ, zero, suc, ◌+◌, ◌-◌, Bool, true, false, ◌&&◌, ◌||◌, List, [], ◌∷◌, ◌++◌, Option, none, some,
  String, ◌==◌, String_eq, ltb, any, all, map, drop, length, if◌then◌else◌,
}
use gctrl.Prelude.Decimal.{decimal, ◌⁀◌}
use gctrl.Prelude.Text.{contains}

-- `f64`, as far as the budget reads it: the strict order, four fifths of a number, and the texts.
pub record Money : Type 1 where
  pub Amount : Type 0
  pub gt : Amount → Amount → Bool
  pub four_fifths : Amount → Amount
  pub exceeds_message : (cost budget : Amount) → String
  pub close_message : (cost budget : Amount) → String

pub data PolicyDecision : Type 0 where
  allow : PolicyDecision
  warn deny : String → PolicyDecision

unfoldable pub is_allowed : PolicyDecision → Bool
is_allowed allow = true
is_allowed (warn m) = true
is_allowed (deny m) = false

abbrev pub is_deny : PolicyDecision → Bool
is_deny allow = false
is_deny (warn m) = false
is_deny (deny m) = true

module _ (money : Money) where
  pub record ExecutionContext : Type 0 where
    pub session_id : String
    pub agent_name : String
    pub current_cost_usd : money.Amount
    pub span_count : ℕ
    pub recent_operations : List String
    pub pending_command : Option String
    pub pending_diff_lines : Option ℕ

  -- `GuardrailPolicy`: a name and a check, which may panic (`none`).
  pub record GuardrailPolicy : Type 0 where
    pub name : String
    pub check : ExecutionContext → Option PolicyDecision

  unfoldable pub session_budget : money.Amount → GuardrailPolicy
  session_budget budget_usd = record {
    name = "session_budget";
    check = λ ctx.
        if money.gt ctx.current_cost_usd budget_usd
        then some (deny (money.exceeds_message ctx.current_cost_usd budget_usd))
        else if money.gt ctx.current_cost_usd (money.four_fifths budget_usd)
        then some (warn (money.close_message ctx.current_cost_usd budget_usd))
        else some allow;
  }

  -- The last entries of the window, all against the first; an empty window has no first entry, so
  -- the message's `last_n[0]` panics.
  unfoldable pub check_window : ℕ → List String → Option PolicyDecision
  check_window threshold [] = none
  check_window threshold (op ∷ ops) =
      if all (λ o. o == op) (op ∷ ops)
      then some (deny ("detected " ⁀ decimal threshold ⁀ " identical operations: '" ⁀ op ⁀ "'"))
      else some allow

  unfoldable pub loop_detection : ℕ → GuardrailPolicy
  unfolding check_window
  loop_detection threshold = record {
    name = "loop_detection";
    check = λ ctx.
        let ops = ctx.recent_operations in
        if ltb (length ops) threshold
        then some allow
        else check_window threshold (drop (length ops - threshold) ops);
  }

  -- The loop over the blocked patterns.
  unfoldable pub check_command : String → List String → PolicyDecision
  check_command cmd [] = allow
  check_command cmd (blocked ∷ rest) =
      if contains cmd blocked
      then deny ("command contains blocked pattern: '" ⁀ blocked ⁀ "'")
      else check_command cmd rest

  unfoldable pub command_blocklist : List String → GuardrailPolicy
  unfolding check_command
  command_blocklist blocked = record {
    name = "command_blocklist";
    check = λ ctx. elim ctx.pending_command [
      | none ↦ some allow
      | some cmd ↦ some (check_command cmd blocked)
    ];
  }

  unfoldable pub check_lines : (warn_lines deny_lines : ℕ) → Option ℕ → PolicyDecision
  check_lines warn_lines deny_lines none = allow
  check_lines warn_lines deny_lines (some lines) =
      if ltb deny_lines lines
      then deny ("diff of " ⁀ decimal lines ⁀ " lines exceeds max " ⁀ decimal deny_lines)
      else if ltb warn_lines lines
      then warn
          ("diff of " ⁀ decimal lines ⁀ " lines exceeds warning threshold " ⁀ decimal warn_lines)
      else allow

  unfoldable pub diff_size : (warn_lines deny_lines : ℕ) → GuardrailPolicy
  unfolding check_lines
  diff_size warn_lines deny_lines = record {
    name = "diff_size";
    check = λ ctx. some (check_lines warn_lines deny_lines ctx.pending_diff_lines);
  }

  -- `GuardrailEngine`.
  abbrev pub GuardrailEngine : Type 0
  GuardrailEngine = List GuardrailPolicy

  unfoldable pub add_policy : GuardrailEngine → GuardrailPolicy → GuardrailEngine
  add_policy policies policy = policies ++ policy ∷ []

  -- The decisions in the policies' order; a panic ends it.
  abbrev pub and_then :
      String
      → Option PolicyDecision
      → Option (List (String × PolicyDecision))
      → Option (List (String × PolicyDecision))
  and_then name none rest = none
  and_then name (some d) none = none
  and_then name (some d) (some ds) = some ((name, d) ∷ ds)

  unfoldable pub evaluate :
      GuardrailEngine → ExecutionContext → Option (List (String × PolicyDecision))
  evaluate [] context = some []
  evaluate (p ∷ policies) context = and_then p.name (p.check context) (evaluate policies context)

  unfoldable pub is_denied : GuardrailEngine → ExecutionContext → Option Bool
  unfolding evaluate
  is_denied policies context = elim (evaluate policies context) [
    | none ↦ none
    | some decisions ↦ some (any (λ d. is_deny d.1) decisions)
  ]
