-- ===== src/Board/Status.antt =====
-- `IssueStatus` of kernel/crates/gctrl-core/src/types.rs.
use gctrl.Prelude.{
  ℕ, ◌+◌, ◌≡◌, refl, eq_iff, ◌↔◌, ◌⊎◌, ◌≢◌, ◌≤◌, Bool, true, false, List, [], ◌∷◌, Option, none,
  some, String, arith, Eq, ◌==◌, String_eq, nat_eq, leb, any, position, take, drop, if◌then◌else◌,
}
use gctrl.Prelude.Options.{◌>>=◌}

pub data IssueStatus : Type 0 where
  backlog todo in_progress in_review done cancelled : IssueStatus

abbrev pub tag : IssueStatus → ℕ
tag backlog = 0
tag todo = 1
tag in_progress = 2
tag in_review = 3
tag done = 4
tag cancelled = 5

abbrev pub status_eq : IssueStatus → IssueStatus → Bool
status_eq s t = nat_eq (tag s) (tag t)

pub status_eq_iff : (s t : IssueStatus) → (status_eq s t ≡ true) ↔ (s ≡ t)
status_eq_iff s t = ground arith

instance abbrev pub IssueStatus_eq : Eq IssueStatus
IssueStatus_eq = record { decides = status_eq; sound = status_eq_iff }

unfoldable pub as_str : IssueStatus → String
as_str backlog = "backlog"
as_str todo = "todo"
as_str in_progress = "in_progress"
as_str in_review = "in_review"
as_str done = "done"
as_str cancelled = "cancelled"

unfoldable pub from_str : String → Option IssueStatus
from_str s =
    if s == "backlog"
    then some backlog
    else if s == "todo"
    then some todo
    else if s == "in_progress"
    then some in_progress
    else if s == "in_review"
    then some in_review
    else if s == "done"
    then some done
    else if s == "cancelled"
    then some cancelled
    else none

unfoldable pub is_terminal : IssueStatus → Bool
is_terminal done = true
is_terminal cancelled = true
is_terminal _ = false

unfoldable pub valid_transitions : IssueStatus → List IssueStatus
valid_transitions backlog = todo ∷ cancelled ∷ []
valid_transitions todo = in_progress ∷ backlog ∷ cancelled ∷ []
valid_transitions in_progress = in_review ∷ todo ∷ cancelled ∷ []
valid_transitions in_review = done ∷ in_progress ∷ cancelled ∷ []
valid_transitions done = []
valid_transitions cancelled = []

unfoldable pub can_transition_to : IssueStatus → IssueStatus → Bool
unfolding valid_transitions
can_transition_to s target = any (λ t. t == target) (valid_transitions s)

abbrev pub forward_order : List IssueStatus
forward_order = backlog ∷ todo ∷ in_progress ∷ in_review ∷ done ∷ []

unfoldable pub forward_path_to : IssueStatus → IssueStatus → Option (List IssueStatus)
forward_path_to s target = if target == cancelled then some (cancelled ∷ []) else do
  from_idx ← position (λ t. t == s) forward_order
  to_idx ← position (λ t. t == target) forward_order
  if leb to_idx from_idx then none else some (drop (from_idx + 1) (take (to_idx + 1) forward_order))

from_str-eq : (t : String) (s : IssueStatus) → from_str t ≡ some s → t ≡ as_str s
unfolding from_str as_str
from_str-eq t s h = ground (
  arith,
  eq_iff t "backlog",
  eq_iff t "todo",
  eq_iff t "in_progress",
  eq_iff t "in_review",
  eq_iff t "done",
  eq_iff t "cancelled",
)

pub reads_own_text : (s : IssueStatus) → from_str (as_str s) ≡ some s
unfolding from_str as_str
reads_own_text backlog = refl
reads_own_text todo = refl
reads_own_text in_progress = refl
reads_own_text in_review = refl
reads_own_text done = refl
reads_own_text cancelled = refl

-- A text reads as a status exactly if it is the status's own text.
pub from_str-as_str : (t : String) (s : IssueStatus) → (from_str t ≡ some s) ↔ (t ≡ as_str s)
from_str-as_str t s = (from_str-eq t s, λ e. rw e (reads_own_text s))

-- The path of a move: one step if it is allowed, else the forward steps of the pipeline.
unfoldable pub transition_path : IssueStatus → IssueStatus → Option (List IssueStatus)
transition_path s target =
    if can_transition_to s target then some (target ∷ []) else forward_path_to s target

-- Each status of the list is an allowed transition from the one before it, and the last is `t`.
abbrev pub Chain : IssueStatus → List IssueStatus → IssueStatus → Type 0
Chain s [] t = s ≡ t
Chain s (u ∷ us) t = (can_transition_to s u ≡ true) × Chain u us t

-- A path that is found goes from `s` to `t` by allowed transitions, unless `s` is terminal and `t`
-- is `cancelled`, where the path is the one step to `cancelled`.
pub transition_path-Chain :
    (s t : IssueStatus) (us : List IssueStatus)
    → transition_path s t ≡ some us
    → Chain s us t ⊎ ((is_terminal s ≡ true) × (t ≡ cancelled) × (us ≡ cancelled ∷ []))
unfolding transition_path can_transition_to forward_path_to is_terminal
transition_path-Chain s t us h = ground arith

refused_only :
    (s t : IssueStatus)
    → transition_path s t ≡ none
    → (t ≢ cancelled) × (tag t ≤ tag s) × (can_transition_to s t ≡ false)
unfolding transition_path can_transition_to forward_path_to
refused_only s t h = ground arith

refused_if :
    (s t : IssueStatus)
    → (t ≢ cancelled) × (tag t ≤ tag s) × (can_transition_to s t ≡ false)
    → transition_path s t ≡ none
unfolding transition_path can_transition_to forward_path_to
refused_if s t h = ground arith

-- No path is found exactly if the target is not `cancelled`, does not stand after `s` in the order
-- backlog, todo, in_progress, in_review, done, cancelled, and is no allowed transition from `s`.
pub transition_path-none :
    (s t : IssueStatus)
    → (transition_path s t ≡ none)
      ↔ ((t ≢ cancelled) × (tag t ≤ tag s) × (can_transition_to s t ≡ false))
transition_path-none s t = (refused_only s t, refused_if s t)
