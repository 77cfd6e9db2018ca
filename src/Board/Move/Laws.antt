-- ===== src/Board/Move/Laws.antt =====
-- What a move of an issue does: its status, its events, and what it leaves alone.
use mathlib.Core.List.{append_assoc, append-nil}
use gctrl.Prelude.{
  ℕ, suc, ◌≡◌, refl, sym, ap, subst, ◌∙◌, ◌≢◌, inl, inr, true, false, List, [], ◌∷◌, ◌++◌, some,
  String, arith, String_eq, Option-cases, ◌⊎◌, Bool-cases, ◌==◌, eq_iff,
}
use gctrl.Prelude.Result.{ok, ok_or-eq-ok, ok-injective}
use gctrl.Board.Status.{
  IssueStatus, cancelled, from_str, as_str, transition_path, is_terminal, can_transition_to, Chain,
  transition_path-Chain, reads_own_text, from_str-as_str, forward_path_to,
}
use gctrl.Board.Model.{
  Actor, Tick, BoardEvent, status_change, Store, get_board_issue, get-update_issue,
  get-update_issue_ne, update_issue,
}
use gctrl.Board.Move.{
  status_of, with_status, set_status, step_event, apply_step, apply_path, read_status,
  update_board_issue_status,
}

status_of-set_status :
    (s : Store) (id v old : String) (now : ℕ)
    → status_of s id ≡ some old
    → status_of (set_status s id v now) id ≡ some v
unfolding status_of set_status
status_of-set_status s id v old now h = elim (Option-cases (get_board_issue s id)) [
  | inl e ↦ ground (arith, e)
  | inr (i, e) ↦ rw (get-update_issue s id (with_status s v now) i (λ x. refl) e)
]

status_of-apply_step :
    (s : Store) (t : Tick) (id : String) (actor : Actor) (prev step : String)
    → status_of s id ≡ some prev
    → status_of (apply_step s t id actor prev step) id ≡ some step
unfolding apply_step status_of get_board_issue
status_of-apply_step s t id actor prev step h = status_of-set_status s id step prev t.now h

-- The text of the last status of a path, or the text before it.
abbrev last_text : String → List IssueStatus → String
last_text prev [] = prev
last_text prev (u ∷ us) = last_text (as_str u) us

status_of-apply_path :
    (s : Store) (ticks : ℕ → Tick) (k : ℕ) (id : String) (actor : Actor) (prev : String)
    (us : List IssueStatus)
    → status_of s id ≡ some prev
    → status_of (apply_path s ticks k id actor prev us) id ≡ some (last_text prev us)
unfolding apply_path
status_of-apply_path s ticks k id actor prev [] h = h
status_of-apply_path s ticks k id actor prev (u ∷ us) h =
    status_of-apply_path (apply_step s (ticks k) id actor prev (as_str u)) ticks (suc k) id actor
      (as_str u) us (status_of-apply_step s (ticks k) id actor prev (as_str u) h)

-- Each event of the list is an allowed transition of the issue, from the text that the one before
-- it wrote, and the last arrives at the status `to`.
abbrev pub Linked : String → String → List BoardEvent → IssueStatus → Type 0
Linked id from [] to = read_status from ≡ to
Linked id from (e ∷ es) to =
    (u : IssueStatus) × (e.issue_id ≡ id)
    × (e.payload ≡ status_change from (as_str u))
    × (can_transition_to (read_status from) u ≡ true)
    × Linked id (as_str u) es to

read_status-as_str : (u : IssueStatus) → read_status (as_str u) ≡ u
unfolding read_status
read_status-as_str u = rw (reads_own_text u, read_status)

-- The events that the loop adds.
abbrev Added : Store → Store → List BoardEvent → Type 0
Added s s' es = s'.events ≡ s.events ++ es

append_step :
    (s : Store) (t : Tick) (id : String) (actor : Actor) (prev : String) (u : IssueStatus)
    (es : List BoardEvent)
    → (apply_step s t id actor prev (as_str u)).events ++ es
      ≡ s.events ++ step_event s t id actor prev (as_str u) ∷ es
unfolding apply_step set_status update_issue
append_step s t id actor prev u es =
    append_assoc s.events (step_event s t id actor prev (as_str u) ∷ []) es

others-apply_step :
    (s : Store) (t : Tick) (id : String) (actor : Actor) (prev step j : String)
    → j ≢ id
    → let s' = apply_step s t id actor prev step in
      (get_board_issue s' j ≡ get_board_issue s j)
      × (s'.projects ≡ s.projects)
      × (s'.comments ≡ s.comments)
      × (s'.tasks ≡ s.tasks)
unfolding apply_step set_status update_issue get_board_issue
others-apply_step s t id actor prev step j ne =
    (get-update_issue_ne s id j (with_status s step t.now) (λ x. refl) ne, refl, refl, refl)

events-apply_path :
    (s : Store) (ticks : ℕ → Tick) (k : ℕ) (id : String) (actor : Actor) (prev : String)
    (us : List IssueStatus) (t : IssueStatus)
    → Chain (read_status prev) us t
    → (es : List BoardEvent) × Added s (apply_path s ticks k id actor prev us) es
      × Linked id prev es t
unfolding apply_path
events-apply_path s ticks k id actor prev [] t c = ([], sym (append-nil _), c)
events-apply_path s ticks k id actor prev (u ∷ us) t (step, c) =
    let e = step_event s (ticks k) id actor prev (as_str u) in
    let (es, added, linked) =
      events-apply_path (apply_step s (ticks k) id actor prev (as_str u)) ticks (suc k) id actor
        (as_str u) us t (subst (λ w. Chain w us t) (sym (read_status-as_str u)) c) in
    (e ∷ es, added ∙ append_step s (ticks k) id actor prev u es, (u, refl, refl, step, linked))

-- What a move that succeeds has found and done.
record Moved (s : Store) (ticks : ℕ → Tick) (id status : String) (actor : Actor) (s' : Store)
    : Type 0 where
  target : IssueStatus
  old : String
  path : List IssueStatus
  named : status ≡ as_str target
  found : status_of s id ≡ some old
  planned : transition_path (read_status old) target ≡ some path
  applied : apply_path s ticks 0 id actor old path ≡ s'

update-Moved :
    (s : Store) (ticks : ℕ → Tick) (id status : String) (actor : Actor) (s' : Store)
    → update_board_issue_status s ticks id status actor ≡ ok s'
    → Moved s ticks id status actor s'
unfolding update_board_issue_status
update-Moved s ticks id status actor s' h =
    let (target, named, h₁) = ok_or-eq-ok (from_str status) _ _ h in
    let (old, found, h₂) = ok_or-eq-ok (status_of s id) _ _ h₁ in
    let (path, planned, h₃) = ok_or-eq-ok (transition_path (read_status old) target) _ _ h₂ in
    record {
      target = target;
      old = old;
      path = path;
      named = (from_str-as_str status target).0 named;
      found = found;
      planned = planned;
      applied = ok-injective h₃;
    }

last_text-path :
    (s t : IssueStatus) (prev : String) (us : List IssueStatus)
    → transition_path s t ≡ some us
    → last_text prev us ≡ as_str t
unfolding transition_path can_transition_to forward_path_to
last_text-path s t prev us h = ground arith

others-apply_path :
    (s : Store) (ticks : ℕ → Tick) (k : ℕ) (id : String) (actor : Actor) (prev : String)
    (us : List IssueStatus) (j : String)
    → j ≢ id
    → let s' = apply_path s ticks k id actor prev us in
      (get_board_issue s' j ≡ get_board_issue s j)
      × (s'.projects ≡ s.projects)
      × (s'.comments ≡ s.comments)
      × (s'.tasks ≡ s.tasks)
unfolding apply_path
others-apply_path s ticks k id actor prev [] j ne = (refl, refl, refl, refl)
others-apply_path s ticks k id actor prev (u ∷ us) j ne =
    let (a, b, c, d) =
      others-apply_path (apply_step s (ticks k) id actor prev (as_str u)) ticks (suc k) id actor
        (as_str u) us j ne in
    let (a', b', c', d') = others-apply_step s (ticks k) id actor prev (as_str u) j ne in
    (a ∙ a', b ∙ b', c ∙ c', d ∙ d')

terminal_path :
    (s : IssueStatus) → is_terminal s ≡ true → transition_path s cancelled ≡ some (cancelled ∷ [])
unfolding transition_path can_transition_to forward_path_to is_terminal
terminal_path s h = ground arith

module _ (s : Store) (ticks : ℕ → Tick) (id status : String) (actor : Actor) (s' : Store)
    (moved : update_board_issue_status s ticks id status actor ≡ ok s') where
  -- A move that succeeds leaves the issue with the status that was asked for.
  pub move-status : status_of s' id ≡ some status
  move-status =
      let m = update-Moved s ticks id status actor s' moved in
      rw (
        ← m.applied,
        status_of-apply_path s ticks 0 id actor m.old m.path m.found,
        last_text-path (read_status m.old) m.target m.old m.path m.planned,
        m.named,
      )

  -- A move that succeeds on an issue whose stored status reads as one that is not terminal adds
  -- events to the end of the log which lead from that text, by allowed transitions of this issue
  -- only, to the status whose text was asked for.
  pub move-Linked :
      (old : String)
      → status_of s id ≡ some old
      → is_terminal (read_status old) ≡ false
      → (t : IssueStatus) × (es : List BoardEvent) × (status ≡ as_str t)
        × (s'.events ≡ s.events ++ es)
        × Linked id old es t
  move-Linked old at live =
      let m = update-Moved s ticks id status actor s' moved in
      let same : m.old ≡ old = cc (at, m.found) in
      elim (transition_path-Chain (read_status m.old) m.target m.path m.planned) [
        | inl c ↦
            let (es, added, linked) =
              events-apply_path s ticks 0 id actor m.old m.path m.target c in
            (
              m.target,
              es,
              m.named,
              rw (← m.applied) added,
              subst (λ o. Linked id o es m.target) same linked,
            )
        | inr (over, _, _) ↦ cc (over, ap read_status same, live)
      ]

  -- No other issue, and no project, comment or task, changes in a move.
  pub move-get_ne :
      (j : String)
      → j ≢ id
      → (get_board_issue s' j ≡ get_board_issue s j)
        × (s'.projects ≡ s.projects)
        × (s'.comments ≡ s.comments)
        × (s'.tasks ≡ s.tasks)
  move-get_ne j ne =
      let m = update-Moved s ticks id status actor s' moved in
      rw (← m.applied) (others-apply_path s ticks 0 id actor m.old m.path j ne)

-- What a reopening to `cancelled` leaves: the status, one more event, and the other issues as they were.
abbrev pub Cancelled : Store → Store → String → String → Actor → Type 0
Cancelled s s' id old actor =
    (status_of s' id ≡ some "cancelled")
    × ((e : BoardEvent) × (s'.events ≡ s.events ++ e ∷ [])
        × (e.issue_id ≡ id)
        × (e.event_type ≡ "status_changed")
        × (e.actor ≡ actor)
        × (e.payload ≡ status_change old "cancelled"))
    × ((j : String) → (j ≡ id) ⊎ (get_board_issue s' j ≡ get_board_issue s j))

step-Cancelled :
    (s : Store) (t : Tick) (id old : String) (actor : Actor)
    → status_of s id ≡ some old
    → Cancelled s (apply_step s t id actor old "cancelled") id old actor
unfolding apply_step set_status update_issue
step-Cancelled s t id old actor at = (
  status_of-apply_step s t id actor old "cancelled" at,
  (step_event s t id actor old "cancelled", refl, refl, refl, refl, refl),
  λ j. elim (Bool-cases (j == id)) [
    | inl same ↦ inl ((eq_iff j id).0 same)
    | inr other ↦
        inr
          (others-apply_step s t id actor old "cancelled" j (λ e. cc (other, (eq_iff j id).1 e))).0
  ],
)

-- An issue whose stored status reads as `done` or `cancelled` can still be moved to `cancelled`: the
-- move succeeds, stores `cancelled`, adds one event, which goes from the stored text to `cancelled`, and
-- leaves the other issues alone.
pub move_reopens :
    (s : Store) (ticks : ℕ → Tick) (id old : String) (actor : Actor)
    → status_of s id ≡ some old
    → is_terminal (read_status old) ≡ true
    → (s' : Store) × (update_board_issue_status s ticks id "cancelled" actor ≡ ok s')
      × Cancelled s s' id old actor
unfolding update_board_issue_status from_str as_str apply_path
move_reopens s ticks id old actor at over = (
  apply_step s (ticks 0) id actor old "cancelled",
  reopening,
  step-Cancelled s (ticks 0) id old actor at,
)
  where
    reopening :
        update_board_issue_status s ticks id "cancelled" actor
        ≡ ok (apply_step s (ticks 0) id actor old "cancelled")
    reopening = rw (at, terminal_path (read_status old) over) refl
