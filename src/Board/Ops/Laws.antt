-- ===== src/Board/Ops/Laws.antt =====
-- What the operations on issues keep and write.
use gctrl.Prelude.{
  ℕ, ◌+◌, ◌≡◌, refl, ap, subst, ◌∙◌, ◌⊎◌, inl, inr, Bool, true, false, List, [], ◌∷◌, ◌++◌, Option,
  some, String, arith, ◌==◌, String_eq, beq_self, any, Bool-cases,
}
use gctrl.Prelude.Result.{Result, ok, err}
use gctrl.Board.Acceptance.{AcceptanceCheck}
use gctrl.Board.Checks.{seed_acceptance_checks}
use gctrl.Board.Model.{
  Actor, Tick, BoardIssue, OrchTask, Store, StorageError, dates_out_of_order, get_board_issue,
  get-update_issue, update_issue,
}
use gctrl.Board.Move.{status_of, update_board_issue_status}
use gctrl.Board.Move.Laws.{move-status}
use gctrl.Board.Tasks.{find_nonterminal_task_for_issue, promote_issue_to_task}
use gctrl.Board.Tasks.Laws.{promote-find}
use gctrl.Board.Ops.{
  promote_and_seed, update_board_issue_status_and_promote, patched, out_of_order, with_dates,
  write_dates, schedule_row, scheduled_event, schedule_board_issue, with_session,
  link_session_to_issue,
}

abbrev pub InProgressWith : Store → String → OrchTask → Type 0
InProgressWith s id t =
    (status_of s id ≡ some "in_progress") × (find_nonterminal_task_for_issue s id ≡ some t)

seeded-InProgressWith :
    (u : Store) (at : ℕ) (ticks : ℕ → Tick) (id : String) (cs : List AcceptanceCheck) (t : OrchTask)
    → InProgressWith u id t
    → InProgressWith (seed_acceptance_checks u at ticks id cs) id t
unfolding seed_acceptance_checks status_of get_board_issue find_nonterminal_task_for_issue
seeded-InProgressWith u at ticks id cs t h = h

status_of-same : (s u : Store) (id : String) → u.issues ≡ s.issues → status_of u id ≡ status_of s id
unfolding status_of get_board_issue
status_of-same s u id same = rw same refl

promote_and_seed-started :
    (s : Store) (now : ℕ) (ticks : ℕ → Tick) (at : ℕ) (id agent_kind : String) (s' : Store)
    (t : OrchTask) (r : Result StorageError (Store × OrchTask))
    → promote_issue_to_task s now id agent_kind ≡ r
    → status_of s id ≡ some "in_progress"
    → promote_and_seed s now ticks at id agent_kind (λ x. x) (λ x. x) ≡ (s', ok (some t))
    → InProgressWith s' id t
unfolding promote_and_seed
promote_and_seed-started s now ticks at id agent_kind s' t (err x) e st h =
    cc (rw (promote_and_seed, e) at h)
promote_and_seed-started s now ticks at id agent_kind s' t (ok (u, task)) e st h =
    let h' = rw (promote_and_seed, e) at h in
    let (live, issues) = promote-find s now id agent_kind u task e in
    let same : task ≡ t = cc h' in
    subst (λ x. InProgressWith x id t) (ap (λ p. p.0) h')
      (seeded-InProgressWith u at ticks id _ t
        (status_of-same s u id issues ∙ st, live ∙ ap some same))

-- A move to `in_progress` that returns a task, while no other caller writes between its locks, ends
-- with that status stored for the issue, and the task it returns is the issue's live task.
pub start-InProgressWith :
    (s : Store) (moves seeds : ℕ → Tick) (promoted_at seeded_at : ℕ) (id agent_kind : String)
    (actor : Actor) (s' : Store) (t : OrchTask)
    → update_board_issue_status_and_promote s moves seeds promoted_at seeded_at id "in_progress"
        agent_kind actor
        (λ x. x)
        (λ x. x)
        (λ x. x)
      ≡ (s', ok (some t))
    → InProgressWith s' id t
unfolding update_board_issue_status_and_promote
start-InProgressWith s moves seeds promoted_at seeded_at id agent_kind actor s' t h =
    go (update_board_issue_status s moves id "in_progress" actor) refl
  where
    go :
        (r : Result StorageError Store)
        → update_board_issue_status s moves id "in_progress" actor ≡ r
        → InProgressWith s' id t
    go (err x) e = cc (rw (update_board_issue_status_and_promote, e) at h)
    go (ok u) e =
        promote_and_seed-started u promoted_at seeds seeded_at id agent_kind s' t
          (promote_issue_to_task u promoted_at id agent_kind) refl
          (move-status s moves id "in_progress" actor u e)
          (rw (update_board_issue_status_and_promote, e) at h)

write_dates-get :
    (s : Store) (t : Tick) (id : String) (start due : Option String) (actor : Actor)
    (i : BoardIssue)
    → get_board_issue s id ≡ some i
    → (get_board_issue (write_dates s t id start due actor) id
        ≡ some (with_dates s start due t.now i))
      × ((write_dates s t id start due actor).events
          ≡ s.events ++ scheduled_event s t id actor start due ∷ [])
unfolding write_dates get_board_issue update_issue
write_dates-get s t id start due actor i e =
    (get-update_issue s id (with_dates s start due t.now) i (λ x. refl) e, refl)

schedule_row-cases :
    (lt : String → String → Bool) (s : Store) (t : Tick) (id : String)
    (start_patch due_patch : Option (Option String)) (actor : Actor) (i : BoardIssue)
    → get_board_issue s id ≡ some i
    → let start = patched start_patch i.start_date in
      let due = patched due_patch i.due_date in
      ((out_of_order lt start due ≡ true)
        × (schedule_row lt s t id start_patch due_patch actor (some i) ≡ err dates_out_of_order))
      ⊎ ((out_of_order lt start due ≡ false)
          × ((s' : Store) × (schedule_row lt s t id start_patch due_patch actor (some i) ≡ ok s')
              × (get_board_issue s' id ≡ some (with_dates s start due t.now i))
              × (s'.events ≡ s.events ++ scheduled_event s t id actor start due ∷ [])))
unfolding schedule_row
schedule_row-cases lt s t id start_patch due_patch actor i e =
    let start = patched start_patch i.start_date in
    let due = patched due_patch i.due_date in
    elim (Bool-cases (out_of_order lt start due)) [
      | inl bad ↦ inl (bad, rw bad refl)
      | inr good ↦
          let (row, event) = write_dates-get s t id start due actor i e in
          inr (good, (write_dates s t id start due actor, rw good refl, row, event))
    ]

-- A schedule of an issue that exists is refused exactly when both dates are set after the patch and
-- the due date is before the start date. Otherwise the issue has the patched dates, and one event
-- with them is added.
pub schedule_board_issue-cases :
    (lt : String → String → Bool) (s : Store) (t : Tick) (id : String)
    (start_patch due_patch : Option (Option String)) (actor : Actor) (i : BoardIssue)
    → get_board_issue s id ≡ some i
    → let start = patched start_patch i.start_date in
      let due = patched due_patch i.due_date in
      ((out_of_order lt start due ≡ true)
        × (schedule_board_issue lt s t id start_patch due_patch actor ≡ err dates_out_of_order))
      ⊎ ((out_of_order lt start due ≡ false)
          × ((s' : Store) × (schedule_board_issue lt s t id start_patch due_patch actor ≡ ok s')
              × (get_board_issue s' id ≡ some (with_dates s start due t.now i))
              × (s'.events ≡ s.events ++ scheduled_event s t id actor start due ∷ [])))
unfolding schedule_board_issue
schedule_board_issue-cases lt s t id start_patch due_patch actor i e =
    rw (schedule_board_issue, e) (schedule_row-cases lt s t id start_patch due_patch actor i e)

link-get :
    (s : Store) (now : ℕ) (issue_id session_id : String) (cost tokens : ℕ) (i : BoardIssue)
    → get_board_issue s issue_id ≡ some i
    → (s' : Store) × (link_session_to_issue s now issue_id session_id cost tokens ≡ ok s')
      × (get_board_issue s' issue_id ≡ some (with_session s session_id cost tokens now i))
unfolding link_session_to_issue
link-get s now issue_id session_id cost tokens i e = (
  update_issue s issue_id (with_session s session_id cost tokens now),
  rw (link_session_to_issue, e) refl,
  get-update_issue s issue_id (with_session s session_id cost tokens now) i (λ x. refl) e,
)

any-append_new : (x : String) (xs : List String) → any (λ y. y == x) (xs ++ x ∷ []) ≡ true
any-append_new x [] = ground (arith, beq_self x)
any-append_new x (y ∷ xs) = ground (arith, any-append_new x xs)

linked_has :
    (s : Store) (session_id : String) (cost tokens now : ℕ) (i : BoardIssue)
    → any (λ x. x == session_id) (with_session s session_id cost tokens now i).session_ids ≡ true
linked_has s session_id cost tokens now i =
    elim (Bool-cases (any (λ x. x == session_id) i.session_ids)) [
      | inl e ↦ rw e e
      | inr e ↦ rw e (any-append_new session_id i.session_ids)
    ]

-- A session is linked once, however often it is reported: after a first report the issue lists it,
-- and a second one succeeds, adds its cost and tokens, and leaves the sessions as they are.
pub link_session_again :
    (s : Store) (now later : ℕ) (issue_id session_id : String) (cost tokens cost' tokens' : ℕ)
    (i : BoardIssue)
    → get_board_issue s issue_id ≡ some i
    → (s1 : Store) × (s2 : Store) × (i1 : BoardIssue) × (i2 : BoardIssue) × (link_session_to_issue s
          now issue_id session_id cost tokens
        ≡ ok s1)
      × (link_session_to_issue s1 later issue_id session_id cost' tokens' ≡ ok s2)
      × (get_board_issue s1 issue_id ≡ some i1)
      × (get_board_issue s2 issue_id ≡ some i2)
      × (any (λ x. x == session_id) i1.session_ids ≡ true)
      × (i2.session_ids ≡ i1.session_ids)
      × (i2.total_cost_usd ≡ i.total_cost_usd + cost + cost')
      × (i2.total_tokens ≡ i.total_tokens + tokens + tokens')
link_session_again s now later issue_id session_id cost tokens cost' tokens' i e =
    let (s1, first, got) = link-get s now issue_id session_id cost tokens i e in
    let i1 = with_session s session_id cost tokens now i in
    let (s2, second, got') = link-get s1 later issue_id session_id cost' tokens' i1 got in
    let has = linked_has s session_id cost tokens now i in
    (
      s1,
      s2,
      i1,
      with_session s1 session_id cost' tokens' later i1,
      first,
      second,
      got,
      got',
      has,
      rw has refl,
      refl,
      refl,
    )
