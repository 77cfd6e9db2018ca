-- ===== src/Board/Checks/Laws.antt =====
-- What seeding keeps and resets, and what the roll-up counts.
use gctrl.Prelude.{
  ℕ, suc, ◌+◌, ◌≤◌, ◌<◌, ◌≡◌, refl, ◌∙◌, subst, ◌≢◌, ◌⊎◌, inl, inr, Bool, true, false, not, List,
  [], ◌∷◌, Option, none, some, String, arith, eq_iff, String_eq, length, find, retain, Bool-cases,
  find-append_new, find-append_miss, find-retain, find-update_where, find-update_where_ne, find_hit,
  All, beq_self,
}
use gctrl.Board.Acceptance.{AcceptanceKind, pending, AcceptanceCheck, kind_as_str}
use gctrl.Board.Model.{AcceptanceCheckRow, Store, Tick}
use gctrl.Board.Checks.{
  at_key, is_unchanged, reset_row, new_row, seed_check, seed_loop, is_beyond,
  seed_acceptance_checks, seed_row,
}
use gctrl.Board.Acceptance.Laws.{Numbered}

-- What seeding makes of the row under a check's key: a row that already has the kind and the
-- command stays as it is, any other becomes the check's, pending and with no output.
pub record Seeded (old : Option AcceptanceCheckRow) (check : AcceptanceCheck)
    (r : AcceptanceCheckRow) : Type 0 where
  pub same_kind : r.kind ≡ check.kind
  pub same_command : r.command ≡ check.command
  pub kept :
      (o : AcceptanceCheckRow)
      → old ≡ some o
      → o.kind ≡ check.kind
      → o.command ≡ check.command
      → r ≡ o
  pub fresh :
      ((o : AcceptanceCheckRow)
        → old ≡ some o
        → (o.kind ≢ check.kind) ⊎ (o.command ≢ check.command))
      → (r.status ≡ pending) × (r.output ≡ none)

kind_as_str_injective : (a b : AcceptanceKind) → kind_as_str a ≡ kind_as_str b → a ≡ b
unfolding kind_as_str
kind_as_str_injective a b h = ground (
  arith,
  eq_iff "shell" "test",
  eq_iff "shell" "http",
  eq_iff "test" "http",
  eq_iff "test" "shell",
  eq_iff "http" "shell",
  eq_iff "http" "test",
)

is_unchanged_iff :
    (check : AcceptanceCheck) (r : AcceptanceCheckRow)
    → is_unchanged check r ≡ true
    → (r.kind ≡ check.kind) × (r.command ≡ check.command)
is_unchanged_iff check r h = ground (
  arith,
  eq_iff (kind_as_str r.kind) (kind_as_str check.kind),
  eq_iff r.command check.command,
  kind_as_str_injective r.kind check.kind,
)

unchanged_self :
    (check : AcceptanceCheck) (r : AcceptanceCheckRow)
    → r.kind ≡ check.kind
    → r.command ≡ check.command
    → is_unchanged check r ≡ true
unchanged_self check r k c = rw (k, c, beq_self (kind_as_str check.kind), beq_self check.command)

at_key_self : (r : AcceptanceCheckRow) → at_key r.issue_id r.check_idx r ≡ true
at_key_self r = ground (arith, eq_iff r.issue_id r.issue_id)

-- Under another key nothing is found where this key's test holds.
at_key_other :
    (issue_id j : String) (i k : ℕ) (r : AcceptanceCheckRow)
    → (j ≢ issue_id) ⊎ (i ≢ k)
    → at_key issue_id k r ≡ true
    → at_key j i r ≡ false
at_key_other issue_id j i k r ne h = ground (arith, eq_iff r.issue_id issue_id, eq_iff r.issue_id j)

module _ (now : ℕ) (issue_id : String) (t : Tick) (check : AcceptanceCheck)
    (rows : List AcceptanceCheckRow) where
  abbrev key : AcceptanceCheckRow → Bool
  key = at_key issue_id check.idx

  seed_row-Seeded :
      (old : Option AcceptanceCheckRow)
      → find key rows ≡ old
      → (r : AcceptanceCheckRow) × (find key (seed_row now issue_id t check rows old) ≡ some r)
        × Seeded old check r
  unfolding seed_row new_row reset_row
  seed_row-Seeded none e = (
    new_row issue_id check t now,
    find-append_new key rows (new_row issue_id check t now) e
        (at_key_self (new_row issue_id check t now)),
    record {
      same_kind = refl;
      same_command = refl;
      kept = λ o h _ _. cc;
      fresh = λ _. (refl, refl);
    },
  )
  seed_row-Seeded (some o) e = elim (Bool-cases (is_unchanged check o)) [
    | inl same ↦
        let (k, c) = is_unchanged_iff check o same in
        (
          o,
          rw same e,
          record {
            same_kind = k;
            same_command = c;
            kept = λ o' h _ _. cc;
            fresh =
                λ changed. elim (changed o refl) [ inl d ↦ absurd (d k) | inr d ↦ absurd (d c) ];
          },
        )
    | inr changed ↦ (
      reset_row check now o,
      rw changed (
          find-update_where key key (reset_row check now) rows (λ x. refl) o e
          ∙ rw (find_hit key rows o e)),
      record {
        same_kind = refl;
        same_command = refl;
        kept = λ o' h k c. cc (changed, unchanged_self check o' k c, h);
        fresh = λ _. (refl, refl);
      },
    )
  ]

  seed_row_ne :
      (old : Option AcceptanceCheckRow) (j : String) (i : ℕ)
      → (j ≢ issue_id) ⊎ (i ≢ check.idx)
      → find (at_key j i) (seed_row now issue_id t check rows old) ≡ find (at_key j i) rows
  unfolding seed_row new_row reset_row
  seed_row_ne none j i ne = find-append_miss (at_key j i) rows (new_row issue_id check t now) (
      at_key_other issue_id j i check.idx (new_row issue_id check t now) ne
        (at_key_self (new_row issue_id check t now)))
  seed_row_ne (some o) j i ne = elim (Bool-cases (is_unchanged check o)) [
    | inl same ↦ rw same
    | inr changed ↦ rw changed (
        find-update_where_ne (at_key j i) key (reset_row check now) rows (λ x h.
          (at_key_other issue_id j i check.idx x ne h, at_key_other issue_id j i check.idx x ne h)))
  ]

module _ (now : ℕ) (issue_id : String) (ticks : ℕ → Tick) where
  seed_loop_ne :
      (k : ℕ) (n : ℕ) (cs : List AcceptanceCheck) (rows : List AcceptanceCheckRow) (j : String)
      (i : ℕ)
      → Numbered n cs
      → (j ≢ issue_id) ⊎ (i < n)
      → find (at_key j i) (seed_loop now issue_id ticks k cs rows) ≡ find (at_key j i) rows
  unfolding seed_loop seed_check
  seed_loop_ne k n [] rows j i h ne = refl
  seed_loop_ne k n (c ∷ cs) rows j i h ne =
      seed_loop_ne (suc k) (suc n) cs (seed_check now issue_id (ticks k) c rows) j i h.1
        (ground arith)
      ∙ seed_row_ne now issue_id (ticks k) c rows (find (at_key issue_id c.idx) rows) j i
          (ground arith)

  -- The row of a check after the loop, and what it was before it.
  abbrev pub After : List AcceptanceCheckRow → List AcceptanceCheckRow → AcceptanceCheck → Type 0
  After rows seeded c =
      (r : AcceptanceCheckRow) × (find (at_key issue_id c.idx) seeded ≡ some r)
      × Seeded (find (at_key issue_id c.idx) rows) c r

  After-before :
      (k : ℕ) (c : AcceptanceCheck) (m : ℕ) (cs : List AcceptanceCheck)
      (rows seeded : List AcceptanceCheckRow)
      → Numbered m cs
      → c.idx < m
      → All (After (seed_check now issue_id (ticks k) c rows) seeded) cs
      → All (After rows seeded) cs
  unfolding seed_check
  After-before k c m [] rows seeded h lt a = tt
  After-before k c m (d ∷ cs) rows seeded h lt ((r, found, s), a) = (
    (
      r,
      found,
      subst (λ o. Seeded o d r)
          (seed_row_ne now issue_id (ticks k) c rows (find (at_key issue_id c.idx) rows) issue_id
            d.idx (ground arith))
          s,
    ),
    After-before k c (suc m) cs rows seeded h.1 (omega arith) a,
  )

  seed_loop-Seeded :
      (k : ℕ) (n : ℕ) (cs : List AcceptanceCheck) (rows : List AcceptanceCheckRow)
      → Numbered n cs
      → All (After rows (seed_loop now issue_id ticks k cs rows)) cs
  unfolding seed_loop seed_check
  seed_loop-Seeded k n [] rows h = tt
  seed_loop-Seeded k n (c ∷ cs) rows h =
      let rows' = seed_check now issue_id (ticks k) c rows in
      let (r, found, s) =
        seed_row-Seeded now issue_id (ticks k) c rows (find (at_key issue_id c.idx) rows) refl in
      (
        (r, seed_loop_ne (suc k) (suc n) cs rows' issue_id c.idx h.1 (ground arith) ∙ found, s),
        After-before k c (suc n) cs rows _ h.1 (omega arith)
            (seed_loop-Seeded (suc k) (suc n) cs rows' h.1),
      )

kept_below :
    (issue_id : String) (n i : ℕ) (r : AcceptanceCheckRow)
    → i < n
    → at_key issue_id i r ≡ true
    → not (is_beyond issue_id n r) ≡ true
kept_below issue_id n i r lt h = ground arith

kept_elsewhere :
    (issue_id j : String) (n i : ℕ) (r : AcceptanceCheckRow)
    → j ≢ issue_id
    → at_key j i r ≡ true
    → not (is_beyond issue_id n r) ≡ true
kept_elsewhere issue_id j n i r ne h =
    ground (arith, eq_iff r.issue_id issue_id, eq_iff r.issue_id j)

find_beyond :
    (issue_id : String) (n i : ℕ) (rows : List AcceptanceCheckRow)
    → n ≤ i
    → find (at_key issue_id i) (retain (λ r. not (is_beyond issue_id n r)) rows) ≡ none
find_beyond issue_id n i [] le = refl
find_beyond issue_id n i (r ∷ rows) le = ground (arith, find_beyond issue_id n i rows le)

-- The rows after the last `DELETE`.
After-delete :
    (now : ℕ) (issue_id : String) (ticks : ℕ → Tick) (n m : ℕ) (cs : List AcceptanceCheck)
    (rows seeded : List AcceptanceCheckRow)
    → Numbered m cs
    → m + length cs ≤ n
    → All (After now issue_id ticks rows seeded) cs
    → All (After now issue_id ticks rows (retain (λ r. not (is_beyond issue_id n r)) seeded)) cs
After-delete now issue_id ticks n m [] rows seeded h le a = tt
After-delete now issue_id ticks n m (c ∷ cs) rows seeded h le ((r, found, s), a) = (
  (
    r,
    find-retain (at_key issue_id c.idx) _ seeded
          (λ x hit. kept_below issue_id n c.idx x (omega arith) hit)
        ∙ found,
    s,
  ),
  After-delete now issue_id ticks n (suc m) cs rows seeded h.1 (omega arith) a,
)

-- Seeding numbered checks leaves, under each check's key, a row with its kind and command, which is
-- the old row if that had both, and else is pending with no output; it leaves no row of the issue
-- beyond the last check, and what is found under the keys of other issues as it was.
pub seed_acceptance_checks-Seeded :
    (s : Store) (now : ℕ) (ticks : ℕ → Tick) (issue_id : String) (cs : List AcceptanceCheck)
    → Numbered 0 cs
    → let s' = seed_acceptance_checks s now ticks issue_id cs in
      All (After now issue_id ticks s.checks s'.checks) cs
      × ((i : ℕ) → length cs ≤ i → find (at_key issue_id i) s'.checks ≡ none)
      × ((j : String) (i : ℕ)
          → j ≢ issue_id
          → find (at_key j i) s'.checks ≡ find (at_key j i) s.checks)
unfolding seed_acceptance_checks
seed_acceptance_checks-Seeded s now ticks issue_id cs h =
    let seeded = seed_loop now issue_id ticks 0 cs s.checks in
    (
      After-delete now issue_id ticks (length cs) 0 cs s.checks seeded h (omega arith)
          (seed_loop-Seeded now issue_id ticks 0 0 cs s.checks h),
      λ i le. find_beyond issue_id (length cs) i seeded le,
      λ j i ne.
          find-retain (at_key j i) _ seeded
            (λ x hit. kept_elsewhere issue_id j (length cs) i x ne hit)
          ∙ seed_loop_ne now issue_id ticks 0 0 cs s.checks j i h (inl ne),
    )
