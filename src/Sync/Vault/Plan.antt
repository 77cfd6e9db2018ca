-- ===== src/Sync/Vault/Plan.antt =====
-- The plan of a walk, and the plan of the same walk under another manifest.
use gctrl.Prelude.{
  ℕ, ◌≡◌, refl, inl, inr, Bool, false, List, [], ◌∷◌, Option, none, some, String, All, Bool-cases,
  length, subst, ap, suc, sym, ◌∙◌,
}
use gctrl.Prelude.Result.{Result, ok, ◌>>=◌, bind-eq-ok, ok-injective}
use gctrl.Sync.Vault.{
  VaultSyncPlanEntry, VaultManifest, SyncError, WalkEntry, Walk, is_upload, plan_walk, plan_push,
  plan_entry, planned, inspect, action_of, has_hash, get, is_under_any_prefix,
}
use gctrl.Sync.Vault.Settled.{Settled, Ready}

-- The plan has no upload.
abbrev pub Quiet : List VaultSyncPlanEntry → Type 0
Quiet plan = All (λ e. is_upload e.action ≡ false) plan

Planned-Ready :
    (prefixes : List String) (m : VaultManifest) (force : Bool) (rel_path sha256 : String)
    (size_bytes : ℕ)
    → Ready prefixes m (plan_entry prefixes m force rel_path sha256 size_bytes)
unfolding plan_entry action_of
Planned-Ready prefixes m force rel_path sha256 size_bytes =
    elim (Bool-cases (is_under_any_prefix rel_path prefixes)) [
      | inl under ↦ elim (Bool-cases force) [
        | inl forced ↦ inl (rw (under, forced) refl)
        | inr free ↦ elim (Bool-cases (has_hash sha256 (get m.entries rel_path))) [
          | inl same ↦ inr (rw (under, same) refl)
          | inr other ↦ inl (rw (under, free, other) refl)
        ]
      ]
      | inr outside ↦ inr (rw outside refl)
    ]

planned-Ready :
    (prefixes : List String) (m : VaultManifest) (force : Bool)
    (seen : Option (String × ℕ × String)) (rest : List VaultSyncPlanEntry)
    → All (Ready prefixes m) rest
    → All (Ready prefixes m) (planned prefixes m force seen rest)
planned-Ready prefixes m force none rest h = h
planned-Ready prefixes m force (some (rel_path, size_bytes, sha256)) rest h =
    (Planned-Ready prefixes m force rel_path sha256 size_bytes, h)

-- How a plan of a walk begins.
pub walk_step :
    (prefixes : List String) (m : VaultManifest) (force : Bool) (entry : Result SyncError WalkEntry)
    (walk : List (Result SyncError WalkEntry)) (plan : List VaultSyncPlanEntry)
    → plan_walk prefixes m force (entry ∷ walk) ≡ ok plan
    → (e : WalkEntry) × (entry ≡ ok e)
      × ((seen : Option (String × ℕ × String)) × (inspect e ≡ ok seen)
          × ((rest : List VaultSyncPlanEntry) × (plan_walk prefixes m force walk ≡ ok rest)
              × (planned prefixes m force seen rest ≡ plan)))
unfolding plan_walk
walk_step prefixes m force entry walk plan h =
    let first = bind-eq-ok entry (λ e. inspect e >>= _) h in
    let second = bind-eq-ok (inspect first.0) _ first.2 in
    let third = bind-eq-ok (plan_walk prefixes m force walk) _ second.2 in
    (first.0, first.1, (second.0, second.1, (third.0, third.1, ok-injective third.2)))

-- Every entry of a plan is an upload, or needs none.
pub plan_walk-Ready :
    (prefixes : List String) (m : VaultManifest) (force : Bool)
    (walk : List (Result SyncError WalkEntry)) (plan : List VaultSyncPlanEntry)
    → plan_walk prefixes m force walk ≡ ok plan
    → All (Ready prefixes m) plan
unfolding plan_walk
plan_walk-Ready prefixes m force [] [] h = tt
plan_walk-Ready prefixes m force [] (e ∷ plan) h = cc
plan_walk-Ready prefixes m force (entry ∷ walk) plan h =
    let (e, is_ok, (seen, inspected, (rest, rested, made))) =
      walk_step prefixes m force entry walk plan h in
    subst (All (Ready prefixes m)) made
      (planned-Ready prefixes m force seen rest (plan_walk-Ready prefixes m force walk rest rested))

planned_tail :
    (P : VaultSyncPlanEntry → Type 0) (prefixes : List String) (m : VaultManifest) (force : Bool)
    (seen : Option (String × ℕ × String)) (rest : List VaultSyncPlanEntry)
    → All P (planned prefixes m force seen rest)
    → All P rest
planned_tail P prefixes m force none rest h = h
planned_tail P prefixes m force (some (rel_path, size_bytes, sha256)) rest h = h.1

-- A new plan of what was planned, where all is settled.
planned-Quiet :
    (prefixes : List String) (m n : VaultManifest) (force : Bool)
    (seen : Option (String × ℕ × String)) (rest rest' : List VaultSyncPlanEntry)
    → All (Settled prefixes n) (planned prefixes m force seen rest)
    → Quiet rest'
    → length rest' ≡ length rest
    → Quiet (planned prefixes n false seen rest')
      × (length (planned prefixes n false seen rest') ≡ length (planned prefixes m force seen rest))
unfolding plan_entry
planned-Quiet prefixes m n force none rest rest' settled quiet same = (quiet, same)
planned-Quiet prefixes m n force (some (rel_path, size_bytes, sha256)) rest rest' settled quiet
      same =
    ((settled.0, quiet), ap suc same)

step_again :
    (prefixes : List String) (n : VaultManifest) (entry : Result SyncError WalkEntry)
    (e : WalkEntry) (walk : List (Result SyncError WalkEntry)) (seen : Option (String × ℕ × String))
    (rest : List VaultSyncPlanEntry)
    → entry ≡ ok e
    → inspect e ≡ ok seen
    → plan_walk prefixes n false walk ≡ ok rest
    → plan_walk prefixes n false (entry ∷ walk) ≡ ok (planned prefixes n false seen rest)
unfolding plan_walk
step_again prefixes n entry e walk seen rest is_ok inspected rested =
    rw (is_ok) (rw (inspected) (rw (rested) refl))

-- If every entry of a plan is settled under a manifest, a plan of the same walk under that manifest
-- has as many entries, and no upload.
pub plan_walk-Quiet :
    (prefixes : List String) (m n : VaultManifest) (force : Bool)
    (walk : List (Result SyncError WalkEntry)) (plan : List VaultSyncPlanEntry)
    → plan_walk prefixes m force walk ≡ ok plan
    → All (Settled prefixes n) plan
    → (plan' : List VaultSyncPlanEntry) × (plan_walk prefixes n false walk ≡ ok plan')
      × Quiet plan'
      × (length plan' ≡ length plan)
unfolding plan_walk
plan_walk-Quiet prefixes m n force [] [] h settled = ([], refl, tt, refl)
plan_walk-Quiet prefixes m n force [] (e ∷ plan) h settled = cc
plan_walk-Quiet prefixes m n force (entry ∷ walk) plan h settled =
    let (e, is_ok, (seen, inspected, (rest, rested, made))) =
      walk_step prefixes m force entry walk plan h in
    let whole = subst (All (Settled prefixes n)) (sym made) settled in
    let (rest', again, quiet, same) =
      plan_walk-Quiet prefixes m n force walk rest rested
        (planned_tail (Settled prefixes n) prefixes m force seen rest whole) in
    let both = planned-Quiet prefixes m n force seen rest rest' whole quiet same in
    (
      planned prefixes n false seen rest',
      step_again prefixes n entry e walk seen rest' is_ok inspected again,
      both.0,
      both.1 ∙ ap length made,
    )

pub plan_push-Quiet :
    (walk : Walk) (prefixes : List String) (m n : VaultManifest) (force : Bool)
    (plan : List VaultSyncPlanEntry)
    → plan_push walk prefixes m force ≡ ok plan
    → All (Settled prefixes n) plan
    → (plan' : List VaultSyncPlanEntry) × (plan_push walk prefixes n false ≡ ok plan')
      × Quiet plan'
      × (length plan' ≡ length plan)
unfolding plan_push
plan_push-Quiet none prefixes m n force plan h settled = ([], refl, tt, ap length (ok-injective h))
plan_push-Quiet (some walk) prefixes m n force plan h settled =
    plan_walk-Quiet prefixes m n force walk plan h settled

pub plan_push-Ready :
    (walk : Walk) (prefixes : List String) (m : VaultManifest) (force : Bool)
    (plan : List VaultSyncPlanEntry)
    → plan_push walk prefixes m force ≡ ok plan
    → All (Ready prefixes m) plan
unfolding plan_push
plan_push-Ready none prefixes m force plan h = subst (All (Ready prefixes m)) (ok-injective h) tt
plan_push-Ready (some walk) prefixes m force plan h = plan_walk-Ready prefixes m force walk plan h
