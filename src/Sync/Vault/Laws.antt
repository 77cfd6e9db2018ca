-- ===== src/Sync/Vault/Laws.antt =====
-- What a push of the vault guarantees.
use gctrl.Prelude.{
  suc, ◌+◌, ◌≤◌, ◌≡◌, refl, sym, subst, ap, ◌∙◌, ◌⊎◌, inl, inr, true, false, List, [], ◌∷◌, Option,
  none, some, String, arith, eq_iff, ◌==◌, Bool-cases, length, ltb, String_eq,
}
use gctrl.Prelude.Result.{Result, ok, err, ok-injective}
use gctrl.Sync.Vault.{
  VaultSyncPlanEntry, VaultSyncResult, VaultSyncOpts, VaultManifest, SyncError, StateDir,
  ManifestFile, missing, unreadable, corrupt, holds, load, save, Walk, is_upload, Transport, Push,
  push_entry, push_upload, count_uploaded, count_failed, count_skipped, push_loop, start, prepare,
  push_plan, push_to_r2, finish, result_of, empty, count_skips,
}
use gctrl.Sync.Vault.Plan.{Quiet}

-- What one entry adds to the counters: one, in one of them.
push_entry_counts :
    (r2 : Transport) (key : String) (e : VaultSyncPlanEntry) (st : Push)
    → let st' = push_entry r2 key e st in
      st'.uploaded + st'.skipped + st'.failed ≡ suc (st.uploaded + st.skipped + st.failed)
unfolding push_entry push_upload count_uploaded count_failed count_skipped
push_entry_counts r2 key e st = ground arith

push_loop_counts :
    (r2 : Transport) (key : String) (plan : List VaultSyncPlanEntry) (st : Push)
    → let st' = push_loop r2 key plan st in
      st'.uploaded + st'.skipped + st'.failed ≡ st.uploaded + st.skipped + st.failed + length plan
unfolding push_loop
push_loop_counts r2 key [] st = omega arith
push_loop_counts r2 key (e ∷ plan) st =
    omega
      (arith, push_loop_counts r2 key plan (push_entry r2 key e st), push_entry_counts r2 key e st)

push_entry_kept :
    (r2 : Transport) (key : String) (e : VaultSyncPlanEntry) (st : Push)
    → ((push_entry r2 key e st).uploaded ≡ suc (st.uploaded))
      ⊎ (((push_entry r2 key e st).manifest ≡ st.manifest)
          × ((push_entry r2 key e st).uploaded ≡ st.uploaded)
          × ((push_entry r2 key e st).objects ≡ st.objects))
unfolding push_entry push_upload count_uploaded count_failed count_skipped
push_entry_kept r2 key e st = ground arith

push_entry_key :
    (r2 : Transport) (key : String) (e : VaultSyncPlanEntry) (st : Push)
    → (push_entry r2 key e st).manifest.project_key ≡ st.manifest.project_key
unfolding push_entry push_upload count_uploaded count_failed count_skipped
push_entry_key r2 key e st = ground arith

push_loop_key :
    (r2 : Transport) (key : String) (plan : List VaultSyncPlanEntry) (st : Push)
    → (push_loop r2 key plan st).manifest.project_key ≡ st.manifest.project_key
unfolding push_loop
push_loop_key r2 key [] st = refl
push_loop_key r2 key (e ∷ plan) st =
    push_loop_key r2 key plan (push_entry r2 key e st) ∙ push_entry_key r2 key e st

push_loop_grows :
    (r2 : Transport) (key : String) (plan : List VaultSyncPlanEntry) (st : Push)
    → st.uploaded ≤ (push_loop r2 key plan st).uploaded
unfolding push_loop
push_loop_grows r2 key [] st = omega arith
push_loop_grows r2 key (e ∷ plan) st =
    ground
      (arith, push_loop_grows r2 key plan (push_entry r2 key e st), push_entry_kept r2 key e st)

-- A loop that uploads nothing leaves the manifest alone.
push_loop_kept :
    (r2 : Transport) (key : String) (plan : List VaultSyncPlanEntry) (st : Push)
    → (push_loop r2 key plan st).uploaded ≡ st.uploaded
    → (push_loop r2 key plan st).manifest ≡ st.manifest
unfolding push_loop
push_loop_kept r2 key [] st same = refl
push_loop_kept r2 key (e ∷ plan) st same = elim (push_entry_kept r2 key e st) [
  | inl more ↦ ground (arith, more, same, push_loop_grows r2 key plan (push_entry r2 key e st))
  | inr (m, u, o) ↦ push_loop_kept r2 key plan (push_entry r2 key e st) (same ∙ sym u) ∙ m
]

quiet_entry :
    (r2 : Transport) (key : String) (e : VaultSyncPlanEntry) (st : Push)
    → is_upload e.action ≡ false
    → push_entry r2 key e st ≡ count_skipped st
unfolding push_entry
quiet_entry r2 key e st quiet = ground arith

-- A loop over a plan without uploads only counts what it skips.
pub push_loop-Quiet :
    (r2 : Transport) (key : String) (plan : List VaultSyncPlanEntry) (st : Push)
    → Quiet plan
    → push_loop r2 key plan st ≡ record st { skipped = st.skipped + length plan }
unfolding push_loop count_skipped
push_loop-Quiet r2 key [] st quiet = ground arith
push_loop-Quiet r2 key (e ∷ plan) st quiet =
    ap (push_loop r2 key plan) (quiet_entry r2 key e st quiet.0)
    ∙ push_loop-Quiet r2 key plan (count_skipped st) quiet.1
    ∙ ground arith

push_entry_totals :
    (r2 : Transport) (key : String) (e : VaultSyncPlanEntry) (st : Push)
    → let st' = push_entry r2 key e st in
      (length (st'.objects) + st.uploaded ≡ length (st.objects) + st'.uploaded)
      × (st'.skipped ≡ st.skipped + count_skips (e ∷ []))
unfolding push_entry push_upload count_uploaded count_failed count_skipped count_skips
push_entry_totals r2 key e st = ground arith

pub push_loop_totals :
    (r2 : Transport) (key : String) (plan : List VaultSyncPlanEntry) (st : Push)
    → let st' = push_loop r2 key plan st in
      (length (st'.objects) + st.uploaded ≡ length (st.objects) + st'.uploaded)
      × (st'.skipped ≡ st.skipped + count_skips plan)
unfolding push_loop count_skips
push_loop_totals r2 key [] st = ground arith
push_loop_totals r2 key (e ∷ plan) st =
    ground
      (arith, push_loop_totals r2 key plan (push_entry r2 key e st), push_entry_totals r2 key e st)

-- What a push that returns a result has loaded and planned.
pub went :
    (r2 : Transport) (walk : Walk) (dir : StateDir) (key : String) (prefixes : List String)
    (opts : VaultSyncOpts) (r : VaultSyncResult)
    → (push_to_r2 r2 walk dir key prefixes opts).result ≡ ok r
    → (both : VaultManifest × List VaultSyncPlanEntry) × (prepare dir walk key prefixes opts.force
        ≡ ok both)
      × (push_to_r2 r2 walk dir key prefixes opts ≡ push_plan r2 dir key opts both.0 both.1)
unfolding push_to_r2
went r2 walk dir key prefixes opts r h = go (prepare dir walk key prefixes opts.force) refl
  where
    go :
        (prepared : Result SyncError (VaultManifest × List VaultSyncPlanEntry))
        → prepare dir walk key prefixes opts.force ≡ prepared
        → (both : VaultManifest × List VaultSyncPlanEntry) × (prepared ≡ ok both)
          × (push_to_r2 r2 walk dir key prefixes opts ≡ push_plan r2 dir key opts both.0 both.1)
    go (ok (m, plan)) e = ((m, plan), refl, rw e refl)
    go (err failure) e = cc (rw e at h)

pub real_push :
    (r2 : Transport) (dir : StateDir) (key : String) (opts : VaultSyncOpts) (m : VaultManifest)
    (plan : List VaultSyncPlanEntry)
    → opts.dry_run ≡ false
    → push_plan r2 dir key opts m plan ≡ finish r2 dir key plan (push_loop r2 key plan (start m))
unfolding push_plan
real_push r2 dir key opts m plan real = rw real refl

finish-objects :
    (r2 : Transport) (dir : StateDir) (key : String) (plan : List VaultSyncPlanEntry) (st : Push)
    → (finish r2 dir key plan st).objects ≡ st.objects
unfolding finish
finish-objects r2 dir key plan st = ground arith

pub finish-result :
    (r2 : Transport) (dir : StateDir) (key : String) (plan : List VaultSyncPlanEntry) (st : Push)
    (r : VaultSyncResult)
    → (finish r2 dir key plan st).result ≡ ok r
    → result_of key plan st ≡ r
unfolding finish
finish-result r2 dir key plan st r h = ground arith

-- A push that is no dry run, and returns a result, counts each entry of its plan once, as uploaded,
-- skipped or failed, and puts as many objects as it counts.
pub push_counts :
    (r2 : Transport) (walk : Walk) (dir : StateDir) (key : String) (prefixes : List String)
    (opts : VaultSyncOpts) (r : VaultSyncResult)
    → opts.dry_run ≡ false
    → (push_to_r2 r2 walk dir key prefixes opts).result ≡ ok r
    → (r.uploaded + r.skipped + r.failed ≡ length (r.plan))
      × (length (push_to_r2 r2 walk dir key prefixes opts).objects ≡ r.uploaded)
push_counts r2 walk dir key prefixes opts r real h =
    let ((m, plan), loaded, same) = went r2 walk dir key prefixes opts r h in
    let st = push_loop r2 key plan (start m) in
    let whole : push_to_r2 r2 walk dir key prefixes opts ≡ finish r2 dir key plan st =
      same ∙ real_push r2 dir key opts m plan real in
    subst
      (λ x.
        (x.uploaded + x.skipped + x.failed ≡ length (x.plan))
        × (length (push_to_r2 r2 walk dir key prefixes opts).objects ≡ x.uploaded))
      (finish-result r2 dir key plan st r (rw whole at h))
      (rw (whole, finish-objects r2 dir key plan st)
        (
          omega (arith, push_loop_counts r2 key plan (start m)),
          omega (arith, push_loop_totals r2 key plan (start m)),
        ))

-- Each file of the state directory is the manifest of its own project.
abbrev pub OwnKeys : StateDir → Type 0
OwnKeys dir = (key : String) (m : VaultManifest) → dir key ≡ holds m → m.project_key ≡ key

pub load-OwnKeys :
    (dir : StateDir) (key : String) (m : VaultManifest)
    → OwnKeys dir
    → load dir key ≡ ok m
    → m.project_key ≡ key
unfolding load empty
load-OwnKeys dir key m own h = go (dir key) refl
  where
    go : (file : ManifestFile) → dir key ≡ file → m.project_key ≡ key
    go missing e = ap (λ x. x.project_key) (sym (ok-injective (rw e at h)))
    go (unreadable t) e = cc (rw e at h)
    go (corrupt t) e = cc (rw e at h)
    go (holds n) e = ap (λ x. x.project_key) (sym (ok-injective (rw e at h))) ∙ own key n e

-- What is saved is loaded again.
save-load :
    (dir : StateDir) (key : String) (n : VaultManifest) (failure : Option SyncError)
    → failure ≡ none
    → n.project_key ≡ key
    → load (save dir n failure) key ≡ ok n
unfolding save load
save-load dir key n (some e) fine own = cc
save-load dir key n none fine own =
    let same : (key == n.project_key) ≡ true = (eq_iff key (n.project_key)).1 (sym own) in
    rw (same) refl

-- What a push that saves leaves in the state directory, as the next one loads it.
pub finish-load :
    (r2 : Transport) (dir : StateDir) (key : String) (m : VaultManifest)
    (plan : List VaultSyncPlanEntry)
    → r2.save_error ≡ none
    → load dir key ≡ ok m
    → m.project_key ≡ key
    → let st = push_loop r2 key plan (start m) in
      (n : VaultManifest) × (load (finish r2 dir key plan st).state_dir key ≡ ok n)
      × (n.entries ≡ st.manifest.entries)
unfolding finish save load
finish-load r2 dir key m plan fine loaded own =
    let st = push_loop r2 key plan (start m) in
    elim (Bool-cases (ltb 0 st.uploaded)) [
      | inl some_up ↦ (
        record (st.manifest) { updated_at = some r2.finished_at },
        rw (some_up)
            (save-load dir key _ r2.save_error fine (push_loop_key r2 key plan (start m) ∙ own)),
        refl,
      )
      | inr none_up ↦ (
        m,
        rw (none_up) loaded,
        sym (ap (λ x. x.entries) (push_loop_kept r2 key plan (start m) (ground (arith, none_up)))),
      )
    ]
