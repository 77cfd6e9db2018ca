-- ===== src/Sync/Vault/Again.antt =====
-- A push after a push, and a dry run before one.
use gctrl.Prelude.{
  ◌+◌, ◌≡◌, refl, sym, ap, ◌∙◌, Bool, true, false, List, [], none, String, arith, All-map, length,
  subst,
}
use gctrl.Prelude.Result.{ok, bind-eq-ok, ok-injective}
use gctrl.Sync.Vault.{
  VaultSyncPlanEntry, VaultSyncResult, VaultSyncOpts, VaultManifest, StateDir, load, Walk,
  plan_push, Transport, push_loop, start, prepare, push_plan, push_to_r2, finish, result_of,
  dry_result, count_skips, get,
}
use gctrl.Sync.Vault.Settled.{Settled, Distinct, push_loop-Settled, Settled-get}
use gctrl.Sync.Vault.Plan.{Quiet, plan_push-Quiet, plan_push-Ready}
use gctrl.Sync.Vault.Laws.{
  went, real_push, finish-result, finish-load, load-OwnKeys, OwnKeys, push_loop-Quiet,
  push_loop_totals,
}

-- What a preparation has loaded and planned.
prepared :
    (dir : StateDir) (walk : Walk) (key : String) (prefixes : List String) (force : Bool)
    (both : VaultManifest × List VaultSyncPlanEntry)
    → prepare dir walk key prefixes force ≡ ok both
    → (load dir key ≡ ok (both.0)) × (plan_push walk prefixes (both.0) force ≡ ok (both.1))
unfolding prepare
prepared dir walk key prefixes force both h =
    let (m, loaded, then_plan) = bind-eq-ok (load dir key) _ h in
    let (plan, made, pair) = bind-eq-ok (plan_push walk prefixes m force) _ then_plan in
    let same = ok-injective pair in (loaded ∙ ap (λ b. ok (b.0)) same, cc)

-- A real push whose plan has no upload.
push-Quiet :
    (r2 : Transport) (walk : Walk) (dir : StateDir) (key : String) (prefixes : List String)
    (opts : VaultSyncOpts) (m : VaultManifest) (plan : List VaultSyncPlanEntry)
    → opts.dry_run ≡ false
    → load dir key ≡ ok m
    → plan_push walk prefixes m opts.force ≡ ok plan
    → Quiet plan
    → push_to_r2 r2 walk dir key prefixes opts ≡ record {
      state_dir = dir;
      objects = [];
      result = ok (result_of key plan (record (start m) { skipped = 0 + length plan }));
    }
unfolding push_to_r2 prepare finish
push-Quiet r2 walk dir key prefixes opts m plan real loaded made quiet = rw (loaded) (
    rw (made) (
      real_push r2 dir key opts m plan real
      ∙ ap (finish r2 dir key plan) (push_loop-Quiet r2 key plan (start m) quiet)))

-- If no path stands twice in the plan of a push that is no dry run, each manifest of the state
-- directory has its own project's key, and the push saves without an error and returns a result
-- without failures, then a push of the same files that is not forced uploads nothing, fails for
-- nothing, skips all that the first one planned, and changes neither the state directory nor the
-- bucket, whatever the second one's transport.
pub push_again :
    (r2 later : Transport) (walk : Walk) (dir : StateDir) (key : String) (prefixes : List String)
    (opts opts' : VaultSyncOpts) (r : VaultSyncResult)
    → OwnKeys dir
    → r2.save_error ≡ none
    → opts.dry_run ≡ false
    → opts'.dry_run ≡ false
    → opts'.force ≡ false
    → (push_to_r2 r2 walk dir key prefixes opts).result ≡ ok r
    → r.failed ≡ 0
    → Distinct (r.plan)
    → let first = push_to_r2 r2 walk dir key prefixes opts in
      let second = push_to_r2 later walk first.state_dir key prefixes opts' in
      (second.state_dir ≡ first.state_dir)
      × (second.objects ≡ [])
      × ((r' : VaultSyncResult) × (second.result ≡ ok r')
          × (r'.uploaded ≡ 0)
          × (r'.failed ≡ 0)
          × (r'.skipped ≡ length (r.plan)))
push_again r2 later walk dir key prefixes opts opts' r own fine real real' free h clean apart =
    let (both, prep, same) = went r2 walk dir key prefixes opts r h in
    let m = both.0 in
    let plan = both.1 in
    let st = push_loop r2 key plan (start m) in
    let (loaded, made) = prepared dir walk key prefixes opts.force both prep in
    let whole : push_to_r2 r2 walk dir key prefixes opts ≡ finish r2 dir key plan st =
      same ∙ real_push r2 dir key opts m plan real in
    let result : result_of key plan st ≡ r = finish-result r2 dir key plan st r (rw whole at h) in
    let settled =
      push_loop-Settled r2 key prefixes plan (start m)
        (subst Distinct (sym (ap (λ x. x.plan) result)) apart) (ap (λ x. x.failed) result ∙ clean)
        (plan_push-Ready walk prefixes m opts.force plan made) in
    let (n, loads, entries) =
      finish-load r2 dir key m plan fine loaded (load-OwnKeys dir key m own loaded) in
    let (plan', made', quiet, long) = plan_push-Quiet walk prefixes m n opts.force plan made (
      All-map (Settled prefixes n) (Settled prefixes st.manifest)
        (λ e. Settled-get prefixes st.manifest n e (ap (λ es. get es e.rel_path) entries)) plan
        settled) in
    let quietly =
      push-Quiet later walk (finish r2 dir key plan st).state_dir key prefixes opts' n plan' real'
        loads (rw free made') quiet in
    rw (whole, quietly)
      (
        refl,
        refl,
        (
          result_of key plan' (record (start n) { skipped = 0 + length plan' }),
          refl,
          refl,
          refl,
          omega (arith, long, ap (λ x. length (x.plan)) result),
        ),
      )

-- What a dry run returns is what a push with the same options would do: its plan is the push's, and
-- it skips as many entries; it puts no object and leaves the state directory alone.
pub dry_run-predicts :
    (r2 : Transport) (walk : Walk) (dir : StateDir) (key : String) (prefixes : List String)
    (dry real : VaultSyncOpts) (r : VaultSyncResult)
    → dry.dry_run ≡ true
    → real.dry_run ≡ false
    → dry.force ≡ real.force
    → (push_to_r2 r2 walk dir key prefixes real).result ≡ ok r
    → (push_to_r2 r2 walk dir key prefixes dry ≡ record {
      state_dir = dir;
      objects = [];
      result = ok (record {
        project_key = key;
        plan = r.plan;
        uploaded = 0;
        skipped = r.skipped;
        failed = 0;
        bytes_uploaded = 0;
      });
    })
unfolding push_to_r2 push_plan dry_result
dry_run-predicts r2 walk dir key prefixes dry real r is_dry is_real free h =
    let (both, prep, same) = went r2 walk dir key prefixes real r h in
    let m = both.0 in
    let plan = both.1 in
    let st = push_loop r2 key plan (start m) in
    let whole : push_to_r2 r2 walk dir key prefixes real ≡ finish r2 dir key plan st =
      same ∙ real_push r2 dir key real m plan is_real in
    let result : result_of key plan st ≡ r = finish-result r2 dir key plan st r (rw whole at h) in
    let skips : count_skips plan ≡ st.skipped =
      omega (arith, push_loop_totals r2 key plan (start m)) in
    rw (free) (
      rw (prep) (
        rw (is_dry)
          (rw (skips) (rw (sym (ap (λ x. x.plan) result), sym (ap (λ x. x.skipped) result)) refl))))
