-- ===== src/Sync/Examples.antt =====
-- Pushes of a project with two files, one of them under a directory with a dot.
use gctrl.Prelude.{
  ℕ, ◌+◌, ◌≡◌, refl, Bool, true, false, List, [], ◌∷◌, Option, none, some, String, length, Eq,
  String_eq,
}
use gctrl.Prelude.Result.{ok}
use gctrl.Sync.Vault.{
  WalkEntry, Walk, Transport, StateDir, missing, VaultSyncOpts, VaultSyncResult, VaultManifest,
  upload, push_to_r2, SyncError, VaultSyncPlanEntry,
}
use gctrl.Sync.Vault.Laws.{push_counts}
use gctrl.Sync.Vault.Again.{push_again}

abbrev file : List (Option String) → String → WalkEntry
file components path = record {
  is_file = true;
  components = components;
  path = some path;
  size = ok 2;
  hash = ok "5e";
}

abbrev walk : Walk
walk = some (
    ok (file (some "a" ∷ some "b.md" ∷ []) "a/b.md")
    ∷ ok (file (some ".git" ∷ some "c" ∷ []) ".git/c")
    ∷ [])

abbrev r2 : Transport
r2 = record {
  read = λ path. some (1 ∷ 2 ∷ []);
  accepts = λ key body. true;
  uploaded_at = λ path. "now";
  finished_at = "then";
  save_error = none;
}

abbrev fresh : StateDir
fresh key = missing

abbrev opts : Bool → VaultSyncOpts
opts dry_run = record { dry_run = dry_run; force = false; concurrency = 8 }

abbrev planned_file : VaultSyncPlanEntry
planned_file = record { rel_path = "a/b.md"; sha256 = "5e"; size_bytes = 2; action = upload }

abbrev outcome : VaultSyncResult
outcome = record {
  project_key = "UBER";
  plan = planned_file ∷ [];
  uploaded = 1;
  skipped = 0;
  failed = 0;
  bytes_uploaded = 2;
}

pushes : (push_to_r2 r2 walk fresh "UBER" ("a/" ∷ []) (opts false)).result ≡ ok outcome
unfolding push_to_r2 gctrl.Prelude.Text.trim_end_matches gctrl.Sync.Vault.empty
pushes = refl

push_counts_example :
    (outcome.uploaded + outcome.skipped + outcome.failed ≡ length outcome.plan)
    × (length (push_to_r2 r2 walk fresh "UBER" ("a/" ∷ []) (opts false)).objects ≡ outcome.uploaded)
push_counts_example = push_counts r2 walk fresh "UBER" ("a/" ∷ []) (opts false) outcome refl pushes

push_again_example :
    let first = push_to_r2 r2 walk fresh "UBER" ("a/" ∷ []) (opts false) in
    let second = push_to_r2 r2 walk first.state_dir "UBER" ("a/" ∷ []) (opts false) in
    (second.state_dir ≡ first.state_dir)
    × (second.objects ≡ [])
    × ((r' : VaultSyncResult) × (second.result ≡ ok r')
        × (r'.uploaded ≡ 0)
        × (r'.failed ≡ 0)
        × (r'.skipped ≡ length outcome.plan))
push_again_example =
    push_again r2 r2 walk fresh "UBER" ("a/" ∷ []) (opts false) (opts false) outcome (λ key m e. cc)
      refl refl refl refl pushes refl (tt, tt)
