-- ===== src/Sync/Vault.antt =====
-- The vault's planner and push: kernel/crates/gctrl-sync/src/vault.rs. What the walk of a project's
-- files finds, the reads, the uploads and the clock are arguments. A manifest's entries are an
-- association list, and its file is a cell of the state directory. Counters are plain numbers, since
-- they count the entries of a list.
pub mod Settled
pub mod Plan
pub mod Laws
pub mod Again
use gctrl.Prelude.{
  ℕ, zero, suc, ◌+◌, Bool, true, false, not, ◌&&◌, ◌||◌, List, [], ◌∷◌, Option, none, some, String,
  ◌==◌, String_eq, nat_eq, ltb, any, if◌then◌else◌, length,
}
use gctrl.Prelude.Decimal.{◌⁀◌}
use gctrl.Prelude.Text.{starts_with, trim_end_matches}
use gctrl.Prelude.Result.{Result, ok, err, ◌>>=◌}
use Prim.Native.Char.{Char, code}
use Prim.Native.String

pub data VaultSyncAction : Type 0 where
  upload skip_hash_match skip_outside_prefix : VaultSyncAction

pub record VaultSyncPlanEntry : Type 0 where
  pub rel_path : String
  pub sha256 : String
  pub size_bytes : ℕ
  pub action : VaultSyncAction

pub record VaultSyncResult : Type 0 where
  pub project_key : String
  pub plan : List VaultSyncPlanEntry
  pub uploaded : ℕ
  pub skipped : ℕ
  pub failed : ℕ
  pub bytes_uploaded : ℕ

pub record VaultSyncOpts : Type 0 where
  pub dry_run : Bool
  pub force : Bool
  pub concurrency : ℕ

pub record VaultManifestEntry : Type 0 where
  pub sha256 : String
  pub size_bytes : ℕ
  pub uploaded_at : String
  pub etag : Option String

-- The entries of a `BTreeMap`, each with its key.
abbrev pub Entries : Type 0
Entries = List (String × VaultManifestEntry)

abbrev pub get : Entries → String → Option VaultManifestEntry
get [] k = none
get ((k', e) ∷ es) k = if k' == k then some e else get es k

unfoldable pub insert : Entries → String → VaultManifestEntry → Entries
insert [] k e = (k, e) ∷ []
insert ((k', e') ∷ es) k e = if k' == k then (k, e) ∷ es else (k', e') ∷ insert es k e

pub record VaultManifest : Type 0 where
  pub version : ℕ
  pub project_key : String
  pub updated_at : Option String
  pub entries : Entries

unfoldable pub empty : String → VaultManifest
empty project_key = record {
  version = 1;
  project_key = project_key;
  updated_at = none;
  entries = [];
}

-- `SyncError`, of the kinds that the vault raises.
pub data SyncError : Type 0 where
  io : String → SyncError
  manifest : String → SyncError

-- The file of a project's manifest, as a read of it ends.
pub data ManifestFile : Type 0 where
  missing : ManifestFile
  unreadable : String → ManifestFile
  corrupt : String → ManifestFile
  holds : VaultManifest → ManifestFile

-- The state directory, by project key.
abbrev pub StateDir : Type 0
StateDir = String → ManifestFile

abbrev read_manifest : String → ManifestFile → Result SyncError VaultManifest
read_manifest project_key missing = ok (empty project_key)
read_manifest project_key (unreadable text) = err (io text)
read_manifest project_key (corrupt text) = err (manifest text)
read_manifest project_key (holds m) = ok m

unfoldable pub load : StateDir → String → Result SyncError VaultManifest
load state_dir project_key = read_manifest project_key (state_dir project_key)

-- A save renames a complete file over the old one, or fails with the error that is given and leaves
-- the old one.
unfoldable pub save : StateDir → VaultManifest → Option SyncError → StateDir
save state_dir m (some failure) = state_dir
save state_dir m none = λ key. if key == m.project_key then holds m else state_dir key

-- What the walk finds of a path below the project's root: its components and the whole path, where
-- they are UTF-8, and what asking for its size and hash ends with.
pub record WalkEntry : Type 0 where
  pub is_file : Bool
  pub components : List (Option String)
  pub path : Option String
  pub size : Result SyncError ℕ
  pub hash : Result SyncError String

abbrev is_dotted : Option String → Bool
is_dotted none = false
is_dotted (some c) = starts_with c "."

-- `replace('\\', "/")`.
unfoldable pub forward_slashes : String → String
forward_slashes String.[] = String.[]
forward_slashes (String.◌∷◌ c s) =
    let rest = forward_slashes s in if nat_eq (code c) 92 then "/" ⁀ rest else String.◌∷◌ c rest

abbrev under_prefix : String → String → Bool
under_prefix rel_path prefix =
    let p = trim_end_matches 47 prefix in rel_path == p || starts_with rel_path (p ⁀ "/")

unfoldable pub is_under_any_prefix : String → List String → Bool
is_under_any_prefix rel_path [] = true
is_under_any_prefix rel_path (p ∷ ps) = any (under_prefix rel_path) (p ∷ ps)

abbrev pub has_hash : String → Option VaultManifestEntry → Bool
has_hash sha256 none = false
has_hash sha256 (some e) = e.sha256 == sha256

unfoldable pub action_of : List String → VaultManifest → Bool → String → String → VaultSyncAction
unfolding is_under_any_prefix
action_of prefixes m force rel_path sha256 =
    if not (is_under_any_prefix rel_path prefixes)
    then skip_outside_prefix
    else if not force && has_hash sha256 (get m.entries rel_path)
    then skip_hash_match
    else upload

unfoldable pub plan_entry :
    List String → VaultManifest → Bool → String → String → ℕ → VaultSyncPlanEntry
unfolding action_of
plan_entry prefixes m force rel_path sha256 size_bytes = record {
  rel_path = rel_path;
  sha256 = sha256;
  size_bytes = size_bytes;
  action = action_of prefixes m force rel_path sha256;
}

-- A path that is left out, or its path, size and hash.
unfoldable pub inspect : WalkEntry → Result SyncError (Option (String × ℕ × String))
unfolding forward_slashes
inspect e = if not e.is_file || any is_dotted e.components then ok none else elim e.path [
  | none ↦ err (io "non-utf8 path")
  | some p ↦ do
    size_bytes ← e.size
    sha256 ← e.hash
    ok (some (forward_slashes p, size_bytes, sha256))
]

abbrev pub planned :
    List String
    → VaultManifest
    → Bool
    → Option (String × ℕ × String)
    → List VaultSyncPlanEntry
    → List VaultSyncPlanEntry
planned prefixes m force none rest = rest
planned prefixes m force (some (rel_path, size_bytes, sha256)) rest =
    plan_entry prefixes m force rel_path sha256 size_bytes ∷ rest

unfoldable pub plan_walk :
    List String
    → VaultManifest
    → Bool
    → List (Result SyncError WalkEntry)
    → Result SyncError (List VaultSyncPlanEntry)
unfolding inspect plan_entry
plan_walk prefixes m force [] = ok []
plan_walk prefixes m force (entry ∷ walk) = do
  e ← entry
  seen ← inspect e
  rest ← plan_walk prefixes m force walk
  ok (planned prefixes m force seen rest)

-- The walk of the project's root, if there is one.
abbrev pub Walk : Type 0
Walk = Option (List (Result SyncError WalkEntry))

unfoldable pub plan_push :
    Walk → List String → VaultManifest → Bool → Result SyncError (List VaultSyncPlanEntry)
unfolding plan_walk
plan_push none prefixes m force = ok []
plan_push (some walk) prefixes m force = plan_walk prefixes m force walk

unfoldable pub r2_key : String → String → String
r2_key project_key rel_path = "vaults/" ⁀ project_key ⁀ "/" ⁀ rel_path

-- The outside of a push: the body that a read of a path below the project's root gives, whether the
-- bucket takes an object, the clock, and the error of a save.
pub record Transport : Type 0 where
  pub read : String → Option (List ℕ)
  pub accepts : String → List ℕ → Bool
  pub uploaded_at : String → String
  pub finished_at : String
  pub save_error : Option SyncError

-- The variables of the loop, and what has been put into the bucket, the newest first.
pub record Push : Type 0 where
  pub manifest : VaultManifest
  pub uploaded : ℕ
  pub skipped : ℕ
  pub failed : ℕ
  pub bytes_uploaded : ℕ
  pub objects : List (String × List ℕ)

abbrev pub put_of : Transport → String → Option (List ℕ) → Bool
put_of r2 key none = false
put_of r2 key (some body) = r2.accepts key body

abbrev body_of : Option (List ℕ) → List ℕ
body_of none = []
body_of (some body) = body

unfoldable pub count_failed : Push → Push
count_failed st = record st { failed = st.failed + 1 }

unfoldable pub count_skipped : Push → Push
count_skipped st = record st { skipped = st.skipped + 1 }

unfoldable pub count_uploaded : Transport → String → VaultSyncPlanEntry → List ℕ → Push → Push
unfolding insert
count_uploaded r2 key entry body st = record {
  manifest = record (st.manifest) {
    entries = insert st.manifest.entries entry.rel_path (record {
      sha256 = entry.sha256;
      size_bytes = entry.size_bytes;
      uploaded_at = r2.uploaded_at entry.rel_path;
      etag = none;
    });
  };
  uploaded = st.uploaded + 1;
  skipped = st.skipped;
  failed = st.failed;
  bytes_uploaded = st.bytes_uploaded + length body;
  objects = (key, body) ∷ st.objects;
}

unfoldable pub push_upload : Transport → String → VaultSyncPlanEntry → Push → Push
unfolding count_uploaded count_failed r2_key
push_upload r2 project_key entry st =
    let key = r2_key project_key entry.rel_path in
    let body = r2.read entry.rel_path in
    if put_of r2 key body then count_uploaded r2 key entry (body_of body) st else count_failed st

unfoldable pub push_entry : Transport → String → VaultSyncPlanEntry → Push → Push
unfolding push_upload count_skipped
push_entry r2 project_key entry st = elim entry.action [
  | upload ↦ push_upload r2 project_key entry st
  | skip_hash_match ↦ count_skipped st
  | skip_outside_prefix ↦ count_skipped st
]

unfoldable pub push_loop : Transport → String → List VaultSyncPlanEntry → Push → Push
unfolding push_entry
push_loop r2 project_key [] st = st
push_loop r2 project_key (entry ∷ plan) st =
    push_loop r2 project_key plan (push_entry r2 project_key entry st)

abbrev pub start : VaultManifest → Push
start m = record {
  manifest = m;
  uploaded = 0;
  skipped = 0;
  failed = 0;
  bytes_uploaded = 0;
  objects = [];
}

abbrev pub is_upload : VaultSyncAction → Bool
is_upload upload = true
is_upload skip_hash_match = false
is_upload skip_outside_prefix = false

unfoldable pub count_skips : List VaultSyncPlanEntry → ℕ
count_skips [] = 0
count_skips (entry ∷ plan) =
    let rest = count_skips plan in if is_upload entry.action then rest else suc rest

unfoldable pub dry_result : String → List VaultSyncPlanEntry → VaultSyncResult
unfolding count_skips
dry_result project_key plan = record {
  project_key = project_key;
  plan = plan;
  uploaded = 0;
  skipped = count_skips plan;
  failed = 0;
  bytes_uploaded = 0;
}

abbrev pub result_of : String → List VaultSyncPlanEntry → Push → VaultSyncResult
result_of project_key plan st = record {
  project_key = project_key;
  plan = plan;
  uploaded = st.uploaded;
  skipped = st.skipped;
  failed = st.failed;
  bytes_uploaded = st.bytes_uploaded;
}

-- What a push leaves: the state directory, the objects it put, and its result.
pub record Pushed : Type 0 where
  pub state_dir : StateDir
  pub objects : List (String × List ℕ)
  pub result : Result SyncError VaultSyncResult

abbrev saved : Option SyncError → VaultSyncResult → Result SyncError VaultSyncResult
saved none result = ok result
saved (some failure) result = err failure

unfoldable pub finish : Transport → StateDir → String → List VaultSyncPlanEntry → Push → Pushed
unfolding save
finish r2 state_dir project_key plan st =
    if ltb 0 st.uploaded
    then record {
      state_dir =
          save state_dir (record (st.manifest) { updated_at = some r2.finished_at }) r2.save_error;
      objects = st.objects;
      result = saved r2.save_error (result_of project_key plan st);
    }
    else record {
      state_dir = state_dir;
      objects = st.objects;
      result = ok (result_of project_key plan st);
    }

unfoldable pub push_plan :
    Transport → StateDir → String → VaultSyncOpts → VaultManifest → List VaultSyncPlanEntry → Pushed
unfolding push_loop finish dry_result
push_plan r2 state_dir project_key opts m plan =
    if opts.dry_run
    then record { state_dir = state_dir; objects = []; result = ok (dry_result project_key plan) }
    else finish r2 state_dir project_key plan (push_loop r2 project_key plan (start m))

abbrev pub push_loaded :
    Transport
    → StateDir
    → Walk
    → String
    → List String
    → VaultSyncOpts
    → Result SyncError (VaultManifest × List VaultSyncPlanEntry)
    → Pushed
push_loaded r2 state_dir walk project_key prefixes opts (err e) = record {
  state_dir = state_dir;
  objects = [];
  result = err e;
}
push_loaded r2 state_dir walk project_key prefixes opts (ok (m, plan)) =
    push_plan r2 state_dir project_key opts m plan

unfoldable pub prepare :
    StateDir
    → Walk
    → String
    → List String
    → Bool
    → Result SyncError (VaultManifest × List VaultSyncPlanEntry)
unfolding load plan_push
prepare state_dir walk project_key prefixes force = do
  m ← load state_dir project_key
  plan ← plan_push walk prefixes m force
  ok (m, plan)

unfoldable pub push_to_r2 :
    Transport → Walk → StateDir → String → List String → VaultSyncOpts → Pushed
unfolding prepare push_plan
push_to_r2 r2 walk state_dir project_key prefixes opts =
    push_loaded r2 state_dir walk project_key prefixes opts
      (prepare state_dir walk project_key prefixes opts.force)
