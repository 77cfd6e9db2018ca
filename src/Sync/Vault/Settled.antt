-- ===== src/Sync/Vault/Settled.antt =====
-- A push without failures leaves nothing to upload.
use gctrl.Prelude.{
  ◌≤◌, ◌≡◌, refl, ◌≢◌, true, false, List, [], ◌∷◌, none, some, String, arith, eq_iff, String_eq,
  beq_self, All, Bool-cases, inl, inr, sym, ◌∙◌, ◌⊎◌,
}
use gctrl.Sync.Vault.{
  VaultManifest, VaultSyncPlanEntry, VaultManifestEntry, Entries, insert, get, push_entry,
  push_upload, count_uploaded, count_failed, count_skipped, action_of, Push, Transport, is_upload,
  is_under_any_prefix, has_hash, push_loop, r2_key, put_of, VaultSyncAction, upload,
  skip_hash_match, skip_outside_prefix,
}

-- The file of a plan's entry needs no upload under a manifest.
abbrev pub Settled : List String → VaultManifest → VaultSyncPlanEntry → Type 0
Settled prefixes m e = is_upload (action_of prefixes m false e.rel_path e.sha256) ≡ false

-- No path stands twice in the plan.
abbrev pub Distinct : List VaultSyncPlanEntry → Type 0
Distinct [] = Unit
Distinct (e ∷ es) = All (λ x. e.rel_path ≢ x.rel_path) es × Distinct es

get-insert : (es : Entries) (k : String) (e : VaultManifestEntry) → get (insert es k e) k ≡ some e
unfolding insert
get-insert [] k e = ground (arith, eq_iff k k)
get-insert ((k', e') ∷ es) k e = ground (arith, eq_iff k k, eq_iff k' k, get-insert es k e)

get-insert_ne :
    (es : Entries) (k j : String) (e : VaultManifestEntry)
    → j ≢ k
    → get (insert es k e) j ≡ get es j
unfolding insert
get-insert_ne [] k j e ne = ground (arith, eq_iff k j)
get-insert_ne ((k', e') ∷ es) k j e ne =
    ground (arith, eq_iff k j, eq_iff k' k, eq_iff k' j, get-insert_ne es k j e ne)

hash-Settled :
    (prefixes : List String) (m : VaultManifest) (e : VaultSyncPlanEntry)
    → has_hash e.sha256 (get m.entries e.rel_path) ≡ true
    → Settled prefixes m e
unfolding action_of
hash-Settled prefixes m e h = elim (Bool-cases (is_under_any_prefix e.rel_path prefixes)) [
  | inl under ↦ rw (under, h) refl
  | inr outside ↦ rw outside refl
]

-- What is uploaded, and does not fail, is in the manifest.
push_upload-hash :
    (r2 : Transport) (key : String) (e : VaultSyncPlanEntry) (st : Push)
    → (push_upload r2 key e st).failed ≡ 0
    → has_hash e.sha256 (get (push_upload r2 key e st).manifest.entries e.rel_path) ≡ true
unfolding push_upload count_uploaded count_failed
push_upload-hash r2 key e st clean =
    elim (Bool-cases (put_of r2 (r2_key key e.rel_path) (r2.read e.rel_path))) [
      | inl put ↦ rw (put) (
          rw
            (get-insert st.manifest.entries e.rel_path (record {
              sha256 = e.sha256;
              size_bytes = e.size_bytes;
              uploaded_at = r2.uploaded_at e.rel_path;
              etag = none;
            }))
            (beq_self e.sha256))
      | inr lost ↦ ground (arith, lost)
    ]

-- Another entry of the plan leaves a file's own entry of the manifest alone.
push_entry-get :
    (r2 : Transport) (key : String) (e : VaultSyncPlanEntry) (st : Push) (j : String)
    → j ≢ e.rel_path
    → get (push_entry r2 key e st).manifest.entries j ≡ get st.manifest.entries j
unfolding push_entry push_upload count_uploaded count_failed count_skipped
push_entry-get r2 key e st j ne = ground (
  arith,
  get-insert_ne st.manifest.entries e.rel_path j
      (record {
        sha256 = e.sha256;
        size_bytes = e.size_bytes;
        uploaded_at = r2.uploaded_at e.rel_path;
        etag = none;
      })
      ne,
)

push_entry-failed :
    (r2 : Transport) (key : String) (e : VaultSyncPlanEntry) (st : Push)
    → st.failed ≤ (push_entry r2 key e st).failed
unfolding push_entry push_upload count_uploaded count_failed count_skipped
push_entry-failed r2 key e st = ground arith

push_loop-failed :
    (r2 : Transport) (key : String) (plan : List VaultSyncPlanEntry) (st : Push)
    → st.failed ≤ (push_loop r2 key plan st).failed
unfolding push_loop
push_loop-failed r2 key [] st = omega arith
push_loop-failed r2 key (e ∷ plan) st =
    omega
      (arith, push_loop-failed r2 key plan (push_entry r2 key e st), push_entry-failed r2 key e st)

-- An entry that is not uploaded is settled.
abbrev pub Ready : List String → VaultManifest → VaultSyncPlanEntry → Type 0
Ready prefixes m e = (is_upload e.action ≡ true) ⊎ Settled prefixes m e

pub Settled-get :
    (prefixes : List String) (m n : VaultManifest) (e : VaultSyncPlanEntry)
    → get n.entries e.rel_path ≡ get m.entries e.rel_path
    → Settled prefixes m e
    → Settled prefixes n e
unfolding action_of
Settled-get prefixes m n e same h = rw (same) h

push_entry-Settled :
    (r2 : Transport) (key : String) (prefixes : List String) (e : VaultSyncPlanEntry) (st : Push)
    → (push_entry r2 key e st).failed ≡ 0
    → Ready prefixes st.manifest e
    → Settled prefixes (push_entry r2 key e st).manifest e
unfolding push_entry count_skipped
push_entry-Settled r2 key prefixes e st clean ready = go e.action refl ready
  where
    go :
        (a : VaultSyncAction)
        → e.action ≡ a
        → (is_upload a ≡ true) ⊎ Settled prefixes st.manifest e
        → Settled prefixes (push_entry r2 key e st).manifest e
    go upload is_a h = rw (is_a) (
        hash-Settled prefixes (push_upload r2 key e st).manifest e
          (push_upload-hash r2 key e st (rw (is_a) at clean)))
    go skip_hash_match is_a (inl h) = cc
    go skip_hash_match is_a (inr h) = rw (is_a) h
    go skip_outside_prefix is_a (inl h) = cc
    go skip_outside_prefix is_a (inr h) = rw (is_a) h

push_loop-get :
    (r2 : Transport) (key : String) (plan : List VaultSyncPlanEntry) (st : Push) (j : String)
    → All (λ x. j ≢ x.rel_path) plan
    → get (push_loop r2 key plan st).manifest.entries j ≡ get st.manifest.entries j
unfolding push_loop
push_loop-get r2 key [] st j apart = refl
push_loop-get r2 key (e ∷ plan) st j apart =
    push_loop-get r2 key plan (push_entry r2 key e st) j apart.1
    ∙ push_entry-get r2 key e st j apart.0

push_entry-Ready :
    (r2 : Transport) (key : String) (prefixes : List String) (e : VaultSyncPlanEntry) (st : Push)
    (x : VaultSyncPlanEntry)
    → e.rel_path ≢ x.rel_path
    → Ready prefixes st.manifest x
    → Ready prefixes (push_entry r2 key e st).manifest x
push_entry-Ready r2 key prefixes e st x apart (inl h) = inl h
push_entry-Ready r2 key prefixes e st x apart (inr h) = inr (
    Settled-get prefixes st.manifest (push_entry r2 key e st).manifest x
      (push_entry-get r2 key e st x.rel_path (λ same. apart (sym same))) h)

push_entry-All-Ready :
    (r2 : Transport) (key : String) (prefixes : List String) (e : VaultSyncPlanEntry) (st : Push)
    (xs : List VaultSyncPlanEntry)
    → All (λ x. e.rel_path ≢ x.rel_path) xs
    → All (Ready prefixes st.manifest) xs
    → All (Ready prefixes (push_entry r2 key e st).manifest) xs
push_entry-All-Ready r2 key prefixes e st [] apart ready = tt
push_entry-All-Ready r2 key prefixes e st (x ∷ xs) apart ready = (
  push_entry-Ready r2 key prefixes e st x apart.0 ready.0,
  push_entry-All-Ready r2 key prefixes e st xs apart.1 ready.1,
)

-- A loop without failures settles every entry of its plan.
pub push_loop-Settled :
    (r2 : Transport) (key : String) (prefixes : List String) (plan : List VaultSyncPlanEntry)
    (st : Push)
    → Distinct plan
    → (push_loop r2 key plan st).failed ≡ 0
    → All (Ready prefixes st.manifest) plan
    → All (Settled prefixes (push_loop r2 key plan st).manifest) plan
unfolding push_loop
push_loop-Settled r2 key prefixes [] st apart clean ready = tt
push_loop-Settled r2 key prefixes (e ∷ plan) st apart clean ready =
    let after = push_entry r2 key e st in
    let clean_here : after.failed ≡ 0 = omega (arith, clean, push_loop-failed r2 key plan after) in
    (
      Settled-get prefixes after.manifest (push_loop r2 key plan after).manifest e
          (push_loop-get r2 key plan after e.rel_path apart.0)
          (push_entry-Settled r2 key prefixes e st clean_here ready.0),
      push_loop-Settled r2 key prefixes plan after apart.1 clean
          (push_entry-All-Ready r2 key prefixes e st plan apart.0 ready.1),
    )
