-- ===== src/Orch/Env.antt =====
-- The environment of a dispatched agent: kernel/crates/gctrl-orch/src/agent.rs.
use gctrl.Prelude.{
  ◌≡◌, refl, sym, subst, ◌⊎◌, Bool, true, ◌||◌, List, [], ◌∷◌, ◌++◌, String, arith, eq_iff, ◌==◌,
  String_eq, any, retain, All, find, find-retain, All-retain_self, All-map,
}

abbrev pub base_env_keys : List String
base_env_keys =
    "HOME" ∷ "LANG" ∷ "LC_ALL" ∷ "LC_CTYPE" ∷ "LOGNAME" ∷ "PATH" ∷ "SHELL" ∷ "TERM" ∷ "TMPDIR"
    ∷ "TZ" ∷ "USER" ∷ []

abbrev pub contains_key : List String → String → Bool
contains_key keys k = any (λ a. a == k) keys

unfoldable pub select_env : List (String × String) → List String → List (String × String)
select_env vars passthrough = retain (λ v. contains_key (base_env_keys ++ passthrough) v.0) vars

-- The daemon's own environment is an argument.
unfoldable pub resolve_env : List (String × String) → List String → List (String × String)
unfolding select_env
resolve_env vars passthrough = select_env vars passthrough

any-append :
    (k : String) (xs ys : List String)
    → any (λ a. a == k) (xs ++ ys) ≡ (any (λ a. a == k) xs || any (λ a. a == k) ys)
any-append k [] ys = refl
any-append k (x ∷ xs) ys = ground (arith, any-append k xs ys)

or_split : (a b : Bool) → (a || b) ≡ true → (a ≡ true) ⊎ (b ≡ true)
or_split a b h = ground arith

-- An agent sees no variable but those of the baseline and those that the operator names; and each of
-- these it sees as the daemon does, if the daemon has it.
pub resolve_env-allowed :
    (vars : List (String × String)) (passthrough : List String)
    → All
        (λ v. (contains_key base_env_keys v.0 ≡ true) ⊎ (contains_key passthrough v.0 ≡ true))
        (resolve_env vars passthrough)
      × ((k : String)
          → contains_key (base_env_keys ++ passthrough) k ≡ true
          → find (λ v. v.0 == k) (resolve_env vars passthrough) ≡ find (λ v. v.0 == k) vars)
unfolding resolve_env select_env
resolve_env-allowed vars passthrough = (
  All-map _ (λ v. contains_key (base_env_keys ++ passthrough) v.0 ≡ true)
      (λ v h.
        or_split (contains_key base_env_keys v.0) (contains_key passthrough v.0)
          (rw (any-append v.0 base_env_keys passthrough) at h))
      _ (All-retain_self (λ v. contains_key (base_env_keys ++ passthrough) v.0) vars),
  λ k allowed.
      find-retain (λ v. v.0 == k) (λ v. contains_key (base_env_keys ++ passthrough) v.0) vars
        (λ v same.
          subst (λ x. contains_key (base_env_keys ++ passthrough) x ≡ true)
            (sym ((eq_iff v.0 k).0 same)) allowed),
)
