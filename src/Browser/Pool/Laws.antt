-- ===== src/Browser/Pool/Laws.antt =====
-- The bounds of the pool, and what releases undo.
use gctrl.Prelude.{
  ℕ, zero, suc, ◌≤◌, ◌<◌, ◌≡◌, refl, subst, inl, inr, Bool, true, false, List, [], ◌∷◌, ◌++◌, none,
  some, String, arith, eq_iff, String_eq, beq_self, leb, length, length-append, find,
  find-append_new, All, All-append, Bool-cases, Option-cases,
}
use gctrl.Prelude.Result.{Result, ok, err}
use gctrl.Browser.Config.{BrowserConfig}
use gctrl.Browser.Model.{SessionOptions, BrowserError}
use gctrl.Browser.Pool.{
  PoolState, Chromium, LaunchedChromium, is_chromium, as_u32, has_room, find_warmest, get_elem?,
  AcquireEnv, new_chromium, with_session, update_first, bind_session, launch_and_bind, warmest,
  acquire_valid, acquire, validate,
}
use gctrl.Browser.Pool.Warmest.{find_warmest-some}

module _ {ℓ} {A : Type ℓ} (p : A → Bool) (f : A → A) where
  length-update_first : (xs : List A) → length (update_first p f xs) ≡ length xs
  unfolding update_first
  length-update_first [] = refl
  length-update_first (x ∷ xs) = ground (arith, length-update_first xs)

  All-update_first {κ} :
      (P : A → Type κ) (xs : List A) (a : A)
      → find p xs ≡ some a
      → P (f a)
      → All P xs
      → All P (update_first p f xs)
  unfolding update_first
  All-update_first P [] a e h all_p = tt
  All-update_first P (x ∷ xs) a e h all_p = ground (arith, All-update_first P xs a)

-- No later chromium has the identifier of an earlier one.
abbrev pub Distinct : List Chromium → Type 0
Distinct [] = Unit {0}
Distinct (c ∷ cs) = All (λ d. is_chromium c.chromium.id d ≡ false) cs × Distinct cs

-- What the configuration's types bound.
abbrev pub FitsU32 : BrowserConfig → Type 0
FitsU32 config = (config.pool_max < 4294967296) × (config.contexts_per_chromium_max < 4294967296)

abbrev pub Fits : BrowserConfig → Chromium → Type 0
Fits config c = length c.sessions ≤ config.contexts_per_chromium_max

-- The bounds of the configuration hold, and identifiers are distinct.
abbrev pub Bounded : BrowserConfig → PoolState → Type 0
Bounded config s =
    (length s.chromiums ≤ config.pool_max) × All (Fits config) s.chromiums × Distinct s.chromiums

All-get {κ} :
    (P : Chromium → Type κ) (cs : List Chromium) (i : ℕ) (c : Chromium)
    → get_elem? cs i ≡ some c
    → All P cs
    → P c
All-get P [] i c e h = cc e
All-get P (d ∷ cs) zero c e h = ground (arith, e, h.0)
All-get P (d ∷ cs) (suc i) c e h = All-get P cs i c e h.1

Distinct-find :
    (cs : List Chromium) (i : ℕ) (c : Chromium)
    → Distinct cs
    → get_elem? cs i ≡ some c
    → find (is_chromium c.chromium.id) cs ≡ some c
Distinct-find [] i c h e = cc e
Distinct-find (d ∷ cs) zero c h e = ground (arith, e, beq_self c.chromium.id)
Distinct-find (d ∷ cs) (suc i) c h e =
    let other = All-get (λ x. is_chromium d.chromium.id x ≡ false) cs i c e h.0 in
    ground (
      arith,
      Distinct-find cs i c h.1 e,
      other,
      eq_iff d.chromium.id c.chromium.id,
      eq_iff c.chromium.id d.chromium.id,
    )

All-update_first_keep {κ} :
    (P : Chromium → Type κ) (p : Chromium → Bool) (f : Chromium → Chromium) (cs : List Chromium)
    → ((c : Chromium) → P c → P (f c))
    → All P cs
    → All P (update_first p f cs)
unfolding update_first
All-update_first_keep P p f [] keep h = tt
All-update_first_keep P p f (c ∷ cs) keep h =
    ground (arith, keep c h.0, All-update_first_keep P p f cs keep h.1, h.1)

abbrev KeepsChromium : (Chromium → Chromium) → Type 0
KeepsChromium f = (c : Chromium) → (f c).chromium ≡ c.chromium

other_keeps :
    (f : Chromium → Chromium) (id : String) (c : Chromium)
    → KeepsChromium f
    → is_chromium id c ≡ false
    → is_chromium id (f c) ≡ false
other_keeps f id c keep h = rw (keep c) h

Distinct-update_first :
    (p : Chromium → Bool) (f : Chromium → Chromium) (cs : List Chromium)
    → KeepsChromium f
    → Distinct cs
    → Distinct (update_first p f cs)
unfolding update_first
Distinct-update_first p f [] keep h = tt
Distinct-update_first p f (c ∷ cs) keep h = elim (Bool-cases (p c)) [
  | inl e ↦ rw (e, keep c) h
  | inr e ↦ rw e (
    All-update_first_keep (λ d. is_chromium c.chromium.id d ≡ false) p f cs
        (λ d. other_keeps f c.chromium.id d keep) h.0,
    Distinct-update_first p f cs keep h.1,
  )
]

All-other :
    (c : Chromium) (cs : List Chromium)
    → All (λ d. is_chromium c.chromium.id d ≡ false) cs
    → find (is_chromium c.chromium.id) cs ≡ none
All-other c [] h = refl
All-other c (d ∷ cs) h = rw h.0 (All-other c cs h.1)

-- A new identifier keeps them distinct.
Distinct-append :
    (cs : List Chromium) (c : Chromium)
    → find (is_chromium c.chromium.id) cs ≡ none
    → Distinct cs
    → Distinct (cs ++ c ∷ [])
Distinct-append [] c new h = (tt, tt)
Distinct-append (d ∷ cs) c new h = elim (Bool-cases (is_chromium c.chromium.id d)) [
  | inl e ↦ cc (new, rw e at new)
  | inr e ↦
      let differ : is_chromium d.chromium.id c ≡ false =
        ground (arith, e, eq_iff d.chromium.id c.chromium.id, eq_iff c.chromium.id d.chromium.id) in
      (
        All-append (λ x. is_chromium d.chromium.id x ≡ false) cs (c ∷ []) h.0 (differ, tt),
        Distinct-append cs c (rw e at new) h.1,
      )
]

below_limit : (n m : ℕ) → m < 4294967296 → n ≤ m → as_u32 n ≡ n
below_limit n m small le = omega (arith, small, le)

Fits-room :
    (config : BrowserConfig) (c : Chromium) (id : String) (now : ℕ)
    → FitsU32 config
    → Fits config c
    → has_room config c ≡ true
    → Fits config (with_session id now c)
unfolding has_room
Fits-room config c id now small fits room = ground (
  arith,
  length-append c.sessions (id ∷ []),
  below_limit (length c.sessions) config.contexts_per_chromium_max small.1 fits,
)

Bounded-bind :
    (config : BrowserConfig) (s : PoolState) (c : Chromium) (base : String) (opts : SessionOptions)
    (env : AcquireEnv)
    → find (is_chromium c.chromium.id) s.chromiums ≡ some c
    → Fits config (with_session env.session_id env.now c)
    → Bounded config s
    → Bounded config (bind_session s c.chromium.id base opts env).0
unfolding bind_session
Bounded-bind config s c base opts env e fits (len, all_fit, distinct) =
    rw (e, bind_session)
      (
        rw
            (length-update_first (is_chromium c.chromium.id) (with_session env.session_id env.now)
              s.chromiums)
            len,
        All-update_first _ _ (Fits config) s.chromiums c e fits all_fit,
        Distinct-update_first _ _ s.chromiums (λ d. refl) distinct,
      )

-- No other task runs while the lock is released.
abbrev pub Quiet : AcquireEnv → Type 0
Quiet env = (s : PoolState) → (env.during_launch s ≡ s) × (env.before_bind s ≡ s)

-- A launched process has an identifier of its own.
abbrev pub NewId : PoolState → AcquireEnv → Type 0
NewId s env =
    (l : LaunchedChromium) → env.launched ≡ ok l → find (is_chromium l.id) s.chromiums ≡ none

find-pushed :
    (s : PoolState) (env : AcquireEnv) (l : LaunchedChromium)
    → find (is_chromium l.id) s.chromiums ≡ none
    → find (is_chromium l.id) (s.chromiums ++ new_chromium env l ∷ []) ≡ some (new_chromium env l)
unfolding new_chromium
find-pushed s env l new =
    find-append_new (is_chromium l.id) s.chromiums (new_chromium env l) new (beq_self l.id)

new_Fits :
    (config : BrowserConfig) (env : AcquireEnv) (l : LaunchedChromium)
    → 0 < config.contexts_per_chromium_max
    → Fits config (with_session env.session_id env.now (new_chromium env l))
unfolding new_chromium
new_Fits config env l room = omega (arith, room)

empty_Fits :
    (config : BrowserConfig) (env : AcquireEnv) (l : LaunchedChromium)
    → Fits config (new_chromium env l)
unfolding new_chromium
empty_Fits config env l = omega arith

Bounded-launch :
    (config : BrowserConfig) (s : PoolState) (base : String) (opts : SessionOptions)
    (env : AcquireEnv)
    → 0 < config.contexts_per_chromium_max
    → length s.chromiums < config.pool_max
    → Quiet env
    → (r : Result BrowserError LaunchedChromium) → env.launched ≡ r
    → NewId s env
    → Bounded config s
    → Bounded config (launch_and_bind s base opts env).0
unfolding launch_and_bind
Bounded-launch config s base opts env room below quiet (err x) e new h =
    rw (e, launch_and_bind, (quiet s).0) h
Bounded-launch config s base opts env room below quiet (ok l) e new (len, all_fit, distinct) =
    let pushed : PoolState = record s { chromiums = s.chromiums ++ new_chromium env l ∷ [] } in
    rw (e, launch_and_bind, (quiet s).0, (quiet pushed).1)
      (Bounded-bind config pushed (new_chromium env l) base opts env (find-pushed s env l (new l e))
        (new_Fits config env l room)
        (
          omega (arith, length-append s.chromiums (new_chromium env l ∷ []), below),
          All-append (Fits config) s.chromiums (new_chromium env l ∷ []) all_fit
              (empty_Fits config env l, tt),
          Distinct-append s.chromiums (new_chromium env l) (new l e) distinct,
        ))

-- The chromium that is chosen has room.
warmest-has_room :
    (config : BrowserConfig) (s : PoolState) (c : Chromium)
    → warmest s config ≡ some c
    → (i : ℕ) × (get_elem? s.chromiums i ≡ some c) × (has_room config c ≡ true)
warmest-has_room config s c h = elim (Option-cases (find_warmest s.chromiums config)) [
  | inl e ↦ cc (rw e at h)
  | inr (i, e) ↦
      let (d, got, room, most) = find_warmest-some config s.chromiums i e in
      let same : d ≡ c = cc (got, rw e at h) in
      (
        i,
        subst (λ x. get_elem? s.chromiums i ≡ some x) same got,
        subst (λ x. has_room config x ≡ true) same room,
      )
]

Bounded-acquire_valid :
    (config : BrowserConfig) (base : String) (s : PoolState) (opts : SessionOptions)
    (env : AcquireEnv)
    → FitsU32 config
    → 0 < config.contexts_per_chromium_max
    → Quiet env
    → NewId s env
    → Bounded config s
    → Bounded config (acquire_valid config base s opts env).0
unfolding acquire_valid
Bounded-acquire_valid config base s opts env small room quiet new h =
    elim (Option-cases (warmest s config)) [
      | inl e ↦
          rw (e, acquire_valid)
            (elim (Bool-cases (leb config.pool_max (as_u32 (length s.chromiums)))) [
              | inl full ↦ rw full h
              | inr free ↦ rw free (
                  Bounded-launch config s base opts env room
                    (ground
                      (arith, free, below_limit (length s.chromiums) config.pool_max small.0 h.0))
                    quiet env.launched refl new h)
            ])
      | inr (c, e) ↦
          let (i, got, open_) = warmest-has_room config s c e in
          rw (e, acquire_valid)
            (Bounded-bind config s c base opts env (Distinct-find s.chromiums i c h.2 got)
              (Fits-room config c env.session_id env.now small
                (All-get (Fits config) s.chromiums i c got h.1) open_)
              h)
    ]

-- While no other task runs, an acquisition, whether it succeeds or fails, keeps the pool within its
-- configured bounds: at most `pool_max` chromiums, each with at most `contexts_per_chromium_max`
-- sessions, and with distinct identifiers. The bounds are 32-bit numbers, the second is not zero,
-- and a launched process has an identifier that no other process of the pool has.
pub acquire-Bounded :
    (config : BrowserConfig) (base : String) (s : PoolState) (opts : SessionOptions)
    (env : AcquireEnv)
    → FitsU32 config
    → 0 < config.contexts_per_chromium_max
    → Quiet env
    → NewId s env
    → Bounded config s
    → Bounded config (acquire config base s opts env).0
unfolding acquire
acquire-Bounded config base s opts env small room quiet new h =
    elim (Option-cases (validate config opts)) [
      | inl e ↦
          rw (e, acquire) (Bounded-acquire_valid config base s opts env small room quiet new h)
      | inr (x, e) ↦ rw (e, acquire) h
    ]
