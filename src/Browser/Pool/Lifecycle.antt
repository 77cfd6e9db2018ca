-- ===== src/Browser/Pool/Lifecycle.antt =====
-- A session from its acquisition to its release.
use gctrl.Prelude.{
  ℕ, ◌≡◌, refl, sym, ap, inl, inr, true, List, [], ◌∷◌, ◌++◌, none, some, String, arith, eq_iff,
  String_eq, find, find-append_new, Bool-cases, Option-cases, leb, length,
}
use gctrl.Prelude.Result.{ok, err}
use gctrl.Browser.Config.{BrowserConfig}
use gctrl.Browser.Model.{SessionOptions, SessionInfo}
use gctrl.Browser.Pool.{
  PoolState, SessionRecord, is_session, is_chromium, as_u32, AcquireEnv, acquired, new_chromium,
  new_info, bind_session, launch_and_bind, warmest, acquire_valid, acquire, validate, take_session,
  drop_session, release, get,
}
use gctrl.Browser.Pool.Laws.{Quiet}

-- A session was added after the others.
data Added (s : PoolState) (id : String) (s' : PoolState) (info : SessionInfo) : Type 0 where
  added :
      (r : SessionRecord)
      → s'.sessions ≡ s.sessions ++ r ∷ []
      → r.info ≡ info
      → r.info.id ≡ id
      → Added s id s' info

bind_session-Added :
    (s : PoolState) (chromium_id base : String) (opts : SessionOptions) (env : AcquireEnv)
    (s' : PoolState) (info : SessionInfo)
    → bind_session s chromium_id base opts env ≡ (s', acquired info)
    → Added s env.session_id s' info
unfolding bind_session new_info
bind_session-Added s chromium_id base opts env s' info h =
    elim (Option-cases (find (is_chromium chromium_id) s.chromiums)) [
      | inl e ↦ cc (rw (e, bind_session) at h)
      | inr (c, e) ↦
          let h' = rw (e, bind_session) at h in
          added _ (ap (λ p. p.0.sessions) (sym h')) (ground (arith, h')) refl
    ]

launch_and_bind-Added :
    (s : PoolState) (base : String) (opts : SessionOptions) (env : AcquireEnv) (s' : PoolState)
    (info : SessionInfo)
    → Quiet env
    → (r : _) → env.launched ≡ r
    → launch_and_bind s base opts env ≡ (s', acquired info)
    → Added s env.session_id s' info
unfolding launch_and_bind
launch_and_bind-Added s base opts env s' info quiet (err x) e h = cc (rw (e, launch_and_bind) at h)
launch_and_bind-Added s base opts env s' info quiet (ok l) e h =
    let pushed : PoolState = record s { chromiums = s.chromiums ++ new_chromium env l ∷ [] } in
    go (
      bind_session-Added pushed l.id base opts env s' info
        (rw (e, launch_and_bind, (quiet s).0, (quiet pushed).1) at h))
  where
    go :
        Added
          (record s { chromiums = s.chromiums ++ new_chromium env l ∷ [] })
          env.session_id
          s'
          info
        → Added s env.session_id s' info
    go (added r a b c) = added r a b c

acquire_valid-Added :
    (config : BrowserConfig) (base : String) (s : PoolState) (opts : SessionOptions)
    (env : AcquireEnv) (s' : PoolState) (info : SessionInfo)
    → Quiet env
    → acquire_valid config base s opts env ≡ (s', acquired info)
    → Added s env.session_id s' info
unfolding acquire_valid
acquire_valid-Added config base s opts env s' info quiet h =
    elim (Option-cases (warmest s config)) [
      | inl e ↦ elim (Bool-cases (leb config.pool_max (as_u32 (length s.chromiums)))) [
        | inl full ↦ cc (rw (e, acquire_valid, full) at h)
        | inr free ↦
            launch_and_bind-Added s base opts env s' info quiet env.launched refl
              (rw (e, acquire_valid, free) at h)
      ]
      | inr (c, e) ↦
          bind_session-Added s c.chromium.id base opts env s' info (rw (e, acquire_valid) at h)
    ]

acquire-Added :
    (config : BrowserConfig) (base : String) (s : PoolState) (opts : SessionOptions)
    (env : AcquireEnv) (s' : PoolState) (info : SessionInfo)
    → Quiet env
    → acquire config base s opts env ≡ (s', acquired info)
    → Added s env.session_id s' info
unfolding acquire
acquire-Added config base s opts env s' info quiet h = elim (Option-cases (validate config opts)) [
  | inl e ↦ acquire_valid-Added config base s opts env s' info quiet (rw (e, acquire) at h)
  | inr (x, e) ↦ cc (rw (e, acquire) at h)
]

take_session-append :
    (id : String) (ss : List SessionRecord) (r : SessionRecord)
    → find (is_session id) ss ≡ none
    → is_session id r ≡ true
    → take_session id (ss ++ r ∷ []) ≡ some (r, ss)
unfolding take_session
take_session-append id [] r new h = ground arith
take_session-append id (x ∷ ss) r new h = ground (arith, take_session-append id ss r)

-- A session that is acquired while no other task runs, under an identifier that no session has, can
-- be looked up, and its release leaves exactly the sessions from before.
pub release-acquire :
    (config : BrowserConfig) (base : String) (s : PoolState) (opts : SessionOptions)
    (env : AcquireEnv) (s' : PoolState) (info : SessionInfo) (later : ℕ)
    → Quiet env
    → find (is_session env.session_id) s.sessions ≡ none
    → acquire config base s opts env ≡ (s', acquired info)
    → (get s' env.session_id ≡ some info)
      × ((s'' : PoolState) × (release s' env.session_id later ≡ ok s'')
          × (s''.sessions ≡ s.sessions))
unfolding get release drop_session
release-acquire config base s opts env s' info later quiet new h =
    go (acquire-Added config base s opts env s' info quiet h)
  where
    go :
        Added s env.session_id s' info
        → (get s' env.session_id ≡ some info)
          × ((s'' : PoolState) × (release s' env.session_id later ≡ ok s'')
              × (s''.sessions ≡ s.sessions))
    go (added r all_of same mine) =
        let hit : is_session env.session_id r ≡ true =
          ground (arith, eq_iff r.info.id env.session_id) in
        (
          rw (all_of, find-append_new (is_session env.session_id) s.sessions r new hit)
              (ap some same),
          (
            drop_session s' env.session_id later r s.sessions,
            rw (release, all_of, take_session-append env.session_id s.sessions r new hit) refl,
            refl,
          ),
        )
