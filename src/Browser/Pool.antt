-- ===== src/Browser/Pool.antt =====
-- The pool of kernel/crates/gctrl-browser/src/pool.rs. What a task reads from the clock, the
-- launcher and the generators of identifiers is an argument, and so is what other tasks do to the
-- state while it holds no lock. A time is a number of nanoseconds, a tap the number of its channel.
pub mod Laws
pub mod Lifecycle
pub mod Warmest
pub mod Attach
pub mod Sweep
use mathlib.Core.Option
use gctrl.Prelude.{
  ℕ, zero, suc, ◌+◌, ◌*◌, ◌%◌, ◌≡◌, refl, Bool, true, false, not, ◌&&◌, ◌||◌, List, [], ◌∷◌, ◌++◌,
  Option, none, some, String, arith, ◌==◌, String_eq, nat_eq, leb, ltb, length, find, retain,
  position, update_where, if◌then◌else◌, map,
}
use gctrl.Prelude.Decimal.{◌⁀◌}
use gctrl.Prelude.Result.{Result, ok, err, ◌>>=◌, ok_or}
use gctrl.Browser.Config.{BrowserConfig}
use gctrl.Browser.Model.{
  SessionOptions, SessionInfo, SessionStatus, BrowserError, pool_exhausted, session_not_found,
  session_expired, invalid_token, cdp, invalid_request,
}
use gctrl.Browser.Recycle
use gctrl.Browser.Recycle.{
  ChromiumState, is_active, ChromiumSnapshot, RecyclePlan, drain, kill, RecycleConfig, decide,
}

-- What `Launcher::launch` returns of a process: the pool does not read its handle.
pub record LaunchedChromium : Type 0 where
  pub id : String
  pub version : String
  pub browser_ws_url : String

pub record Chromium : Type 0 where
  pub chromium : LaunchedChromium
  pub state : ChromiumState
  pub created_at : ℕ
  pub last_active_at : ℕ
  pub sessions : List String
  pub tap : ℕ

pub record SessionRecord : Type 0 where
  pub info : SessionInfo
  pub token : String
  pub chromium_id : String
  pub tap : ℕ

pub record PoolState : Type 0 where
  pub chromiums : List Chromium
  pub sessions : List SessionRecord

abbrev pub empty_pool : PoolState
empty_pool = record { chromiums = []; sessions = [] }

unfoldable pub active_count : PoolState → ℕ
active_count s = length s.sessions

unfoldable pub chromium_count : PoolState → ℕ
chromium_count s = length s.chromiums

unfoldable pub browser_version : PoolState → Option String
browser_version s = elim s.chromiums [ [] ↦ none | c ∷ cs ↦ some c.chromium.version ]

-- `len() as u32`.
abbrev pub as_u32 : ℕ → ℕ
as_u32 n = n % 4294967296

-- The filter of `find_warmest`.
unfoldable pub has_room : BrowserConfig → Chromium → Bool
has_room config c =
    is_active c.state && ltb (as_u32 (length c.sessions)) config.contexts_per_chromium_max

-- `max_by_key` keeps the later one of two equal keys.
abbrev pub beats : ℕ → Option (ℕ × ℕ) → Bool
beats key none = true
beats key (some (idx, best)) = leb best key

-- The rest of the iteration, from index `i` on, with the best index and its key so far.
unfoldable pub warmest_loop : BrowserConfig → ℕ → Option (ℕ × ℕ) → List Chromium → Option ℕ
unfolding has_room
warmest_loop config i best [] = Option.map (λ b. b.0) best
warmest_loop config i best (c ∷ cs) =
    warmest_loop config (suc i)
      (if has_room config c && beats (length c.sessions) best
        then some (i, length c.sessions)
        else best)
      cs

unfoldable pub find_warmest : List Chromium → BrowserConfig → Option ℕ
unfolding warmest_loop
find_warmest chromiums config = warmest_loop config 0 none chromiums

abbrev pub get_elem? : List Chromium → ℕ → Option Chromium
get_elem? [] i = none
get_elem? (c ∷ cs) zero = some c
get_elem? (c ∷ cs) (suc i) = get_elem? cs i

abbrev pub is_chromium : String → Chromium → Bool
is_chromium id c = c.chromium.id == id

abbrev pub is_session : String → SessionRecord → Bool
is_session id s = s.info.id == id

-- The tests at the head of `acquire`.
unfoldable pub validate : BrowserConfig → SessionOptions → Option BrowserError
validate config opts =
    if opts.headed && not config.headed_default
    then some
        (invalid_request "headed mode requires browser.headed_default=true and a display server")
    else if nat_eq opts.ttl_seconds 0 || ltb 3600 opts.ttl_seconds
    then some (invalid_request "ttl_seconds must be in (0, 3600]")
    else if nat_eq opts.recording.max_bytes 0
    then some (invalid_request "recording.max_bytes must be > 0")
    else none

-- What an acquisition reads from outside, and what other tasks do while it holds no lock.
pub record AcquireEnv : Type 0 where
  pub launched : Result BrowserError LaunchedChromium
  pub new_tap : ℕ
  pub launched_at : ℕ
  pub during_launch : PoolState → PoolState
  pub before_bind : PoolState → PoolState
  pub session_id : String
  pub token : String
  pub now : ℕ

unfoldable pub new_chromium : AcquireEnv → LaunchedChromium → Chromium
new_chromium env launched = record {
  chromium = launched;
  state = Recycle.active;
  created_at = env.launched_at;
  last_active_at = env.launched_at;
  sessions = [];
  tap = env.new_tap;
}

pub data Acquired : Type 0 where
  acquired : SessionInfo → Acquired
  rejected : BrowserError → Acquired
  panicked : Acquired

unfoldable pub new_info : String → SessionOptions → AcquireEnv → Chromium → SessionInfo
new_info base opts env c = record {
  id = env.session_id;
  created_at = env.now;
  expires_at = env.now + opts.ttl_seconds * 1000000000;
  browser_version = c.chromium.version;
  status = SessionStatus.active;
  recording = opts.recording;
  cdp_endpoint = base ⁀ "/api/browser/sessions/" ⁀ env.session_id ⁀ "/cdp?token=" ⁀ env.token;
  token = env.token;
  dropped_frames = 0;
}

abbrev pub with_session : String → ℕ → Chromium → Chromium
with_session id now c = record c { sessions = c.sessions ++ id ∷ []; last_active_at = now }

-- The first entry that meets the test is changed: `iter_mut().find`.
unfoldable pub update_first {ℓ} : {A : Type ℓ} → (A → Bool) → (A → A) → List A → List A
update_first p f [] = []
update_first p f (x ∷ xs) = if p x then f x ∷ xs else x ∷ update_first p f xs

-- The second half of `acquire`, under one lock.
unfoldable pub bind_session :
    PoolState → String → String → SessionOptions → AcquireEnv → PoolState × Acquired
unfolding new_info update_first
bind_session s chromium_id base opts env = elim (find (is_chromium chromium_id) s.chromiums) [
  | none ↦ (s, panicked)
  | some c ↦ (
    record {
      chromiums =
          update_first (is_chromium chromium_id) (with_session env.session_id env.now) s.chromiums;
      sessions =
          s.sessions
          ++ record {
            info = new_info base opts env c;
            token = env.token;
            chromium_id = chromium_id;
            tap = c.tap;
          }
            ∷ [];
    },
    acquired (new_info base opts env c),
  )
]

-- The launch and the push of the new process, each with the lock released before it.
unfoldable pub launch_and_bind :
    PoolState → String → SessionOptions → AcquireEnv → PoolState × Acquired
unfolding new_chromium bind_session
launch_and_bind s base opts env = elim env.launched [
  | err e ↦ (env.during_launch s, rejected e)
  | ok launched ↦
      let waited = env.during_launch s in
      let pushed = record waited {
        chromiums = waited.chromiums ++ new_chromium env launched ∷ [];
      } in
      bind_session (env.before_bind pushed) launched.id base opts env
]

-- The chromium that `find_warmest` points at.
abbrev pub chromium_at : List Chromium → Option ℕ → Option Chromium
chromium_at cs none = none
chromium_at cs (some i) = get_elem? cs i

abbrev pub warmest : PoolState → BrowserConfig → Option Chromium
warmest s config = chromium_at s.chromiums (find_warmest s.chromiums config)

-- After the options are accepted.
unfoldable pub acquire_valid :
    BrowserConfig → String → PoolState → SessionOptions → AcquireEnv → PoolState × Acquired
unfolding find_warmest bind_session launch_and_bind
acquire_valid config base s opts env = elim (warmest s config) [
  | some c ↦ bind_session s c.chromium.id base opts env
  | none ↦
      if leb config.pool_max (as_u32 (length s.chromiums))
      then (s, rejected (pool_exhausted config.pool_max))
      else launch_and_bind s base opts env
]

unfoldable pub acquire :
    BrowserConfig → String → PoolState → SessionOptions → AcquireEnv → PoolState × Acquired
unfolding validate acquire_valid
acquire config base s opts env = elim (validate config opts) [
  | some e ↦ (s, rejected e)
  | none ↦ acquire_valid config base s opts env
]

abbrev pub without_session : String → ℕ → Chromium → Chromium
without_session id now c = record c {
  sessions = retain (λ i. not (i == id)) c.sessions;
  last_active_at = now;
}

-- `position` and `remove`: the first session with the identifier, and the others.
unfoldable pub take_session :
    String → List SessionRecord → Option (SessionRecord × List SessionRecord)
take_session id [] = none
take_session id (s ∷ ss) =
    let rest = take_session id ss in
    if is_session id s then some (s, ss) else Option.map (λ (r, others). (r, s ∷ others)) rest

-- Drops a session that was taken out from its chromium.
unfoldable pub drop_session :
    PoolState → String → ℕ → SessionRecord → List SessionRecord → PoolState
unfolding update_first
drop_session s id now removed others = record {
  chromiums = update_first (is_chromium removed.chromium_id) (without_session id now) s.chromiums;
  sessions = others;
}

unfoldable pub release : PoolState → String → ℕ → Result BrowserError PoolState
unfolding take_session drop_session
release s id now = elim (take_session id s.sessions) [
  | none ↦ err (session_not_found id)
  | some (removed, others) ↦ ok (drop_session s id now removed others)
]

unfoldable pub list : PoolState → List SessionInfo
list s = map (λ r. r.info) s.sessions

unfoldable pub get : PoolState → String → Option SessionInfo
get s id = Option.map (λ r. r.info) (find (is_session id) s.sessions)

unfoldable pub subscribe : PoolState → String → Option ℕ
subscribe s id = Option.map (λ r. r.tap) (find (is_session id) s.sessions)
