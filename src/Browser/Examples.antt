-- ===== src/Browser/Examples.antt =====
-- The pool on small inputs.
use gctrl.Prelude.{
  ℕ, suc, ◌≡◌, refl, ◌↔◌, ◌<◌, true, List, [], ◌∷◌, some, String, arith, find, any, All, zero,
  nat_eq, ◌%◌, ◌/◌,
}
use gctrl.Prelude.Result.{ok}
use gctrl.Browser.Config.{default_config}
use gctrl.Browser.Model.{SessionInfo, default_options, SessionStatus, default_recording}
use gctrl.Browser.Recycle
use gctrl.Browser.Recycle.{ChromiumSnapshot, RecycleConfig, decide}
use gctrl.Browser.Recycle.Laws.{decide-Allowed, decide-kills, AllowedBy, Due, is_kill_of}
use gctrl.Browser.Token.{Byte, verify, zero_bits, Bits}
use gctrl.Browser.Token.Laws.{verify_iff}
use gctrl.Browser.Pool.{
  PoolState, LaunchedChromium, Chromium, SessionRecord, AcquireEnv, acquire, acquired, empty_pool,
  is_session, release, get, find_warmest, has_room, validate, Acquired, acquire_valid, warmest_loop,
  launch_and_bind, bind_session, new_info, new_chromium, update_first, is_chromium,
}
use gctrl.Browser.Pool.Attach.{attach, attach-token}
use gctrl.Browser.Pool.Laws.{acquire-Bounded, Bounded, Quiet, Distinct}
use gctrl.Browser.Pool.Lifecycle.{release-acquire}
use Prim.Native.Char.{code}
use gctrl.Browser.Pool.Sweep.{sweep, expire_loop, expired_ids}
use gctrl.Browser.Pool.Sweep.Laws.{sweep-keeps_Busy}

abbrev process : LaunchedChromium
process = record { id = "c1"; version = "126"; browser_ws_url = "ws://x" }

abbrev env : AcquireEnv
env = record {
  launched = ok process;
  new_tap = 7;
  launched_at = 10;
  during_launch = λ s. s;
  before_bind = λ s. s;
  session_id = "s1";
  token = "t1";
  now = 11;
}

env-Quiet : Quiet env
env-Quiet s = (refl, refl)

abbrev first : PoolState × Acquired
first = acquire default_config "ws://h" empty_pool default_options env

acquire-Bounded_example : Bounded default_config first.0
acquire-Bounded_example =
    acquire-Bounded default_config "ws://h" empty_pool default_options env
      (omega arith, omega arith) (omega arith) env-Quiet (λ l e. refl) (omega arith, tt, tt)

abbrev first_info : SessionInfo
first_info = record {
  id = "s1";
  created_at = 11;
  expires_at = 600000000011;
  browser_version = "126";
  status = SessionStatus.active;
  recording = default_recording;
  cdp_endpoint = "ws://h/api/browser/sessions/s1/cdp?token=t1";
  token = "t1";
  dropped_frames = 0;
}

first_acquired : first ≡ (first.0, acquired first_info)
unfolding acquire validate acquire_valid warmest_loop launch_and_bind bind_session new_info
    new_chromium update_first find_warmest
first_acquired = refl

release-acquire_example :
    (get first.0 "s1" ≡ some first_info)
    × ((s'' : PoolState) × (release first.0 "s1" 99 ≡ ok s'') × (s''.sessions ≡ []))
release-acquire_example =
    release-acquire default_config "ws://h" empty_pool default_options env first.0 first_info 99
      env-Quiet refl first_acquired

abbrev config : RecycleConfig
config = record { recycle_idle_seconds = 5; recycle_max_age_seconds = 100 }

abbrev idle_one : ChromiumSnapshot
idle_one = record {
  id = "c1";
  state = Recycle.active;
  created_at = 0;
  last_active_at = 0;
  active_sessions = 0;
}

abbrev old_one : ChromiumSnapshot
old_one = record {
  id = "c2";
  state = Recycle.active;
  created_at = 0;
  last_active_at = 0;
  active_sessions = 2;
}

decide-Allowed_example :
    All
      (AllowedBy config 200000000000 (idle_one ∷ old_one ∷ []))
      (decide (idle_one ∷ old_one ∷ []) config 200000000000)
decide-Allowed_example = decide-Allowed (idle_one ∷ old_one ∷ []) config 200000000000

decide-kills_example :
    All
      (λ c.
        Due config 6000000000 c
        → any (is_kill_of c.id) (decide (idle_one ∷ []) config 6000000000) ≡ true)
      (idle_one ∷ [])
decide-kills_example = decide-kills (idle_one ∷ []) config 6000000000

verify_iff_example :
    (verify (zero_bits 8 ∷ []) (zero_bits 8 ∷ []) ≡ true) ↔ ((zero_bits 8 ∷ []) ≡ zero_bits 8 ∷ [])
verify_iff_example = verify_iff (zero_bits 8 ∷ []) (zero_bits 8 ∷ [])

abbrev warm : Chromium
warm = record {
  chromium = process;
  state = Recycle.active;
  created_at = 1;
  last_active_at = 1;
  sessions = "s9" ∷ [];
  tap = 3;
}

only_warm : find_warmest (warm ∷ []) default_config ≡ some 0
unfolding find_warmest has_room
only_warm = refl

-- The low bits of a number, and a text as the low bytes of its characters.
abbrev low_bits : (n : ℕ) → ℕ → Bits n
low_bits zero k = tt
low_bits (suc n) k = (nat_eq (k % 2) 1, low_bits n (k / 2))

abbrev ascii : String → List Byte
ascii String.[] = []
ascii (String.◌∷◌ c s) = low_bits 8 (code c) ∷ ascii s

attached : attach ascii first.0 "s1" "t1" 12 ≡ ok ("ws://x", 7)
unfolding attach acquire verify
attached = refl

attach-token_example :
    (r : SessionRecord) × (find (is_session "s1") first.0.sessions ≡ some r)
    × (ascii "t1" ≡ ascii r.token)
    × (12 < r.info.expires_at)
    × (7 ≡ r.tap)
attach-token_example = attach-token ascii first.0 "s1" "t1" 12 "ws://x" 7 attached

abbrev one_busy : Chromium
one_busy = record warm { created_at = 10; last_active_at = 11; sessions = "s1" ∷ []; tap = 7 }

abbrev pool_seen : PoolState
pool_seen = expire_loop first.0 40000000000000 (expired_ids 100 first.0.sessions)

seen-Distinct : Distinct pool_seen.chromiums
unfolding acquire expired_ids expire_loop
seen-Distinct = (tt, tt)

seen_busy : find (is_chromium "c1") pool_seen.chromiums ≡ some one_busy
unfolding acquire expired_ids expire_loop
seen_busy = refl

sweep-keeps_Busy_example :
    any
      (is_chromium "c1")
      (sweep default_config first.0 100 40000000000000 (λ s. s) (λ k s. s)).0.chromiums
    ≡ true
sweep-keeps_Busy_example =
    sweep-keeps_Busy default_config first.0 100 40000000000000 "c1" one_busy seen-Distinct seen_busy
      (omega arith)
