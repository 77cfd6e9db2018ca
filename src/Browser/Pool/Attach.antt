-- ===== src/Browser/Pool/Attach.antt =====
-- `attach` of kernel/crates/gctrl-browser/src/pool.rs. The bytes of a text are a parameter.
use gctrl.Prelude.{ℕ, ◌≡◌, ◌<◌, not, List, some, String, arith, leb, find, if◌then◌else◌}
use gctrl.Prelude.Result.{Result, ok, err, ◌>>=◌, ok_or, ok_or-eq-ok}
use gctrl.Browser.Model.{BrowserError, session_not_found, session_expired, invalid_token, cdp}
use gctrl.Browser.Token.{Byte, verify}
use gctrl.Browser.Token.Laws.{verify_iff}
use gctrl.Browser.Pool.{PoolState, SessionRecord, is_session, is_chromium}

-- What follows once the session is found.
unfoldable pub attach_session :
    (String → List Byte)
    → PoolState
    → String
    → String
    → ℕ
    → SessionRecord
    → Result BrowserError (String × ℕ)
attach_session bytes s id supplied_token now session =
    if leb session.info.expires_at now
    then err (session_expired id)
    else if not (verify (bytes supplied_token) (bytes session.token))
    then err (invalid_token id)
    else (do
      chromium ←
          ok_or (find (is_chromium session.chromium_id) s.chromiums)
            (cdp "session refers to a chromium that no longer exists")
      ok (chromium.chromium.browser_ws_url, session.tap))

unfoldable pub attach :
    (String → List Byte) → PoolState → String → String → ℕ → Result BrowserError (String × ℕ)
unfolding attach_session
attach bytes s id supplied_token now = do
  session ← ok_or (find (is_session id) s.sessions) (session_not_found id)
  attach_session bytes s id supplied_token now session

attach_session-token :
    (bytes : String → List Byte) (s : PoolState) (id supplied : String) (now : ℕ)
    (r : SessionRecord) (url : String) (tap : ℕ)
    → attach_session bytes s id supplied now r ≡ ok (url, tap)
    → (bytes supplied ≡ bytes r.token) × (now < r.info.expires_at) × (tap ≡ r.tap)
unfolding attach_session
attach_session-token bytes s id supplied now r url tap h =
    ground (arith, verify_iff (bytes supplied) (bytes r.token))

-- Whenever `attach` succeeds, the session is in the pool, it has not expired, the supplied token is
-- byte for byte the session's, and the tap that is returned is the session's.
pub attach-token :
    (bytes : String → List Byte) (s : PoolState) (id supplied : String) (now : ℕ) (url : String)
    (tap : ℕ)
    → attach bytes s id supplied now ≡ ok (url, tap)
    → (r : SessionRecord) × (find (is_session id) s.sessions ≡ some r)
      × (bytes supplied ≡ bytes r.token)
      × (now < r.info.expires_at)
      × (tap ≡ r.tap)
unfolding attach
attach-token bytes s id supplied now url tap h =
    let (r, e, there) = ok_or-eq-ok (find (is_session id) s.sessions) _ _ h in
    let (token, time, same) = attach_session-token bytes s id supplied now r url tap there in
    (r, e, token, time, same)
