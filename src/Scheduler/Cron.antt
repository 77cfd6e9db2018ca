-- ===== src/Scheduler/Cron.antt =====
-- The cron expressions and the cut of previews: kernel/crates/gctrl-scheduler/src/cron.rs and redact.rs.
-- The crate that parses expressions and finds their next times, and the expression that finds secrets,
-- are arguments.
pub mod Laws
use Prim.Native.Char.{Char}
use Prim.Native.String
use gctrl.Prelude.{
  ℕ, ◌-◌, Bool, true, false, Option, none, some, String, leb, nat_eq, if◌then◌else◌,
}
use gctrl.Prelude.Decimal.{decimal, ◌⁀◌}
use gctrl.Prelude.Text.{trim, word_count, utf8_len, byte_len}
use gctrl.Prelude.Result.{Result, ok, err, ◌>>=◌}

pub data CronError : Type 0 where
  bad_field_count : ℕ → CronError
  parse_failed : String → CronError

unfoldable pub error_text : CronError → String
error_text (bad_field_count n) = "cron expression must have 5, 6 or 7 fields, got " ⁀ decimal n
error_text (parse_failed e) = "invalid cron expression: " ⁀ e

-- The crate `cron`.
pub record CronCrate : Type 1 where
  pub Expr : Type 0
  pub from_str : String → Result String Expr
  pub after : Expr → ℕ → Option ℕ

-- The expression with a field for the seconds.
unfoldable pub normalised : String → Result CronError String
unfolding trim word_count
normalised input =
    let trimmed = trim input in
    let n = word_count trimmed in
    if nat_eq n 5
    then ok ("0 " ⁀ trimmed)
    else if nat_eq n 6
    then ok trimmed
    else if nat_eq n 7
    then ok trimmed
    else err (bad_field_count n)

module _ (crate : CronCrate) where
  abbrev parsed : Result String crate.Expr → Result CronError crate.Expr
  parsed (ok e) = ok e
  parsed (err text) = err (parse_failed text)

  unfoldable pub parse : String → Result CronError crate.Expr
  unfolding normalised
  parse input = normalised input >>= (λ text. parsed (crate.from_str text))

  unfoldable pub next_after : String → ℕ → Result CronError (Option ℕ)
  unfolding parse
  next_after input after = parse input >>= (λ expr. ok (crate.after expr after))

-- What stands before the last boundary of a character at or before byte `end`.
unfoldable pub floor_prefix : ℕ → String → String
unfolding utf8_len
floor_prefix end String.[] = String.[]
floor_prefix end (String.◌∷◌ c s) =
    let rest = floor_prefix (end - utf8_len c) s in
    if leb (utf8_len c) end then String.◌∷◌ c rest else String.[]

unfoldable pub redact_and_truncate : (redact_secrets : String → String) → String → ℕ → String
unfolding floor_prefix byte_len
redact_and_truncate redact_secrets s max_bytes =
    let r = redact_secrets s in
    let kept = floor_prefix max_bytes r in
    if leb (byte_len r) max_bytes
    then r
    else kept ⁀ "…[truncated " ⁀ decimal (byte_len r - byte_len kept) ⁀ " bytes]"
