-- ===== src/Scheduler/Cron/Laws.antt =====
-- How much of a preview is kept.
use Prim.Native.Char.{Char}
use text.Mathlib.TextLemmas.{cons-append, nil-append}
use gctrl.Prelude.{
  ℕ, ◌+◌, ◌-◌, ◌≤◌, ◌<◌, ◌≡◌, refl, sym, ap, ◌∙◌, ◌⊎◌, inl, inr, String, arith, leb, Bool-cases,
}
use gctrl.Prelude.Decimal.{decimal, ◌⁀◌}
use gctrl.Prelude.Text.{utf8_len, byte_len}
use gctrl.Scheduler.Cron.{floor_prefix, redact_and_truncate}

byte_len-append : (s t : String) → byte_len (s ⁀ t) ≡ byte_len s + byte_len t
unfolding byte_len
byte_len-append String.[] t = ap byte_len (nil-append t) ∙ omega arith
byte_len-append (String.◌∷◌ c s) t =
    ap byte_len (cons-append c s t) ∙ omega (arith, byte_len-append s t)

-- The longest prefix of at most `end` bytes: the next character does not fit.
floor_prefix-lem :
    (end : ℕ) (s : String)
    → end < byte_len s
    → (c : Char) × (rest : String) × (s ≡ floor_prefix end s ⁀ String.◌∷◌ c rest)
      × (byte_len (floor_prefix end s) ≤ end)
      × (end < byte_len (floor_prefix end s) + utf8_len c)
unfolding floor_prefix byte_len
floor_prefix-lem end String.[] long = absurd (omega (arith, long))
floor_prefix-lem end (String.◌∷◌ c s) long = elim (Bool-cases (leb (utf8_len c) end)) [
  | inl fits ↦
      let room : utf8_len c ≤ end = ground (arith, fits) in
      let (d, rest, same, short, near) =
        floor_prefix-lem (end - utf8_len c) s (omega (arith, room, long)) in
      rw fits (
        d,
        rest,
        ap (String.◌∷◌ c) same
            ∙ sym (cons-append c (floor_prefix (end - utf8_len c) s) (String.◌∷◌ d rest)),
        omega (arith, room, short),
        omega (arith, room, near),
      )
  | inr over ↦
      let wide : end < utf8_len c = ground (arith, over) in
      rw over (c, s, sym (nil-append (String.◌∷◌ c s)), omega arith, omega (arith, wide))
]

-- A preview is the redacted text if that is not longer than the limit. If it is longer, the preview is
-- its longest prefix, in whole characters, of at most as many bytes as the limit, and then the number
-- of bytes that are left out.
pub redact_and_truncate_kept :
    (redact : String → String) (s : String) (limit : ℕ)
    → ((byte_len (redact s) ≤ limit) × (redact_and_truncate redact s limit ≡ redact s))
      ⊎ ((limit < byte_len (redact s))
          × ((kept : String) × (c : Char) × (rest : String) × (redact s ≡ kept ⁀ String.◌∷◌ c rest)
              × (byte_len kept ≤ limit)
              × (limit < byte_len kept + utf8_len c)
              × (redact_and_truncate redact s limit
                  ≡ kept ⁀ "…[truncated " ⁀ decimal (byte_len (String.◌∷◌ c rest)) ⁀ " bytes]")))
unfolding redact_and_truncate
redact_and_truncate_kept redact s limit = elim (Bool-cases (leb (byte_len (redact s)) limit)) [
  | inl fits ↦ inl (ground (arith, fits), rw fits refl)
  | inr over ↦
      let long : limit < byte_len (redact s) = ground (arith, over) in
      let (c, rest, same, short, near) = floor_prefix-lem limit (redact s) long in
      let kept = floor_prefix limit (redact s) in
      let left : byte_len (redact s) - byte_len kept ≡ byte_len (String.◌∷◌ c rest) =
        omega (arith, ap byte_len same, byte_len-append kept (String.◌∷◌ c rest)) in
      inr (
        long,
        (
          kept,
          c,
          rest,
          same,
          short,
          near,
          rw over (ap (λ n. kept ⁀ "…[truncated " ⁀ decimal n ⁀ " bytes]") left),
        ),
      )
]
