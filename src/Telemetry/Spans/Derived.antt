-- ===== src/Telemetry/Spans/Derived.antt =====
-- What is computed for a span that is stored: its tokens, model, duration and type.
use gctrl.Prelude.{
  ℕ, suc, ◌+◌, ◌*◌, ◌-◌, ◌%◌, ◌^◌, ◌<◌, ◌≤◌, ◌≡◌, refl, sym, ◌⊎◌, ◌↔◌, inl, inr, List, Option, none,
  some, String, arith, subst, Option-cases,
}
use gctrl.Prelude.Integers.{ℤ, pos, negsuc}
use gctrl.Telemetry.Spans.{
  Float, generation, event, as_u64, span_type_of, duration_of, OtlpKeyValue, OtlpExportRequest,
  Span, tokens_of, model_of, convert, process_export_request, find_attr, string_val, int_val,
  or_else, or_zero,
}
use gctrl.Telemetry.Spans.Laws.{Sent, sent, received, process-map, Pairwise, Pairwise-map, first}
use gctrl.Prelude.Options.{◌>>=◌}

as_u64-pos : (m : ℕ) → as_u64 (pos m) ≡ m % 2 ^ 64
unfolding as_u64
as_u64-pos m = refl

-- A negative number wraps to the one below 2^64 with which it makes a multiple of that.
as_u64-negsuc : (m : ℕ) → (as_u64 (negsuc m) < 2 ^ 64) × ((as_u64 (negsuc m) + suc m) % 2 ^ 64 ≡ 0)
unfolding as_u64
as_u64-negsuc m = omega arith

duration_near :
    (start end : ℕ)
    → (duration_of start end * 1000000 ≤ end - start)
      × (end - start < duration_of start end * 1000000 + 1000000)
unfolding duration_of
duration_near start end = ground arith

module _ (float : Float) where
  -- The first attribute under a key, or under another one if there is none.
  abbrev pub Chosen :
      List (OtlpKeyValue float) → String → String → Option (OtlpKeyValue float) → Type 0
  Chosen attrs key other o =
      ((a : OtlpKeyValue float) × (first float attrs key ≡ some a) × (o ≡ some a))
      ⊎ ((first float attrs key ≡ none) × (o ≡ first float attrs other))

  -- A count that an attribute holds, as a number of 64 bits without a sign; without a number it is 0.
  abbrev pub CountIs : Option (OtlpKeyValue float) → ℕ → Type 0
  CountIs o n =
      ((a : OtlpKeyValue float) × (m : ℕ) × (o ≡ some a)
        × (int_val float a ≡ some (pos m))
        × (n ≡ m % 2 ^ 64))
      ⊎ ((a : OtlpKeyValue float) × (m : ℕ) × (o ≡ some a)
          × (int_val float a ≡ some (negsuc m))
          × (n < 2 ^ 64)
          × ((n + suc m) % 2 ^ 64 ≡ 0))
      ⊎ ((n ≡ 0)
          × ((o ≡ none) ⊎ ((a : OtlpKeyValue float) × (o ≡ some a) × (int_val float a ≡ none))))

  abbrev pub TokensAre : List (OtlpKeyValue float) → String → String → ℕ → Type 0
  TokensAre attrs key other n =
      (o : Option (OtlpKeyValue float)) × Chosen attrs key other o × CountIs o n

  abbrev pub ModelIs : List (OtlpKeyValue float) → Option String → Type 0
  ModelIs attrs model =
      (o : Option (OtlpKeyValue float)) × Chosen attrs "ai.model.id" "gen_ai.request.model" o
      × (((o ≡ none) × (model ≡ none))
          ⊎ ((a : OtlpKeyValue float) × (o ≡ some a) × (model ≡ string_val float a)))

  -- What a span that is stored says of the one that was sent.
  abbrev pub Coherent : Sent float → Span float → Type 0
  Coherent (attrs, s) out =
      TokensAre s.attributes "ai.tokens.input" "gen_ai.usage.prompt_tokens" out.input_tokens
      × TokensAre s.attributes "ai.tokens.output" "gen_ai.usage.completion_tokens" out.output_tokens
      × ModelIs s.attributes out.model
      × (out.duration_ms * 1000000 ≤ s.end_time_unix_nano - s.start_time_unix_nano)
      × (s.end_time_unix_nano - s.start_time_unix_nano < out.duration_ms * 1000000 + 1000000)
      × ((out.span_type ≡ generation) ↔ ((m : String) × (out.model ≡ some m)))
      × ((out.span_type ≡ event)
          ↔ ((out.model ≡ none) × (s.end_time_unix_nano - s.start_time_unix_nano < 1000000)))

  chosen :
      (attrs : List (OtlpKeyValue float)) (key other : String)
      → Chosen attrs key other (or_else (first float attrs key) (first float attrs other))
  chosen attrs key other = elim (Option-cases (first float attrs key)) [
    | inl missing ↦ inr (missing, rw missing refl)
    | inr (a, there) ↦ inl (a, there, rw there refl)
  ]

  counted : (o : Option (OtlpKeyValue float)) → CountIs o (as_u64 (or_zero (o >>= int_val float)))
  counted none = inr (inr (as_u64-pos 0, inl refl))
  counted (some a) = elim (Option-cases (int_val float a)) [
    | inl missing ↦ inr (inr (rw missing (as_u64-pos 0), inr (a, refl, missing)))
    | inr (i, held) ↦ rw held (go i held)
  ]
    where
      go : (i : ℤ) → int_val float a ≡ some i → CountIs (some a) (as_u64 i)
      go (pos m) held = inl (a, m, refl, held, as_u64-pos m)
      go (negsuc m) held = inr (inl (a, m, refl, held, (as_u64-negsuc m).0, (as_u64-negsuc m).1))

  tokens_of-TokensAre :
      (attrs : List (OtlpKeyValue float)) (key other : String)
      → TokensAre attrs key other (tokens_of float attrs key other)
  unfolding tokens_of find_attr
  tokens_of-TokensAre attrs key other =
      (or_else (first float attrs key) (first float attrs other), chosen attrs key other, counted _)

  model_of-ModelIs : (attrs : List (OtlpKeyValue float)) → ModelIs attrs (model_of float attrs)
  unfolding model_of find_attr
  model_of-ModelIs attrs =
      let o =
        or_else (first float attrs "ai.model.id") (first float attrs "gen_ai.request.model") in
      (
        o,
        chosen attrs "ai.model.id" "gen_ai.request.model",
        elim (Option-cases o) [
          | inl missing ↦ inl (missing, rw missing refl)
          | inr (a, there) ↦ inr (a, there, rw there refl)
        ],
      )

  generation_iff :
      (model : Option String) (start end : ℕ)
      → (span_type_of model (duration_of start end) ≡ generation)
        ↔ ((m : String) × (model ≡ some m))
  unfolding span_type_of
  generation_iff none start end = ground arith
  generation_iff (some m) start end = (λ e. (m, refl), λ x. refl)

  event_iff :
      (model : Option String) (start end : ℕ)
      → (span_type_of model (duration_of start end) ≡ event)
        ↔ ((model ≡ none) × (end - start < 1000000))
  unfolding span_type_of
  event_iff none start end = ground (arith, duration_near start end)
  event_iff (some m) start end = ground arith

  convert-Coherent : (x : Sent float) → Coherent x (received float x)
  unfolding convert
  convert-Coherent (attrs, s) = (
    tokens_of-TokensAre s.attributes "ai.tokens.input" "gen_ai.usage.prompt_tokens",
    tokens_of-TokensAre s.attributes "ai.tokens.output" "gen_ai.usage.completion_tokens",
    model_of-ModelIs s.attributes,
    (duration_near s.start_time_unix_nano s.end_time_unix_nano).0,
    (duration_near s.start_time_unix_nano s.end_time_unix_nano).1,
    generation_iff _ s.start_time_unix_nano s.end_time_unix_nano,
    event_iff _ s.start_time_unix_nano s.end_time_unix_nano,
  )

  -- Each span that a request becomes has, from the attributes of the one sent: the counts of tokens
  -- under their keys, or their older keys, as numbers of 64 bits, where a negative one wraps; the text
  -- under the model's key, or its other key, as the model; and the whole milliseconds from the start
  -- to the end. It is a generation exactly if it has a model, and an event exactly if it has no model
  -- and lasted less than a millisecond.
  pub process_export_request-Coherent :
      (req : OtlpExportRequest float)
      → Pairwise float Coherent (sent float req.resource_spans) (process_export_request float req)
  process_export_request-Coherent req =
      subst (Pairwise float Coherent (sent float req.resource_spans)) (sym (process-map float req))
        (Pairwise-map float Coherent convert-Coherent (sent float req.resource_spans))
