-- ===== src/Telemetry/Spans.antt =====
-- The spans of an export request: kernel/crates/gctrl-otel/src/span_processor.rs, with Span of
-- kernel/crates/gctrl-core/src/types.rs. A number of 64 bits wraps as in the code; the numbers with a
-- fraction are a parameter, and a time is a number of nanoseconds. An object is the list of its keys and
-- values, in the order of their first insertion.
pub mod Laws
pub mod Derived
use gctrl.Prelude.{
  ℕ, suc, ◌+◌, ◌-◌, ◌/◌, ◌%◌, ◌^◌, Bool, true, false, List, [], ◌∷◌, ◌++◌, Option, none, some,
  String, ◌==◌, String_eq, ltb, nat_eq, find, if◌then◌else◌,
}
use gctrl.Prelude.Integers.{ℤ, pos, negsuc}
use gctrl.Prelude.Options.{◌>>=◌}
use gctrl.Scheduler.{is_some}

-- `f64`: zero, and whether a number is one of JSON.
pub record Float : Type 1 where
  pub F : Type 0
  pub zero_float : F
  pub is_finite : F → Bool

pub data SpanStatus : Type 0 where
  ok_status : SpanStatus
  error_status : String → SpanStatus
  unset : SpanStatus

pub data SpanType : Type 0 where
  generation span event : SpanType

unfoldable pub span_type_as_str : SpanType → String
span_type_as_str generation = "generation"
span_type_as_str span = "span"
span_type_as_str event = "event"

unfoldable pub span_type_from_str : String → SpanType
span_type_from_str s =
    if s == "generation" then generation else if s == "event" then event else span

pub record OtlpStatus : Type 0 where
  pub code : ℕ
  pub message : Option String

-- `as u64` of a number of 64 bits with a sign.
unfoldable pub as_u64 : ℤ → ℕ
as_u64 (pos n) = n % 2 ^ 64
as_u64 (negsuc n) = (2 ^ 64 - suc (n % 2 ^ 64)) % 2 ^ 64

abbrev pub or_unknown : Option String → String
or_unknown none = "unknown"
or_unknown (some s) = s

abbrev pub or_zero : Option ℤ → ℤ
or_zero none = pos 0
or_zero (some i) = i

-- `Option::or_else`.
abbrev pub or_else {ℓ} : {A : Type ℓ} → Option A → Option A → Option A
or_else none other = other
or_else (some a) other = some a

unfoldable pub status_of_code : Option OtlpStatus → SpanStatus
status_of_code none = unset
status_of_code (some s) =
    if nat_eq s.code 2
    then error_status (elim s.message [ none ↦ "" | some m ↦ m ])
    else if nat_eq s.code 1
    then ok_status
    else unset

unfoldable pub duration_of : (start end : ℕ) → ℕ
duration_of start end = if ltb start end then (end - start) / 1000000 else 0

unfoldable pub span_type_of : Option String → (duration_ms : ℕ) → SpanType
span_type_of model duration_ms =
    if is_some model then generation else if nat_eq duration_ms 0 then event else span

module _ (float : Float) where
  pub record OtlpAnyValue : Type 0 where
    pub string_value : Option String
    pub int_value : Option ℤ
    pub double_value : Option float.F

  pub record OtlpKeyValue : Type 0 where
    pub key : String
    pub value : Option OtlpAnyValue

  pub record OtlpSpan : Type 0 where
    pub trace_id : String
    pub span_id : String
    pub parent_span_id : Option String
    pub name : String
    pub start_time_unix_nano : ℕ
    pub end_time_unix_nano : ℕ
    pub attributes : List OtlpKeyValue
    pub status : Option OtlpStatus

  pub record ScopeSpans : Type 0 where
    pub spans : List OtlpSpan

  pub record OtlpResource : Type 0 where
    pub attributes : List OtlpKeyValue

  pub record ResourceSpans : Type 0 where
    pub resource : Option OtlpResource
    pub scope_spans : List ScopeSpans

  pub record OtlpExportRequest : Type 0 where
    pub resource_spans : List ResourceSpans

  pub data Json : Type 0 where
    json_string : String → Json
    json_int : ℤ → Json
    json_float : float.F → Json
    json_null : Json

  pub record Span : Type 0 where
    pub span_id : String
    pub trace_id : String
    pub parent_span_id : Option String
    pub session_id : String
    pub agent_name : String
    pub operation_name : String
    pub span_type : SpanType
    pub model : Option String
    pub input_tokens : ℕ
    pub output_tokens : ℕ
    pub cost_usd : float.F
    pub status : SpanStatus
    pub started_at : ℕ
    pub duration_ms : ℕ
    pub attributes : List (String × Json)
    pub project_id : Option String

  unfoldable pub string_val : OtlpKeyValue → Option String
  string_val a = a.value >>= (λ v. v.string_value)

  unfoldable pub int_val : OtlpKeyValue → Option ℤ
  int_val a = a.value >>= (λ v. v.int_value)

  unfoldable pub double_val : OtlpKeyValue → Option float.F
  double_val a = a.value >>= (λ v. v.double_value)

  unfoldable pub find_attr : List OtlpKeyValue → String → Option OtlpKeyValue
  find_attr attrs key = find (λ a. a.key == key) attrs

  unfoldable pub model_of : List OtlpKeyValue → Option String
  unfolding find_attr string_val
  model_of attrs =
      or_else (find_attr attrs "ai.model.id") (find_attr attrs "gen_ai.request.model")
      >>= string_val

  -- The tokens under a key or under another one.
  unfoldable pub tokens_of : List OtlpKeyValue → String → String → ℕ
  unfolding find_attr int_val as_u64
  tokens_of attrs key other =
      as_u64 (or_zero (or_else (find_attr attrs key) (find_attr attrs other) >>= int_val))

  abbrev float_or_zero : Option float.F → float.F
  float_or_zero none = float.zero_float
  float_or_zero (some f) = f

  unfoldable pub cost_of : List OtlpKeyValue → float.F
  unfolding find_attr double_val
  cost_of attrs = float_or_zero (find_attr attrs "ai.cost.usd" >>= double_val)

  -- `Map::insert`.
  unfoldable pub insert_key : String → Json → List (String × Json) → List (String × Json)
  insert_key k v [] = (k, v) ∷ []
  insert_key k v ((k', v') ∷ entries) =
      let rest = insert_key k v entries in if k' == k then (k, v) ∷ entries else (k', v') ∷ rest

  abbrev json_of_float : Option float.F → Option Json
  json_of_float none = none
  json_of_float (some f) = some (if float.is_finite f then json_float f else json_null)

  abbrev json_of_int : Option ℤ → Option float.F → Option Json
  json_of_int none f = json_of_float f
  json_of_int (some i) f = some (json_int i)

  abbrev json_of : OtlpAnyValue → Option Json
  json_of v = elim v.string_value [
    | some s ↦ some (json_string s)
    | none ↦ json_of_int v.int_value v.double_value
  ]

  abbrev insert_value : String → Option Json → List (String × Json) → List (String × Json)
  insert_value key none entries = entries
  insert_value key (some v) entries = insert_key key v entries

  unfoldable pub attributes_loop : List OtlpKeyValue → List (String × Json) → List (String × Json)
  unfolding insert_key
  attributes_loop [] entries = entries
  attributes_loop (kv ∷ attrs) entries =
      attributes_loop attrs (insert_value kv.key (kv.value >>= json_of) entries)

  unfoldable pub convert : (session_id agent_name : String) → OtlpSpan → Span
  unfolding model_of tokens_of cost_of attributes_loop duration_of status_of_code span_type_of
  convert session_id agent_name s =
      let model = model_of s.attributes in
      let duration_ms = duration_of s.start_time_unix_nano s.end_time_unix_nano in
      record {
        span_id = s.span_id;
        trace_id = s.trace_id;
        parent_span_id = s.parent_span_id;
        session_id = session_id;
        agent_name = agent_name;
        operation_name = s.name;
        span_type = span_type_of model duration_ms;
        model = model;
        input_tokens = tokens_of s.attributes "ai.tokens.input" "gen_ai.usage.prompt_tokens";
        output_tokens = tokens_of s.attributes "ai.tokens.output" "gen_ai.usage.completion_tokens";
        cost_usd = cost_of s.attributes;
        status = status_of_code s.status;
        started_at = s.start_time_unix_nano;
        duration_ms = duration_ms;
        attributes = attributes_loop s.attributes [];
        project_id = none;
      }

  -- The three loops, which push on the spans so far.
  unfoldable pub span_loop :
      (session_id agent_name : String) → List OtlpSpan → List Span → List Span
  unfolding convert
  span_loop session_id agent_name [] spans = spans
  span_loop session_id agent_name (s ∷ rest) spans =
      span_loop session_id agent_name rest (spans ++ convert session_id agent_name s ∷ [])

  unfoldable pub scope_loop :
      (session_id agent_name : String) → List ScopeSpans → List Span → List Span
  unfolding span_loop
  scope_loop session_id agent_name [] spans = spans
  scope_loop session_id agent_name (ss ∷ rest) spans =
      scope_loop session_id agent_name rest (span_loop session_id agent_name ss.spans spans)

  abbrev pub resource_attrs : Option OtlpResource → List OtlpKeyValue
  resource_attrs none = []
  resource_attrs (some r) = r.attributes

  unfoldable pub named : List OtlpKeyValue → String → String
  unfolding find_attr string_val
  named attrs key = or_unknown (find_attr attrs key >>= string_val)

  unfoldable pub resource_loop : List ResourceSpans → List Span → List Span
  unfolding scope_loop named
  resource_loop [] spans = spans
  resource_loop (rs ∷ rest) spans =
      let attrs = resource_attrs rs.resource in
      resource_loop rest
        (scope_loop (named attrs "session.id") (named attrs "service.name") rs.scope_spans spans)

  unfoldable pub process_export_request : OtlpExportRequest → List Span
  unfolding resource_loop
  process_export_request req = resource_loop req.resource_spans []
