-- ===== src/Telemetry/Examples.antt =====
-- A request with one span, whose count of tokens is negative.
use gctrl.Prelude.{ℕ, ◌≡◌, refl, true, [], ◌∷◌, none, some}
use gctrl.Prelude.Integers.{negsuc}
use gctrl.Telemetry.Spans.{
  Float, OtlpKeyValue, OtlpSpan, OtlpExportRequest, tokens_of, process_export_request,
}
use gctrl.Telemetry.Spans.Laws.{sent, Pairwise, Carries, process_export_request-Carries}
use gctrl.Telemetry.Spans.Derived.{Coherent, process_export_request-Coherent}

abbrev float : Float
float = record { F = ℕ; zero_float = 0; is_finite = λ f. true }

abbrev tokens : OtlpKeyValue float
tokens = record {
  key = "ai.tokens.input";
  value = some (record { string_value = none; int_value = some (negsuc 0); double_value = none });
}

abbrev one_span : OtlpSpan float
one_span = record {
  trace_id = "t";
  span_id = "s";
  parent_span_id = none;
  name = "call";
  start_time_unix_nano = 5;
  end_time_unix_nano = 3000005;
  attributes = tokens ∷ [];
  status = none;
}

abbrev request : OtlpExportRequest float
request = record {
  resource_spans =
      record { resource = none; scope_spans = record { spans = one_span ∷ [] } ∷ [] } ∷ [];
}

-- A count of minus one wraps.
wraps :
    tokens_of float (tokens ∷ []) "ai.tokens.input" "gen_ai.usage.prompt_tokens"
    ≡ 18446744073709551615
unfolding tokens_of
wraps = refl

process_export_request-Carries_example :
    Pairwise float
      (Carries float)
      (sent float request.resource_spans)
      (process_export_request float request)
process_export_request-Carries_example = process_export_request-Carries float request

process_export_request-Coherent_example :
    Pairwise float
      (Coherent float)
      (sent float request.resource_spans)
      (process_export_request float request)
process_export_request-Coherent_example = process_export_request-Coherent float request
