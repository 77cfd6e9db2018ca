-- ===== src/Telemetry/Spans/Laws.antt =====
-- What an export request becomes.
use gctrl.Prelude.{
  ◌≡◌, refl, sym, ap, ◌∙◌, ◌⊎◌, inl, inr, List, [], ◌∷◌, ◌++◌, Option, none, some, String, ◌==◌,
  String_eq, find, map, subst, Option-cases,
}
use gctrl.Telemetry.Spans.{
  Float, OtlpKeyValue, OtlpSpan, ScopeSpans, ResourceSpans, OtlpExportRequest, Span, convert,
  span_loop, scope_loop, resource_attrs, named, resource_loop, process_export_request, find_attr,
  string_val, OtlpAnyValue, or_unknown,
}

append_assoc {ℓ} : {A : Type ℓ} (xs ys zs : List A) → (xs ++ ys) ++ zs ≡ xs ++ (ys ++ zs)
append_assoc [] ys zs = refl
append_assoc (x ∷ xs) ys zs = ap (◌∷◌ x) (append_assoc xs ys zs)

append-nil {ℓ} : {A : Type ℓ} (xs : List A) → xs ++ [] ≡ xs
append-nil [] = refl
append-nil (x ∷ xs) = ap (◌∷◌ x) (append-nil xs)

map-append {ℓ κ} :
    {A : Type ℓ} {B : Type κ} (f : A → B) (xs ys : List A) → map f (xs ++ ys) ≡ map f xs ++ map f ys
map-append f [] ys = refl
map-append f (x ∷ xs) ys = ap (◌∷◌ (f x)) (map-append f xs ys)

module _ (float : Float) where
  -- A span of the request, with the attributes of its resource.
  abbrev pub Sent : Type 0
  Sent = List (OtlpKeyValue float) × OtlpSpan float

  abbrev sent_spans : List (OtlpKeyValue float) → List (OtlpSpan float) → List Sent
  sent_spans attrs [] = []
  sent_spans attrs (s ∷ rest) = (attrs, s) ∷ sent_spans attrs rest

  abbrev sent_scopes : List (OtlpKeyValue float) → List (ScopeSpans float) → List Sent
  sent_scopes attrs [] = []
  sent_scopes attrs (ss ∷ rest) = sent_spans attrs ss.spans ++ sent_scopes attrs rest

  -- All spans of a request, in its order.
  abbrev pub sent : List (ResourceSpans float) → List Sent
  sent [] = []
  sent (rs ∷ rest) = sent_scopes (resource_attrs float rs.resource) rs.scope_spans ++ sent rest

  abbrev pub received : Sent → Span float
  received (attrs, s) =
      convert float (named float attrs "session.id") (named float attrs "service.name") s

  span_loop-map :
      (attrs : List (OtlpKeyValue float)) (ss : List (OtlpSpan float)) (spans : List (Span float))
      → span_loop float (named float attrs "session.id") (named float attrs "service.name") ss spans
        ≡ spans ++ map received (sent_spans attrs ss)
  unfolding span_loop
  span_loop-map attrs [] spans = sym (append-nil spans)
  span_loop-map attrs (s ∷ rest) spans = span_loop-map attrs rest _ ∙ append_assoc spans _ _

  scope_loop-map :
      (attrs : List (OtlpKeyValue float)) (ss : List (ScopeSpans float)) (spans : List (Span float))
      → scope_loop float
          (named float attrs "session.id")
          (named float attrs "service.name")
          ss
          spans
        ≡ spans ++ map received (sent_scopes attrs ss)
  unfolding scope_loop
  scope_loop-map attrs [] spans = sym (append-nil spans)
  scope_loop-map attrs (s ∷ rest) spans =
      scope_loop-map attrs rest _
      ∙ ap (λ x. x ++ map received (sent_scopes attrs rest)) (span_loop-map attrs s.spans spans)
      ∙ append_assoc spans _ _
      ∙ ap (λ x. spans ++ x)
          (sym (map-append received (sent_spans attrs s.spans) (sent_scopes attrs rest)))

  resource_loop-map :
      (rss : List (ResourceSpans float)) (spans : List (Span float))
      → resource_loop float rss spans ≡ spans ++ map received (sent rss)
  unfolding resource_loop
  resource_loop-map [] spans = sym (append-nil spans)
  resource_loop-map (rs ∷ rest) spans =
      let attrs = resource_attrs float rs.resource in
      resource_loop-map rest _
      ∙ ap (λ x. x ++ map received (sent rest)) (scope_loop-map attrs rs.scope_spans spans)
      ∙ append_assoc spans _ _
      ∙ ap (λ x. spans ++ x)
          (sym (map-append received (sent_scopes attrs rs.scope_spans) (sent rest)))

  pub process-map :
      (req : OtlpExportRequest float)
      → process_export_request float req ≡ map received (sent req.resource_spans)
  unfolding process_export_request
  process-map req = resource_loop-map req.resource_spans []

  -- Two lists of one length whose entries are related one by one.
  abbrev pub Pairwise : (Sent → Span float → Type 0) → List Sent → List (Span float) → Type 0
  Pairwise R [] [] = Unit
  Pairwise R [] (y ∷ ys) = ⊥
  Pairwise R (x ∷ xs) [] = ⊥
  Pairwise R (x ∷ xs) (y ∷ ys) = R x y × Pairwise R xs ys

  pub Pairwise-map :
      (R : Sent → Span float → Type 0)
      → ((x : Sent) → R x (received x))
      → (xs : List Sent) → Pairwise R xs (map received xs)
  Pairwise-map R h [] = tt
  Pairwise-map R h (x ∷ xs) = (h x, Pairwise-map R h xs)

  -- The attribute that comes first under a key.
  abbrev pub first : List (OtlpKeyValue float) → String → Option (OtlpKeyValue float)
  first attrs key = find (λ a. a.key == key) attrs

  -- No attribute stands under the key, or the first one is no text.
  abbrev pub NoText : List (OtlpKeyValue float) → String → Type 0
  NoText attrs key =
      (first attrs key ≡ none)
      ⊎ ((a : OtlpKeyValue float) × (first attrs key ≡ some a)
          × ((a.value ≡ none)
              ⊎ ((v : OtlpAnyValue float) × (a.value ≡ some v) × (v.string_value ≡ none))))

  -- The text under a key: that of the first attribute, or `unknown` if there is none or it is no text.
  abbrev pub NameIs : List (OtlpKeyValue float) → String → String → Type 0
  NameIs attrs key name =
      ((a : OtlpKeyValue float) × (v : OtlpAnyValue float) × (first attrs key ≡ some a)
        × (a.value ≡ some v)
        × (v.string_value ≡ some name))
      ⊎ ((name ≡ "unknown") × NoText attrs key)

  -- What a span keeps of the one that was sent.
  abbrev pub Carries : Sent → Span float → Type 0
  Carries (attrs, s) out =
      NameIs attrs "session.id" out.session_id
      × NameIs attrs "service.name" out.agent_name
      × (out.span_id ≡ s.span_id)
      × (out.trace_id ≡ s.trace_id)
      × (out.parent_span_id ≡ s.parent_span_id)
      × (out.operation_name ≡ s.name)
      × (out.started_at ≡ s.start_time_unix_nano)

  named-NameIs :
      (attrs : List (OtlpKeyValue float)) (key : String) → NameIs attrs key (named float attrs key)
  unfolding named find_attr string_val
  named-NameIs attrs key = elim (Option-cases (first attrs key)) [
    | inl none_there ↦ inr (rw (none_there, named) refl, inl none_there)
    | inr (a, there) ↦ elim (Option-cases a.value) [
      | inl empty ↦ inr (rw (there, named) (rw empty refl), inr (a, there, inl empty))
      | inr (v, held) ↦ elim (Option-cases v.string_value) [
        | inl no_text ↦
            inr (
              rw (there, named) (rw held (rw no_text refl)),
              inr (a, there, inr (v, held, no_text)),
            )
        | inr (name, text) ↦ inl (
          a,
          v,
          there,
          held,
          rw (there, named) (rw held (text ∙ ap (λ o. some (or_unknown o)) (sym text))),
        )
      ]
    ]
  ]

  convert-Carries : (x : Sent) → Carries x (received x)
  unfolding convert
  convert-Carries (attrs, s) = (
    named-NameIs attrs "session.id",
    named-NameIs attrs "service.name",
    refl,
    refl,
    refl,
    refl,
    refl,
  )

  -- A request becomes one span for each span that it holds, in its order: with the text under
  -- `session.id` and that under `service.name` of its resource as the session and the agent, `unknown`
  -- where there is none, and with its own identifiers, name and start.
  pub process_export_request-Carries :
      (req : OtlpExportRequest float)
      → Pairwise Carries (sent req.resource_spans) (process_export_request float req)
  process_export_request-Carries req =
      subst (Pairwise Carries (sent req.resource_spans)) (sym (process-map req))
        (Pairwise-map Carries convert-Carries (sent req.resource_spans))
