-- ===== src/Browser/Pool/Sweep/Laws.antt =====
-- What a sweep spares.
use gctrl.Prelude.{
  ℕ, suc, ◌≡◌, ◌<◌, refl, sym, subst, inl, inr, true, false, List, [], ◌∷◌, some, String, arith,
  eq_iff, ◌==◌, String_eq, any, find, map, All, All-map, length, Bool-cases,
}
use gctrl.Browser.Config.{BrowserConfig}
use gctrl.Browser.Recycle.{
  ChromiumSnapshot, RecyclePlan, RecycleReason, idle, max_age, drain, kill, RecycleConfig, decide,
}
use gctrl.Browser.Recycle.Laws.{Allowed, AllowedBy, is_kill_of, decide-Allowed}
use gctrl.Browser.Pool.{PoolState, Chromium, is_chromium, as_u32, update_first}
use gctrl.Browser.Pool.Laws.{Distinct}
use gctrl.Browser.Pool.Sweep.{
  SweepReport, snapshot, recycle_config, remove_first, start_draining, apply_plan, apply_plans,
  expired_ids, expire_loop, sweep,
}

abbrev pub Busy : Chromium → Type 0
Busy c = 0 < as_u32 (length c.sessions)

-- A plan to kill is about an empty chromium of its identifier.
kill_parts :
    (cfg : RecycleConfig) (now : ℕ) (c : ChromiumSnapshot) (i : String) (reason : RecycleReason)
    → Allowed cfg now c (kill i reason)
    → (i ≡ c.id) × (c.active_sessions ≡ 0)
kill_parts cfg now c i max_age h = (h.0, h.1)
kill_parts cfg now c i idle h = (h.0, h.1)

others_spared :
    (cfg : RecycleConfig) (now : ℕ) (id i : String) (reason : RecycleReason) (cs : List Chromium)
    → All (λ d. is_chromium id d ≡ false) cs
    → AllowedBy cfg now (map snapshot cs) (kill i reason)
    → (i == id) ≡ false
unfolding snapshot
others_spared cfg now id i reason [] h a = absurd a
others_spared cfg now id i reason (d ∷ cs) h (inl a) =
    subst (λ x. (x == id) ≡ false) (sym (kill_parts cfg now (snapshot d) i reason a).0) h.0
others_spared cfg now id i reason (d ∷ cs) h (inr a) = others_spared cfg now id i reason cs h.1 a

first_spared :
    (id i : String) (d : Chromium) (cs : List Chromium) (c : Chromium)
    → find (is_chromium id) (d ∷ cs) ≡ some c
    → Busy c
    → i ≡ d.chromium.id
    → as_u32 (length d.sessions) ≡ 0
    → (i == id) ≡ false
first_spared id i d cs c e busy same empty = elim (Bool-cases (is_chromium id d)) [
  | inl here ↦
      let one : d ≡ c = cc (rw here at e) in
      absurd (idle_busy (as_u32 (length d.sessions)) empty (subst Busy (sym one) busy))
  | inr other ↦ subst (λ x. (x == id) ≡ false) (sym same) other
]
  where
    idle_busy : (n : ℕ) → n ≡ 0 → 0 < n → ⊥
    idle_busy n h k = omega (arith, h, k)

Busy-spared :
    (cfg : RecycleConfig) (now : ℕ) (id i : String) (reason : RecycleReason) (cs : List Chromium)
    (c : Chromium)
    → Distinct cs
    → find (is_chromium id) cs ≡ some c
    → Busy c
    → AllowedBy cfg now (map snapshot cs) (kill i reason)
    → (i == id) ≡ false
unfolding snapshot
Busy-spared cfg now id i reason [] c distinct e busy a = absurd a
Busy-spared cfg now id i reason (d ∷ cs) c distinct e busy (inl a) =
    let (same, empty) = kill_parts cfg now (snapshot d) i reason a in
    first_spared id i d cs c e busy same empty
Busy-spared cfg now id i reason (d ∷ cs) c distinct e busy (inr a) =
    elim (Bool-cases (is_chromium id d)) [
      | inl here ↦
          others_spared cfg now id i reason cs
            (subst (λ x. All (λ y. is_chromium x y ≡ false) cs) ((eq_iff d.chromium.id id).0 here)
              distinct.0)
            a
      | inr other ↦ Busy-spared cfg now id i reason cs c distinct.1 (rw other at e) busy a
    ]

any-update_first :
    (id i : String) (cs : List Chromium)
    → any (is_chromium id) cs ≡ true
    → any (is_chromium id) (update_first (is_chromium i) start_draining cs) ≡ true
unfolding update_first
any-update_first id i [] h = h
any-update_first id i (c ∷ cs) h = ground (arith, any-update_first id i cs)

any-remove_first :
    (id i : String) (cs : List Chromium)
    → (i == id) ≡ false
    → any (is_chromium id) cs ≡ true
    → any (is_chromium id) (remove_first i cs) ≡ true
unfolding remove_first
any-remove_first id i [] ne h = h
any-remove_first id i (c ∷ cs) ne h = ground (
  arith,
  any-remove_first id i cs ne,
  eq_iff c.chromium.id i,
  eq_iff c.chromium.id id,
  eq_iff i id,
)

apply_plan-keeps :
    (id : String) (s : PoolState) (report : SweepReport) (p : RecyclePlan)
    → is_kill_of id p ≡ false
    → any (is_chromium id) s.chromiums ≡ true
    → any (is_chromium id) (apply_plan (s, report) p).0.chromiums ≡ true
unfolding apply_plan
apply_plan-keeps id s report (drain i reason) spared h =
    elim (Bool-cases (any (is_chromium i) s.chromiums)) [
      | inl e ↦ rw e (any-update_first id i s.chromiums h)
      | inr e ↦ rw e h
    ]
apply_plan-keeps id s report (kill i reason) spared h =
    elim (Bool-cases (any (is_chromium i) s.chromiums)) [
      | inl e ↦ rw e (any-remove_first id i s.chromiums spared h)
      | inr e ↦ rw e h
    ]

apply_plans-keeps :
    (id : String) (k : ℕ) (s : PoolState) (report : SweepReport) (ps : List RecyclePlan)
    → All (λ p. is_kill_of id p ≡ false) ps
    → any (is_chromium id) s.chromiums ≡ true
    → any (is_chromium id) (apply_plans (λ j x. x) k (s, report) ps).0.chromiums ≡ true
unfolding apply_plans
apply_plans-keeps id k s report [] h here = here
apply_plans-keeps id k s report (p ∷ ps) h here =
    apply_plans-keeps id (suc k) (apply_plan (s, report) p).0 (apply_plan (s, report) p).1 ps h.1
      (apply_plan-keeps id s report p h.0 here)

spares :
    (cfg : RecycleConfig) (now : ℕ) (cs : List Chromium) (id : String) (c : Chromium)
    (p : RecyclePlan)
    → Distinct cs
    → find (is_chromium id) cs ≡ some c
    → Busy c
    → AllowedBy cfg now (map snapshot cs) p
    → is_kill_of id p ≡ false
spares cfg now cs id c (drain i reason) distinct e busy a = refl
spares cfg now cs id c (kill i reason) distinct e busy a =
    Busy-spared cfg now id i reason cs c distinct e busy a

find-any :
    (id : String) (cs : List Chromium) (c : Chromium)
    → find (is_chromium id) cs ≡ some c
    → any (is_chromium id) cs ≡ true
find-any id [] c e = cc e
find-any id (d ∷ cs) c e = ground (arith, find-any id cs c)

-- A sweep during which no other task runs removes no chromium that has sessions after the expired
-- ones are released, if the identifiers of the chromiums are distinct then.
pub sweep-keeps_Busy :
    (config : BrowserConfig) (s : PoolState) (now released_at : ℕ) (id : String) (c : Chromium)
    → let seen = expire_loop s released_at (expired_ids now s.sessions) in
      Distinct seen.chromiums
      → find (is_chromium id) seen.chromiums ≡ some c
      → Busy c
      → any (is_chromium id) (sweep config s now released_at (λ x. x) (λ k x. x)).0.chromiums ≡ true
unfolding sweep
sweep-keeps_Busy config s now released_at id c distinct e busy =
    let seen = expire_loop s released_at (expired_ids now s.sessions) in
    let cfg = recycle_config config in
    apply_plans-keeps id 0 seen _ (decide (map snapshot seen.chromiums) cfg now)
      (All-map (λ p. is_kill_of id p ≡ false) (AllowedBy cfg now (map snapshot seen.chromiums))
        (λ p a. spares cfg now seen.chromiums id c p distinct e busy a) _
        (decide-Allowed (map snapshot seen.chromiums) cfg now))
      (find-any id seen.chromiums c e)
