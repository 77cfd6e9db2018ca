-- ===== src/Board/Acceptance/Laws.antt =====
-- The checks that are parsed from a text.
use mathlib.Core.List.{filter_map, filter_map-cons-none, filter_map-cons-some}
use gctrl.Prelude.{
  ℕ, suc, ◌≡◌, refl, ◌∙◌, List, [], ◌∷◌, Option, none, some, String, map, Option-cases, ap, sym,
  inl, inr,
}
use gctrl.Prelude.Text.{lines}
use gctrl.Board.Acceptance.{
  AcceptanceCheck, parse_line, parse_lines, parse_acceptance_criteria, AcceptanceKind, add_check,
}

-- Numbered from `n` on.
abbrev pub Numbered : ℕ → List AcceptanceCheck → Type 0
Numbered n [] = Unit {0}
Numbered n (c ∷ cs) = (c.idx ≡ n) × Numbered (suc n) cs

-- What the checks say, in order.
abbrev pub content : AcceptanceCheck → AcceptanceKind × String
content c = (c.kind, c.command)

add_check-Numbered :
    (n : ℕ) (o : Option (AcceptanceKind × String)) (rest : ℕ → List AcceptanceCheck)
    → ((m : ℕ) → Numbered m (rest m))
    → Numbered n (add_check n o rest)
unfolding add_check
add_check-Numbered n none rest h = h n
add_check-Numbered n (some (k, c)) rest h = (refl, h (suc n))

parse_lines-Numbered : (n : ℕ) (ls : List String) → Numbered n (parse_lines n ls)
unfolding parse_lines
parse_lines-Numbered n [] = tt
parse_lines-Numbered n (l ∷ ls) =
    add_check-Numbered n (parse_line l) (λ m. parse_lines m ls) (λ m. parse_lines-Numbered m ls)

filter_map-nil : filter_map parse_line [] ≡ []
unfolding filter_map
filter_map-nil = refl

parse_lines-filter_map :
    (n : ℕ) (ls : List String) → map content (parse_lines n ls) ≡ filter_map parse_line ls
unfolding parse_lines add_check
parse_lines-filter_map n [] = sym filter_map-nil
parse_lines-filter_map n (l ∷ ls) = elim (Option-cases (parse_line l)) [
  | inl e ↦ rw e (parse_lines-filter_map n ls ∙ sym (filter_map-cons-none parse_line l ls e))
  | inr (p, e) ↦ rw e (
      ap (◌∷◌ p) (parse_lines-filter_map (suc n) ls) ∙ sym (filter_map-cons-some parse_line l ls e))
]

-- The checks of a text are the lines that parse as one, in their order, numbered from 0 on.
pub parse_acceptance_criteria-Numbered :
    (input : String)
    → Numbered 0 (parse_acceptance_criteria input)
      × (map content (parse_acceptance_criteria input) ≡ filter_map parse_line (lines input))
unfolding parse_acceptance_criteria
parse_acceptance_criteria-Numbered input =
    (parse_lines-Numbered 0 (lines input), parse_lines-filter_map 0 (lines input))
