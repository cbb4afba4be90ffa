-- ===== src/Base/TextLines.antt =====
-- `"\n".join` and `split("\n")` on native strings.
use Prim.Native.Nat.{ℕ, zero, suc}
use Prim.Native.Char.{Char, code}
use Prim.Native.String.{String}
use mathlib.Core.Path.{◌≡◌, refl, ap, ◌∙◌}
use mathlib.Core.Logic.{◌≢◌, inl, inr}
use mathlib.Core.List.{List, [], ◌∷◌}
use native.Mathlib.Omega.{arith}
use terminal_agent.Base.Tests.{nat_eq, Bool-cases, if◌then◌else◌}
use terminal_agent.Base.Lists.{All}

abbrev newline : Char
newline = "\n"

-- a character in front of the first line
unfoldable pub add_char : Char → List String → List String
add_char c [] = String.◌∷◌ c "" ∷ []
add_char c (p ∷ ps) = String.◌∷◌ c p ∷ ps

-- `s.split("\n")`
unfoldable pub split_lines : String → List String
unfolding add_char
split_lines String.[] = "" ∷ []
split_lines (String.◌∷◌ c s) =
    let rest = split_lines s in if nat_eq (code c) 10 then "" ∷ rest else add_char c rest

-- a line, its end and the rest
unfoldable pub before_line : String → String → String
before_line String.[] rest = String.◌∷◌ newline rest
before_line (String.◌∷◌ c s) rest = String.◌∷◌ c (before_line s rest)

-- `"\n".join(lines)`
unfoldable pub join_lines : List String → String
unfolding before_line
join_lines [] = ""
join_lines (p ∷ []) = p
join_lines (p ∷ q ∷ ps) = before_line p (join_lines (q ∷ ps))

-- a text without a newline
abbrev pub IsOneLine : String → Type 0
IsOneLine String.[] = Unit
IsOneLine (String.◌∷◌ c s) = (code c ≢ 10) × IsOneLine s

split_one : (s : String) → IsOneLine s → split_lines s ≡ s ∷ []
unfolding split_lines
split_one String.[] h = refl
split_one (String.◌∷◌ c s) h = rw (split_one s h.1) (ground (arith, h.0))

split_before :
    (p rest : String) → IsOneLine p → split_lines (before_line p rest) ≡ p ∷ split_lines rest
unfolding split_lines before_line
split_before String.[] rest h = refl
split_before (String.◌∷◌ c s) rest h = rw (split_before s rest h.1) (ground (arith, h.0))

pub split_lines-join_lines :
    (p : String) (ps : List String)
    → All IsOneLine (p ∷ ps)
    → split_lines (join_lines (p ∷ ps)) ≡ p ∷ ps
unfolding join_lines
split_lines-join_lines p [] h = split_one p h.0
split_lines-join_lines p (q ∷ ps) h =
    split_before p (join_lines (q ∷ ps)) h.0
    ∙ ap (λ (l : List String). p ∷ l) (split_lines-join_lines q ps h.1)

-- the lines of a text
pub record HasLines (s : String) : Type 0 where
  pub first : String
  pub others : List String
  pub spelled : split_lines s ≡ first ∷ others
  pub one_line : All IsOneLine (first ∷ others)

pub split_lines-HasLines : (s : String) → HasLines s
unfolding split_lines
split_lines-HasLines String.[] = record {
  first = "";
  others = [];
  spelled = refl;
  one_line = (tt, tt);
}
split_lines-HasLines (String.◌∷◌ c s) =
    let rest = split_lines-HasLines s in
    elim (Bool-cases (nat_eq (code c) 10)) [
      | inl e ↦ record {
        first = "";
        others = rest.first ∷ rest.others;
        spelled = rw (e, rest.spelled) refl;
        one_line = (tt, rest.one_line);
      }
      | inr e ↦ record {
        first = String.◌∷◌ c rest.first;
        others = rest.others;
        spelled = rw (e, rest.spelled) refl;
        one_line = (((ground arith), rest.one_line.0), rest.one_line.1);
      }
    ]

-- `lines[n] = line`
unfoldable pub set_line : ℕ → String → List String → List String
set_line n line [] = []
set_line zero line (p ∷ ps) = line ∷ ps
set_line (suc n) line (p ∷ ps) = p ∷ set_line n line ps

pub set_line-IsOneLine :
    (n : ℕ) (line : String) (ps : List String)
    → IsOneLine line
    → All IsOneLine ps
    → All IsOneLine (set_line n line ps)
unfolding set_line
set_line-IsOneLine n line [] h k = tt
set_line-IsOneLine zero line (p ∷ ps) h k = (h, k.1)
set_line-IsOneLine (suc n) line (p ∷ ps) h k = (k.0, set_line-IsOneLine n line ps h k.1)

-- replacing a line of a text
pub split-set_line :
    (n : ℕ) (line s : String)
    → IsOneLine line
    → split_lines (join_lines (set_line n line (split_lines s))) ≡ set_line n line (split_lines s)
unfolding set_line
split-set_line zero line s h =
    let l = split_lines-HasLines s in
    rw l.spelled (split_lines-join_lines line l.others (h, l.one_line.1))
split-set_line (suc n) line s h =
    let l = split_lines-HasLines s in
    rw l.spelled (
      split_lines-join_lines l.first (set_line n line l.others)
        (l.one_line.0, set_line-IsOneLine n line l.others h l.one_line.1))
