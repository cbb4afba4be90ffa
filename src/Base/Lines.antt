-- ===== src/Base/Lines.antt =====
-- Python's `str.split`, `str.join` and `str.strip` on code points.
use Prim.Native.Nat.{ℕ}
use mathlib.Core.Path.{◌≡◌, refl, ap, ◌∙◌}
use mathlib.Core.Logic.{◌≢◌}
use mathlib.Core.Bool.{Bool, false, ◌||◌, ◌&&◌}
use mathlib.Core.List.{List, [], ◌∷◌, ◌++◌}
use native.Mathlib.Omega.{arith}
use terminal_agent.Base.Tests.{leb, nat_eq, nat_eq_iff, if◌then◌else◌}
use terminal_agent.Base.Lists.{any, All}

-- the code points that count as white space
unfoldable pub is_space : ℕ → Bool
is_space c =
    (leb 9 c && leb c 13)
    || (leb 28 c && leb c 32)
    || (leb 8192 c && leb c 8202)
    || any (nat_eq c) (133 ∷ 160 ∷ 5760 ∷ 8232 ∷ 8233 ∷ 8239 ∷ 8287 ∷ 12288 ∷ [])

-- a character in front of the first part
unfoldable pub add_to_first : ℕ → List (List ℕ) → List (List ℕ)
add_to_first c [] = (c ∷ []) ∷ []
add_to_first c (p ∷ ps) = (c ∷ p) ∷ ps

-- `s.split(sep)` for one character
unfoldable pub split : ℕ → List ℕ → List (List ℕ)
unfolding add_to_first
split sep [] = [] ∷ []
split sep (c ∷ s) =
    let rest = split sep s in if nat_eq c sep then [] ∷ rest else add_to_first c rest

-- `sep.join(parts)`
unfoldable pub join_by : ℕ → List (List ℕ) → List ℕ
join_by sep [] = []
join_by sep (p ∷ []) = p
join_by sep (p ∷ q ∷ ps) = p ++ (sep ∷ join_by sep (q ∷ ps))

-- `s.lstrip()`
unfoldable pub left_strip : List ℕ → List ℕ
unfolding is_space
left_strip [] = []
left_strip (c ∷ s) = let rest = left_strip s in if is_space c then rest else c ∷ s

unfoldable pub keep_unless_space : ℕ → List ℕ → List ℕ
unfolding is_space
keep_unless_space c [] = if is_space c then [] else c ∷ []
keep_unless_space c (d ∷ s) = c ∷ d ∷ s

-- `s.rstrip()`
unfoldable pub right_strip : List ℕ → List ℕ
unfolding keep_unless_space
right_strip [] = []
right_strip (c ∷ s) = keep_unless_space c (right_strip s)

-- `s.strip()`
unfoldable pub strip : List ℕ → List ℕ
unfolding left_strip right_strip
strip s = right_strip (left_strip s)

-- a text without a given character
abbrev pub Lacks : ℕ → List ℕ → Type 0
Lacks sep [] = Unit
Lacks sep (c ∷ s) = (c ≢ sep) × Lacks sep s

pub split-Lacks : (sep : ℕ) (s : List ℕ) → Lacks sep s → split sep s ≡ s ∷ []
unfolding split
split-Lacks sep [] h = refl
split-Lacks sep (c ∷ s) h = rw (split-Lacks sep s h.1) (ground (arith, h.0))

split_part : (sep : ℕ) (p s : List ℕ) → Lacks sep p → split sep (p ++ (sep ∷ s)) ≡ p ∷ split sep s
unfolding split
split_part sep [] s h = rw ((nat_eq_iff sep sep).1 refl) refl
split_part sep (c ∷ p) s h = rw (split_part sep p s h.1) (ground (arith, h.0))

pub split-join_by :
    (sep : ℕ) (p : List ℕ) (ps : List (List ℕ))
    → All (Lacks sep) (p ∷ ps)
    → split sep (join_by sep (p ∷ ps)) ≡ p ∷ ps
unfolding join_by
split-join_by sep p [] h = split-Lacks sep p h.0
split-join_by sep p (q ∷ ps) h =
    split_part sep p (join_by sep (q ∷ ps)) h.0
    ∙ ap (λ (l : List (List ℕ)). p ∷ l) (split-join_by sep q ps h.1)

-- a text that is not empty and neither begins nor ends with white space
pub record IsTrimmed (s : List ℕ) : Type 0 where
  pub first : ℕ
  pub rest : List ℕ
  pub spelled : s ≡ first ∷ rest
  pub begins : is_space first ≡ false
  pub ends : right_strip s ≡ s

pub right_strip-append :
    (p : List ℕ) (c : ℕ) (s : List ℕ)
    → right_strip (c ∷ s) ≡ c ∷ s
    → right_strip (p ++ (c ∷ s)) ≡ p ++ (c ∷ s)
unfolding right_strip
right_strip-append [] c s h = h
right_strip-append (d ∷ []) c s h = rw (right_strip, h) refl
right_strip-append (d ∷ e ∷ p) c s h = rw (right_strip, right_strip-append (e ∷ p) c s h) refl

pub strip-IsTrimmed : (s : List ℕ) → IsTrimmed s → strip s ≡ s
unfolding strip
strip-IsTrimmed s t = rw (t.spelled, left_strip, t.begins) (rw t.spelled at t.ends)
