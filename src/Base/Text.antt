-- ===== src/Base/Text.antt =====
-- Python's `str`: whole texts are native strings; what walks a text goes by its code points.
use Prim.Native.Nat.{ℕ, zero, suc, ◌+◌}
use Prim.Native.Char.{code}
use Prim.Native.String as S
use Prim.Native.String.{String}
use Prim.Native.String.append
use mathlib.Core.Path.{◌≡◌, refl, ap, ap₂, ◌∙◌}
use mathlib.Core.Logic.{◌↔◌, inl, inr}
use mathlib.Core.Bool.{Bool, true, false, ◌||◌, ◌&&◌}
use mathlib.Core.List.{List, [], ◌∷◌, ◌++◌, map}
use native.Mathlib.Omega.{arith}
use text.Mathlib.TextEquality.{Char-path}
use terminal_agent.Base.Tests.{nat_eq, nat_eq_iff, leb, Bool-cases, if◌then◌else◌}

abbrev pub codes : String → List ℕ
codes String.[] = []
codes (String.◌∷◌ c s) = code c ∷ codes s

pub codes-append : (s t : String) → codes (S.◌++◌ s t) ≡ codes s ++ codes t
codes-append String.[] t = ap codes (append.nil t)
codes-append (String.◌∷◌ c s) t =
    ap codes (append.cons c s t) ∙ ap (λ l. code c ∷ l) (codes-append s t)

abbrev head_or : ℕ → List ℕ → ℕ
head_or d [] = d
head_or d (c ∷ s) = c

abbrev tail : List ℕ → List ℕ
tail [] = []
tail (c ∷ s) = s

pub codes_inj : (s t : String) → codes s ≡ codes t → s ≡ t
codes_inj String.[] String.[] h = refl
codes_inj String.[] (String.◌∷◌ d t) h = cc
codes_inj (String.◌∷◌ c s) String.[] h = cc
codes_inj (String.◌∷◌ c s) (String.◌∷◌ d t) h =
    ap₂ String.◌∷◌ (Char-path c d (ap (head_or 0) h)) (codes_inj s t (ap tail h))

-- `s == t` on code points
unfoldable pub codes_eq : List ℕ → List ℕ → Bool
codes_eq [] [] = true
codes_eq [] (d ∷ t) = false
codes_eq (c ∷ s) [] = false
codes_eq (c ∷ s) (d ∷ t) = nat_eq c d && codes_eq s t

pub codes_eq_iff : (s t : List ℕ) → (codes_eq s t ≡ true) ↔ (s ≡ t)
unfolding codes_eq
codes_eq_iff [] [] = ground arith
codes_eq_iff [] (d ∷ t) = ground arith
codes_eq_iff (c ∷ s) [] = ground arith
codes_eq_iff (c ∷ s) (d ∷ t) = ground (arith, codes_eq_iff s t)

-- `s.startswith(p)`
unfoldable pub starts_with : List ℕ → List ℕ → Bool
starts_with s [] = true
starts_with [] (d ∷ p) = false
starts_with (c ∷ s) (d ∷ p) = nat_eq c d && starts_with s p

pub starts_with_sound : (s p : List ℕ) → starts_with s p ≡ true → (r : List ℕ) × (s ≡ p ++ r)
unfolding starts_with
starts_with_sound s [] h = (s, refl)
starts_with_sound [] (d ∷ p) h = cc
starts_with_sound (c ∷ s) (d ∷ p) h = elim (Bool-cases (nat_eq c d)) [
  | inl e ↦
      let (r, q) = starts_with_sound s p (rw e at h) in
      (r, ap₂ (λ (x : ℕ) (l : List ℕ). x ∷ l) ((nat_eq_iff c d).0 e) q)
  | inr e ↦ cc (rw e at h)
]

pub starts_with-append : (p r : List ℕ) → starts_with (p ++ r) p ≡ true
unfolding starts_with
starts_with-append [] r = refl
starts_with-append (c ∷ p) r = ground (arith, starts_with-append p r)

-- `s.endswith(t)`
unfoldable pub ends_with : List ℕ → List ℕ → Bool
unfolding codes_eq
ends_with [] t = codes_eq [] t
ends_with (c ∷ s) t = codes_eq (c ∷ s) t || ends_with s t

pub ends_with_sound : (s t : List ℕ) → ends_with s t ≡ true → (r : List ℕ) × (s ≡ r ++ t)
unfolding ends_with
ends_with_sound [] t h = ([], (codes_eq_iff [] t).0 h)
ends_with_sound (c ∷ s) t h = elim (Bool-cases (codes_eq (c ∷ s) t)) [
  | inl e ↦ ([], (codes_eq_iff (c ∷ s) t).0 e)
  | inr e ↦ let (r, q) = ends_with_sound s t (rw e at h) in (c ∷ r, ap (λ (l : List ℕ). c ∷ l) q)
]

pub ends_with-append : (r t : List ℕ) → ends_with (r ++ t) t ≡ true
unfolding ends_with
ends_with-append [] [] = (codes_eq_iff [] []).1 refl
ends_with-append [] (d ∷ t) = rw ((codes_eq_iff (d ∷ t) (d ∷ t)).1 refl)
ends_with-append (c ∷ r) t = ground (arith, ends_with-append r t)

-- `s[:-1]`
unfoldable pub drop_last : List ℕ → List ℕ
drop_last [] = []
drop_last (c ∷ []) = []
drop_last (c ∷ d ∷ s) = c ∷ drop_last (d ∷ s)

pub drop_last-append : (s : List ℕ) (c d : ℕ) → drop_last (s ++ c ∷ d ∷ []) ≡ s ++ c ∷ []
unfolding drop_last
drop_last-append [] c d = refl
drop_last-append (x ∷ []) c d = refl
drop_last-append (x ∷ y ∷ s) c d = ap (λ (l : List ℕ). x ∷ l) (drop_last-append (y ∷ s) c d)

pub drop_last-append_one : (s : List ℕ) (c : ℕ) → drop_last (s ++ c ∷ []) ≡ s
unfolding drop_last
drop_last-append_one [] c = refl
drop_last-append_one (x ∷ []) c = refl
drop_last-append_one (x ∷ y ∷ s) c = ap (λ (l : List ℕ). x ∷ l) (drop_last-append_one (y ∷ s) c)

-- `t in s`
unfoldable pub contains : List ℕ → List ℕ → Bool
unfolding starts_with
contains [] t = starts_with [] t
contains (c ∷ s) t = starts_with (c ∷ s) t || contains s t

-- `s.lower()` on ASCII
unfoldable pub lower : List ℕ → List ℕ
lower = map (λ c. if leb b'A' c && leb c b'Z' then c + 32 else c)

-- `s[:n]`
unfoldable pub first : ℕ → String → String
first zero s = ""
first (suc n) String.[] = ""
first (suc n) (String.◌∷◌ c s) = String.◌∷◌ c (first n s)
