-- ===== src/Version.antt =====
-- Semantic versions and the compatibility of workflows (kernel/version.py). Texts are lists of code
-- points; `\d` and `int` are read on ASCII digits.
use terminal_agent.Base.{
  ℕ, ◌+◌, ◌≡◌, Bool, true, false, not, ◌&&◌, ◌||◌, Option, none, some, List, [], ◌∷◌, ◌++◌, ltb,
  leb, nat_eq, is_digit, read, show, codes, if◌then◌else◌,
}
pub mod HeaderLine
pub mod Order
pub mod Workflow
pub mod Compatible
pub mod Print
pub mod Header
pub mod HeaderText
pub mod Changelog
pub mod Changes

-- `SemanticVersion`
pub record SemanticVersion : Type 0 where
  pub major : ℕ
  pub minor : ℕ
  pub patch : ℕ
  pub prerelease : Option (List ℕ)

-- `\d*` and the text after it
unfoldable pub span : List ℕ → List ℕ × List ℕ
span [] = ([], [])
span (c ∷ s) = let (d, r) = span s in if is_digit c then (c ∷ d, r) else ([], c ∷ s)

-- `(\d+)`, read by `int`
unfoldable pub number_of : List ℕ × List ℕ → Option (ℕ × List ℕ)
number_of ([], r) = none
number_of (c ∷ d, r) = some (read (c ∷ d), r)

-- the text after a given character
unfoldable pub after : ℕ → List ℕ → Option (List ℕ)
after x [] = none
after x (c ∷ s) = if nat_eq c x then some s else none

-- a text without a newline, but for one at its end, which `$` passes over
unfoldable pub line : List ℕ → Option (List ℕ)
line [] = some []
line (c ∷ []) = if nat_eq c 10 then some [] else some (c ∷ [])
line (c ∷ x ∷ s) = elim (line (x ∷ s)) [
  | none ↦ none
  | some l ↦ if nat_eq c 10 then none else some (c ∷ l)
]

-- `(?:-(.+))?$`
unfoldable pub parse_prerelease : List ℕ → Option (Option (List ℕ))
unfolding line
parse_prerelease [] = some none
parse_prerelease (c ∷ s) =
    if nat_eq c b'-'
    then elim (line s) [ none ↦ none | some [] ↦ none | some (x ∷ l) ↦ some (some (x ∷ l)) ]
    else elim (line (c ∷ s)) [ none ↦ none | some [] ↦ some none | some (x ∷ l) ↦ none ]

unfoldable pub then_parse {ℓ} : {A B : Type ℓ} → Option A → (A → Option B) → Option B
then_parse none f = none
then_parse (some a) f = f a

-- `SemanticVersion.parse`; none is the ValueError
unfoldable pub parse : List ℕ → Option SemanticVersion
unfolding span after parse_prerelease
parse s = then_parse (number_of (span s)) (λ a. then_parse (after b'.' a.1) (λ s1.
    then_parse (number_of (span s1)) (λ b. then_parse (after b'.' b.1) (λ s2.
      then_parse (number_of (span s2)) (λ c.
        then_parse (parse_prerelease c.1)
          (λ p. some (record { major = a.0; minor = b.0; patch = c.0; prerelease = p })))))))

-- `__str__`
unfoldable pub print : SemanticVersion → List ℕ
print v =
    codes (show v.major)
    ++ (b'.'
        ∷ (codes (show v.minor)
            ++ (b'.'
                ∷ (codes (show v.patch) ++ (elim v.prerelease [
                  | none ↦ []
                  | some [] ↦ []
                  | some (c ∷ p) ↦ b'-' ∷ c ∷ p
                ])))))

-- `s < t` on text
unfoldable pub text_lt : List ℕ → List ℕ → Bool
text_lt s [] = false
text_lt [] (d ∷ t) = true
text_lt (c ∷ s) (d ∷ t) = let rest = text_lt s t in if ltb c d then true else nat_eq c d && rest

-- `bool(prerelease)` and `prerelease or ""`
abbrev pub has_prerelease : SemanticVersion → Bool
has_prerelease v = elim v.prerelease [ none ↦ false | some [] ↦ false | some (c ∷ p) ↦ true ]

abbrev pub prerelease_text : SemanticVersion → List ℕ
prerelease_text v = elim v.prerelease [ none ↦ [] | some p ↦ p ]

-- `__lt__`
unfoldable pub lt : SemanticVersion → SemanticVersion → Bool
unfolding text_lt
lt v w =
    if not (nat_eq v.major w.major)
    then ltb v.major w.major
    else if not (nat_eq v.minor w.minor)
    then ltb v.minor w.minor
    else if not (nat_eq v.patch w.patch)
    then ltb v.patch w.patch
    else if has_prerelease v && not (has_prerelease w)
    then true
    else if not (has_prerelease v) && has_prerelease w
    then false
    else text_lt (prerelease_text v) (prerelease_text w)

-- `is_compatible_with`
abbrev pub is_compatible_with : SemanticVersion → SemanticVersion → Bool
is_compatible_with v w = nat_eq v.major w.major
