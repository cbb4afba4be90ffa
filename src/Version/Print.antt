-- ===== src/Version/Print.antt =====
-- Printing a version and parsing the text (`__str__` and `parse` of kernel/version.py).
use terminal_agent.Base.{
  ℕ, ◌≡◌, ◌≢◌, ◌∙◌, refl, ap, false, Option, none, some, List, [], ◌∷◌, ◌++◌, arith, is_digit,
  IsDigits, show, read, codes, show-IsDigits, show_nonempty, read-show,
}
use terminal_agent.Version.{
  SemanticVersion, span, number_of, after, line, parse_prerelease, then_parse, parse, print,
}

-- a text that goes on with something else than a digit, or ends
abbrev Ends : List ℕ → Type 0
Ends [] = Unit
Ends (c ∷ s) = is_digit c ≡ false

span_digits : (d s : List ℕ) → IsDigits d → Ends s → span (d ++ s) ≡ (d, s)
unfolding span
span_digits [] [] h e = refl
span_digits [] (c ∷ s) h e = rw e refl
span_digits (c ∷ d) s h e = rw (h.0, span_digits d s h.1 e) refl

number_of-some : (d s : List ℕ) → d ≢ [] → number_of (d, s) ≡ some (read d, s)
unfolding number_of
number_of-some [] s h = absurd (h refl)
number_of-some (c ∷ d) s h = refl

-- a number that was printed is read back
number_shown : (n : ℕ) (s : List ℕ) → Ends s → number_of (span (codes (show n) ++ s)) ≡ some (n, s)
number_shown n s e =
    ap number_of (span_digits (codes (show n)) s (show-IsDigits n) e)
    ∙ number_of-some (codes (show n)) s (show_nonempty n)
    ∙ ap (λ (m : ℕ). some (m, s)) (read-show n)

-- no newline in a text
abbrev pub IsLine : List ℕ → Type 0
IsLine [] = Unit
IsLine (c ∷ s) = (c ≢ 10) × IsLine s

line-IsLine : (s : List ℕ) → IsLine s → line s ≡ some s
unfolding line
line-IsLine [] h = refl
line-IsLine (c ∷ []) h = ground (arith, h.0)
line-IsLine (c ∷ x ∷ s) h = rw (line-IsLine (x ∷ s) h.1) (ground (arith, h.0))

-- a prerelease, if there is one, is a text of one line that is not empty
abbrev pub IsPrintable : Option (List ℕ) → Type 0
IsPrintable none = Unit
IsPrintable (some []) = ⊥
IsPrintable (some (c ∷ p)) = IsLine (c ∷ p)

abbrev suffix : Option (List ℕ) → List ℕ
suffix o = elim o [ none ↦ [] | some [] ↦ [] | some (c ∷ p) ↦ b'-' ∷ c ∷ p ]

suffix-Ends : (o : Option (List ℕ)) → Ends (suffix o)
suffix-Ends none = tt
suffix-Ends (some []) = tt
suffix-Ends (some (c ∷ p)) = refl

parse_prerelease-suffix :
    (o : Option (List ℕ)) → IsPrintable o → parse_prerelease (suffix o) ≡ some o
unfolding parse_prerelease
parse_prerelease-suffix none h = refl
parse_prerelease-suffix (some []) h = elim h [ ]
parse_prerelease-suffix (some (c ∷ p)) h = rw (line-IsLine (c ∷ p) h) refl

-- Parsing the print of a version gives the version back, if it has no prerelease or one that is
-- not empty and has no newline.
pub parse-print : (v : SemanticVersion) → IsPrintable v.prerelease → parse (print v) ≡ some v
unfolding parse print after then_parse
parse-print v h =
    let s2 = codes (show v.patch) ++ suffix v.prerelease in
    let s1 = codes (show v.minor) ++ (b'.' ∷ s2) in
    rw
      (
        number_shown v.major (b'.' ∷ s1) refl,
        then_parse,
        number_shown v.minor (b'.' ∷ s2) refl,
        number_shown v.patch (suffix v.prerelease) (suffix-Ends v.prerelease),
        parse_prerelease-suffix v.prerelease h,
      )
      refl
