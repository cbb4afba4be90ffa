-- ===== src/Base/Decimal.antt =====
-- Python's `str` of a natural number, and that different numbers print differently.
use Prim.Native.Nat.{ℕ, zero, suc, ◌+◌, ◌-◌, ◌*◌, ◌/◌, ◌%◌, ◌<◌}
use Prim.Native.String as S
use Prim.Native.String.{String}
use mathlib.Core.Path.{◌≡◌, refl, sym, ap, ◌∙◌}
use mathlib.Core.List.{List, [], ◌∷◌, ◌++◌, foldl, foldl-append}
use mathlib.Core.Logic.{◌≢◌, inl, inr}
use mathlib.Core.Bool.{Bool, true, ◌&&◌}
use native.Mathlib.Omega.{arith}
use terminal_agent.Base.Tests.{ltb, leb, Bool-cases, if◌then◌else◌}
use terminal_agent.Base.Text.{codes, codes-append}

digit : ℕ → String
digit zero = "0"
digit (suc zero) = "1"
digit (suc (suc zero)) = "2"
digit (suc (suc (suc zero))) = "3"
digit (suc (suc (suc (suc zero)))) = "4"
digit (suc (suc (suc (suc (suc zero))))) = "5"
digit (suc (suc (suc (suc (suc (suc zero)))))) = "6"
digit (suc (suc (suc (suc (suc (suc (suc zero))))))) = "7"
digit (suc (suc (suc (suc (suc (suc (suc (suc zero)))))))) = "8"
digit (suc (suc (suc (suc (suc (suc (suc (suc (suc n))))))))) = "9"

show_within : ℕ → ℕ → String
show_within zero n = ""
show_within (suc fuel) n =
    let front = show_within fuel (n / 10) in
    if ltb n 10 then digit n else S.◌++◌ front (digit (n % 10))

-- A number has fewer digits than its successor's value, so the fuel is enough.
unfoldable pub show : ℕ → String
unfolding show_within digit
show n = show_within (suc n) n

abbrev pub read : List ℕ → ℕ
read = foldl (λ n c. n * 10 + (c - b'0')) 0

read-digit : (d : ℕ) → d < 10 → codes (digit d) ≡ (b'0' + d) ∷ []
unfolding digit
read-digit zero h = refl
read-digit (suc zero) h = refl
read-digit (suc (suc zero)) h = refl
read-digit (suc (suc (suc zero))) h = refl
read-digit (suc (suc (suc (suc zero)))) h = refl
read-digit (suc (suc (suc (suc (suc zero))))) h = refl
read-digit (suc (suc (suc (suc (suc (suc zero)))))) h = refl
read-digit (suc (suc (suc (suc (suc (suc (suc zero))))))) h = refl
read-digit (suc (suc (suc (suc (suc (suc (suc (suc zero)))))))) h = refl
read-digit (suc (suc (suc (suc (suc (suc (suc (suc (suc n))))))))) h =
    ap (λ (c : ℕ). c ∷ []) (omega arith)

read-append : (s : List ℕ) (d : ℕ) → read (s ++ (b'0' + d) ∷ []) ≡ read s * 10 + d
read-append s d = rw foldl-append (omega arith)

read-show_within : (f n : ℕ) → n < f → read (codes (show_within f n)) ≡ n
unfolding show_within
read-show_within zero n h = elim h [ ]
read-show_within (suc f) n h = elim (Bool-cases (ltb n 10)) [
  | inl small ↦ rw (small, read-digit n (ground arith)) (omega arith)
  | inr big ↦
      rw (big, codes-append, read-digit (n % 10) (omega arith), read-append)
        (rw (read-show_within f (n / 10) (ground arith)) (omega arith))
]

pub read-show : (n : ℕ) → read (codes (show n)) ≡ n
unfolding show
read-show n = read-show_within (suc n) n (omega arith)

pub show_inj : (m n : ℕ) → show m ≡ show n → m ≡ n
show_inj m n h = sym (read-show m) ∙ ap (λ s. read (codes s)) h ∙ read-show n

abbrev pub is_digit : ℕ → Bool
is_digit c = leb b'0' c && leb c b'9'

abbrev pub IsDigits : List ℕ → Type 0
IsDigits [] = Unit
IsDigits (c ∷ s) = (is_digit c ≡ true) × IsDigits s

digit-IsDigits : (d : ℕ) → d < 10 → IsDigits (codes (digit d))
digit-IsDigits d h = rw (read-digit d h) (ground arith, tt)

append-IsDigits : (s t : List ℕ) → IsDigits s → IsDigits t → IsDigits (s ++ t)
append-IsDigits [] t h k = k
append-IsDigits (c ∷ s) t h k = (h.0, append-IsDigits s t h.1 k)

show_within-IsDigits : (f n : ℕ) → n < f → IsDigits (codes (show_within f n))
unfolding show_within
show_within-IsDigits zero n h = elim h [ ]
show_within-IsDigits (suc f) n h = elim (Bool-cases (ltb n 10)) [
  | inl small ↦ rw small (digit-IsDigits n (ground arith))
  | inr big ↦
      rw (big, codes-append)
        (append-IsDigits (codes (show_within f (n / 10))) (codes (digit (n % 10)))
          (show_within-IsDigits f (n / 10) (ground arith)) (digit-IsDigits (n % 10) (omega arith)))
]

pub show-IsDigits : (n : ℕ) → IsDigits (codes (show n))
unfolding show
show-IsDigits n = show_within-IsDigits (suc n) n (omega arith)

append_nonempty : (s t : List ℕ) → t ≢ [] → s ++ t ≢ []
append_nonempty [] t h e = h e
append_nonempty (c ∷ s) t h e = absurd (cc e)

digit_nonempty : (d : ℕ) → d < 10 → codes (digit d) ≢ []
digit_nonempty d h e = absurd (cc (read-digit d h, e))

pub show_nonempty : (n : ℕ) → codes (show n) ≢ []
unfolding show show_within
show_nonempty n e = elim (Bool-cases (ltb n 10)) [
  | inl small ↦ digit_nonempty n (ground arith) (rw small at e)
  | inr big ↦
      append_nonempty (codes (show_within n (n / 10))) (codes (digit (n % 10)))
        (digit_nonempty (n % 10) (omega arith)) (rw (big, codes-append) at e)
]
