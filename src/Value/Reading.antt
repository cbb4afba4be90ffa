-- ===== src/Value/Reading.antt =====
-- How a dict becomes the keyword arguments of a dataclass, for the `from_dict` methods of
-- kernel/audit.py and kernel/sessions.py. Python does not check the types of these arguments: the
-- answer is none where the source raises, and also where a value is not of the annotated type.
use terminal_agent.Base.{
  ℕ, String, ◌≡◌, refl, Bool, true, ◌&&◌, Option, none, some, List, ◌==◌, any,
}
use terminal_agent.Value.{Value, Fields, end, field, null, obj, num, str, get, none_or_text}

infixl 5 ◌>>=◌
abbrev pub ◌>>=◌ {ℓ κ} : {A : Type ℓ} {B : Type κ} → Option A → (A → Option B) → Option B
none >>= f = none
some a >>= f = f a

abbrev pub to_text : Value → Option String
to_text (str s) = some s
to_text _ = none

abbrev pub to_number : Value → Option ℕ
to_number (num n) = some n
to_number _ = none

abbrev pub to_mapping : Value → Option Fields
to_mapping (obj d) = some d
to_mapping _ = none

-- a value of type `Optional[...]`
abbrev pub or_none {ℓ} : {A : Type ℓ} → (Value → Option A) → Value → Option (Option A)
or_none read null = some none
or_none read v = do a ← read v; some (some a)

-- an argument without a default
abbrev pub required {ℓ} : {A : Type ℓ} → (Value → Option A) → String → Fields → Option A
required read name d = get d name >>= read

-- an argument with a default
abbrev pub default {ℓ} : {A : Type ℓ} → (Value → Option A) → A → String → Fields → Option A
default read a name d = elim (get d name) [ none ↦ some a | some v ↦ read v ]

-- every key names an argument
abbrev pub are_arguments : List String → Fields → Bool
are_arguments names end = true
are_arguments names (field k v d) = any (λ name. name == k) names && are_arguments names d

abbrev pub none_or_number : Option ℕ → Value
none_or_number none = null
none_or_number (some n) = num n

pub or_none-text : (o : Option String) → or_none to_text (none_or_text o) ≡ some o
or_none-text none = refl
or_none-text (some s) = refl

pub or_none-number : (o : Option ℕ) → or_none to_number (none_or_number o) ≡ some o
or_none-number none = refl
or_none-number (some n) = refl
