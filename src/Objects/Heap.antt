-- ===== src/Objects/Heap.antt =====
-- The containers that object data refers to. A cell holds what one dict or list of an object holds;
-- the kernel changes such a container in place only at its top level (kernel/objects.py).
use terminal_agent.Base.{ℕ, ◌+◌, ◌≡◌, refl, [], ◌∷◌, nat_eq, if◌then◌else◌}
use terminal_agent.Dict.{Dict}
use terminal_agent.Value.{Value, null, bool, num, str, arr, obj}

pub record Heap : Type 0 where
  pub cell : ℕ → Value
  pub next : ℕ

abbrev pub empty : Heap
empty = record { cell = λ _. null; next = 0 }

unfoldable pub alloc : Value → Heap → ℕ × Heap
alloc v h =
    (h.next, record { cell = λ a. if nat_eq a h.next then v else h.cell a; next = h.next + 1 })

unfoldable pub write : ℕ → Value → Heap → Heap
write a v h = record h { cell = λ b. if nat_eq b a then v else h.cell b }

-- what a key of an object's data holds: a primitive, or a container by reference
pub data Slot : Type 0 where
  atom : Value → Slot
  ref : ℕ → Slot

abbrev pub Data : Type 0
Data = Dict Slot

abbrev pub deref : Heap → Slot → Value
deref h (atom v) = v
deref h (ref a) = h.cell a

-- object data as a reader sees it
abbrev pub reads : Heap → Data → Dict Value
reads h [] = []
reads h ((k, s) ∷ d) = (k, deref h s) ∷ reads h d

-- A value as an assignment stores it: a container is one that nobody else holds.
unfoldable pub box : Value → Heap → Slot × Heap
unfolding alloc
box (arr xs) h = let (a, h') = alloc (arr xs) h in (ref a, h')
box (obj d) h = let (a, h') = alloc (obj d) h in (ref a, h')
box null h = (atom null, h)
box (bool b) h = (atom (bool b), h)
box (num n) h = (atom (num n), h)
box (str s) h = (atom (str s), h)

-- every reference satisfies `P`
abbrev pub Refs : (ℕ → Type 0) → Data → Type 0
Refs P [] = Unit
Refs P ((k, atom v) ∷ d) = Refs P d
Refs P ((k, ref a) ∷ d) = P a × Refs P d

-- two heaps hold the same where `P`
abbrev pub Agree : (ℕ → Type 0) → Heap → Heap → Type 0
Agree P h g = (a : ℕ) → P a → g.cell a ≡ h.cell a

pub reads-Agree :
    (P : ℕ → Type 0) (h g : Heap) (d : Data) → Refs P d → Agree P h g → reads g d ≡ reads h d
reads-Agree P h g [] r e = refl
reads-Agree P h g ((k, atom v) ∷ d) r e = λ i. (k, v) ∷ reads-Agree P h g d r e i
reads-Agree P h g ((k, ref a) ∷ d) r e = λ i. (k, e a r.0 i) ∷ reads-Agree P h g d r.1 e i

pub Refs-mono : (P Q : ℕ → Type 0) (d : Data) → ((a : ℕ) → P a → Q a) → Refs P d → Refs Q d
Refs-mono P Q [] f r = tt
Refs-mono P Q ((k, atom v) ∷ d) f r = Refs-mono P Q d f r
Refs-mono P Q ((k, ref a) ∷ d) f r = (f a r.0, Refs-mono P Q d f r.1)
