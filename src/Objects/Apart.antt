-- ===== src/Objects/Apart.antt =====
-- A block of cells that no live object refers to keeps its contents under the objects' methods
-- (kernel/objects.py).
use terminal_agent.Base.{
  ℕ, ◌<◌, ◌≤◌, ◌≡◌, ◌⊎◌, inl, inr, refl, ◌∙◌, subst, String, some, [], ◌∷◌, ◌==◌, arith, Bool-cases,
}
use mathlib.Core.Option.{some-injective}
use terminal_agent.Dict
use terminal_agent.Dict.{Dict}
use terminal_agent.Value.{Value, null, bool, num, str, arr, obj}
use terminal_agent.Objects.Heap.{Heap, write, box, Slot, atom, ref, Data, Refs, Refs-mono, Agree}
use terminal_agent.Objects.Object.{put_all}
use terminal_agent.Objects.Copies.{Within}

abbrev pub Holds : (ℕ → Type 0) → Slot → Type 0
Holds P (atom v) = Unit
Holds P (ref a) = P a

pub Refs-cons :
    (P : ℕ → Type 0) (k : String) (s : Slot) (d : Data) → Holds P s → Refs P d → Refs P ((k, s) ∷ d)
Refs-cons P k (atom v) d h r = r
Refs-cons P k (ref a) d h r = (h, r)

pub Refs-uncons :
    (P : ℕ → Type 0) (k : String) (s : Slot) (d : Data) → Refs P ((k, s) ∷ d) → Holds P s × Refs P d
Refs-uncons P k (atom v) d r = (tt, r)
Refs-uncons P k (ref a) d r = r

pub Refs-put :
    (P : ℕ → Type 0) (d : Data) (k : String) (s : Slot)
    → Refs P d
    → Holds P s
    → Refs P (Dict.put d k s)
unfolding Dict.put
Refs-put P [] k s r h = Refs-cons P k s [] h tt
Refs-put P ((j, t) ∷ d) k s r h =
    let (ht, rd) = Refs-uncons P j t d r in
    elim (Bool-cases (j == k)) [
      | inl e ↦ rw e (Refs-cons P j s d h rd)
      | inr e ↦ rw e (Refs-cons P j t (Dict.put d k s) ht (Refs-put P d k s rd h))
    ]

pub Refs-get :
    (P : ℕ → Type 0) (d : Data) (k : String) (s : Slot)
    → Refs P d
    → Dict.get d k ≡ some s
    → Holds P s
unfolding Dict.get
Refs-get P [] k s r e = absurd (cc)
Refs-get P ((j, t) ∷ d) k s r e =
    let (ht, rd) = Refs-uncons P j t d r in
    elim (Bool-cases (j == k)) [
      | inl q ↦ subst (Holds P) (some-injective t s (rw q at e)) ht
      | inr q ↦ Refs-get P d k s rd (rw q at e)
    ]

-- a live address: allocated, and outside the block
abbrev pub Away : ℕ → ℕ → ℕ → ℕ → Type 0
Away lo hi n a = (a < n) × ((a < lo) ⊎ (hi ≤ a))

-- a step of the heap and one object that leaves the block alone
pub record Keeps (lo hi : ℕ) (h h' : Heap) (slots' : Data) : Type 0 where
  pub grows : h.next ≤ h'.next
  pub held : Agree (Within lo hi) h h'
  pub away : Refs (Away lo hi h'.next) slots'

module _ (lo hi : ℕ) where
  pub Away-grows : (n n' : ℕ) (d : Data) → n ≤ n' → Refs (Away lo hi n) d → Refs (Away lo hi n') d
  Away-grows n n' d le r =
      Refs-mono (Away lo hi n) (Away lo hi n') d (λ a w. (omega (arith, w.0), w.1)) r

  pub box-Keeps :
      (v : Value) (h : Heap)
      → hi ≤ h.next
      → (h.next ≤ (box v h).1.next)
        × Agree (Within lo hi) h (box v h).1
        × Holds (Away lo hi (box v h).1.next) (box v h).0
  unfolding box
  box-Keeps null h room = (omega arith, (λ a w. refl), tt)
  box-Keeps (bool b) h room = (omega arith, (λ a w. refl), tt)
  box-Keeps (num n) h room = (omega arith, (λ a w. refl), tt)
  box-Keeps (str s) h room = (omega arith, (λ a w. refl), tt)
  box-Keeps (arr xs) h room = (omega arith, (λ a w. ground arith), (omega arith, inr room))
  box-Keeps (obj d) h room = (omega arith, (λ a w. ground arith), (omega arith, inr room))

  pub put-Keeps :
      (v : Value) (h : Heap) (d : Data) (k : String)
      → hi ≤ h.next
      → Refs (Away lo hi h.next) d
      → Keeps lo hi h (box v h).1 (Dict.put d k (box v h).0)
  put-Keeps v h d k room r =
      let (g, e, s) = box-Keeps v h room in
      record {
        grows = g;
        held = e;
        away = Refs-put _ d k (box v h).0 (Away-grows h.next (box v h).1.next d g r) s;
      }

  pub Keeps-trans :
      (h h' h'' : Heap) (d d' : Data)
      → Keeps lo hi h h' d
      → Keeps lo hi h' h'' d'
      → Keeps lo hi h h'' d'
  Keeps-trans h h' h'' d d' p q = record {
    grows = omega (arith, p.grows, q.grows);
    held = λ a w. q.held a w ∙ p.held a w;
    away = q.away;
  }

  pub put_all-Keeps :
      (now : ℕ) (kwargs : Dict Value) (h : Heap) (d : Data)
      → hi ≤ h.next
      → Refs (Away lo hi h.next) d
      → Keeps lo hi h (put_all now kwargs h d).1 (put_all now kwargs h d).0
  unfolding put_all
  put_all-Keeps now [] h d room r = record { grows = omega arith; held = λ a w. refl; away = r }
  put_all-Keeps now ((k, v) ∷ kwargs) h d room r =
      let p = put-Keeps v h d k room r in
      Keeps-trans h (box v h).1 _ _ _ p (
        put_all-Keeps now kwargs (box v h).1 (Dict.put d k (box v h).0) (omega (arith, p.grows))
          p.away)

  pub still : (h : Heap) (d : Data) → Refs (Away lo hi h.next) d → Keeps lo hi h h d
  still h d r = record { grows = omega arith; held = λ a w. refl; away = r }

  -- a write to a live cell
  pub write-Keeps :
      (a : ℕ) (v : Value) (h : Heap) (d : Data)
      → Away lo hi h.next a
      → Refs (Away lo hi h.next) d
      → Keeps lo hi h (write a v h) d
  unfolding write
  write-Keeps a v h d w r = record {
    grows = omega arith;
    held = λ b x. ground (arith, w.1);
    away = r;
  }
