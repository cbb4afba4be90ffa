-- ===== src/Objects/Methods.antt =====
-- Every method of an object leaves a block of cells alone that no live object refers to, and keeps
-- the object's identity and type (kernel/objects.py).
use terminal_agent.Base.{
  ℕ, ◌≤◌, ◌≡◌, refl, String, Bool, not, Option, none, some, arith, Bool-cases, inl, inr,
}
use terminal_agent.Dict
use terminal_agent.Dict.{Dict}
use terminal_agent.Value.{Value, null, bool, num, str, arr, obj, Items, Fields, end}
use terminal_agent.Objects.Heap.{Heap, box, Slot, atom, ref, Refs}
use terminal_agent.Objects.Object
use terminal_agent.Objects.Object.{
  ManagedObject, Outcome, put_all, fill_slot, fill_cell, tabs_slot, tabs_cell, holds, push, drop,
}
use terminal_agent.Objects.Manager.{
  Method, set, update, navigate, wait_for, fill, clear, add_tab, remove_tab, assign, call,
}
use terminal_agent.Objects.Apart.{
  Away, Keeps, Holds, Refs-put, Refs-get, put-Keeps, put_all-Keeps, still, write-Keeps,
}

-- what holds of the outcome of a method that was called in `h` on `o`
pub record Behaves (lo hi : ℕ) (h : Heap) (o : ManagedObject) (out : Outcome) : Type 0 where
  pub keeps : Keeps lo hi h out.1 out.2.slots
  pub id : out.2.id ≡ o.id
  pub type : out.2.type ≡ o.type

module _ (lo hi now : ℕ) (h : Heap) (o : ManagedObject) (room : hi ≤ h.next)
    (live : Refs (Away lo hi h.next) o.slots) where
  fill_cell-Behaves :
      (values : Fields) (a : ℕ) (v : Value)
      → Away lo hi h.next a
      → Behaves lo hi h o (fill_cell now values a v h o)
  fill_cell-Behaves values a (obj d) w = record {
    keeps = write-Keeps lo hi a _ h o.slots w live;
    id = refl;
    type = refl;
  }
  fill_cell-Behaves values a null w = record {
    keeps = still lo hi h o.slots live;
    id = refl;
    type = refl;
  }
  fill_cell-Behaves values a (bool b) w = record {
    keeps = still lo hi h o.slots live;
    id = refl;
    type = refl;
  }
  fill_cell-Behaves values a (num n) w = record {
    keeps = still lo hi h o.slots live;
    id = refl;
    type = refl;
  }
  fill_cell-Behaves values a (str s) w = record {
    keeps = still lo hi h o.slots live;
    id = refl;
    type = refl;
  }
  fill_cell-Behaves values a (arr xs) w = record {
    keeps = still lo hi h o.slots live;
    id = refl;
    type = refl;
  }

  fill_slot-Behaves :
      (values : Fields) (s : Option Slot)
      → ((t : Slot) → s ≡ some t → Holds (Away lo hi h.next) t)
      → Behaves lo hi h o (fill_slot now values s h o)
  fill_slot-Behaves values none w = record {
    keeps = still lo hi h o.slots live;
    id = refl;
    type = refl;
  }
  fill_slot-Behaves values (some (atom v)) w = record {
    keeps = still lo hi h o.slots live;
    id = refl;
    type = refl;
  }
  fill_slot-Behaves values (some (ref a)) w = fill_cell-Behaves values a (h.cell a) (w (ref a) refl)

  tabs_cell-Behaves :
      (test : Items → String → Bool) (change : Items → String → Items) (t : String) (a : ℕ)
      (v : Value)
      → Away lo hi h.next a
      → Behaves lo hi h o (tabs_cell now test change t a v h o)
  tabs_cell-Behaves test change t a (arr xs) w = elim (Bool-cases (test xs t)) [
    | inl e ↦
        rw e (record { keeps = write-Keeps lo hi a _ h o.slots w live; id = refl; type = refl })
    | inr e ↦ rw e (record { keeps = still lo hi h o.slots live; id = refl; type = refl })
  ]
  tabs_cell-Behaves test change t a null w = record {
    keeps = still lo hi h o.slots live;
    id = refl;
    type = refl;
  }
  tabs_cell-Behaves test change t a (bool b) w = record {
    keeps = still lo hi h o.slots live;
    id = refl;
    type = refl;
  }
  tabs_cell-Behaves test change t a (num n) w = record {
    keeps = still lo hi h o.slots live;
    id = refl;
    type = refl;
  }
  tabs_cell-Behaves test change t a (str s) w = record {
    keeps = still lo hi h o.slots live;
    id = refl;
    type = refl;
  }
  tabs_cell-Behaves test change t a (obj d) w = record {
    keeps = still lo hi h o.slots live;
    id = refl;
    type = refl;
  }

  tabs_slot-Behaves :
      (test : Items → String → Bool) (change : Items → String → Items) (t : String)
      (s : Option Slot)
      → ((u : Slot) → s ≡ some u → Holds (Away lo hi h.next) u)
      → Behaves lo hi h o (tabs_slot now test change t s h o)
  tabs_slot-Behaves test change t none w = record {
    keeps = still lo hi h o.slots live;
    id = refl;
    type = refl;
  }
  tabs_slot-Behaves test change t (some (atom v)) w = record {
    keeps = still lo hi h o.slots live;
    id = refl;
    type = refl;
  }
  tabs_slot-Behaves test change t (some (ref a)) w =
      tabs_cell-Behaves test change t a (h.cell a) (w (ref a) refl)

  held_slot : (k : String) (t : Slot) → Dict.get o.slots k ≡ some t → Holds (Away lo hi h.next) t
  held_slot k t e = Refs-get _ o.slots k t live e

  -- Every method leaves a block alone that no live object refers to.
  pub call-Behaves : (f : Method) → Behaves lo hi h o (call now f h o)
  unfolding call Object.set Object.update Object.navigate Object.wait_for Object.fill Object.clear
      Object.add_tab Object.remove_tab Object.assign
  call-Behaves (set k v) = record {
    keeps = put-Keeps lo hi v h o.slots k room live;
    id = refl;
    type = refl;
  }
  call-Behaves (assign k v) = record {
    keeps = put-Keeps lo hi v h o.slots k room live;
    id = refl;
    type = refl;
  }
  call-Behaves (update kwargs) = record {
    keeps = put_all-Keeps lo hi now kwargs h o.slots room live;
    id = refl;
    type = refl;
  }
  call-Behaves (navigate url) = record {
    keeps = still lo hi h _ (
        Refs-put _ _ "load_state" (atom (str "loading"))
          (Refs-put _ o.slots "url" (atom (str url)) live tt) tt);
    id = refl;
    type = refl;
  }
  call-Behaves (wait_for state) = record {
    keeps = still lo hi h _ (Refs-put _ o.slots "load_state" (atom (str state)) live tt);
    id = refl;
    type = refl;
  }
  call-Behaves (fill values) =
      fill_slot-Behaves values (Dict.get o.slots "filled") (held_slot "filled")
  call-Behaves clear = record {
    keeps = unfold box in put-Keeps lo hi (obj end) h o.slots "filled" room live;
    id = refl;
    type = refl;
  }
  call-Behaves (add_tab t) =
      tabs_slot-Behaves (λ xs s. not (holds xs s)) push t (Dict.get o.slots "tabs")
        (held_slot "tabs")
  call-Behaves (remove_tab t) =
      tabs_slot-Behaves holds drop t (Dict.get o.slots "tabs") (held_slot "tabs")

-- Methods keep the identity and the type, whatever the heap.
pub call_identity :
    (now : ℕ) (f : Method) (h : Heap) (o : ManagedObject)
    → ((call now f h o).2.id ≡ o.id) × ((call now f h o).2.type ≡ o.type)
unfolding call Object.set Object.update Object.navigate Object.wait_for Object.fill Object.clear
    Object.add_tab Object.remove_tab Object.assign
call_identity now (set k v) h o = (refl, refl)
call_identity now (fill values) h o = ground arith
call_identity now (add_tab t) h o = ground arith
call_identity now (remove_tab t) h o = ground arith
call_identity now _ h o = (refl, refl)
