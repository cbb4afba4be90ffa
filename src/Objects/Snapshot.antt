-- ===== src/Objects/Snapshot.antt =====
-- `ObjectState`, `_shallow_copy_with_refs`, `snapshot` and `restore` (kernel/objects.py).
use terminal_agent.Base.{ℕ, String, Bool, true, false, not, ◌||◌, [], ◌∷◌, ◌==◌, ltb, if◌then◌else◌}
use mathlib.Core.Bool.{decide}
use terminal_agent.Dict
use terminal_agent.Dict.{Dict}
use terminal_agent.Platform.{Platform}
use terminal_agent.Value.{null}
use terminal_agent.Result.{ok, raise, value_error}
use terminal_agent.Objects.Heap.{Heap, alloc, atom, ref, Data}
use terminal_agent.Objects.Object.{ObjectType, ObjectType-discrete, ManagedObject, Outcome}

pub record ObjectState : Type 0 where
  pub id : String
  pub type : ObjectType
  pub slots : Data
  -- keys whose containers are kept by reference
  pub large_refs : Dict ℕ
  pub timestamp : ℕ

-- `LARGE_THRESHOLD`
abbrev pub large_threshold : ℕ
large_threshold = 10000

-- `copy.deepcopy(v)` of a container
abbrev pub deepcopy : ℕ → Heap → ℕ × Heap
deepcopy a h = alloc (h.cell a) h

module _ (os : Platform) where
  unfoldable pub is_large : Heap → ℕ → Bool
  is_large h a = ltb large_threshold (os.json_size (h.cell a))

  -- The loop of `_shallow_copy_with_refs`: a small container is copied, a large one is referred to
  -- and stands as None in the copy. The keys of a dict are distinct, so the copy keeps their order.
  unfoldable pub shallow_copy : Data → Heap → Data × Dict ℕ × Heap
  shallow_copy [] h = ([], [], h)
  shallow_copy ((k, atom v) ∷ d) h =
      let (shallow, refs, h') = shallow_copy d h in ((k, atom v) ∷ shallow, refs, h')
  shallow_copy ((k, ref a) ∷ d) h = elim (is_large h a) [
    | true ↦
        let (shallow, refs, h') = shallow_copy d h in ((k, atom null) ∷ shallow, (k, a) ∷ refs, h')
    | false ↦
        let (b, h1) = deepcopy a h in
        let (shallow, refs, h') = shallow_copy d h1 in ((k, ref b) ∷ shallow, refs, h')
  ]

  -- `ManagedObject.snapshot`
  unfoldable pub snapshot : ℕ → Heap → ManagedObject → ObjectState × Heap
  snapshot now h o =
      let (shallow, refs, h') = shallow_copy o.slots h in
      (record { id = o.id; type = o.type; slots = shallow; large_refs = refs; timestamp = now }, h')

-- the loop of `get_full_data`: large containers are copied when they are restored
unfoldable pub full_data : Dict ℕ → Data → Heap → Data × Heap
unfolding alloc
full_data [] d h = (d, h)
full_data ((k, a) ∷ refs) d h =
    let (b, h') = deepcopy a h in full_data refs (Dict.put d k (ref b)) h'

-- `ObjectState.get_full_data`
unfoldable pub get_full_data : ObjectState → Heap → Data × Heap
unfolding full_data
get_full_data s h = full_data s.large_refs s.slots h

unfoldable pub same_type : ObjectType → ObjectType → Bool
same_type s t = decide (ObjectType-discrete s t)

-- `ManagedObject.restore`
unfoldable pub restore : ℕ → ObjectState → Heap → ManagedObject → Outcome
unfolding get_full_data same_type
restore now s h o =
    if not (s.id == o.id) || not (same_type s.type o.type)
    then (raise (value_error s.id), h, o)
    else (let (d, h') = get_full_data s h in (ok tt, h', record o { slots = d; updated_at = now }))
