-- ===== src/Objects/Query.antt =====
-- `ManagedObject.get` and `to_dict`, and `ObjectManager.query` (kernel/objects.py). A filter is
-- compared with Python's `==`: a Boolean equals the number that it is, and a dict equals one with the
-- same items in another order.
use terminal_agent.Base.{
  ℕ, zero, suc, String, Bool, true, false, ◌&&◌, Option, none, some, List, [], ◌∷◌, ◌==◌, nat_eq,
  select,
}
use terminal_agent.Dict
use terminal_agent.Dict.{Dict}
use terminal_agent.Value
use terminal_agent.Value.{
  Value, null, obj, arr, bool, num, str, Fields, end, field, Items, nil, cons,
}
use terminal_agent.Objects.Heap.{Heap, deref, reads}
use terminal_agent.Objects.Object.{ObjectType, ManagedObject, type_value}
use terminal_agent.Objects.Snapshot.{same_type}
use terminal_agent.Objects.Manager.{Manager}

abbrev number_of : Bool → ℕ
number_of true = 1
number_of false = 0

-- how many items a dict has
unfoldable pub count_fields : Fields → ℕ
count_fields end = zero
count_fields (field k v d) = suc (count_fields d)

-- `==` on values
unfoldable mutual
  unfolding Value.get count_fields

  pub same_value : Value → Value → Bool
  same_value null null = true
  same_value (bool b) (bool c) = nat_eq (number_of b) (number_of c)
  same_value (bool b) (num n) = nat_eq (number_of b) n
  same_value (num n) (bool c) = nat_eq n (number_of c)
  same_value (num n) (num k) = nat_eq n k
  same_value (str s) (str t) = s == t
  same_value (arr xs) (arr ys) = same_items xs ys
  same_value (obj d) (obj e) = nat_eq (count_fields d) (count_fields e) && are_fields_of d e
  same_value _ _ = false

  pub same_items : Items → Items → Bool
  same_items nil nil = true
  same_items (cons x xs) (cons y ys) = same_value x y && same_items xs ys
  same_items _ _ = false

  -- each item of the first dict is one of the second
  pub are_fields_of : Fields → Fields → Bool
  are_fields_of end e = true
  are_fields_of (field k v d) e =
      (elim (Value.get e k) [ none ↦ false | some w ↦ same_value v w ]) && are_fields_of d e

-- `obj.get(key)`
unfoldable pub data_at : String → Heap → ManagedObject → Value
data_at key h o = elim (Dict.get o.slots key) [ none ↦ null | some s ↦ deref h s ]

-- `all(…)` over the filters
unfoldable pub agrees : Fields → Heap → ManagedObject → Bool
unfolding data_at same_value
agrees end h o = true
agrees (field k v filters) h o = same_value (data_at k h o) v && agrees filters h o

-- the test of the type, which is skipped without one
unfoldable pub is_wanted : Option ObjectType → ManagedObject → Bool
unfolding same_type
is_wanted none o = true
is_wanted (some t) o = same_type o.type t

-- `ObjectManager.query`
unfoldable pub query : Option ObjectType → Fields → Manager → List ManagedObject
unfolding is_wanted agrees
query obj_type filters m =
    select (λ o. is_wanted obj_type o && agrees filters m.heap o) (Dict.values m.objects)

-- a dict of values
unfoldable pub fields_of : Dict Value → Fields
fields_of [] = end
fields_of ((k, v) ∷ d) = field k v (fields_of d)

-- `ManagedObject.to_dict`
unfoldable pub to_dict : Heap → ManagedObject → Fields
unfolding type_value fields_of
to_dict h o = field "id" (str o.id) (
    field "type" (str (type_value o.type)) (
      field "data" (obj (fields_of (reads h o.slots)))
        (field "created_at" (num o.created_at) (field "updated_at" (num o.updated_at) end))))
