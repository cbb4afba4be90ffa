-- ===== src/Value.antt =====
-- The JSON-like Python values that arguments, metadata and object data hold. A dict is its fields in
-- insertion order.
pub mod Reading
use terminal_agent.Base.{
  ℕ, String, ◌≡◌, refl, Bool, Option, none, some, List, [], ◌∷◌, arith, ◌==◌, eq_iff, if◌then◌else◌,
}

mutual
  pub data Value : Type 0 where
    null : Value
    obj : Fields → Value
    arr : Items → Value
    bool : Bool → Value
    num : ℕ → Value
    str : String → Value

  pub data Fields : Type 0 where
    end : Fields
    field : String → Value → Fields → Fields

  pub data Items : Type 0 where
    nil : Items
    cons : Value → Items → Items

-- a list of texts
abbrev pub texts : List String → Items
texts [] = nil
texts (s ∷ ss) = cons (str s) (texts ss)

-- `d.get(k)`
unfoldable pub get : Fields → String → Option Value
get end k = none
get (field j v d) k = if j == k then some v else get d k

-- `d[k] = v`
unfoldable pub put : Fields → String → Value → Fields
put end k v = field k v end
put (field j w d) k v = let rest = put d k v in if j == k then field j v d else field j w rest

-- `d.update(e)`
unfoldable pub update : Fields → Fields → Fields
update d end = d
update d (field k v e) = update (put d k v) e

abbrev pub keys : Fields → List String
keys end = []
keys (field k v d) = k ∷ keys d

abbrev pub none_or_text : Option String → Value
none_or_text none = null
none_or_text (some s) = str s

pub get-put :
    (d : Fields) (k j : String) (v : Value)
    → get (put d k v) j ≡ (if k == j then some v else get d j)
unfolding get put
get-put end k j v = refl
get-put (field i w d) k j v = ground (arith, eq_iff k j, eq_iff i k, eq_iff i j, get-put d k j v)
