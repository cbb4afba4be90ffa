-- ===== src/Objects/Names.antt =====
-- Identities: they print apart, they are never used again, and an identity tells its object's type
-- (`_next_id`, `create` of kernel/objects.py).
use terminal_agent.Base.{
  ℕ, ◌≡◌, ◌∙◌, refl, sym, ap, String, Option, none, some, List, [], ◌∷◌, ◌++◌, ◌==◌, nat_eq, codes,
  codes-append, codes_inj, show, show_inj, if◌then◌else◌,
}
use mathlib.Core.Option.{some-injective}
use terminal_agent.Objects.Object.{
  ObjectType, type_value, tab, document, form, download, workspace, transaction, checkpoint,
  credential,
}
use terminal_agent.Objects.Manager.{object_id}

-- `ObjectType(text)`
unfoldable pub type_of_value : String → Option ObjectType
type_of_value s =
    if s == "tab"
    then some tab
    else if s == "doc"
    then some document
    else if s == "form"
    then some form
    else if s == "download"
    then some download
    else if s == "workspace"
    then some workspace
    else if s == "tx"
    then some transaction
    else if s == "cp"
    then some checkpoint
    else if s == "cred"
    then some credential
    else none

pub type_of_value-type_value : (t : ObjectType) → type_of_value (type_value t) ≡ some t
unfolding type_of_value type_value
type_of_value-type_value tab = refl
type_of_value-type_value _ = refl

-- the text before the first colon, and the text after it
before : List ℕ → List ℕ
before [] = []
before (c ∷ s) = let rest = before s in if nat_eq c b':' then [] else c ∷ rest

after : List ℕ → List ℕ
after [] = []
after (c ∷ s) = let rest = after s in if nat_eq c b':' then s else rest

codes-object_id :
    (t : ObjectType) (n : ℕ) → codes (object_id t n) ≡ codes (type_value t) ++ b':' ∷ codes (show n)
unfolding object_id
codes-object_id t n = rw (codes-append, codes-append)

before-value :
    (t : ObjectType) (s : List ℕ) → before (codes (type_value t) ++ b':' ∷ s) ≡ codes (type_value t)
unfolding before type_value
before-value tab s = refl
before-value _ s = refl

after-value : (t : ObjectType) (s : List ℕ) → after (codes (type_value t) ++ b':' ∷ s) ≡ s
unfolding after type_value
after-value tab s = refl
after-value _ s = refl

-- Two identities are equal only for the same type and the same number.
pub object_id_inj : (t u : ObjectType) (m n : ℕ) → object_id t m ≡ object_id u n → (t ≡ u) × (m ≡ n)
object_id_inj t u m n h =
    let texts : codes (type_value t) ++ b':' ∷ codes (show m)
        ≡ codes (type_value u) ++ b':' ∷ codes (show n) =
      sym (codes-object_id t m) ∙ ap codes h ∙ codes-object_id u n in
    let values =
      codes_inj (type_value t) (type_value u)
        (sym (before-value t _) ∙ ap before texts ∙ before-value u _) in
    let numbers =
      codes_inj (show m) (show n) (sym (after-value t _) ∙ ap after texts ∙ after-value u _) in
    (
      some-injective t u
          (sym (type_of_value-type_value t) ∙ ap type_of_value values ∙ type_of_value-type_value u),
      show_inj m n numbers,
    )
