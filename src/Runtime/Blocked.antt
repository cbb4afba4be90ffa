-- ===== src/Runtime/Blocked.antt =====
-- Which code the import check lets through, and that no other code is run (kernel/runtime.py).
use terminal_agent.Base.{
  ℕ, ◌≡◌, ◌∙◌, refl, sym, ap, subst, ◌↔◌, ◌⊎◌, String, false, Option, none, some, List, [], ◌∷◌,
  ◌++◌, In, here, there, In-append_left, In-append_right, In-append_cases, Bool-cases, inl, inr,
}
use terminal_agent.Runtime.{Browser}
use terminal_agent.Runtime.Sandbox.{
  ExecutionResult, failed, Node, Nodes, imports, imports_from, other, leaf, child, is_blocked,
  import_violations, from_violations, visit, visit_all, Parsed, parsed, syntax_error, Ended, join,
  failure, result_of, tree_errors, validate_code, execute,
}

-- the node and all below it
abbrev mutual
  pub nodes_of : Node → List Node
  nodes_of (imports names kids) = imports names kids ∷ nodes_below kids
  nodes_of (imports_from m kids) = imports_from m kids ∷ nodes_below kids
  nodes_of (other kids) = other kids ∷ nodes_below kids

  pub nodes_below : Nodes → List Node
  nodes_below leaf = []
  nodes_below (child n ns) = nodes_of n ++ nodes_below ns

-- the node imports from no blocked module
abbrev pub IsAllowed : Node → Type 0
IsAllowed (imports names kids) = (name : String) → In name names → is_blocked name ≡ false
IsAllowed (imports_from none kids) = Unit
IsAllowed (imports_from (some m) kids) = is_blocked m ≡ false
IsAllowed (other kids) = Unit

List-cases {ℓ} : {A : Type ℓ} (l : List A) → (l ≡ []) ⊎ ((x : A) × (xs : List A) × (l ≡ x ∷ xs))
List-cases [] = inl refl
List-cases (x ∷ xs) = inr (x, xs, refl)

append_empty {ℓ} : {A : Type ℓ} (xs ys : List A) → (xs ++ ys ≡ []) ↔ ((xs ≡ []) × (ys ≡ []))
append_empty [] ys = ((λ h. (refl, h)), (λ h. h.1))
append_empty (x ∷ xs) ys = ((λ h. cc), (λ h. cc (h.0)))

import_violations_iff :
    (names : List String)
    → (import_violations names ≡ []) ↔ ((name : String) → In name names → is_blocked name ≡ false)
unfolding import_violations
import_violations_iff [] = ((λ h name m. elim m [ ]), (λ h. refl))
import_violations_iff (n ∷ names) = elim (Bool-cases (is_blocked n)) [
  | inl e ↦ rw e ((λ h. cc), (λ h. absurd (cc (h n (here refl), e))))
  | inr e ↦ rw e (
    (λ h name m. elim m [
      | here q ↦ ap is_blocked q ∙ e
      | there k ↦ (import_violations_iff names).0 h name k
    ]),
    (λ h. (import_violations_iff names).1 (λ name m. h name (there m))),
  )
]

from_violations_iff :
    (m : Option String) (kids : Nodes) → (from_violations m ≡ []) ↔ IsAllowed (imports_from m kids)
unfolding from_violations
from_violations_iff none kids = ((λ h. tt), (λ h. refl))
from_violations_iff (some m) kids = elim (Bool-cases (is_blocked m)) [
  | inl e ↦ rw e ((λ h. cc), (λ h. cc))
  | inr e ↦ rw e ((λ h. refl), (λ h. refl))
]

-- nothing is found in a tree exactly when every node is allowed
abbrev AllAllowed : List Node → Type 0
AllAllowed l = (n : Node) → In n l → IsAllowed n

cons-AllAllowed : (x : Node) (l : List Node) → AllAllowed (x ∷ l) ↔ (IsAllowed x × AllAllowed l)
cons-AllAllowed x l = (
  (λ h. (h x (here refl), λ n m. h n (there m))),
  (λ h n m. elim m [ here q ↦ subst IsAllowed (sym q) h.0 | there k ↦ h.1 n k ]),
)

append-AllAllowed : (xs ys : List Node) → AllAllowed (xs ++ ys) ↔ (AllAllowed xs × AllAllowed ys)
append-AllAllowed xs ys = (
  (λ h. (λ n m. h n (In-append_left xs ys m), λ n m. h n (In-append_right xs ys m))),
  (λ h n m. elim (In-append_cases xs ys m) [ inl k ↦ h.0 n k | inr k ↦ h.1 n k ]),
)

-- a node's own violations come before those below it
node_iff :
    (x : Node) (own : List String) (below : List String) (kids : List Node)
    → (own ≡ []) ↔ IsAllowed x
    → (below ≡ []) ↔ AllAllowed kids
    → (own ++ below ≡ []) ↔ AllAllowed (x ∷ kids)
node_iff x own below kids first rest =
    let (to, from) = append_empty own below in
    let (to', from') = cons-AllAllowed x kids in
    (
      (λ h. from' (first.0 (to h).0, rest.0 (to h).1)),
      (λ h. from (first.1 (to' h).0, rest.1 (to' h).1)),
    )

mutual
  unfolding visit

  visit_iff : (n : Node) → (visit n ≡ []) ↔ AllAllowed (nodes_of n)
  visit_iff (imports names kids) =
      node_iff (imports names kids) (import_violations names) (visit_all kids) (nodes_below kids)
        (import_violations_iff names) (visit_all_iff kids)
  visit_iff (imports_from m kids) =
      node_iff (imports_from m kids) (from_violations m) (visit_all kids) (nodes_below kids)
        (from_violations_iff m kids) (visit_all_iff kids)
  visit_iff (other kids) =
      node_iff (other kids) [] (visit_all kids) (nodes_below kids) ((λ h. tt), (λ h. refl))
        (visit_all_iff kids)

  visit_all_iff : (ns : Nodes) → (visit_all ns ≡ []) ↔ AllAllowed (nodes_below ns)
  visit_all_iff leaf = ((λ h n m. elim m [ ]), (λ h. refl))
  visit_all_iff (child n ns) =
      let (to, from) = append_empty (visit n) (visit_all ns) in
      let (to', from') = append-AllAllowed (nodes_of n) (nodes_below ns) in
      let (a, b) = visit_iff n in
      let (c, d) = visit_all_iff ns in
      ((λ h. from' (a (to h).0, c (to h).1)), (λ h. from (b (to' h).0, d (to' h).1)))

-- the text parses, and no node of its tree imports from a blocked module
abbrev pub IsClean : Parsed → Type 0
IsClean p = (tree : Node) × (p ≡ parsed tree) × ((n : Node) → In n (nodes_of tree) → IsAllowed n)

tree_errors_iff : (parse : String → Parsed) (p : Parsed) → (tree_errors parse p ≡ []) ↔ IsClean p
unfolding tree_errors
tree_errors_iff parse (syntax_error message) = ((λ h. cc), (λ h. cc (h.1)))
tree_errors_iff parse (parsed tree) = (
  (λ h. (tree, refl, (visit_iff tree).0 h)),
  (λ h.
      (visit_iff tree).1
        (λ n m. h.2 n (subst (λ (t : Node). In n (nodes_of t)) (same tree h.0 h.1) m))),
)
  where
    tree_of : Node → Parsed → Node
    tree_of t (parsed u) = u
    tree_of t (syntax_error m) = t

    same : (t u : Node) → parsed t ≡ parsed u → t ≡ u
    same t u e = ap (tree_of t) e

-- The check of a text finds nothing exactly when the text parses and no node of its tree, at any
-- depth, imports from a blocked module.
pub validate_code_iff :
    (parse : String → Parsed) (code : String)
    → (validate_code parse code ≡ []) ↔ IsClean (parse code)
unfolding validate_code
validate_code_iff parse code = tree_errors_iff parse (parse code)

module _ (parse : String → Parsed) (exec : String → Browser → Ended × Browser) (limit : String)
    (duration : ℕ) where
  -- the answer to code that the check refuses
  refused :
      (code : String) (b : Browser) (e : String) (errors : List String)
      → validate_code parse code ≡ e ∷ errors
      → execute parse exec limit duration code b
        ≡ (failure (join (e ∷ errors)) "ValidationError" 0, b)
  unfolding execute
  refused code b e errors h = rw (execute, h) refl

  accepted :
      (code : String) (b : Browser)
      → validate_code parse code ≡ []
      → execute parse exec limit duration code b
        ≡ (result_of limit duration (exec code b).0, (exec code b).1)
  unfolding execute
  accepted code b h = rw (execute, h) refl

  -- Either the code parses and no node of its tree, at any depth, imports from a blocked module,
  -- and the execution is the run of the code: its answer by how the run ends, its effects those of
  -- the run; or that is not so, and then the code does not run: the answer is a validation error
  -- and the kernel is as it was.
  pub execute_lem :
      (code : String) (b : Browser)
      → (IsClean (parse code)
          × (execute parse exec limit duration code b
              ≡ (result_of limit duration (exec code b).0, (exec code b).1)))
        ⊎ ((¬ IsClean (parse code))
            × ((execute parse exec limit duration code b).0.state ≡ failed)
            × ((execute parse exec limit duration code b).0.error_type ≡ some "ValidationError")
            × ((execute parse exec limit duration code b).1 ≡ b))
  unfolding failure
  execute_lem code b =
      let (to, from) = validate_code_iff parse code in
      elim (List-cases (validate_code parse code)) [
        | inl h ↦ inl (to h, accepted code b h)
        | inr (e, errors, h) ↦ inr (
          (λ clean. absurd (cc (from clean, h))),
          ap (λ (r : ExecutionResult × Browser). r.0.state) (refused code b e errors h),
          ap (λ (r : ExecutionResult × Browser). r.0.error_type) (refused code b e errors h),
          ap (λ (r : ExecutionResult × Browser). r.1) (refused code b e errors h),
        )
      ]
