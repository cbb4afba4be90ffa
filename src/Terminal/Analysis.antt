-- ===== src/Terminal/Analysis.antt =====
-- The static analysis of code in the terminal: which capabilities its calls ask for
-- (`_analyze_required_caps` and `_infer_cap_from_call` of kernel/ui/terminal.py). The parameter
-- `calls` gives the functions of the calls in a text in the order of `ast.walk`, or nothing for a
-- syntax error.
use Prim.Native.String as S
use terminal_agent.Base.{
  String, Bool, true, false, ◌&&◌, Option, none, some, List, [], ◌∷◌, ◌++◌, ◌==◌, any,
  if◌then◌else◌,
}
use terminal_agent.Capability.{CapabilityRisk}

-- an inferred capability
pub record Required : Type 0 where
  pub operation : String
  pub resource : String
  pub risk : CapabilityRisk

-- the function of a call
pub data Func : Type 0 where
  name : String → Func
  attribute : Func → String → Func
  -- any other expression
  other : Func

-- the names of an attribute chain from the left
unfoldable pub parts : Func → List String
parts (name n) = n ∷ []
parts (attribute f a) = parts f ++ a ∷ []
parts other = []

unfoldable pub is_one_of : String → List String → Bool
is_one_of s names = any (λ n. n == s) names

unfoldable pub risk_of : String → CapabilityRisk
unfolding is_one_of
risk_of method =
    if is_one_of method ("submit" ∷ "delete" ∷ "send" ∷ [])
    then CapabilityRisk.irreversible
    else if is_one_of method ("navigate" ∷ "fill" ∷ "clear" ∷ "create" ∷ "open" ∷ "close" ∷ [])
    then CapabilityRisk.stateful
    else CapabilityRisk.read

-- `parts[1].lower()` is text of the parts' names: the parameter `lower_text` is `str.lower`
module _ (lower_text : String → String) where
  unfoldable pub infer_from_parts : List String → Option Required
  unfolding risk_of
  infer_from_parts (browser ∷ obj_type ∷ method ∷ rest) =
      if browser == "browser"
      then some (record {
        operation = S.◌++◌ (lower_text obj_type) (S.◌++◌ "." method);
        resource = "*";
        risk = risk_of method;
      })
      else none
  infer_from_parts _ = none

  unfoldable pub infer_cap_from_call : Func → Option Required
  unfolding infer_from_parts parts
  infer_cap_from_call (attribute f a) = infer_from_parts (parts (attribute f a))
  infer_cap_from_call _ = none

unfoldable pub same_risk : CapabilityRisk → CapabilityRisk → Bool
same_risk CapabilityRisk.read CapabilityRisk.read = true
same_risk CapabilityRisk.stateful CapabilityRisk.stateful = true
same_risk CapabilityRisk.irreversible CapabilityRisk.irreversible = true
same_risk _ _ = false

-- equality of two of the dicts
unfoldable pub same_required : Required → Required → Bool
unfolding same_risk
same_required a b =
    a.operation == b.operation && a.resource == b.resource && same_risk a.risk b.risk

-- one round of the loop over the calls
unfoldable pub add_required : Option Required → List Required → List Required
unfolding same_required
add_required none required = required
add_required (some cap) required =
    if any (same_required cap) required then required else required ++ cap ∷ []

module _ (lower_text : String → String) where
  unfoldable pub add_calls : List Func → List Required → List Required
  unfolding infer_cap_from_call add_required
  add_calls [] required = required
  add_calls (f ∷ fs) required =
      add_calls fs (add_required (infer_cap_from_call lower_text f) required)

  unfoldable pub analyze : (String → Option (List Func)) → String → List Required
  unfolding add_calls
  analyze calls code = elim (calls code) [ none ↦ [] | some fs ↦ add_calls fs [] ]

unfoldable pub is_irreversible : Required → Bool
unfolding same_risk
is_irreversible cap = same_risk cap.risk CapabilityRisk.irreversible
