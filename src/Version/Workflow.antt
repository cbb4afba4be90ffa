-- ===== src/Version/Workflow.antt =====
-- `WorkflowMetadata.check_compatibility` and `KernelVersionChecker` (kernel/version.py).
use terminal_agent.Base.{
  ℕ, Bool, true, false, not, ◌&&◌, ◌||◌, Option, none, some, List, [], ◌∷◌, nat_eq, codes_eq,
  if◌then◌else◌,
}
use terminal_agent.Version.{SemanticVersion, parse, lt, then_parse, is_compatible_with}

pub data VersionCompatibility : Type 0 where
  compatible deprecated incompatible : VersionCompatibility

-- the messages, with the texts and numbers that they print
pub data Message : Type 0 where
  requires_at_least : (min_version kernel : List ℕ) → Message
  requires_at_most : (max_version kernel : List ℕ) → Message
  built_for : (built running : ℕ) → Message
  deprecated_as_of : List ℕ → Message
  fine : Message

pub record WorkflowMetadata : Type 0 where
  pub name : List ℕ
  pub version : List ℕ
  pub min_kernel_version : List ℕ
  pub max_kernel_version : Option (List ℕ)
  pub deprecated_in : Option (List ℕ)

-- the equality of the prerelease fields
abbrev pub same_prerelease : Option (List ℕ) → Option (List ℕ) → Bool
same_prerelease none none = true
same_prerelease none (some q) = false
same_prerelease (some p) none = false
same_prerelease (some p) (some q) = codes_eq p q

-- `__eq__` of the dataclass
unfoldable pub eq : SemanticVersion → SemanticVersion → Bool
eq v w =
    nat_eq v.major w.major
    && nat_eq v.minor w.minor
    && nat_eq v.patch w.patch
    && same_prerelease v.prerelease w.prerelease

-- `__le__`, `__gt__`, `__ge__`
unfoldable pub le : SemanticVersion → SemanticVersion → Bool
unfolding eq
le v w = eq v w || lt v w

unfoldable pub gt : SemanticVersion → SemanticVersion → Bool
unfolding le
gt v w = not (le v w)

unfoldable pub ge : SemanticVersion → SemanticVersion → Bool
ge v w = not (lt v w)

-- an optional text of a workflow, where the empty one counts as absent
abbrev pub present : Option (List ℕ) → Option (List ℕ)
present none = none
present (some []) = none
present (some (c ∷ s)) = some (c ∷ s)

abbrev pub Answer : Type 0
Answer = Option (VersionCompatibility × Message)

-- the last test, of the deprecation
unfoldable pub check_deprecation : SemanticVersion → Option (List ℕ) → Answer
check_deprecation kernel none = some (compatible, fine)
check_deprecation kernel (some t) =
    then_parse (parse t)
      (λ d. if ge kernel d then some (deprecated, deprecated_as_of t) else some (compatible, fine))

-- the tests after the one of the maximum
unfoldable pub check_api : SemanticVersion → SemanticVersion → WorkflowMetadata → Answer
unfolding check_deprecation
check_api kernel min_version m =
    if not (is_compatible_with kernel min_version)
    then some (incompatible, built_for min_version.major kernel.major)
    else check_deprecation kernel (present m.deprecated_in)

-- the test of the maximum, and the tests after it
unfoldable pub check_maximum :
    List ℕ → SemanticVersion → SemanticVersion → WorkflowMetadata → Option (List ℕ) → Answer
unfolding check_api
check_maximum text kernel min_version m none = check_api kernel min_version m
check_maximum text kernel min_version m (some t) = then_parse (parse t) (λ max_version.
    if gt kernel max_version
    then some (incompatible, requires_at_most t text)
    else check_api kernel min_version m)

-- `check_compatibility`; none is the ValueError of a text that is no version
unfoldable pub check_compatibility : List ℕ → WorkflowMetadata → Answer
unfolding check_maximum
check_compatibility text m = then_parse (parse text) (λ kernel.
    then_parse (parse m.min_kernel_version) (λ min_version.
      if lt kernel min_version
      then some (incompatible, requires_at_least m.min_kernel_version text)
      else check_maximum text kernel min_version m (present m.max_kernel_version)))

-- `KernelVersionChecker`
pub record KernelVersionChecker : Type 0 where
  pub kernel_version : List ℕ
  pub kernel_ver : SemanticVersion

-- its constructor
unfoldable pub checker_of : List ℕ → Option KernelVersionChecker
checker_of text =
    then_parse (parse text) (λ v. some (record { kernel_version = text; kernel_ver = v }))

unfoldable pub check_workflow : KernelVersionChecker → WorkflowMetadata → Answer
unfolding check_compatibility
check_workflow c m = check_compatibility c.kernel_version m

unfoldable pub check_min_version : KernelVersionChecker → List ℕ → Option Bool
check_min_version c text = then_parse (parse text) (λ v. some (ge c.kernel_ver v))

unfoldable pub is_breaking_upgrade : KernelVersionChecker → List ℕ → Option Bool
is_breaking_upgrade c text =
    then_parse (parse text) (λ v. some (not (nat_eq c.kernel_ver.major v.major)))
