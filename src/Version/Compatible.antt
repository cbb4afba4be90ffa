-- ===== src/Version/Compatible.antt =====
-- When a workflow may run on a kernel (`check_compatibility` of kernel/version.py).
use terminal_agent.Base.{
  ℕ, ◌≡◌, ◌≢◌, ◌↔◌, refl, sym, ap, subst, Bool, true, false, not, Option, none, some, List, arith,
  if◌then◌else◌,
}
use mathlib.Core.Option.{some-injective}
use terminal_agent.Version.{SemanticVersion, parse, lt, then_parse, is_compatible_with}
use terminal_agent.Version.Workflow.{
  VersionCompatibility, compatible, deprecated, incompatible, Message, WorkflowMetadata, Answer, gt,
  present, check_deprecation, check_api, check_maximum, check_compatibility, ge,
}

-- an answer that lets the workflow run
abbrev pub Runs : Answer → Type 0
Runs a = (s : VersionCompatibility) × (e : Message) × (a ≡ some (s, e)) × (s ≢ incompatible)

-- the kernel does not exceed the maximum, if there is one
abbrev pub IsAtMost : SemanticVersion → Option (List ℕ) → Type 0
IsAtMost kernel none = Unit
IsAtMost kernel (some t) = (v : SemanticVersion) × (parse t ≡ some v) × (gt kernel v ≡ false)

-- the deprecation, if there is one, names a version
abbrev pub IsReadable : Option (List ℕ) → Type 0
IsReadable none = Unit
IsReadable (some t) = (v : SemanticVersion) × (parse t ≡ some v)

incompatible_stops : (e : Message) → ¬ Runs (some (incompatible, e))
incompatible_stops e (s, f, q, n) = n (
    ap (λ (x : VersionCompatibility × Message). x.0)
      (sym (some-injective (incompatible, e) (s, f) q)))

none_stops : ¬ Runs none
none_stops (s, f, q, n) = absurd (cc q)

Runs-then_parse :
    {A : Type 0} (o : Option A) (f : A → Answer)
    → Runs (then_parse o f) ↔ ((v : A) × (o ≡ some v) × Runs (f v))
unfolding then_parse
Runs-then_parse none f = ((λ h. absurd (none_stops h)), (λ h. absurd (cc (h.1))))
Runs-then_parse (some a) f =
    ((λ h. (a, refl, h)), (λ h. subst (λ v. Runs (f v)) (sym (some-injective a h.0 h.1)) h.2))

Runs-guard :
    (b : Bool) (e : Message) (a : Answer)
    → Runs (if b then some (incompatible, e) else a) ↔ ((b ≡ false) × Runs a)
Runs-guard true e a = ((λ h. absurd (incompatible_stops e h)), (λ h. absurd (cc (h.0))))
Runs-guard false e a = ((λ h. (refl, h)), (λ h. h.1))

-- the deprecation never stops a workflow
Runs-either :
    (b : Bool) (d f : Message) → Runs (if b then some (deprecated, d) else some (compatible, f))
Runs-either true d f = (deprecated, d, refl, λ e. absurd (cc e))
Runs-either false d f = (compatible, f, refl, λ e. absurd (cc e))

module _ (kernel : SemanticVersion) where
  Runs-check_deprecation : (o : Option (List ℕ)) → Runs (check_deprecation kernel o) ↔ IsReadable o
  unfolding check_deprecation
  Runs-check_deprecation none = ((λ h. tt), (λ h. (compatible, _, refl, λ e. absurd (cc e))))
  Runs-check_deprecation (some t) =
      let (to, from) = Runs-then_parse (parse t) _ in
      (
        (λ h. let (v, e, r) = to h in (v, e)),
        (λ h. from (h.0, h.1, Runs-either (ge kernel h.0) _ _)),
      )

  module _ (min_version : SemanticVersion) (m : WorkflowMetadata) where
    Runs-check_api :
        Runs (check_api kernel min_version m)
        ↔ ((kernel.major ≡ min_version.major) × IsReadable (present m.deprecated_in))
    unfolding check_api
    Runs-check_api =
        let (to, from) = Runs-guard (not (is_compatible_with kernel min_version)) _ _ in
        let (read, readable) = Runs-check_deprecation (present m.deprecated_in) in
        (
          (λ h. let (b, r) = to h in (ground arith, read r)),
          (λ h. from (ground (arith, h.0), readable h.1)),
        )

    Runs-check_maximum :
        (text : List ℕ) (o : Option (List ℕ))
        → Runs (check_maximum text kernel min_version m o) ↔ (
            IsAtMost kernel o
            × (kernel.major ≡ min_version.major)
            × IsReadable (present m.deprecated_in))
    unfolding check_maximum
    Runs-check_maximum text none =
        ((λ h. let (a, r) = Runs-check_api.0 h in (tt, a, r)), (λ h. Runs-check_api.1 (h.1, h.2)))
    Runs-check_maximum text (some t) =
        let (to, from) = Runs-then_parse (parse t) _ in
        (
          (λ h.
              let (v, e, r) = to h in
              let (b, a) = (Runs-guard (gt kernel v) _ _).0 r in
              let (same, r) = Runs-check_api.0 a in ((v, e, b), same, r)),
          (λ h.
              let (v, e, b) = h.0 in
              from (v, e, (Runs-guard (gt kernel v) _ _).1 (b, Runs-check_api.1 (h.1, h.2)))),
        )

-- what lets a workflow run on the kernel that a text names
pub record Fits (text : List ℕ) (m : WorkflowMetadata) : Type 0 where
  pub kernel : SemanticVersion
  pub is_kernel : parse text ≡ some kernel
  pub min_version : SemanticVersion
  pub is_min_version : parse m.min_kernel_version ≡ some min_version
  pub at_least : lt kernel min_version ≡ false
  pub at_most : IsAtMost kernel (present m.max_kernel_version)
  pub same_major : kernel.major ≡ min_version.major
  pub readable : IsReadable (present m.deprecated_in)

-- A workflow is found compatible or deprecated on the kernel that a text names exactly when the
-- text and the minimum parse, the kernel is not below the minimum, the maximum, if there is one,
-- parses and the kernel is not above it, the major versions are equal, and the deprecation, if
-- there is one, parses.
pub check_compatibility-Runs :
    (text : List ℕ) (m : WorkflowMetadata) → Runs (check_compatibility text m) ↔ Fits text m
unfolding check_compatibility
check_compatibility-Runs text m = (
  (λ h.
      let (kernel, k, r) = (Runs-then_parse (parse text) _).0 h in
      let (min_version, l, q) = (Runs-then_parse (parse m.min_kernel_version) _).0 r in
      let (b, a) = (Runs-guard (lt kernel min_version) _ _).0 q in
      let (most, same, read) =
        (Runs-check_maximum kernel min_version m text (present m.max_kernel_version)).0 a in
      record {
        kernel = kernel;
        is_kernel = k;
        min_version = min_version;
        is_min_version = l;
        at_least = b;
        at_most = most;
        same_major = same;
        readable = read;
      }),
  (λ f. (Runs-then_parse (parse text) _).1 (
    f.kernel,
    f.is_kernel,
    (Runs-then_parse (parse m.min_kernel_version) _).1 (
      f.min_version,
      f.is_min_version,
      (Runs-guard (lt f.kernel f.min_version) _ _).1 (
        f.at_least,
        (Runs-check_maximum f.kernel f.min_version m text (present m.max_kernel_version)).1
            (f.at_most, f.same_major, f.readable),
      ),
    ),
  )),
)
