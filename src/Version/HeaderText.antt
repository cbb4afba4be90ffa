-- ===== src/Version/HeaderText.antt =====
-- A header in the format that `check_workflow_header` documents, and how it is read
-- (kernel/version.py).
use terminal_agent.Base.{
  ℕ, ◌≡◌, ◌∙◌, refl, ap, Option, none, some, List, [], ◌∷◌, ◌++◌, arith, All, take, codes, join_by,
  codes_eq, zero, suc, Lacks, IsTrimmed, split-join_by,
}
use mathlib.Core.List.{append_assoc}
use terminal_agent.Version.{then_parse}
use terminal_agent.Version.Workflow.{WorkflowMetadata}
use terminal_agent.Version.Header.{
  line_entry, add_entry, read_lines, metadata_of, check_workflow_header, assign_key, value_at,
}
use terminal_agent.Version.HeaderLine.{
  header_line, optional_line, header_lines, IsPlain, name_line, version_line, min_line, max_line,
  deprecated_line,
}

-- a line that says nothing of the workflow
abbrev pub IsOther : List ℕ → Type 0
IsOther line = line_entry line ≡ none

read_lines-IsOther :
    (lines : List (List ℕ)) (metadata : List (List ℕ × List ℕ))
    → All IsOther lines
    → read_lines lines metadata ≡ metadata
unfolding read_lines add_entry
read_lines-IsOther [] metadata h = refl
read_lines-IsOther (line ∷ lines) metadata h = rw h.0 (read_lines-IsOther lines metadata h.1)

All-take {ℓ κ} :
    {A : Type ℓ} (P : A → Type κ) (n : ℕ) (l : List A) → All P (take (suc n) l) → All P (take n l)
All-take P zero [] h = tt
All-take P zero (x ∷ l) h = tt
All-take P (suc n) [] h = tt
All-take P (suc n) (x ∷ l) h = (h.0, All-take P n l h.1)

-- an optional text that a header line can hold
abbrev pub IsPlainOption : Option (List ℕ) → Type 0
IsPlainOption none = Unit
IsPlainOption (some s) = IsPlain s

pub record IsPlainWorkflow (m : WorkflowMetadata) : Type 0 where
  pub name : IsPlain m.name
  pub version : IsPlain m.version
  pub min_kernel_version : IsPlain m.min_kernel_version
  pub max_kernel_version : IsPlainOption m.max_kernel_version
  pub deprecated_in : IsPlainOption m.deprecated_in

module _ (name version min_version : List ℕ) (name_plain : IsTrimmed name)
    (version_plain : IsTrimmed version) (min_plain : IsTrimmed min_version) (rest : List (List ℕ))
    (others : All IsOther (take 17 rest)) where
  abbrev workflow : Option (List ℕ) → Option (List ℕ) → WorkflowMetadata
  workflow max_version deprecated = record {
    name = name;
    version = version;
    min_kernel_version = min_version;
    max_kernel_version = max_version;
    deprecated_in = deprecated;
  }

  read_header :
      (max_version deprecated : Option (List ℕ))
      → IsPlainOption max_version
      → IsPlainOption deprecated
      → metadata_of
          (read_lines (take 20 (header_lines (workflow max_version deprecated) ++ rest)) [])
        ≡ some (workflow max_version deprecated)
  unfolding read_lines add_entry assign_key metadata_of value_at then_parse codes_eq
  read_header none none p q =
      rw
        (
          name_line name name_plain,
          version_line version version_plain,
          min_line min_version min_plain,
          read_lines-IsOther (take 17 rest) _ others,
        )
        refl
  read_header (some m) none p q =
      rw
        (
          name_line name name_plain,
          version_line version version_plain,
          min_line min_version min_plain,
          max_line m p.0,
          read_lines-IsOther (take 16 rest) _ (All-take IsOther 16 rest others),
        )
        refl
  read_header none (some d) p q =
      rw
        (
          name_line name name_plain,
          version_line version version_plain,
          min_line min_version min_plain,
          deprecated_line d q.0,
          read_lines-IsOther (take 16 rest) _ (All-take IsOther 16 rest others),
        )
        refl
  read_header (some m) (some d) p q =
      rw
        (
          name_line name name_plain,
          version_line version version_plain,
          min_line min_version min_plain,
          max_line m p.0,
          deprecated_line d q.0,
          read_lines-IsOther (take 15 rest) _
              (All-take IsOther 15 rest (All-take IsOther 16 rest others)),
        )
        refl

Lacks-append : (x : ℕ) (p s : List ℕ) → Lacks x p → Lacks x s → Lacks x (p ++ s)
Lacks-append x [] s h k = k
Lacks-append x (c ∷ p) s h k = (h.0, Lacks-append x p s h.1 k)

header_line-Lacks :
    (key value : List ℕ) → Lacks 10 key → Lacks 10 value → Lacks 10 (header_line key value)
header_line-Lacks key value h k =
    Lacks-append 10 (codes "# @workflow ") _ (omega arith)
      (Lacks-append 10 key _ h (Lacks-append 10 (codes ": ") value (omega arith) k))

optional_line-Lacks :
    (key : List ℕ) (o : Option (List ℕ)) (rest : List (List ℕ))
    → Lacks 10 key
    → IsPlainOption o
    → All (Lacks 10) rest
    → All (Lacks 10) (optional_line key o ++ rest)
optional_line-Lacks key none rest h p r = r
optional_line-Lacks key (some v) rest h p r = (header_line-Lacks key v h p.1, r)

-- A code that begins with header lines in the documented format, for a workflow whose texts are
-- not empty, have no newline and neither begin nor end with white space, and of whose further
-- lines none among the first 17 is a workflow line, is read as that workflow.
pub check_workflow_header_lem :
    (m : WorkflowMetadata) (rest : List (List ℕ))
    → IsPlainWorkflow m
    → All (Lacks 10) rest
    → All IsOther (take 17 rest)
    → check_workflow_header (join_by 10 (header_lines m ++ rest)) ≡ some m
unfolding check_workflow_header
check_workflow_header_lem m rest plain lines others =
    let tail =
      optional_line (codes "max_kernel_version") m.max_kernel_version
      ++ optional_line (codes "deprecated_in") m.deprecated_in in
    ap (λ (l : List (List ℕ)). metadata_of (read_lines (take 20 l) []))
      (split-join_by 10 (header_line (codes "name") m.name)
        (header_line (codes "version") m.version
          ∷ header_line (codes "min_kernel_version") m.min_kernel_version
          ∷ (tail ++ rest))
        (
          header_line-Lacks (codes "name") m.name (omega arith) plain.name.1,
          (
            header_line-Lacks (codes "version") m.version (omega arith) plain.version.1,
            (
              header_line-Lacks (codes "min_kernel_version") m.min_kernel_version (omega arith)
                  plain.min_kernel_version.1,
              rw append_assoc (
                  optional_line-Lacks (codes "max_kernel_version") m.max_kernel_version _
                    (omega arith) plain.max_kernel_version
                    (optional_line-Lacks (codes "deprecated_in") m.deprecated_in rest (omega arith)
                      plain.deprecated_in lines)),
            ),
          ),
        ))
    ∙ read_header m.name m.version m.min_kernel_version plain.name.0 plain.version.0
        plain.min_kernel_version.0 rest others m.max_kernel_version m.deprecated_in
        plain.max_kernel_version plain.deprecated_in
