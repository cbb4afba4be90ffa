-- ===== src/Version/HeaderLine.antt =====
-- A line of a workflow header, and how it is read (kernel/version.py).
use terminal_agent.Base.{
  ℕ, ◌≡◌, ap, Option, none, some, List, [], ◌∷◌, ◌++◌, codes, strip, left_strip, Lacks, IsTrimmed,
  strip-IsTrimmed, right_strip-append,
}
use terminal_agent.Version.{then_parse}
use terminal_agent.Version.Workflow.{WorkflowMetadata}
use terminal_agent.Version.Header.{match_line, line_entry, value_of}

-- `# @workflow key: value`
abbrev pub header_line : List ℕ → List ℕ → List ℕ
header_line key value = codes "# @workflow " ++ (key ++ (codes ": " ++ value))

abbrev pub optional_line : List ℕ → Option (List ℕ) → List (List ℕ)
optional_line key none = []
optional_line key (some value) = header_line key value ∷ []

abbrev pub header_lines : WorkflowMetadata → List (List ℕ)
header_lines m =
    header_line (codes "name") m.name
    ∷ header_line (codes "version") m.version
    ∷ header_line (codes "min_kernel_version") m.min_kernel_version
    ∷ (optional_line (codes "max_kernel_version") m.max_kernel_version
        ++ optional_line (codes "deprecated_in") m.deprecated_in)

-- a text that a header line can hold
abbrev pub IsPlain : List ℕ → Type 0
IsPlain s = IsTrimmed s × Lacks 10 s

pub strip_line : (p v : List ℕ) → IsTrimmed v → strip (b'#' ∷ (p ++ v)) ≡ b'#' ∷ (p ++ v)
unfolding strip left_strip
strip_line p v t =
    rw t.spelled (right_strip-append (b'#' ∷ p) t.first t.rest (rw t.spelled at t.ends))

pub value_line :
    (c : ℕ) (w v : List ℕ) → IsTrimmed v → value_of (c ∷ w, codes ": " ++ v) ≡ some (c ∷ w, v)
unfolding value_of left_strip then_parse
value_line c w v t =
    rw (t.spelled, t.begins)
      (ap (λ (s : List ℕ). some (c ∷ w, s)) (rw t.spelled at (strip-IsTrimmed v t)))

pub name_line :
    (v : List ℕ) → IsTrimmed v → line_entry (header_line (codes "name") v) ≡ some (codes "name", v)
unfolding line_entry match_line then_parse
name_line v t = rw (strip_line (codes " @workflow name: ") v t) (value_line b'n' (codes "ame") v t)

pub version_line :
    (v : List ℕ)
    → IsTrimmed v
    → line_entry (header_line (codes "version") v) ≡ some (codes "version", v)
unfolding line_entry match_line then_parse
version_line v t =
    rw (strip_line (codes " @workflow version: ") v t) (value_line b'v' (codes "ersion") v t)

pub min_line :
    (v : List ℕ)
    → IsTrimmed v
    → line_entry (header_line (codes "min_kernel_version") v) ≡ some (codes "min_kernel_version", v)
unfolding line_entry match_line then_parse
min_line v t =
    rw (strip_line (codes " @workflow min_kernel_version: ") v t)
      (value_line b'm' (codes "in_kernel_version") v t)

pub max_line :
    (v : List ℕ)
    → IsTrimmed v
    → line_entry (header_line (codes "max_kernel_version") v) ≡ some (codes "max_kernel_version", v)
unfolding line_entry match_line then_parse
max_line v t =
    rw (strip_line (codes " @workflow max_kernel_version: ") v t)
      (value_line b'm' (codes "ax_kernel_version") v t)

pub deprecated_line :
    (v : List ℕ)
    → IsTrimmed v
    → line_entry (header_line (codes "deprecated_in") v) ≡ some (codes "deprecated_in", v)
unfolding line_entry match_line then_parse
deprecated_line v t =
    rw (strip_line (codes " @workflow deprecated_in: ") v t)
      (value_line b'd' (codes "eprecated_in") v t)
