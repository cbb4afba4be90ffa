-- ===== src/Version/Header.antt =====
-- `check_workflow_header` (kernel/version.py). `\w` is read on ASCII: a key with another letter is
-- one that the function does not look up.
use terminal_agent.Base.{
  ℕ, Bool, ◌&&◌, ◌||◌, Option, none, some, List, [], ◌∷◌, leb, nat_eq, codes, codes_eq, is_digit,
  is_space, left_strip, strip, split, starts_with, contains, take, if◌then◌else◌,
}
use terminal_agent.Version.{then_parse}
use terminal_agent.Version.Workflow.{WorkflowMetadata}

-- `\w`
unfoldable pub is_word : ℕ → Bool
is_word c = is_digit c || nat_eq c b'_' || (leb b'a' c && leb c b'z') || (leb b'A' c && leb c b'Z')

-- `\w*` and the text after it
unfoldable pub word : List ℕ → List ℕ × List ℕ
unfolding is_word
word [] = ([], [])
word (c ∷ s) = let (w, r) = word s in if is_word c then (c ∷ w, r) else ([], c ∷ s)

-- the text after a given text
unfoldable pub after_text : List ℕ → List ℕ → Option (List ℕ)
after_text [] s = some s
after_text (d ∷ p) [] = none
after_text (d ∷ p) (c ∷ s) = let rest = after_text p s in if nat_eq c d then rest else none

-- the text after `\s+`
unfoldable pub after_spaces : List ℕ → Option (List ℕ)
unfolding is_space left_strip
after_spaces [] = none
after_spaces (c ∷ s) = if is_space c then some (left_strip s) else none

-- the key and the value, from `:\s*(.+)` on; the line does not end with white space
unfoldable pub value_of : List ℕ × List ℕ → Option (List ℕ × List ℕ)
unfolding after_text strip left_strip
value_of ([], r) = none
value_of (c ∷ w, r) =
    then_parse (after_text (codes ":") r)
      (λ s. elim (left_strip s) [ [] ↦ none | d ∷ v ↦ some (c ∷ w, strip (d ∷ v)) ])

-- the match of a line that is stripped
unfoldable pub match_line : List ℕ → Option (List ℕ × List ℕ)
unfolding after_text left_strip after_spaces word value_of
match_line s = then_parse (after_text (codes "#") s) (λ s1.
    then_parse (after_text (codes "@workflow") (left_strip s1))
      (λ s2. then_parse (after_spaces s2) (λ s3. value_of (word s3))))

-- one line of the code
unfoldable pub line_entry : List ℕ → Option (List ℕ × List ℕ)
unfolding strip starts_with contains match_line
line_entry line =
    if starts_with (strip line) (codes "#") && contains (strip line) (codes "@workflow")
    then match_line (strip line)
    else none

-- `metadata[key] = value`
unfoldable pub assign_key : List ℕ → List ℕ → List (List ℕ × List ℕ) → List (List ℕ × List ℕ)
unfolding codes_eq
assign_key k v [] = (k, v) ∷ []
assign_key k v ((j, w) ∷ m) =
    let rest = assign_key k v m in if codes_eq j k then (j, v) ∷ m else (j, w) ∷ rest

-- `metadata.get(key)`
unfoldable pub value_at : List ℕ → List (List ℕ × List ℕ) → Option (List ℕ)
unfolding codes_eq
value_at k [] = none
value_at k ((j, w) ∷ m) = let rest = value_at k m in if codes_eq j k then some w else rest

unfoldable pub add_entry :
    Option (List ℕ × List ℕ) → List (List ℕ × List ℕ) → List (List ℕ × List ℕ)
unfolding assign_key
add_entry none metadata = metadata
add_entry (some (key, value)) metadata = assign_key key value metadata

-- the loop over the lines
unfoldable pub read_lines : List (List ℕ) → List (List ℕ × List ℕ) → List (List ℕ × List ℕ)
unfolding line_entry add_entry
read_lines [] metadata = metadata
read_lines (line ∷ lines) metadata = read_lines lines (add_entry (line_entry line) metadata)

unfoldable pub metadata_of : List (List ℕ × List ℕ) → Option WorkflowMetadata
unfolding value_at
metadata_of metadata = then_parse (value_at (codes "name") metadata) (λ name.
    then_parse (value_at (codes "version") metadata) (λ version.
      then_parse (value_at (codes "min_kernel_version") metadata) (λ min_kernel_version.
        some (record {
          name = name;
          version = version;
          min_kernel_version = min_kernel_version;
          max_kernel_version = value_at (codes "max_kernel_version") metadata;
          deprecated_in = value_at (codes "deprecated_in") metadata;
        }))))

unfoldable pub check_workflow_header : List ℕ → Option WorkflowMetadata
unfolding split read_lines metadata_of
check_workflow_header code = metadata_of (read_lines (take 20 (split 10 code)) [])
