-- ===== src/Terminal/Editing.antt =====
-- `_cmd_load`, `_cmd_paste` and `_cmd_edit` (kernel/ui/terminal.py). `read_file` gives what a file
-- holds, or nothing where opening or reading raises; `int_of` is `int`, with 0 for a number below 0
-- and nothing for the ValueError. The lines that the user enters are arguments.
use terminal_agent.Base.{
  ℕ, suc, ◌-◌, ◌≤◌, ◌≡◌, ◌∙◌, refl, ap, String, false, ◌||◌, Option, none, some, List, [], ◌∷◌,
  ◌==◌, length, ltb, arith, Bool-cases, inl, inr, ◌⊎◌, split_lines, join_lines, set_line,
  split-set_line, IsOneLine, if◌then◌else◌,
}
use terminal_agent.Terminal.{CodeBuffer, Desk, load_code, edit_source}

unfoldable pub load_if : Option String → Desk → Desk
load_if none d = d
load_if (some code) d = load_code code d

unfoldable pub cmd_load : (String → Option String) → List String → Desk → Desk
unfolding load_if
cmd_load read_file [] d = d
cmd_load read_file (filepath ∷ args) d = load_if (read_file filepath) d

-- the lines up to an empty one, or to the end of the input
unfoldable pub pasted : List String → List String
pasted [] = []
pasted (line ∷ input) = let rest = pasted input in if line == "" then [] else line ∷ rest

unfoldable pub load_lines : List String → Desk → Desk
unfolding join_lines
load_lines [] d = d
load_lines (line ∷ lines) d = load_code (join_lines (line ∷ lines)) d

unfoldable pub cmd_paste : List String → Desk → Desk
unfolding pasted load_lines
cmd_paste input d = load_lines (pasted input) d

-- the end of `_cmd_edit`, for a number that was read
unfoldable pub edit_line : String → CodeBuffer → Desk → ℕ → Desk
unfolding split_lines join_lines set_line
edit_line new_line c d line_num =
    if ltb line_num 1 || ltb (length (split_lines c.source)) line_num
    then d
    else edit_source (join_lines (set_line (line_num - 1) new_line (split_lines c.source))) d

unfoldable pub edit_if : String → CodeBuffer → Desk → Option ℕ → Desk
unfolding edit_line
edit_if new_line c d none = d
edit_if new_line c d (some line_num) = edit_line new_line c d line_num

unfoldable pub edit_buffer :
    (String → Option ℕ) → List String → String → Option CodeBuffer → Desk → Desk
unfolding edit_if
edit_buffer int_of args new_line none d = d
edit_buffer int_of [] new_line (some c) d = d
edit_buffer int_of (arg ∷ args) new_line (some c) d = edit_if new_line c d (int_of arg)

unfoldable pub cmd_edit : (String → Option ℕ) → List String → String → Desk → Desk
unfolding edit_buffer
cmd_edit int_of args new_line d = edit_buffer int_of args new_line d.buffer d

-- the line of that number is replaced and the mark is taken off
pub record IsEdited (line_num : ℕ) (new_line : String) (c : CodeBuffer) (d e : Desk) : Type 0 where
  pub in_range : (1 ≤ line_num) × (line_num ≤ length (split_lines c.source))
  pub source : String
  pub lines : split_lines source ≡ set_line (line_num - 1) new_line (split_lines c.source)
  pub buffer : e.buffer ≡ some (record c { source = source; validated = false })
  pub kernel : e.kernel ≡ d.kernel

edit_source_lem :
    (source : String) (c : CodeBuffer) (d : Desk)
    → d.buffer ≡ some c
    → edit_source source d
      ≡ record d { buffer = some (record c { source = source; validated = false }) }
unfolding edit_source
edit_source_lem source c d h =
    ap
      (λ (o : Option CodeBuffer). elim o as (λ _. Desk) [
        | none ↦ d
        | some x ↦ record d { buffer = some (record x { source = source; validated = false }) }
      ])
      h

-- For a buffer with code and an argument that is read as a number: if the code has a line of that
-- number, the edit command replaces that line by the one that is entered, if that has no newline,
-- keeps all other lines, takes off the mark as valid and leaves the kernel as it is; otherwise the
-- number is 0 or above the number of lines, and nothing changes.
pub cmd_edit_lem :
    (int_of : String → Option ℕ) (arg new_line : String) (args : List String) (line_num : ℕ)
    (c : CodeBuffer) (d : Desk)
    → d.buffer ≡ some c
    → int_of arg ≡ some line_num
    → IsOneLine new_line
    → IsEdited line_num new_line c d (cmd_edit int_of (arg ∷ args) new_line d)
      ⊎ (((line_num ≡ 0) ⊎ (suc (length (split_lines c.source)) ≤ line_num))
          × (cmd_edit int_of (arg ∷ args) new_line d ≡ d))
unfolding cmd_edit edit_line
cmd_edit_lem int_of arg new_line args line_num c d here_c number one_line =
    let to_line : cmd_edit int_of (arg ∷ args) new_line d ≡ edit_line new_line c d line_num =
      ap (λ (o : Option CodeBuffer). edit_buffer int_of (arg ∷ args) new_line o d) here_c
      ∙ ap (edit_if new_line c d) number in
    let source = join_lines (set_line (line_num - 1) new_line (split_lines c.source)) in
    elim (Bool-cases (ltb line_num 1)) [
      | inl low ↦ inr (inl (ground arith), to_line ∙ rw low refl)
      | inr not_low ↦ elim (Bool-cases (ltb (length (split_lines c.source)) line_num)) [
        | inl high ↦ inr (inr (ground arith), to_line ∙ rw (not_low, high) refl)
        | inr not_high ↦
            let edited : cmd_edit int_of (arg ∷ args) new_line d
                ≡ record d { buffer = some (record c { source = source; validated = false }) } =
              to_line ∙ rw (not_low, not_high) (edit_source_lem source c d here_c) in
            inl (record {
              in_range = (ground arith, ground arith);
              source = source;
              lines = split-set_line (line_num - 1) new_line c.source one_line;
              buffer = ap (λ (x : Desk). x.buffer) edited;
              kernel = ap (λ (x : Desk). x.kernel) edited;
            })
      ]
    ]
