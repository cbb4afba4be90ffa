-- ===== src/Terminal/Commands.antt =====
-- Sequences of commands of the terminal (kernel/ui/terminal.py): each command is at a time of its own.
use terminal_agent.Base.{
  ℕ, ◌≡◌, subst, String, Bool, true, false, not, ◌&&◌, Option, none, some, List, [], ◌∷◌, ◌⊎◌, any,
  Bool-cases, inl, inr, ltb, ◌||◌, length, split_lines,
}
use terminal_agent.Platform.{Platform}
use terminal_agent.Capability.{CapabilityRisk}
use terminal_agent.Runtime.{Browser}
use terminal_agent.Runtime.Sandbox.{Parsed, Ended, validate_code}
use terminal_agent.Terminal.{
  CodeBuffer, Desk, load_code, edit_source, is_empty, validate_buffer, cmd_validate, missing_caps,
  preview_caps, cmd_caps, cmd_grant, confirms, start, run_validated, run_checked, run_buffer,
  cmd_run, new_buffer,
}
use terminal_agent.Terminal.Editing.{
  load_if, cmd_load, pasted, load_lines, cmd_paste, edit_line, edit_if, edit_buffer, cmd_edit,
}
use terminal_agent.Terminal.Arguments.{risk_named, risk_arg, grant_if, cmd_grant_args}
use terminal_agent.Terminal.Analysis.{Func, analyze, is_irreversible}
use terminal_agent.Terminal.Checks.{IsChecked, validate_buffer-IsChecked}
use terminal_agent.Terminal.Gate.{IsStopped, IsRun, cmd_run-IsGated}

pub data Command : Type 0 where
  load : (args : List String) → Command
  paste : (input : List String) → Command
  edit : (args : List String) → (new_line : String) → Command
  validate : Command
  caps : (now : ℕ) → Command
  grant : (now : ℕ) → (args : List String) → Command
  run : (now duration : ℕ) → (answer : String) → Command

-- the code in the buffer, if there is any, is marked as valid only if it is
AllChecked : (String → Parsed) → Option CodeBuffer → Type 0
AllChecked parse none = Unit
AllChecked parse (some c) = IsChecked parse c

module _ (os : Platform) (lower_text : String → String) (calls : String → Option (List Func))
    (parse : String → Parsed) (exec : String → Browser → Ended × Browser) (limit : String) where
  run_validated-AllChecked :
      (now duration : ℕ) (answer : String) (c : CodeBuffer) (b : Browser)
      → IsChecked parse c
      → AllChecked parse
          (run_validated os now lower_text calls parse exec limit duration answer c b).1.buffer
  unfolding run_validated start preview_caps AllChecked
  run_validated-AllChecked now duration answer c b checked =
      let required = analyze lower_text calls c.source in
      let missing =
        (missing_caps os now c.principal required (preview_caps os now required c b).1).0 in
      elim (Bool-cases (is_empty missing)) [
        | inl e ↦ elim (Bool-cases (any is_irreversible required && not (confirms answer))) [
          | inl q ↦ rw (run_validated, e, q) checked
          | inr q ↦ rw (run_validated, e, q) checked
        ]
        | inr e ↦ rw (run_validated, e) checked
      ]

  run_checked-AllChecked :
      (validated valid : Bool) (now duration : ℕ) (answer : String) (c : CodeBuffer) (b : Browser)
      → IsChecked parse c
      → AllChecked parse
          (run_checked os now lower_text calls parse exec limit duration validated valid answer c
            b).1.buffer
  unfolding run_checked AllChecked
  run_checked-AllChecked true valid now duration answer c b checked =
      run_validated-AllChecked now duration answer c b checked
  run_checked-AllChecked false true now duration answer c b checked =
      run_validated-AllChecked now duration answer (validate_buffer parse c) b
        (validate_buffer-IsChecked parse c)
  run_checked-AllChecked false false now duration answer c b checked =
      validate_buffer-IsChecked parse c

  load_if-AllChecked :
      (code : Option String) (d : Desk)
      → AllChecked parse d.buffer
      → AllChecked parse (load_if code d).buffer
  unfolding AllChecked load_if load_code new_buffer
  load_if-AllChecked none d checked = checked
  load_if-AllChecked (some code) d checked = λ h. absurd (cc h)

  load_lines-AllChecked :
      (lines : List String) (d : Desk)
      → AllChecked parse d.buffer
      → AllChecked parse (load_lines lines d).buffer
  unfolding AllChecked load_lines load_code new_buffer
  load_lines-AllChecked [] d checked = checked
  load_lines-AllChecked (line ∷ lines) d checked = λ h. absurd (cc h)

  edit_if-AllChecked :
      (new_line : String) (c : CodeBuffer) (b : Browser) (number : Option ℕ)
      → IsChecked parse c
      → AllChecked parse (edit_if new_line c (record { buffer = some c; kernel = b }) number).buffer
  unfolding AllChecked edit_if edit_line edit_source
  edit_if-AllChecked new_line c b none checked = checked
  edit_if-AllChecked new_line c b (some n) checked =
      elim (Bool-cases (ltb n 1 || ltb (length (split_lines c.source)) n)) [
        | inl e ↦ rw (e, edit_line) checked
        | inr e ↦ rw (e, edit_line) (λ h. absurd (cc h))
      ]

  grant_if-AllChecked :
      (upper : String → String) (now : ℕ) (operation resource : String)
      (risk : Option CapabilityRisk) (o : Option CodeBuffer) (b : Browser)
      → AllChecked parse o
      → AllChecked parse
          (grant_if upper os now operation resource risk (record { buffer = o; kernel = b })).buffer
  unfolding AllChecked cmd_grant
  grant_if-AllChecked upper now operation resource none o b checked = checked
  grant_if-AllChecked upper now operation resource (some risk) o b checked = checked

  module _ (read_file : String → Option String) (int_of : String → Option ℕ)
      (upper : String → String) where
    unfoldable pub step : Command → Desk → Desk
    step (Command.load args) d = cmd_load read_file args d
    step (Command.paste input) d = cmd_paste input d
    step (Command.edit args new_line) d = cmd_edit int_of args new_line d
    step Command.validate d = cmd_validate parse d
    step (Command.caps now) d = cmd_caps os now lower_text calls d
    step (Command.grant now args) d = cmd_grant_args upper os now args d
    step (Command.run now duration answer) d =
        (cmd_run os now lower_text calls parse exec limit duration answer d).1

    unfoldable pub steps : List Command → Desk → Desk
    unfolding step
    steps [] d = d
    steps (command ∷ commands) d = steps commands (step command d)

    step-AllChecked :
        (command : Command) (o : Option CodeBuffer) (b : Browser)
        → AllChecked parse o
        → AllChecked parse (step command (record { buffer = o; kernel = b })).buffer
    unfolding AllChecked step cmd_load cmd_paste cmd_edit edit_buffer cmd_validate cmd_caps
        preview_caps cmd_grant_args cmd_run run_buffer
    step-AllChecked (Command.load []) o b checked = checked
    step-AllChecked (Command.load (filepath ∷ args)) o b checked =
        load_if-AllChecked (read_file filepath) (record { buffer = o; kernel = b }) checked
    step-AllChecked (Command.paste input) o b checked =
        load_lines-AllChecked (pasted input) (record { buffer = o; kernel = b }) checked
    step-AllChecked (Command.edit args new_line) none b checked = checked
    step-AllChecked (Command.edit [] new_line) (some c) b checked = checked
    step-AllChecked (Command.edit (arg ∷ args) new_line) (some c) b checked =
        edit_if-AllChecked new_line c b (int_of arg) checked
    step-AllChecked Command.validate none b checked = checked
    step-AllChecked Command.validate (some c) b checked = validate_buffer-IsChecked parse c
    step-AllChecked (Command.caps now) none b checked = checked
    step-AllChecked (Command.caps now) (some c) b checked = checked
    step-AllChecked (Command.grant now []) o b checked = checked
    step-AllChecked (Command.grant now (operation ∷ [])) o b checked = checked
    step-AllChecked (Command.grant now (operation ∷ resource ∷ args)) o b checked =
        grant_if-AllChecked upper now operation resource (risk_named (risk_arg upper args)) o b
          checked
    step-AllChecked (Command.run now duration answer) none b checked = checked
    step-AllChecked (Command.run now duration answer) (some c) b checked =
        run_checked-AllChecked c.validated (is_empty (validate_code parse c.source)) now duration
          answer c b checked

    steps-AllChecked :
        (commands : List Command) (d : Desk)
        → AllChecked parse d.buffer
        → AllChecked parse (steps commands d).buffer
    unfolding steps
    steps-AllChecked [] d checked = checked
    steps-AllChecked (command ∷ commands) d checked =
        steps-AllChecked commands (step command d)
          (step-AllChecked command d.buffer d.kernel checked)

    -- After any load, paste, edit, validate, caps, grant and run commands with any arguments, from
    -- a terminal without code, each command with one time for its checks, if there is code in the
    -- buffer: a run executes the code for its principal, with the result and the kernel of that
    -- execution on the kernel with some log, and then the code is valid, its principal holds each
    -- capability that the analysis of the code infers, and if an inferred operation is
    -- irreversible, the answer is yes; or this is not so, there is no result, and nothing of the
    -- kernel changes but the log.
    pub steps-IsGated :
        (commands : List Command) (b : Browser) (now duration : ℕ) (answer : String)
        (c : CodeBuffer)
        → (steps commands (record { buffer = none; kernel = b })).buffer ≡ some c
        → IsStopped os now lower_text calls parse exec limit duration answer c
            (steps commands (record { buffer = none; kernel = b })).kernel
            (cmd_run os now lower_text calls parse exec limit duration answer
              (steps commands (record { buffer = none; kernel = b })))
          ⊎ IsRun os now lower_text calls parse exec limit duration answer c
              (steps commands (record { buffer = none; kernel = b })).kernel
              (cmd_run os now lower_text calls parse exec limit duration answer
                (steps commands (record { buffer = none; kernel = b })))
    unfolding AllChecked
    steps-IsGated commands b now duration answer c here_c =
        let d = steps commands (record { buffer = none; kernel = b }) in
        let checked : AllChecked parse (some c) =
          subst (AllChecked parse) here_c
            (steps-AllChecked commands (record { buffer = none; kernel = b }) tt) in
        cmd_run-IsGated os now lower_text calls parse exec limit duration answer c d here_c checked
