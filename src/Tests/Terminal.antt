-- ===== src/Tests/Terminal.antt =====
-- A terminal in which code is loaded and validated (kernel/ui/terminal.py).
use terminal_agent.Base.{
  ◌≡◌, ◌⊎◌, String, [], ◌∷◌, false, none, some, Option, List, refl, true, ℕ, ◌≤◌, arith,
  split_lines,
}
use terminal_agent.Capability as C
use terminal_agent.Capability.{CapabilityRisk}
use terminal_agent.Objects.Manager as M
use terminal_agent.Runtime.{Browser}
use terminal_agent.Runtime.Sandbox.{Parsed, parsed, Ended, returned, other, leaf, validate_code}
use terminal_agent.Terminal.{
  Desk, CodeBuffer, new_buffer, cmd_run, load_code, cmd_grant, cmd_validate, validate_buffer,
  is_empty,
}
use terminal_agent.Terminal.Editing.{cmd_load, load_if, cmd_edit, IsEdited, cmd_edit_lem}
use terminal_agent.Terminal.Arguments.{risk_named, risk_arg, cmd_grant_args}
use terminal_agent.Terminal.Undoing.{cmd_rollback, cmd_rollback-IsRollback}
use terminal_agent.Objects.Rollback.{IsRollback}
use terminal_agent.Transactions.State.{World, init}
use terminal_agent.Transactions.Exit.{in_block}
use terminal_agent.Tests.Objects.{one_workspace, one-IsNamed, one-IsClosed, one-AllSmall, changes}
use terminal_agent.Terminal.Analysis.{Func}
use terminal_agent.Terminal.Gate.{IsStopped, IsRun}
use terminal_agent.Terminal.Commands.{Command, load, grant, validate, steps, step, steps-IsGated}
use terminal_agent.Tests.Data.{counting, log}

abbrev code : String
code = "browser.Form.submit(form)"

abbrev calls : String → Option (List Func)
calls text = some (Func.attribute (Func.attribute (Func.name "browser") "Form") "submit" ∷ [])

abbrev lower_text : String → String
lower_text text = "form"

abbrev parse : String → Parsed
parse text = parsed (other leaf)

abbrev exec : String → Browser → Ended × Browser
exec text b = (returned none, b)

abbrev kernel : Browser
kernel = record {
  principal = "user:local";
  caps = C.init;
  objects = M.init;
  audit = some log;
  auto_approve = false;
}

abbrev read_file : String → Option String
read_file filepath = some code

abbrev int_of : String → Option ℕ
int_of text = some 2

abbrev upper : String → String
upper text = "IRREVERSIBLE"

abbrev commands : List Command
commands =
    load ("submit.py" ∷ []) ∷ grant 120 ("form.*" ∷ "*" ∷ "irreversible" ∷ []) ∷ validate ∷ []

abbrev desk : Desk
unfolding steps
desk =
    steps counting lower_text calls parse exec "30.0" read_file int_of upper commands
      (record { buffer = none; kernel = kernel })

abbrev buffer : CodeBuffer
unfolding new_buffer
buffer = record (new_buffer code) { validated = true }

steps-IsGated_example :
    IsStopped counting 130 lower_text calls parse exec "30.0" 5 "y" buffer desk.kernel
      (cmd_run counting 130 lower_text calls parse exec "30.0" 5 "y" desk)
    ⊎ IsRun counting 130 lower_text calls parse exec "30.0" 5 "y" buffer desk.kernel
        (cmd_run counting 130 lower_text calls parse exec "30.0" 5 "y" desk)
unfolding desk buffer steps step cmd_load load_if load_code cmd_grant_args risk_named risk_arg
    cmd_grant cmd_validate validate_buffer validate_code is_empty
steps-IsGated_example =
    steps-IsGated counting lower_text calls parse exec "30.0" read_file int_of upper commands kernel
      130 5 "y" buffer refl

abbrev two_lines : CodeBuffer
unfolding new_buffer
two_lines = new_buffer "print(1)\nprint(2)"

abbrev editing : Desk
editing = record { buffer = some two_lines; kernel = kernel }

cmd_edit_lem_example :
    IsEdited 2 "print(3)" two_lines editing (cmd_edit int_of ("2" ∷ []) "print(3)" editing)
    ⊎ (((◌≡◌ {A = ℕ} 2 0) ⊎ (3 ≤ 2)) × (cmd_edit int_of ("2" ∷ []) "print(3)" editing ≡ editing))
unfolding two_lines split_lines
cmd_edit_lem_example =
    cmd_edit_lem int_of "2" "print(3)" [] 2 two_lines editing refl refl (omega arith)

abbrev idle : World
idle = record { coordinator = init; manager = one_workspace; audit = some log }

cmd_rollback-IsRollback_example :
    IsRollback one_workspace
      (in_block counting 10 20 idle changes).manager
      (cmd_rollback counting 20 [] (in_block counting 10 20 idle changes)).manager
    × ((cmd_rollback counting 20 [] (in_block counting 10 20 idle changes)).coordinator
        ≡ (in_block counting 10 20 idle changes).coordinator)
cmd_rollback-IsRollback_example =
    cmd_rollback-IsRollback counting 10 20 idle changes one-IsNamed one-IsClosed one-AllSmall
