-- ===== src/Terminal.antt =====
-- The code buffer of `TerminalUI`, what its static analysis asks for, and the commands that change
-- what the kernel does (kernel/ui/terminal.py). Printing is not modelled; what is read from the user
-- is an argument. `parse` and `exec` are as in Runtime.Sandbox; the parameter `calls` gives the
-- functions of the calls in a text in the order of `ast.walk`, or nothing for a syntax error.
pub mod Analysis
pub mod Editing
pub mod Undoing
pub mod Arguments
pub mod Checks
pub mod Gate
pub mod Commands
use Prim.Native.String as S
use terminal_agent.Base.{
  ℕ, zero, suc, ◌≡◌, String, Bool, true, false, not, ◌&&◌, Option, none, some, List, [], ◌∷◌, ◌++◌,
  ◌==◌, any, select, codes, codes_eq, lower, if◌then◌else◌,
}
use terminal_agent.Platform.{Platform}
use terminal_agent.Value.{end}
use terminal_agent.Result.{Result, ok, raise}
use terminal_agent.Capability as C
use terminal_agent.Capability.{CapabilityRisk, Broker, Request}
use terminal_agent.Runtime.{Browser}
use terminal_agent.Terminal.Analysis.{Required, Func, analyze, is_irreversible}
use terminal_agent.Runtime.Sandbox.{
  browser_for, ExecutionResult, Parsed, Ended, validate_code, execute,
}

pub record CodeBuffer : Type 0 where
  pub source : String
  pub principal : String
  pub validated : Bool
  pub validation_errors : List String
  pub required_caps : List Required

-- the terminal with the kernel that it governs
pub record Desk : Type 0 where
  pub buffer : Option CodeBuffer
  pub kernel : Browser

unfoldable pub new_buffer : String → CodeBuffer
new_buffer source = record {
  source = source;
  principal = "agent:interactive";
  validated = false;
  validation_errors = [];
  required_caps = [];
}

-- `_cmd_load` and `_cmd_paste` of code that is there
unfoldable pub load_code : String → Desk → Desk
unfolding new_buffer
load_code code d = record d { buffer = some (new_buffer code) }

-- the end of `_cmd_edit`, with the source that it puts together
unfoldable pub edit_source : String → Desk → Desk
edit_source source d = elim d.buffer [
  | none ↦ d
  | some c ↦ record d { buffer = some (record c { source = source; validated = false }) }
]

unfoldable pub is_empty {ℓ} : {A : Type ℓ} → List A → Bool
is_empty [] = true
is_empty (x ∷ xs) = false

module _ (parse : String → Parsed) where
  unfoldable pub validate_buffer : CodeBuffer → CodeBuffer
  unfolding is_empty
  validate_buffer c = record c {
    validation_errors = validate_code parse c.source;
    validated = is_empty (validate_code parse c.source);
  }

  unfoldable pub cmd_validate : Desk → Desk
  unfolding validate_buffer
  cmd_validate d = elim d.buffer [
    | none ↦ d
    | some c ↦ record d { buffer = some (validate_buffer c) }
  ]

-- `caps.check(…)` answered yes
unfoldable pub is_yes : Result Bool → Bool
is_yes (ok b) = b
is_yes (raise e) = false

-- the principal of the code, or the one that code will have
unfoldable pub principal_of : Option CodeBuffer → String
principal_of none = "agent:interactive"
principal_of (some c) = c.principal

module _ (os : Platform) (now : ℕ) where
  -- the required capabilities that a check refuses; every check is logged
  unfoldable pub missing_caps : String → List Required → Browser → List Required × Browser
  unfolding is_yes
  missing_caps principal [] b = ([], b)
  missing_caps principal (cap ∷ caps) b =
      let (answer, sink) =
        C.check os now false principal cap.operation cap.resource b.caps b.audit in
      let (rest, after) = missing_caps principal caps (record b { audit = sink }) in
      ((if is_yes answer then rest else cap ∷ rest), after)

  -- `_cmd_caps` on a buffer: the checks that are shown, then those that are counted
  unfoldable pub preview_caps : List Required → CodeBuffer → Browser → CodeBuffer × Browser
  unfolding missing_caps is_empty
  preview_caps required c b = (
    record c { required_caps = required },
    (if is_empty required
        then b
        else (missing_caps c.principal required (missing_caps c.principal required b).1).1),
  )

  unfoldable pub cmd_caps : (String → String) → (String → Option (List Func)) → Desk → Desk
  unfolding preview_caps
  cmd_caps lower_text calls d = elim d.buffer [
    | none ↦ d
    | some c ↦
        let (shown, after) = preview_caps (analyze lower_text calls c.source) c d.kernel in
        record { buffer = some shown; kernel = after }
  ]

  -- the arguments of `_cmd_grant`, once they are read
  unfoldable pub cmd_grant : String → String → CapabilityRisk → Desk → Desk
  cmd_grant operation resource risk d =
      let principal = principal_of d.buffer in
      let request : Request = record {
        principal = principal;
        operation = operation;
        resource = resource;
        risk = risk;
        constraints = end;
        ttl_seconds = none;
      } in
      let (_, caps, sink) = C.grant os now request d.kernel.caps d.kernel.audit in
      record d { kernel = record d.kernel { caps = caps; audit = sink } }

-- the answer to the question whether to proceed
unfoldable pub confirms : String → Bool
confirms answer = codes_eq (lower (codes answer)) (codes "y")

module _ (os : Platform) (now : ℕ) (lower_text : String → String)
    (calls : String → Option (List Func)) (parse : String → Parsed)
    (exec : String → Browser → Ended × Browser) (limit : String) (duration : ℕ) where
  -- the end of `_cmd_run`, once nothing stands in the way
  unfoldable pub start : CodeBuffer → Browser → Option ExecutionResult × Desk
  unfolding browser_for
  start c b =
      let (result, after) =
        execute parse exec limit duration c.source (browser_for c.principal b) in
      (some result, record { buffer = some c; kernel = after })

  -- `_cmd_run` on a buffer that has been validated; `answer` is what the user types
  unfoldable pub run_validated : String → CodeBuffer → Browser → Option ExecutionResult × Desk
  unfolding preview_caps missing_caps is_empty is_irreversible confirms start
  run_validated answer c b =
      let required = analyze lower_text calls c.source in
      let (shown, b1) = preview_caps os now required c b in
      let (missing, b2) = missing_caps os now c.principal required b1 in
      if not (is_empty missing)
      then (none, record { buffer = some shown; kernel = b2 })
      else if any is_irreversible required && not (confirms answer)
      then (none, record { buffer = some shown; kernel = b2 })
      else start shown b2

  -- whether the buffer is marked as valid, and whether a validation finds nothing
  unfoldable pub run_checked :
      (validated valid : Bool) → String → CodeBuffer → Browser → Option ExecutionResult × Desk
  unfolding validate_buffer run_validated
  run_checked true valid answer c b = run_validated answer c b
  run_checked false true answer c b = run_validated answer (validate_buffer parse c) b
  run_checked false false answer c b =
      (none, record { buffer = some (validate_buffer parse c); kernel = b })

  -- `_cmd_run`: the result of the execution, if there is one
  unfoldable pub run_buffer : String → CodeBuffer → Browser → Option ExecutionResult × Desk
  unfolding run_checked is_empty
  run_buffer answer c b =
      run_checked c.validated (is_empty (validate_code parse c.source)) answer c b

  unfoldable pub cmd_run : String → Desk → Option ExecutionResult × Desk
  unfolding run_buffer
  cmd_run answer d = elim d.buffer [ none ↦ (none, d) | some c ↦ run_buffer answer c d.kernel ]
