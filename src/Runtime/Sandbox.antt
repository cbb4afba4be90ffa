-- ===== src/Runtime/Sandbox.antt =====
-- `ImportValidator` and `AgentRuntime` (kernel/runtime.py). Parsing and execution are Python's own:
-- `parse` is `ast.parse`, of whose trees the nodes for imports and the children of every node are
-- kept, and `exec` runs code with a browser interface. The length of a run is an argument.
use Prim.Native.String as S
use terminal_agent.Base.{
  ℕ, String, Bool, false, Option, none, some, List, [], ◌∷◌, ◌++◌, nat_eq, any, codes, codes_eq,
  if◌then◌else◌,
}
use terminal_agent.Value.{Value}
use terminal_agent.Runtime.{Browser}

unfoldable pub blocked_imports : List String
blocked_imports =
    "os" ∷ "sys" ∷ "subprocess" ∷ "socket" ∷ "requests" ∷ "urllib" ∷ "http" ∷ "ftplib" ∷ "smtplib"
    ∷ "telnetlib" ∷ "ssl" ∷ "asyncio" ∷ "multiprocessing" ∷ "threading" ∷ "ctypes" ∷ "importlib"
    ∷ "builtins" ∷ "__builtins__" ∷ "eval" ∷ "exec" ∷ "compile" ∷ "open" ∷ "file" ∷ "input"
    ∷ "breakpoint" ∷ []

pub data ExecutionState : Type 0 where
  pending running paused completed failed timeout : ExecutionState

pub record ExecutionResult : Type 0 where
  pub state : ExecutionState
  pub return_value : Option Value
  pub error : Option String
  pub error_type : Option String
  pub duration_ms : ℕ

-- the nodes of a tree, each with its children
mutual
  pub data Node : Type 0 where
    -- `import a, b.c`
    imports : List String → Nodes → Node
    -- `from m import …`, without a module in `from . import …`
    imports_from : Option String → Nodes → Node
    other : Nodes → Node

  pub data Nodes : Type 0 where
    leaf : Nodes
    child : Node → Nodes → Nodes

-- `name.split(".")[0]`
unfoldable pub before_dot : List ℕ → List ℕ
before_dot [] = []
before_dot (c ∷ s) = let rest = before_dot s in if nat_eq c b'.' then [] else c ∷ rest

unfoldable pub is_blocked : String → Bool
unfolding blocked_imports before_dot
is_blocked name = any (λ b. codes_eq (before_dot (codes name)) (codes b)) blocked_imports

-- the loop of `visit_Import`
unfoldable pub import_violations : List String → List String
unfolding is_blocked
import_violations [] = []
import_violations (name ∷ names) =
    let rest = import_violations names in
    if is_blocked name then S.◌++◌ "Blocked import: " name ∷ rest else rest

-- the test of `visit_ImportFrom`; an empty module name counts as none
unfoldable pub from_violations : Option String → List String
unfolding is_blocked
from_violations none = []
from_violations (some m) = if is_blocked m then S.◌++◌ "Blocked import: from " m ∷ [] else []

-- `visit` and `generic_visit`: the violations in the order in which they are found
unfoldable mutual
  unfolding import_violations from_violations

  pub visit : Node → List String
  visit (imports names kids) = import_violations names ++ visit_all kids
  visit (imports_from m kids) = from_violations m ++ visit_all kids
  visit (other kids) = visit_all kids

  pub visit_all : Nodes → List String
  visit_all leaf = []
  visit_all (child n ns) = visit n ++ visit_all ns

-- what `ast.parse` gives: a tree, or the message of a syntax error; that it raises anything else is
-- not modelled
pub data Parsed : Type 0 where
  parsed : Node → Parsed
  syntax_error : String → Parsed

-- how a run of code ends, or that it has not ended when the time is over
pub data Ended : Type 0 where
  -- with what stands under `__result__`
  returned : Option Value → Ended
  -- `CapabilityDenied`, with its message
  denied : String → Ended
  -- another exception, with the name of its class and its message
  raised : String → String → Ended
  alive : Ended

-- `"; ".join(errors)`
unfoldable pub join : List String → String
join [] = ""
join (e ∷ []) = e
join (e ∷ f ∷ es) = S.◌++◌ e (S.◌++◌ "; " (join (f ∷ es)))

unfoldable pub failure : String → String → ℕ → ExecutionResult
failure message type duration = record {
  state = failed;
  return_value = none;
  error = some message;
  error_type = some type;
  duration_ms = duration;
}

-- the end of `execute`
unfoldable pub result_of : String → ℕ → Ended → ExecutionResult
unfolding failure
result_of limit duration (returned v) = record {
  state = completed;
  return_value = v;
  error = none;
  error_type = none;
  duration_ms = duration;
}
result_of limit duration (denied message) = failure message "CapabilityDenied" duration
result_of limit duration (raised type message) =
    failure (S.◌++◌ type (S.◌++◌ ": " message)) type duration
result_of limit duration alive = record {
  state = timeout;
  return_value = none;
  error = some (S.◌++◌ "Execution timed out after " (S.◌++◌ limit "s"));
  error_type = some "Timeout";
  duration_ms = duration;
}

module _ (parse : String → Parsed) where
  unfoldable pub tree_errors : Parsed → List String
  unfolding visit
  tree_errors (syntax_error message) = S.◌++◌ "Syntax error: " message ∷ []
  tree_errors (parsed tree) = visit tree

  unfoldable pub validate_code : String → List String
  unfolding tree_errors
  validate_code code = tree_errors (parse code)

-- `create_browser_api`: the same kernel for another principal
unfoldable pub browser_for : String → Browser → Browser
browser_for principal b = record b { principal = principal; auto_approve = false }

-- The kernel as the code finds it is a browser interface; `limit` is the printed time limit. An
-- exception with an empty message does not occur: the two that are caught have one.
module _ (parse : String → Parsed) (exec : String → Browser → Ended × Browser) (limit : String)
    (duration : ℕ) where
  abbrev when_valid : List String → String → Browser → ExecutionResult × Browser
  when_valid (e ∷ es) code b = (failure (join (e ∷ es)) "ValidationError" 0, b)
  when_valid [] code b = let (ended, after) = exec code b in (result_of limit duration ended, after)

  unfoldable pub execute : String → Browser → ExecutionResult × Browser
  unfolding validate_code join result_of failure
  execute code b = when_valid (validate_code parse code) code b
