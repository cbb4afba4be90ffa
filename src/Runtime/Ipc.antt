-- ===== src/Runtime/Ipc.antt =====
-- `IPCServer` and `IPCClient` (kernel/runtime.py). Sockets and JSON are Python's: `recv` is what one
-- `recv` of 65536 bytes gives of a text that was sent, decoded, `loads` and `dumps` are those of
-- json, where no value is the exception, and `format` is the text of a value in an f-string.
use Prim.Native.String as S
use terminal_agent.Base.{
  ℕ, String, Bool, true, Option, none, some, List, [], ◌∷◌, ◌==◌, if◌then◌else◌,
}
use terminal_agent.Value
use terminal_agent.Value.{
  Value, null, obj, arr, bool, num, str, Fields, end, field, texts, none_or_text,
}
use terminal_agent.Runtime.{Browser}
use terminal_agent.Runtime.Sandbox.{
  ExecutionState, ExecutionResult, Parsed, Ended, validate_code, execute, browser_for,
}

-- the values of the enumeration
unfoldable pub state_value : ExecutionState → String
state_value ExecutionState.pending = "pending"
state_value ExecutionState.running = "running"
state_value ExecutionState.paused = "paused"
state_value ExecutionState.completed = "completed"
state_value ExecutionState.failed = "failed"
state_value ExecutionState.timeout = "timeout"

-- what a message asks for
pub data Request : Type 0 where
  run : (code principal : String) → Request
  validate : (code : String) → Request
  unknown : (method : Value) → Request
  -- reading it raises an exception
  malformed : Request
  -- a principal that is no text; what such a run does is not modelled
  foreign : Request

-- `params.get(key, default)`, if it is a text
unfoldable pub text_param : String → String → Fields → Option String
text_param key default params = elim (Value.get params key) [
  | none ↦ some default
  | some (str s) ↦ some s
  | some _ ↦ none
]

-- the arguments of `execute`; a code that is no text cannot be parsed, which is found first
unfoldable pub run_request : Option String → Option String → Request
run_request none principal = malformed
run_request (some code) none = foreign
run_request (some code) (some principal) = run code principal

unfoldable pub validate_request : Option String → Request
validate_request none = malformed
validate_request (some code) = validate code

-- the branches, by the method's name
unfoldable pub method_request : String → Fields → Request
unfolding text_param run_request validate_request
method_request method params =
    if method == "execute"
    then run_request (text_param "code" "" params) (text_param "principal" "agent:default" params)
    else if method == "validate"
    then validate_request (text_param "code" "" params)
    else unknown (str method)

-- the same where `params` is no dict, which only an unknown method bears
unfoldable pub bare_request : String → Request
bare_request method =
    if method == "execute"
    then malformed
    else if method == "validate"
    then malformed
    else unknown (str method)

-- `request.get("params", {})`
unfoldable pub with_params : String → Option Value → Request
unfolding method_request bare_request
with_params method none = method_request method end
with_params method (some (obj params)) = method_request method params
with_params method (some _) = bare_request method

-- `request.get("method")`
unfoldable pub with_method : Option Value → Option Value → Request
unfolding with_params
with_method none params = unknown null
with_method (some (str method)) params = with_params method params
with_method (some v) params = unknown v

unfoldable pub request_of : Option Value → Request
unfolding with_method
request_of none = malformed
request_of (some (obj d)) = with_method (Value.get d "method") (Value.get d "params")
request_of (some _) = malformed

abbrev pub value_or_null : Option Value → Value
value_or_null none = null
value_or_null (some v) = v

-- the responses
unfoldable pub execute_response : ExecutionResult → Value
unfolding state_value
execute_response r = obj (
    field "state" (str (state_value r.state)) (
      field "return_value" (value_or_null r.return_value)
        (field "error" (none_or_text r.error) (field "duration_ms" (num r.duration_ms) end))))

-- `len(errors) == 0`
unfoldable pub no_errors : List String → Bool
no_errors [] = true
no_errors (e ∷ es) = Bool.false

unfoldable pub validate_response : List String → Value
unfolding no_errors
validate_response errors =
    obj (field "valid" (bool (no_errors errors)) (field "errors" (arr (texts errors)) end))

-- what a connection gets
pub data Outcome : Type 0 where
  answered : Value → Outcome
  -- an exception
  raised : Outcome
  -- after a foreign request
  unmodelled : Outcome

module _ (parse : String → Parsed) (exec : String → Browser → Ended × Browser) (limit : String)
    (format : Value → String) where
  unfoldable pub respond : ℕ → Request → Browser → Outcome × Browser
  unfolding execute_response validate_response
  respond duration (run code principal) b =
      let (result, after) = execute parse exec limit duration code (browser_for principal b) in
      (answered (execute_response result), after)
  respond duration (validate code) b = (answered (validate_response (validate_code parse code)), b)
  respond duration (unknown method) b =
      (answered (obj (field "error" (str (S.◌++◌ "Unknown method: " (format method))) end)), b)
  respond duration malformed b = (raised, b)
  respond duration foreign b = (unmodelled, b)

  module _ (loads : String → Option Value) (dumps : Value → String) (recv : String → String) where
    -- `_handle_connection`, with the text that the client sent
    unfoldable pub handle_connection : ℕ → String → Browser → Outcome × Browser
    unfolding respond request_of
    handle_connection duration sent b = respond duration (request_of (loads (recv sent))) b

    -- the reading of the reply; a connection that is closed gives the empty text
    abbrev pub client_reply : Outcome × Browser → Option Value × Browser
    client_reply (answered v, b) = (loads (recv (dumps v)), b)
    client_reply (raised, b) = (loads "", b)
    client_reply (unmodelled, b) = (none, b)

    -- `IPCClient.call`, while the server serves
    unfoldable pub call : ℕ → String → Fields → Browser → Option Value × Browser
    unfolding handle_connection
    call duration method params b =
        let request = obj (field "method" (str method) (field "params" (obj params) end)) in
        client_reply (handle_connection duration (dumps request) b)

    -- `IPCClient.execute`
    unfoldable pub call_execute : ℕ → String → String → Browser → Option Value × Browser
    unfolding call
    call_execute duration code principal b =
        call duration "execute" (field "code" (str code) (field "principal" (str principal) end)) b

    -- `IPCClient.validate`
    unfoldable pub call_validate : ℕ → String → Browser → Option Value × Browser
    unfolding call
    call_validate duration code b = call duration "validate" (field "code" (str code) end) b
