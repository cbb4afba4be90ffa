-- ===== src/Runtime/Remote.antt =====
-- A call through `IPCClient` does what the call of the runtime does (kernel/runtime.py).
use terminal_agent.Base.{ℕ, ◌≡◌, ◌∙◌, ap, String, Option, some}
use terminal_agent.Value
use terminal_agent.Value.{Value, obj, str, Fields, end, field}
use terminal_agent.Runtime.{Browser}
use terminal_agent.Runtime.Sandbox.{Parsed, Ended, validate_code, execute, browser_for}
use terminal_agent.Runtime.Ipc.{
  request_of, text_param, execute_response, validate_response, respond, handle_connection,
  client_reply, call, call_execute, call_validate,
}

-- a message as the client sends it
abbrev pub message : String → Fields → Value
message method params = obj (field "method" (str method) (field "params" (obj params) end))

abbrev pub execute_params : String → String → Fields
execute_params code principal = field "code" (str code) (field "principal" (str principal) end)

module _ (parse : String → Parsed) (exec : String → Browser → Ended × Browser) (limit : String)
    (format : Value → String) (loads : String → Option Value) (dumps : Value → String)
    (recv : String → String) where
  -- a value is read back from its text, and the text comes over whole
  abbrev pub Arrives : Value → Type 0
  Arrives v = loads (recv (dumps v)) ≡ some v

  -- If the request and the response come over whole and JSON reads back each of them, a call of
  -- execute through the client gives the response of the execution of that code for that
  -- principal, and leaves the kernel as that execution does.
  pub call_execute_lem :
      (duration : ℕ) (code principal : String) (b : Browser)
      → Arrives (message "execute" (execute_params code principal))
      → Arrives
          (execute_response (execute parse exec limit duration code (browser_for principal b)).0)
      → call_execute parse exec limit format loads dumps recv duration code principal b ≡ (
        some
            (execute_response (execute parse exec limit duration code (browser_for principal b)).0),
        (execute parse exec limit duration code (browser_for principal b)).1,
      )
  unfolding call_execute call handle_connection request_of respond text_param Value.get
  call_execute_lem duration code principal b there back =
      let (result, after) = execute parse exec limit duration code (browser_for principal b) in
      ap
        (λ (v : Option Value).
          client_reply parse exec limit format loads dumps recv
            (respond parse exec limit format duration (request_of v) b))
        there
      ∙ ap (λ (v : Option Value). (v, after)) back

  -- Validating.
  pub call_validate_lem :
      (duration : ℕ) (code : String) (b : Browser)
      → Arrives (message "validate" (field "code" (str code) end))
      → Arrives (validate_response (validate_code parse code))
      → call_validate parse exec limit format loads dumps recv duration code b
        ≡ (some (validate_response (validate_code parse code)), b)
  unfolding call_validate call handle_connection request_of respond Value.get
  call_validate_lem duration code b there back =
      ap
        (λ (v : Option Value).
          client_reply parse exec limit format loads dumps recv
            (respond parse exec limit format duration (request_of v) b))
        there
      ∙ ap (λ (v : Option Value). (v, b)) back
