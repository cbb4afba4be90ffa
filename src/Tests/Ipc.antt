-- ===== src/Tests/Ipc.antt =====
-- A client and a server with one kernel, whose messages have one text each (kernel/runtime.py).
use terminal_agent.Base.{
  ◌≡◌, ◌==◌, if◌then◌else◌, String, Option, some, none, false, List, [], ◌∷◌, ◌++◌, refl,
}
use terminal_agent.Value
use terminal_agent.Value.{Value, null, obj, arr, str, Fields, end, field}
use terminal_agent.Capability as C
use terminal_agent.Objects.Manager as M
use terminal_agent.Runtime.{Browser}
use terminal_agent.Runtime.Sandbox.{
  Parsed, parsed, Ended, returned, other, leaf, execute, browser_for,
}
use terminal_agent.Runtime.Ipc.{request_of, execute_response, call_execute}
use terminal_agent.Runtime.Remote.{message, execute_params, call_execute_lem}
use terminal_agent.Runtime.Serve.{
  Event, connection, serve, crashed, IsServing, serve-IsServing, serve-crashed,
}
use terminal_agent.Tests.Data.{log}

abbrev browser : Browser
browser = record {
  principal = "user:local";
  caps = C.init;
  objects = M.init;
  audit = some log;
  auto_approve = false;
}

abbrev parse : String → Parsed
parse code = parsed (other leaf)

abbrev exec : String → Browser → Ended × Browser
exec code b = (returned (some (str code)), b)

abbrev format : Value → String
format v = "?"

abbrev request : Value
request = message "execute" (execute_params "__result__ = 1" "agent:a")

abbrev response : Value
unfolding execute execute_response browser_for
response =
    execute_response
      (execute parse exec "30.0" 5 "__result__ = 1" (browser_for "agent:a" browser)).0

-- a request has a method
abbrev dumps : Value → String
dumps (obj (field k v d)) = if k == "method" then "request" else "response"
dumps _ = ""

abbrev loads : String → Option Value
loads text =
    if text == "request" then some request else if text == "response" then some response else none

abbrev recv : String → String
recv text = text

call_execute_lem_example :
    call_execute parse exec "30.0" format loads dumps recv 5 "__result__ = 1" "agent:a" browser ≡ (
      some (
          execute_response
            (execute parse exec "30.0" 5 "__result__ = 1" (browser_for "agent:a" browser)).0),
      (execute parse exec "30.0" 5 "__result__ = 1" (browser_for "agent:a" browser)).1,
    )
unfolding execute_response response
call_execute_lem_example =
    call_execute_lem parse exec "30.0" format loads dumps recv 5 "__result__ = 1" "agent:a" browser
      refl refl

abbrev events : List Event
events = connection 5 "request" ∷ []

serve-IsServing_example : IsServing parse exec "30.0" format loads dumps recv events browser
unfolding request_of Value.get
serve-IsServing_example =
    serve-IsServing parse exec "30.0" format loads dumps recv events browser (tt, tt)

serve-crashed_example :
    serve parse exec "30.0" format loads dumps recv
      (events ++ connection 5 "GET /" ∷ events)
      browser
    ≡ (
      crashed,
      (serve parse exec "30.0" format loads dumps recv events browser).1,
      (serve parse exec "30.0" format loads dumps recv events browser).2,
    )
unfolding request_of Value.get
serve-crashed_example =
    serve-crashed parse exec "30.0" format loads dumps recv events browser 5 "GET /" events (tt, tt)
      refl
