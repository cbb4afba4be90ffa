-- ===== src/Tests/Runtime.antt =====
-- The gate of the browser interface at an agent without capabilities (kernel/runtime.py).
use terminal_agent.Base.{◌≡◌, ◌⊎◌, ◌==◌, if◌then◌else◌, String, [], ◌∷◌, false, none, some}
use terminal_agent.Dict
use terminal_agent.Result.{raise, capability_denied}
use terminal_agent.Audit.Log.{log_if}
use terminal_agent.Capability.{caps_of, check, check_event}
use terminal_agent.Capability.Allowing.{Allows}
use terminal_agent.Capability as C
use terminal_agent.Objects.Manager as M
use terminal_agent.Runtime.{Browser}
use terminal_agent.Runtime.Gates.{form_submit, perform, perform-denied}
use terminal_agent.Runtime.Sandbox.{
  Parsed, parsed, Ended, returned, other, child, imports, leaf, failed, execute, result_of,
}
use terminal_agent.Runtime.Blocked.{IsClean, execute_lem}
use terminal_agent.Tests.Sqlite.{in_memory}
use terminal_agent.Tests.Data.{counting, log}

abbrev browser : Browser
browser = record {
  principal = "stranger";
  caps = C.init;
  objects = M.init;
  audit = some log;
  auto_approve = false;
}

stranger_denied : ¬ Allows 130 "form.submit" "form:1" (caps_of C.init "stranger")
unfolding caps_of Dict.get
stranger_denied a = elim a.on_list [ ]

perform-denied_example : perform counting 130 in_memory (λ v. "") (form_submit "form:1") browser ≡ (
  raise (capability_denied "stranger" "form.submit" "form:1"),
  record browser {
    audit = log_if counting 130 (check_event "stranger" "form.submit" "form:1" "denied") (some log);
  },
)
perform-denied_example =
    perform-denied counting 130 in_memory (λ v. "") (form_submit "form:1") browser stranger_denied

-- two texts of code: one imports a module below `os`, the other nothing
abbrev parse : String → Parsed
parse code =
    if code == "import os.path"
    then parsed (other (child (imports ("os.path" ∷ []) leaf) leaf))
    else parsed (other leaf)

-- code that sets no result
abbrev exec : String → Browser → Ended × Browser
exec code b = (returned none, b)

execute_lem_example :
    (IsClean (parse "import os.path")
      × (execute parse exec "30.0" 5 "import os.path" browser ≡ (
        result_of "30.0" 5 (exec "import os.path" browser).0,
        (exec "import os.path" browser).1,
      )))
    ⊎ ((¬ IsClean (parse "import os.path"))
        × ((execute parse exec "30.0" 5 "import os.path" browser).0.state ≡ failed)
        × ((execute parse exec "30.0" 5 "import os.path" browser).0.error_type
            ≡ some "ValidationError")
        × ((execute parse exec "30.0" 5 "import os.path" browser).1 ≡ browser))
execute_lem_example = execute_lem parse exec "30.0" 5 "import os.path" browser
