-- ===== src/Tests/Audit.antt =====
-- The audit theorems at a log of two rows and at arguments with a password (kernel/audit.py).
use terminal_agent.Base.{
  ℕ, ◌≤◌, String, ◌≡◌, ◌⊎◌, refl, true, false, ◌&&◌, none, some, List, [], ◌∷◌, ◌++◌, In, here,
  length, select, lower, codes_eq, ends_with, contains, arith,
}
use terminal_agent.Value.{str, obj, Items, nil, cons, Fields, end, field}
use terminal_agent.Audit.Entry.{AuditEntry, Event, Provenance, system_event}
use terminal_agent.Audit.Log.{AuditLog}
use terminal_agent.Audit.Redact.{redact, is_sensitive, is_pii_field, names_secret}
use terminal_agent.Audit.Secrets.{AlikeFields, redact-AlikeFields, redact-list}
use terminal_agent.Audit.Secrets as Secrets
use terminal_agent.Audit.Masks.{IsMasked, redact-IsMasked}
use terminal_agent.Audit.History.{Call, append, set_context, AreRows, IsValid, run, run-AreRows}
use terminal_agent.Audit.Query.{Query, everything, query, passes, equals_nullable, IsSorted}
use terminal_agent.Audit.Filters.{IsWanted}
use terminal_agent.Audit.Search.{query_sound, query_oldest}
use terminal_agent.Tests.Data.{counting, log}
use terminal_agent.Tests.Sqlite.{in_memory, sort, insert}

abbrev login : String → Fields
login secret = field "user" (str "ann") (field "form" (obj (field "password" (str secret) end)) end)

abbrev digest : String → String
digest s = "00c0ffee"

password_secret : is_sensitive "password" ≡ true
unfolding is_sensitive names_secret lower codes_eq ends_with
password_secret = refl

accounts_harmless : is_sensitive "accounts" ≡ false
unfolding is_sensitive names_secret lower codes_eq ends_with
accounts_harmless = refl

accounts_shown : (true && is_pii_field "accounts") ≡ false
unfolding is_pii_field contains lower
accounts_shown = refl

logins-Alike : AlikeFields (login "one") (login "two")
logins-Alike = Secrets.plain "user" (Secrets.same (str "ann")) (
    Secrets.plain "form"
      (Secrets.inside
        (Secrets.secret "password" (str "one") (str "two") password_secret Secrets.nothing))
      Secrets.nothing)

redact-AlikeFields_example : redact true digest (login "one") ≡ redact true digest (login "two")
redact-AlikeFields_example = redact-AlikeFields true digest logins-Alike

redact-IsMasked_example : IsMasked digest (redact true digest (login "one"))
redact-IsMasked_example = redact-IsMasked digest (login "one")

abbrev accounts : Items
accounts = cons (obj (field "password" (str "one") end)) nil

abbrev opened : Event
opened = system_event "tab.create" "system" "tab:1" end "created"

abbrev calls : List Call
calls = set_context (some "tx:1") none ∷ append 5 opened ∷ append 7 opened ∷ []

run-AreRows_example :
    (rows : List AuditEntry) × ((run counting calls log).rows ≡ log.rows ++ rows)
    × AreRows counting log log.drawn log.current_tx log.current_checkpoint calls rows
run-AreRows_example = run-AreRows counting calls log

log-IsValid : IsValid counting log
log-IsValid = record { numbered = tt; counted = refl }

abbrev row : ℕ → AuditEntry
row t = record {
  id = "r";
  timestamp = t;
  op = "tab.create";
  principal = "system";
  object = "tab:1";
  args = end;
  result = "created";
  tx_id = some "tx:1";
  checkpoint_id = none;
  provenance = Provenance.system;
  correlation_id = none;
}

-- a log with two rows
abbrev two_rows : AuditLog
two_rows = record log { rows = row 7 ∷ row 5 ∷ [] }

abbrev first_one : Query
first_one = record everything { limit = 1 }

passes_all : (t : ℕ) → passes in_memory first_one (row t) ≡ true
unfolding passes
passes_all t = refl

row_found : In (row 5) (query in_memory first_one two_rows)
unfolding query passes sort insert
row_found = here refl

fits : length (select (passes in_memory everything) two_rows.rows) ≤ 1000
unfolding passes
fits = omega arith

fits_transaction :
    length (select (passes in_memory (record everything { tx_id = some "tx:1" })) two_rows.rows)
    ≤ 1000
unfolding passes equals_nullable
fits_transaction = omega arith

row-passes : passes in_memory everything (row 7) ≡ true
unfolding passes
row-passes = refl

abbrev until_six : Query
until_six = record everything { until = some 6 }

query_sound_example :
    ((e : AuditEntry)
      → In e (query in_memory until_six two_rows)
      → In e two_rows.rows × IsWanted in_memory until_six e)
    × ((e : AuditEntry)
        → In e two_rows.rows
        → IsWanted in_memory until_six e
        → In e (query in_memory until_six two_rows)
          ⊎ (length (query in_memory until_six two_rows) ≡ 1000))
    × IsSorted (query in_memory until_six two_rows)
    × (length (query in_memory until_six two_rows) ≤ 1000)
query_sound_example = query_sound in_memory until_six two_rows

query_oldest_example : In (row 7) (query in_memory first_one two_rows) ⊎ (5 ≤ 7)
query_oldest_example =
    query_oldest in_memory first_one two_rows (row 5) (row 7) row_found (here refl) (passes_all 7)
