-- ===== src/Version/Changelog.antt =====
-- `API_CHANGELOG` and `get_changelog` (kernel/version.py). A text of the table is a list of code
-- points where it is parsed.
use terminal_agent.Base.{
  ℕ, String, Bool, ◌&&◌, Option, none, some, List, [], ◌∷◌, map, codes, ascending, if◌then◌else◌,
}
use terminal_agent.Version.{SemanticVersion, parse, lt, then_parse}
use terminal_agent.Version.Workflow.{le}

pub record ChangelogEntry : Type 0 where
  pub version : List ℕ
  pub description : String
  pub added : List String
  pub breaking : List String
  pub deprecated : Option (List String)

abbrev pub api_changelog : List ChangelogEntry
api_changelog =
    (record {
      version = codes "0.1.0";
      description = "Initial release";
      added =
          "CapabilityBroker" ∷ "ObjectManager" ∷ "AuditLog" ∷ "TransactionCoordinator"
          ∷ "AgentRuntime" ∷ [];
      breaking = [];
      deprecated = none;
    })
    ∷ (record {
      version = codes "0.2.0";
      description = "Security hardening";
      added =
          "SessionManager" ∷ "PII field hashing" ∷ "CDP schema validation" ∷ "Chaos testing" ∷ [];
      breaking = [];
      deprecated = some [];
    })
    ∷ []

-- an entry with its version, which the code parses again to sort
pub record Dated : Type 0 where
  pub at : SemanticVersion
  pub entry : ChangelogEntry

-- `from_ver < ver <= to_ver`
unfoldable pub is_between : SemanticVersion → SemanticVersion → SemanticVersion → Bool
unfolding le
is_between from_ver to_ver ver = lt from_ver ver && le ver to_ver

-- the loop over the table; none is the ValueError
unfoldable pub between :
    SemanticVersion → SemanticVersion → List ChangelogEntry → Option (List Dated)
unfolding is_between
between from_ver to_ver [] = some []
between from_ver to_ver (e ∷ table) =
    let rest = between from_ver to_ver table in
    then_parse (parse e.version) (λ ver. then_parse rest (λ found.
      some
        (if is_between from_ver to_ver ver then record { at = ver; entry = e } ∷ found else found)))

abbrev pub is_before : Dated → Dated → Bool
is_before a b = lt a.at b.at

unfoldable pub get_changelog :
    List ChangelogEntry → (from_version to_version : List ℕ) → Option (List ChangelogEntry)
unfolding between ascending
get_changelog table from_version to_version = then_parse (parse from_version) (λ from_ver.
    then_parse (parse to_version) (λ to_ver.
      then_parse (between from_ver to_ver table)
        (λ found. some (map (λ d. d.entry) (ascending is_before found)))))
