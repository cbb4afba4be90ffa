-- ===== src/Tests/Version.antt =====
-- The theorems on versions at a few versions and one workflow (kernel/version.py).
use terminal_agent.Base.{
  List, ℕ, All, [], ◌∷◌, ◌++◌, refl, right_strip, join_by, ◌≡◌, ◌↔◌, ◌⊎◌, true, false, none, some,
  codes, arith,
}
use terminal_agent.Version.Header.{line_entry, check_workflow_header}
use terminal_agent.Version.HeaderText.{IsPlainWorkflow, IsOther, check_workflow_header_lem}
use terminal_agent.Version.HeaderLine.{header_lines}
use terminal_agent.Version.Changelog.{api_changelog, get_changelog}
use terminal_agent.Version.Changes.{IsVersioned, IsChangelog, get_changelog_lem}
use terminal_agent.Version.{SemanticVersion, parse, print}
use terminal_agent.Version.Workflow.{WorkflowMetadata, check_compatibility}
use terminal_agent.Version.Order.{IsProper}
use terminal_agent.Version.Print.{parse-print}
use terminal_agent.Version.Compatible.{Runs, Fits, check_compatibility-Runs}

abbrev beta : SemanticVersion
beta = record { major = 1; minor = 20; patch = 3; prerelease = some (codes "b1") }

abbrev release : SemanticVersion
release = record { major = 1; minor = 20; patch = 3; prerelease = none }

abbrev next : SemanticVersion
next = record { major = 2; minor = 0; patch = 0; prerelease = none }

parse-print_example : parse (print beta) ≡ some beta
parse-print_example = parse-print beta (omega arith, (omega arith, tt))

beta-IsProper : IsProper beta
beta-IsProper e = absurd (cc e)

release-IsProper : IsProper release
release-IsProper e = absurd (cc e)

abbrev login_workflow : WorkflowMetadata
login_workflow = record {
  name = codes "login";
  version = codes "1.0.0";
  min_kernel_version = codes "0.1.0";
  max_kernel_version = some (codes "0.9.0");
  deprecated_in = none;
}

check_compatibility-Runs_example :
    Runs (check_compatibility (codes "0.2.0") login_workflow) ↔ Fits (codes "0.2.0") login_workflow
check_compatibility-Runs_example = check_compatibility-Runs (codes "0.2.0") login_workflow

abbrev initial : SemanticVersion
initial = record { major = 0; minor = 1; patch = 0; prerelease = none }

abbrev hardened : SemanticVersion
hardened = record { major = 0; minor = 2; patch = 0; prerelease = none }

api_changelog-IsVersioned : All IsVersioned api_changelog
unfolding print terminal_agent.Base.show
api_changelog-IsVersioned =
    ((initial, parse-print initial tt), ((hardened, parse-print hardened tt), tt))

get_changelog_lem_example :
    (((parse (codes "0.1.0") ≡ none) ⊎ (parse (codes "0.2.0") ≡ none))
      × (get_changelog api_changelog (codes "0.1.0") (codes "0.2.0") ≡ none))
    ⊎ ((from_ver : SemanticVersion) × (to_ver : SemanticVersion) × (parse (codes "0.1.0")
          ≡ some from_ver)
        × (parse (codes "0.2.0") ≡ some to_ver)
        × IsChangelog api_changelog from_ver to_ver
            (get_changelog api_changelog (codes "0.1.0") (codes "0.2.0")))
get_changelog_lem_example =
    get_changelog_lem api_changelog (codes "0.1.0") (codes "0.2.0") api_changelog-IsVersioned

login-IsPlain : IsPlainWorkflow login_workflow
unfolding right_strip
login-IsPlain = record {
  name = (
    record { first = b'l'; rest = codes "ogin"; spelled = refl; begins = refl; ends = refl },
    omega arith,
  );
  version = (
    record { first = b'1'; rest = codes ".0.0"; spelled = refl; begins = refl; ends = refl },
    omega arith,
  );
  min_kernel_version = (
    record { first = b'0'; rest = codes ".1.0"; spelled = refl; begins = refl; ends = refl },
    omega arith,
  );
  max_kernel_version = (
    record { first = b'0'; rest = codes ".9.0"; spelled = refl; begins = refl; ends = refl },
    omega arith,
  );
  deprecated_in = tt;
}

abbrev script : List (List ℕ)
script = [] ∷ codes "browser.Tab.open(url)" ∷ []

script-IsOther : All IsOther script
unfolding line_entry
script-IsOther = (refl, (refl, tt))

check_workflow_header_lem_example :
    check_workflow_header (join_by 10 (header_lines login_workflow ++ script)) ≡ some login_workflow
check_workflow_header_lem_example =
    check_workflow_header_lem login_workflow script login-IsPlain (omega arith) script-IsOther
