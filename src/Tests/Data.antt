-- ===== src/Tests/Data.antt =====
-- A platform that counts, capabilities and requests for the examples (kernel/capabilities.py).
use terminal_agent.Base.{some, show, show_inj}
use terminal_agent.Value.{end}
use terminal_agent.Platform.{Platform}
use terminal_agent.Audit.Log.{AuditLog}
use terminal_agent.Audit.Log
use terminal_agent.Capability.{Broker, Request, CapabilityRisk, grant, init}

abbrev pub counting : Platform
counting = record {
  uuid4 = show;
  uuid4_inj = show_inj;
  token_urlsafe = show;
  token_urlsafe_inj = show_inj;
  uuid4_hex8 = λ n. "0badcafe";
  sha256_hex8 = λ s. "00c0ffee";
  json_size = λ v. 2;
}

abbrev pub log : AuditLog
log = Log.init "salt"

abbrev pub tab_request : Request
tab_request = record {
  principal = "agent";
  operation = "tab.*";
  resource = "*";
  risk = CapabilityRisk.stateful;
  constraints = end;
  ttl_seconds = some 60;
}

abbrev pub broker : Broker
broker = (grant counting 100 tab_request init (some log)).1
