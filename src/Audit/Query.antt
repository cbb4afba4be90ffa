-- ===== src/Audit/Query.antt =====
-- `AuditLog.query` and the reads built on it (kernel/audit.py).
use terminal_agent.Base.{
  ℕ, zero, suc, ◌≤◌, String, Bool, true, ◌&&◌, Option, none, some, List, [], ◌∷◌, ◌==◌, leb, take,
  map, select, length, In, ◌↔◌, ◌≡◌, ◌≢◌, ◌++◌, codes, ends_with, drop_last, if◌then◌else◌,
}
use terminal_agent.Value.{Fields}
use terminal_agent.Audit.Entry.{AuditEntry, to_dict}
use terminal_agent.Audit.Log.{AuditLog}

-- Rows in ascending order of time.
abbrev pub IsSorted : List AuditEntry → Type 0
IsSorted [] = Unit
IsSorted (x ∷ []) = Unit
IsSorted (x ∷ y ∷ l) = (x.timestamp ≤ y.timestamp) × IsSorted (y ∷ l)

-- no wildcard of `LIKE` stands in the text
abbrev pub IsPlain : List ℕ → Type 0
IsPlain [] = Unit
IsPlain (c ∷ s) = (c ≢ b'%') × (c ≢ b'_') × IsPlain s

-- What the queries use of SQLite: `text LIKE pattern`, and `ORDER BY timestamp ASC`, which leaves
-- the order of equal times open.
pub record Sqlite : Type 0 where
  pub like : List ℕ → String → Bool
  -- `%` at the end matches any rest
  pub like-prefix :
      (stem rest : List ℕ) (text : String)
      → IsPlain stem
      → codes text ≡ stem ++ rest
      → like (stem ++ b'%' ∷ []) text ≡ true
  pub order_by_timestamp : List AuditEntry → List AuditEntry
  pub order-In : (l : List AuditEntry) (e : AuditEntry) → In e (order_by_timestamp l) ↔ In e l
  pub order-length : (l : List AuditEntry) → length (order_by_timestamp l) ≡ length l
  pub order-IsSorted : (l : List AuditEntry) → IsSorted (order_by_timestamp l)

-- the keyword arguments of `query`
pub record Query : Type 0 where
  pub principal : Option String
  pub op : Option String
  pub object_id : Option String
  pub tx_id : Option String
  pub since : Option ℕ
  pub until : Option ℕ
  pub limit : ℕ

-- the defaults
abbrev pub everything : Query
everything = record {
  principal = none;
  op = none;
  object_id = none;
  tx_id = none;
  since = none;
  until = none;
  limit = 1000;
}

-- `if text: conditions.append("column = ?")`, on a column that is not null
unfoldable pub equals : Option String → String → Bool
equals none column = true
equals (some s) column = if s == "" then true else column == s

-- the same on a column that may be null, which equals nothing
unfoldable pub equals_nullable : Option String → Option String → Bool
equals_nullable none column = true
equals_nullable (some s) none = s == ""
equals_nullable (some s) (some t) = if s == "" then true else t == s

-- `if since: …`; the time 0 counts as absent
unfoldable pub not_before : Option ℕ → ℕ → Bool
not_before none t = true
not_before (some zero) t = true
not_before (some (suc n)) t = leb (suc n) t

unfoldable pub not_after : Option ℕ → ℕ → Bool
not_after none t = true
not_after (some zero) t = true
not_after (some (suc n)) t = leb t (suc n)

module _ (db : Sqlite) where
  unfoldable pub op_matches : Option String → String → Bool
  op_matches none column = true
  op_matches (some s) column =
      if s == ""
      then true
      else if ends_with (codes s) (codes "*")
      then db.like (drop_last (codes s) ++ b'%' ∷ []) column
      else column == s

  -- the `WHERE` clause
  unfoldable pub passes : Query → AuditEntry → Bool
  unfolding equals op_matches equals_nullable not_before not_after
  passes q e =
      equals q.principal e.principal
      && op_matches q.op e.op
      && equals q.object_id e.object
      && equals_nullable q.tx_id e.tx_id
      && not_before q.since e.timestamp
      && not_after q.until e.timestamp

  unfoldable pub query : Query → AuditLog → List AuditEntry
  query q l = take q.limit (db.order_by_timestamp (select (passes q) l.rows))

  unfoldable pub count : Query → AuditLog → ℕ
  unfolding query
  count q l = length (query q l)

  unfoldable pub get_transaction_log : String → AuditLog → List AuditEntry
  unfolding query
  get_transaction_log tx_id l = query (record everything { tx_id = some tx_id }) l

  -- `export_json`: what the file holds, and the number that is returned
  unfoldable pub export_json : Query → AuditLog → List Fields × ℕ
  unfolding query
  export_json q l = (map to_dict (query q l), length (query q l))
