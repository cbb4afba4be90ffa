-- ===== src/Audit/History.antt =====
-- The log only grows (`log` and the transaction context of kernel/audit.py).
use terminal_agent.Base.{
  ℕ, suc, ◌+◌, ◌≤◌, String, ◌≡◌, ◌≢◌, sym, ap, ◌∙◌, Option, List, [], ◌∷◌, ◌++◌, arith, length,
  length-append, All, refl, none,
}
use mathlib.Core.List.{append-nil, append_assoc}
use terminal_agent.Platform.{Platform}
use terminal_agent.Audit.Entry.{AuditEntry, Event}
use terminal_agent.Audit.Redact.{redact}
use terminal_agent.Audit.Log.{
  AuditLog, log, entry_of, hash_field_name, set_transaction_context, clear_transaction_context,
}

-- the calls that change a log
pub data Call : Type 0 where
  append : ℕ → Event → Call
  set_context : Option String → Option String → Call
  clear_context : Call

module _ (os : Platform) where
  unfoldable pub step : Call → AuditLog → AuditLog
  step (append now e) l = log os now e l
  step (set_context tx cp) l = set_transaction_context tx cp l
  step clear_context l = clear_transaction_context l

  unfoldable pub run : List Call → AuditLog → AuditLog
  run [] l = l
  run (c ∷ cs) l = run cs (step c l)

  -- the row of a log call: the n-th identity, what was logged at the time with its arguments as
  -- `redact` leaves them, and the transaction and checkpoint
  pub record IsRow (n : ℕ) (l : AuditLog) (tx cp : Option String) (now : ℕ) (e : Event)
      (row : AuditEntry) : Type 0 where
    pub id : row.id ≡ os.uuid4 n
    pub timestamp : row.timestamp ≡ now
    pub op : row.op ≡ e.op
    pub principal : row.principal ≡ e.principal
    pub object : row.object ≡ e.object
    pub args : row.args ≡ redact l.hash_field_names (hash_field_name os l) e.args
    pub result : row.result ≡ e.result
    pub tx_id : row.tx_id ≡ tx
    pub checkpoint_id : row.checkpoint_id ≡ cp
    pub provenance : row.provenance ≡ e.provenance
    pub correlation_id : row.correlation_id ≡ e.correlation_id

  -- The rows of the log calls in order, numbered from n on. Each has the context of the last call
  -- before it that sets or clears one; until then it is the transaction and the checkpoint given.
  pub data AreRows (l : AuditLog)
      : ℕ → Option String → Option String → List Call → List AuditEntry → Type 0 where
    no_calls : {n : ℕ} {tx cp : Option String} → AreRows l n tx cp [] []
    logged :
        {n : ℕ} {tx cp : Option String} {now : ℕ} {e : Event} {cs : List Call} {row : AuditEntry}
        {rows : List AuditEntry}
        → IsRow n l tx cp now e row
        → AreRows l (n + 1) tx cp cs rows
        → AreRows l n tx cp (append now e ∷ cs) (row ∷ rows)
    context_set :
        {n : ℕ} {tx cp tx' cp' : Option String} {cs : List Call} {rows : List AuditEntry}
        → AreRows l n tx' cp' cs rows
        → AreRows l n tx cp (set_context tx' cp' ∷ cs) rows
    context_cleared :
        {n : ℕ} {tx cp : Option String} {cs : List Call} {rows : List AuditEntry}
        → AreRows l n none none cs rows
        → AreRows l n tx cp (clear_context ∷ cs) rows

  -- a log with the salt and the switch of l
  record IsLike (l k : AuditLog) : Type 0 where
    salt : k.workspace_salt ≡ l.workspace_salt
    hashing : k.hash_field_names ≡ l.hash_field_names

  entry_of-IsRow :
      (l k : AuditLog) (now : ℕ) (e : Event)
      → IsLike l k
      → IsRow k.drawn l k.current_tx k.current_checkpoint now e (entry_of os now e k)
  unfolding entry_of hash_field_name
  entry_of-IsRow l k now e like = record {
    id = refl;
    timestamp = refl;
    op = refl;
    principal = refl;
    object = refl;
    args = rw (like.salt, like.hashing) refl;
    result = refl;
    tx_id = refl;
    checkpoint_id = refl;
    provenance = refl;
    correlation_id = refl;
  }

  run_from :
      (cs : List Call) (l k : AuditLog)
      → IsLike l k
      → (rows : List AuditEntry) × ((run cs k).rows ≡ k.rows ++ rows)
        × AreRows l k.drawn k.current_tx k.current_checkpoint cs rows
  unfolding run step log set_transaction_context clear_transaction_context
  run_from [] l k like = ([], sym (append-nil k.rows), no_calls)
  run_from (append now e ∷ cs) l k like =
      let next : IsLike l (log os now e k) = record { salt = like.salt; hashing = like.hashing } in
      let (rows, added, are) = run_from cs l (log os now e k) next in
      (
        entry_of os now e k ∷ rows,
        added ∙ append_assoc k.rows (entry_of os now e k ∷ []) rows,
        logged (entry_of-IsRow l k now e like) are,
      )
  run_from (set_context tx cp ∷ cs) l k like =
      let next : IsLike l (set_transaction_context tx cp k) = record {
        salt = like.salt;
        hashing = like.hashing;
      } in
      let (rows, added, are) = run_from cs l (set_transaction_context tx cp k) next in
      (rows, added, context_set are)
  run_from (clear_context ∷ cs) l k like =
      let next : IsLike l (clear_transaction_context k) = record {
        salt = like.salt;
        hashing = like.hashing;
      } in
      let (rows, added, are) = run_from cs l (clear_transaction_context k) next in
      (rows, added, context_cleared are)

  -- Calls of log and of the transaction context leave every row that was there in place and add
  -- one row for each log call, in order: with the next identity, the time and the event as given,
  -- its arguments as redact leaves them, and the transaction and the checkpoint of the last call
  -- before it that sets or clears them, or those of the log at the start if there is none.
  pub run-AreRows :
      (cs : List Call) (l : AuditLog)
      → (rows : List AuditEntry) × ((run cs l).rows ≡ l.rows ++ rows)
        × AreRows l l.drawn l.current_tx l.current_checkpoint cs rows
  run-AreRows cs l = run_from cs l l (record { salt = refl; hashing = refl })

  -- each row carries the identity of its draw
  abbrev pub Numbered : ℕ → List AuditEntry → Type 0
  Numbered n [] = Unit
  Numbered n (e ∷ l) = (e.id ≡ os.uuid4 n) × Numbered (suc n) l

  pub record IsValid (l : AuditLog) : Type 0 where
    pub numbered : Numbered 0 l.rows
    pub counted : l.drawn ≡ length l.rows

  Numbered-append :
      (n : ℕ) (l : List AuditEntry) (e : AuditEntry)
      → Numbered n l
      → e.id ≡ os.uuid4 (n + length l)
      → Numbered n (l ++ e ∷ [])
  Numbered-append n [] e h q = (q ∙ ap os.uuid4 (omega arith), tt)
  Numbered-append n (x ∷ l) e h q =
      (h.0, Numbered-append (suc n) l e h.1 (q ∙ ap os.uuid4 (omega arith)))

  log-IsValid : (now : ℕ) (e : Event) {l : AuditLog} → IsValid l → IsValid (log os now e l)
  unfolding log entry_of
  log-IsValid now e {l} v = record {
    numbered =
        Numbered-append 0 l.rows (entry_of os now e l) v.numbered
          (ap os.uuid4 (omega (arith, v.counted)));
    counted = omega (arith, v.counted, length-append l.rows (entry_of os now e l ∷ []));
  }

  step-IsValid : (c : Call) {l : AuditLog} → IsValid l → IsValid (step c l)
  unfolding step set_transaction_context clear_transaction_context
  step-IsValid (append now e) v = log-IsValid now e v
  step-IsValid (set_context tx cp) v = record { numbered = v.numbered; counted = v.counted }
  step-IsValid clear_context v = record { numbered = v.numbered; counted = v.counted }

  run-IsValid : (cs : List Call) {l : AuditLog} → IsValid l → IsValid (run cs l)
  unfolding run
  run-IsValid [] v = v
  run-IsValid (c ∷ cs) v = run-IsValid cs (step-IsValid c v)

  Numbered-below :
      (n m : ℕ) (l : List AuditEntry)
      → Numbered n l
      → n + length l ≤ m
      → All (λ e. e.id ≢ os.uuid4 m) l
  Numbered-below n m [] h b = tt
  Numbered-below n m (e ∷ l) h b = (
    (λ q. absurd (omega (arith, os.uuid4_inj n m (sym h.0 ∙ q)))),
    Numbered-below (suc n) m l h.1 (omega arith),
  )

  -- After any such calls on a valid log, the identity that the next row draws is on no row yet.
  pub run-fresh :
      (cs : List Call) (l : AuditLog) (now : ℕ) (e : Event)
      → IsValid l
      → All (λ row. row.id ≢ (entry_of os now e (run cs l)).id) (run cs l).rows
  unfolding entry_of
  run-fresh cs l now e v =
      let w = run-IsValid cs v in
      Numbered-below 0 (run cs l).drawn (run cs l).rows w.numbered (omega (arith, w.counted))
