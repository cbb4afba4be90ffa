-- ===== src/Audit/Search.antt =====
-- What the queries return (`query`, `get_transaction_log` of kernel/audit.py).
use terminal_agent.Base.{
  ℕ, zero, suc, ◌≤◌, String, ◌≡◌, ◌≢◌, refl, ap, true, Option, some, List, [], ◌∷◌, ◌++◌, arith,
  leb, ◌∙◌, ◌==◌, ◌⊎◌, inl, inr, length, In, here, there, In-select, take, select, length-take-le,
  Bool-cases, ◌↔◌, codes, ends_with-append, drop_last-append_one,
}
use mathlib.Core.Bool.{and-true}
use terminal_agent.Audit.Entry.{AuditEntry}
use terminal_agent.Audit.Log.{AuditLog}
use terminal_agent.Audit.Filters.{IsWanted, passes_iff, equals_nullable_iff}
use terminal_agent.Audit.Query.{
  Sqlite, IsPlain, Query, IsSorted, passes, query, get_transaction_log, everything, equals_nullable,
  op_matches,
}

module _ {ℓ} {A : Type ℓ} where
  In-of_take : {a : A} (n : ℕ) (l : List A) → In a (take n l) → In a l
  In-of_take zero l h = elim h [ ]
  In-of_take (suc n) [] h = elim h [ ]
  In-of_take (suc n) (x ∷ l) (here e) = here e
  In-of_take (suc n) (x ∷ l) (there h) = there (In-of_take n l h)

  length-take_full : (n : ℕ) (l : List A) → n ≤ length l → length (take n l) ≡ n
  length-take_full zero l h = refl
  length-take_full (suc n) [] h = absurd (omega arith)
  length-take_full (suc n) (x ∷ l) h = ap suc (length-take_full n l (omega arith))

  take_all : (n : ℕ) (l : List A) → length l ≤ n → take n l ≡ l
  take_all zero [] h = refl
  take_all zero (x ∷ l) h = absurd (omega arith)
  take_all (suc n) [] h = refl
  take_all (suc n) (x ∷ l) h = ap (λ t. x ∷ t) (take_all n l (omega arith))

pub IsSorted-tail : (x : AuditEntry) (l : List AuditEntry) → IsSorted (x ∷ l) → IsSorted l
IsSorted-tail x [] s = tt
IsSorted-tail x (y ∷ l) s = s.1

pub IsSorted-head :
    (x y : AuditEntry) (l : List AuditEntry) → IsSorted (x ∷ l) → In y l → x.timestamp ≤ y.timestamp
IsSorted-head x y [] s h = elim h [ ]
IsSorted-head x y (z ∷ l) s (here e) = rw e s.0
IsSorted-head x y (z ∷ l) s (there h) = omega (arith, s.0, IsSorted-head z y l s.1 h)

IsSorted-take : (n : ℕ) (l : List AuditEntry) → IsSorted l → IsSorted (take n l)
IsSorted-take zero l s = tt
IsSorted-take (suc n) [] s = tt
IsSorted-take (suc zero) (x ∷ l) s = tt
IsSorted-take (suc (suc n)) (x ∷ []) s = tt
IsSorted-take (suc (suc n)) (x ∷ y ∷ l) s = (s.0, IsSorted-take (suc n) (y ∷ l) s.1)

-- what a prefix of a sorted list leaves out is not earlier than what it keeps
take-oldest :
    (n : ℕ) (l : List AuditEntry) (e f : AuditEntry)
    → IsSorted l
    → In e (take n l)
    → In f l
    → (In f (take n l)) ⊎ (e.timestamp ≤ f.timestamp)
take-oldest zero l e f s h k = elim h [ ]
take-oldest (suc n) [] e f s h k = elim h [ ]
take-oldest (suc n) (x ∷ l) e f s h (here q) = inl (here q)
take-oldest (suc n) (x ∷ l) e f s (here p) (there k) = inr (rw p (IsSorted-head x f l s k))
take-oldest (suc n) (x ∷ l) e f s (there h) (there k) =
    elim (take-oldest n l e f (IsSorted-tail x l s) h k) [ inl m ↦ inl (there m) | inr b ↦ inr b ]

module _ (db : Sqlite) (q : Query) (l : AuditLog) where
  query-passes : (e : AuditEntry) → In e (query db q l) → In e l.rows × (passes db q e ≡ true)
  unfolding query
  query-passes e h =
      (In-select (passes db q) l.rows).0 ((db.order-In _ e).0 (In-of_take q.limit _ h))

  -- If no more rows pass than the limit, a query returns every row that passes.
  pub query_complete :
      length (select (passes db q) l.rows) ≤ q.limit
      → (e : AuditEntry) → In e l.rows
      → passes db q e ≡ true
      → In e (query db q l)
  unfolding query
  query_complete fits e h p =
      rw
        (take_all q.limit (db.order_by_timestamp (select (passes db q) l.rows))
          (rw db.order-length fits))
        ((db.order-In _ e).1 ((In-select (passes db q) l.rows).1 (h, p)))

  -- A query returns only rows of the log that it wants, in ascending order of time and at most as
  -- many as its limit, and a row of the log that it wants is missing only if the limit is reached.
  -- It wants the rows with the principal, the object and the transaction asked for, with the
  -- operation asked for, or one that LIKE matches with a percent sign for the star at the end, not
  -- before the begin and not after the end of the time asked for; an empty text and the end 0 ask
  -- for nothing.
  pub query_sound :
      ((e : AuditEntry) → In e (query db q l) → In e l.rows × IsWanted db q e)
      × ((e : AuditEntry)
          → In e l.rows
          → IsWanted db q e
          → In e (query db q l) ⊎ (length (query db q l) ≡ q.limit))
      × IsSorted (query db q l)
      × (length (query db q l) ≤ q.limit)
  unfolding query
  query_sound = (
    (λ e h. let (i, p) = query-passes e h in (i, (passes_iff db q e).0 p)),
    (λ e h w. elim (Bool-cases (leb (length (select (passes db q) l.rows)) q.limit)) [
      | inl fits ↦ inl (query_complete (ground (arith, fits)) e h ((passes_iff db q e).1 w))
      | inr over ↦ inr (
          length-take_full q.limit _
            (ground (arith, over, db.order-length (select (passes db q) l.rows))))
    ]),
    IsSorted-take q.limit _ (db.order-IsSorted _),
    length-take-le q.limit _,
  )

  -- A row that passes and is not returned is at least as late as each row that is returned.
  pub query_oldest :
      (e f : AuditEntry)
      → In e (query db q l)
      → In f l.rows
      → passes db q f ≡ true
      → In f (query db q l) ⊎ (e.timestamp ≤ f.timestamp)
  unfolding query
  query_oldest e f h k p =
      take-oldest q.limit _ e f (db.order-IsSorted _) h
        ((db.order-In _ f).1 ((In-select (passes db q) l.rows).1 (k, p)))

equals_named_iff :
    (tx : String) (o : Option String)
    → tx ≢ ""
    → (equals_nullable (some tx) o ≡ true) ↔ (o ≡ some tx)
equals_named_iff tx o named =
    let (to, from) = equals_nullable_iff (some tx) o in
    ((λ h. to h tx refl named), (λ h. from (λ s e other. h ∙ e)))

passes_transaction :
    (db : Sqlite) (tx : String) (e : AuditEntry)
    → tx ≢ ""
    → (passes db (record everything { tx_id = some tx }) e ≡ true) ↔ (e.tx_id ≡ some tx)
unfolding passes
passes_transaction db tx e named =
    let (to, from) = equals_named_iff tx e.tx_id named in
    ((λ h. to (simp and-true at h)), (λ h. simp and-true (from h)))

-- For a transaction identity that is not empty, the log of the transaction holds exactly the rows
-- stamped with it, if at most 1000 rows pass the filter.
pub get_transaction_log_lem :
    (db : Sqlite) (tx : String) (l : AuditLog) (e : AuditEntry)
    → tx ≢ ""
    → length (select (passes db (record everything { tx_id = some tx })) l.rows) ≤ 1000
    → In e (get_transaction_log db tx l) ↔ (In e l.rows × (e.tx_id ≡ some tx))
unfolding get_transaction_log
get_transaction_log_lem db tx l e named fits =
    let q : Query = record everything { tx_id = some tx } in
    (
      (λ h. let (i, p) = query-passes db q l e h in (i, (passes_transaction db tx e named).0 p)),
      (λ h. query_complete db q l fits e h.0 ((passes_transaction db tx e named).1 h.1)),
    )

-- A query for a stem followed by a star lets every operation pass that begins with the stem, if
-- the stem has no wildcard of LIKE.
pub op_matches-prefix :
    (db : Sqlite) (stem rest : List ℕ) (pattern op : String)
    → IsPlain stem
    → codes pattern ≡ stem ++ b'*' ∷ []
    → codes op ≡ stem ++ rest
    → op_matches db (some pattern) op ≡ true
unfolding op_matches
op_matches-prefix db stem rest pattern op ok p o = elim (Bool-cases (pattern == "")) [
  | inl e ↦ rw e
  | inr e ↦
      rw (e, p, ends_with-append stem (b'*' ∷ []), drop_last-append_one stem b'*')
        (db.like-prefix stem rest op ok o)
]
