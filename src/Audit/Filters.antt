-- ===== src/Audit/Filters.antt =====
-- What the filters of a query ask for (`query` of kernel/audit.py).
use terminal_agent.Base.{
  ℕ, zero, suc, ◌≤◌, String, ◌≡◌, ◌≢◌, ◌∙◌, refl, sym, ap, Bool, true, false, ◌&&◌, Option, none,
  some, List, [], ◌∷◌, ◌++◌, arith, ◌==◌, eq_iff, inl, inr, Bool-cases, ◌↔◌, codes, ends_with,
  ends_with-append, ends_with_sound, drop_last-append_one,
}
use mathlib.Core.Option.{some-injective}
use terminal_agent.Audit.Entry.{AuditEntry}
use terminal_agent.Audit.Query.{
  Sqlite, Query, passes, equals, equals_nullable, not_before, not_after, op_matches,
}

-- A row that the query wants. A text that is empty asks for nothing, as does the end 0; an operation
-- that ends in a star is a pattern of LIKE, with a percent sign in the star's place.
pub record IsWanted (db : Sqlite) (q : Query) (e : AuditEntry) : Type 0 where
  pub principal : (s : String) → q.principal ≡ some s → s ≢ "" → e.principal ≡ s
  pub op_stem :
      (s : String) (stem : List ℕ)
      → q.op ≡ some s
      → codes s ≡ stem ++ b'*' ∷ []
      → db.like (stem ++ b'%' ∷ []) e.op ≡ true
  pub op_whole :
      (s : String)
      → q.op ≡ some s
      → s ≢ ""
      → ((stem : List ℕ) → codes s ≢ stem ++ b'*' ∷ [])
      → e.op ≡ s
  pub object : (s : String) → q.object_id ≡ some s → s ≢ "" → e.object ≡ s
  pub tx_id : (s : String) → q.tx_id ≡ some s → s ≢ "" → e.tx_id ≡ some s
  pub since : (t : ℕ) → q.since ≡ some t → t ≤ e.timestamp
  pub until : (t : ℕ) → q.until ≡ some t → t ≢ 0 → e.timestamp ≤ t

pub equals_iff :
    (o : Option String) (column : String)
    → (equals o column ≡ true) ↔ ((s : String) → o ≡ some s → s ≢ "" → column ≡ s)
unfolding equals
equals_iff none column = ((λ h s e. absurd (cc e)), (λ h. refl))
equals_iff (some t) column = elim (Bool-cases (t == "")) [
  | inl q ↦ rw q (
    (λ h s e named. absurd (named (sym (some-injective t s e) ∙ (eq_iff t "").0 q))),
    (λ h. refl),
  )
  | inr q ↦ rw q (
    (λ h s e named. (eq_iff column t).0 h ∙ some-injective t s e),
    (λ h. (eq_iff column t).1 (h t refl (λ n. cc (q, (eq_iff t "").1 n)))),
  )
]

pub equals_nullable_iff :
    (o column : Option String)
    → (equals_nullable o column ≡ true) ↔ ((s : String) → o ≡ some s → s ≢ "" → column ≡ some s)
unfolding equals_nullable
equals_nullable_iff none column = ((λ h s e. absurd (cc e)), (λ h. refl))
equals_nullable_iff (some t) none = elim (Bool-cases (t == "")) [
  | inl q ↦ rw q (
    (λ h s e named. absurd (named (sym (some-injective t s e) ∙ (eq_iff t "").0 q))),
    (λ h. refl),
  )
  | inr q ↦
      rw q ((λ h. absurd (cc h)), (λ h. absurd (cc (h t refl (λ n. cc (q, (eq_iff t "").1 n))))))
]
equals_nullable_iff (some t) (some u) = elim (Bool-cases (t == "")) [
  | inl q ↦ rw q (
    (λ h s e named. absurd (named (sym (some-injective t s e) ∙ (eq_iff t "").0 q))),
    (λ h. refl),
  )
  | inr q ↦ rw q (
    (λ h s e named. ap some ((eq_iff u t).0 h) ∙ e),
    (λ h. (eq_iff u t).1 (some-injective u t (h t refl (λ n. cc (q, (eq_iff t "").1 n))))),
  )
]

not_before_iff : (o : Option ℕ) (t : ℕ) → (not_before o t ≡ true) ↔ ((n : ℕ) → o ≡ some n → n ≤ t)
unfolding not_before
not_before_iff none t = ((λ h n e. absurd (cc e)), (λ h. refl))
not_before_iff (some zero) t = ((λ h n e. omega (arith, some-injective zero n e)), (λ h. refl))
not_before_iff (some (suc m)) t = (
  (λ h n e. ground (arith, h, some-injective (suc m) n e)),
  (λ h. ground (arith, h (suc m) refl)),
)

not_after_iff :
    (o : Option ℕ) (t : ℕ) → (not_after o t ≡ true) ↔ ((n : ℕ) → o ≡ some n → n ≢ 0 → t ≤ n)
unfolding not_after
not_after_iff none t = ((λ h n e. absurd (cc e)), (λ h. refl))
not_after_iff (some zero) t =
    ((λ h n e positive. absurd (positive (sym (some-injective zero n e)))), (λ h. refl))
not_after_iff (some (suc m)) t = (
  (λ h n e positive. ground (arith, h, some-injective (suc m) n e)),
  (λ h. ground (arith, h (suc m) refl (λ z. omega (arith, z)))),
)

starred_not_empty : (s : String) (stem : List ℕ) → codes s ≡ stem ++ b'*' ∷ [] → s == "" ≡ false
starred_not_empty s stem p = elim (Bool-cases (s == "")) [
  | inl q ↦ absurd (ends_nothing stem (sym (ap codes ((eq_iff s "").0 q)) ∙ p))
  | inr q ↦ q
]
  where
    ends_nothing : (stem : List ℕ) → codes "" ≢ stem ++ b'*' ∷ []
    ends_nothing [] h = cc h
    ends_nothing (c ∷ stem) h = cc h

module _ (db : Sqlite) where
  starred :
      (s column : String) (stem : List ℕ)
      → codes s ≡ stem ++ b'*' ∷ []
      → op_matches db (some s) column ≡ db.like (stem ++ b'%' ∷ []) column
  unfolding op_matches
  starred s column stem p =
      rw
        (
          op_matches,
          starred_not_empty s stem p,
          p,
          ends_with-append stem (b'*' ∷ []),
          drop_last-append_one stem b'*',
        )
        refl

  op_stem_sound :
      (o : Option String) (column : String)
      → op_matches db o column ≡ true
      → (s : String) (stem : List ℕ) → o ≡ some s
      → codes s ≡ stem ++ b'*' ∷ []
      → db.like (stem ++ b'%' ∷ []) column ≡ true
  op_stem_sound o column h s stem e p =
      sym (starred s column stem p) ∙ ap (λ x. op_matches db x column) (sym e) ∙ h

  op_whole_sound :
      (o : Option String) (column : String)
      → op_matches db o column ≡ true
      → (s : String) → o ≡ some s
      → s ≢ ""
      → ((stem : List ℕ) → codes s ≢ stem ++ b'*' ∷ [])
      → column ≡ s
  unfolding op_matches
  op_whole_sound none column h s e named whole = absurd (cc e)
  op_whole_sound (some t) column h s e named whole =
      let same = some-injective t s e in
      elim (Bool-cases (t == "")) [
        | inl q ↦ absurd (named (sym same ∙ (eq_iff t "").0 q))
        | inr q ↦ elim (Bool-cases (ends_with (codes t) (codes "*"))) [
          | inl r ↦
              let (stem, p) = ends_with_sound (codes t) (codes "*") r in
              absurd (whole stem (ap codes (sym same) ∙ p))
          | inr r ↦ (eq_iff column t).0 (rw (op_matches, q, r) at h) ∙ same
        ]
      ]

  op_matches_complete :
      (o : Option String) (column : String)
      → ((s : String) (stem : List ℕ)
          → o ≡ some s
          → codes s ≡ stem ++ b'*' ∷ []
          → db.like (stem ++ b'%' ∷ []) column ≡ true)
      → ((s : String)
          → o ≡ some s
          → s ≢ ""
          → ((stem : List ℕ) → codes s ≢ stem ++ b'*' ∷ [])
          → column ≡ s)
      → op_matches db o column ≡ true
  unfolding op_matches
  op_matches_complete none column stems whole = refl
  op_matches_complete (some t) column stems whole = elim (Bool-cases (t == "")) [
    | inl q ↦ rw q refl
    | inr q ↦ elim (Bool-cases (ends_with (codes t) (codes "*"))) [
      | inl r ↦
          let (stem, p) = ends_with_sound (codes t) (codes "*") r in
          starred t column stem p ∙ stems t stem refl p
      | inr r ↦
          rw (q, r)
            ((eq_iff column t).1 (
              whole t refl (λ n. cc (q, (eq_iff t "").1 n))
                (λ stem p. cc (r, sym (ends_with-append stem (codes "*")), p))))
    ]
  ]

all_six :
    (a b c d e f : Bool)
    → (a && b && c && d && e && f ≡ true)
      ↔ ((a ≡ true) × (b ≡ true) × (c ≡ true) × (d ≡ true) × (e ≡ true) × (f ≡ true))
all_six a b c d e f = ground arith

-- A row passes exactly when the query wants it.
pub passes_iff :
    (db : Sqlite) (q : Query) (e : AuditEntry) → (passes db q e ≡ true) ↔ IsWanted db q e
unfolding passes
passes_iff db q e = (to, from)
  where
    six : (passes db q e ≡ true) ↔ (
        (equals q.principal e.principal ≡ true)
        × (op_matches db q.op e.op ≡ true)
        × (equals q.object_id e.object ≡ true)
        × (equals_nullable q.tx_id e.tx_id ≡ true)
        × (not_before q.since e.timestamp ≡ true)
        × (not_after q.until e.timestamp ≡ true))
    six = all_six _ _ _ _ _ _

    to : passes db q e ≡ true → IsWanted db q e
    to h =
        let (principal, op, object, tx, since, until) = six.0 h in
        record {
          principal = (equals_iff q.principal e.principal).0 principal;
          op_stem = op_stem_sound db q.op e.op op;
          op_whole = op_whole_sound db q.op e.op op;
          object = (equals_iff q.object_id e.object).0 object;
          tx_id = (equals_nullable_iff q.tx_id e.tx_id).0 tx;
          since = (not_before_iff q.since e.timestamp).0 since;
          until = (not_after_iff q.until e.timestamp).0 until;
        }

    from : IsWanted db q e → passes db q e ≡ true
    from w = six.1 (
      (equals_iff q.principal e.principal).1 w.principal,
      op_matches_complete db q.op e.op w.op_stem w.op_whole,
      (equals_iff q.object_id e.object).1 w.object,
      (equals_nullable_iff q.tx_id e.tx_id).1 w.tx_id,
      (not_before_iff q.since e.timestamp).1 w.since,
      (not_after_iff q.until e.timestamp).1 w.until,
    )
