-- ===== src/Tests/Sqlite.antt =====
-- A table in memory that orders by insertion, as an instance of what the queries use of SQLite
-- (kernel/audit.py).
use terminal_agent.Base.{
  suc, ◌≤◌, ◌≡◌, ◌∙◌, refl, ap, List, [], ◌∷◌, arith, leb, length, In, here, there, ◌↔◌, inl, inr,
  Bool-cases, codes, starts_with, starts_with-append, drop_last, drop_last-append_one,
  if◌then◌else◌,
}
use terminal_agent.Audit.Entry.{AuditEntry}
use terminal_agent.Audit.Search.{IsSorted-head, IsSorted-tail}
use terminal_agent.Audit.Query.{Sqlite, IsSorted}

unfoldable pub insert : AuditEntry → List AuditEntry → List AuditEntry
insert e [] = e ∷ []
insert e (x ∷ l) =
    let rest = insert e l in if leb e.timestamp x.timestamp then e ∷ x ∷ l else x ∷ rest

unfoldable pub sort : List AuditEntry → List AuditEntry
sort [] = []
sort (x ∷ l) = insert x (sort l)

In-swap :
    {f e x : AuditEntry} {m l : List AuditEntry}
    → In f m ↔ In f (e ∷ l)
    → In f (x ∷ m) ↔ In f (e ∷ x ∷ l)
In-swap {f} {e} {x} {m} {l} h = (to, from)
  where
    to : In f (x ∷ m) → In f (e ∷ x ∷ l)
    to (here p) = there (here p)
    to (there k) = elim (h.0 k) [ here p ↦ here p | there n ↦ there (there n) ]

    from : In f (e ∷ x ∷ l) → In f (x ∷ m)
    from (here p) = there (h.1 (here p))
    from (there (here p)) = here p
    from (there (there k)) = there (h.1 (there k))

In-insert : (e f : AuditEntry) (l : List AuditEntry) → In f (insert e l) ↔ In f (e ∷ l)
unfolding insert
In-insert e f [] = ((λ h. h), (λ h. h))
In-insert e f (x ∷ l) = elim (Bool-cases (leb e.timestamp x.timestamp)) [
  | inl q ↦ rw q ((λ h. h), (λ h. h))
  | inr q ↦ rw q (In-swap (In-insert e f l))
]

pub In-sort : (l : List AuditEntry) (f : AuditEntry) → In f (sort l) ↔ In f l
unfolding sort
In-sort [] f = ((λ h. h), (λ h. h))
In-sort (x ∷ l) f =
    let (to, from) = In-insert x f (sort l) in
    let (to', from') = In-sort l f in
    (
      (λ h. elim (to h) [ here p ↦ here p | there m ↦ there (to' m) ]),
      (λ h. from (elim h [ here p ↦ here p | there m ↦ there (from' m) ])),
    )

length-insert : (e : AuditEntry) (l : List AuditEntry) → length (insert e l) ≡ suc (length l)
unfolding insert
length-insert e [] = refl
length-insert e (x ∷ l) = ground (arith, length-insert e l)

pub length-sort : (l : List AuditEntry) → length (sort l) ≡ length l
unfolding sort
length-sort [] = refl
length-sort (x ∷ l) = length-insert x (sort l) ∙ ap suc (length-sort l)

cons-IsSorted :
    (x : AuditEntry) (l : List AuditEntry)
    → ((f : AuditEntry) → In f l → x.timestamp ≤ f.timestamp)
    → IsSorted l
    → IsSorted (x ∷ l)
cons-IsSorted x [] below s = tt
cons-IsSorted x (y ∷ l) below s = (below y (here refl), s)

insert-IsSorted : (e : AuditEntry) (l : List AuditEntry) → IsSorted l → IsSorted (insert e l)
unfolding insert
insert-IsSorted e [] s = tt
insert-IsSorted e (x ∷ l) s = elim (Bool-cases (leb e.timestamp x.timestamp)) [
  | inl q ↦ rw q (ground arith, s)
  | inr q ↦ rw q (
      cons-IsSorted x (insert e l)
        (λ f h. elim ((In-insert e f l).0 h) [
          | here p ↦ rw p (ground arith)
          | there m ↦ IsSorted-head x f l s m
        ])
        (insert-IsSorted e l (IsSorted-tail x l s)))
]

pub sort-IsSorted : (l : List AuditEntry) → IsSorted (sort l)
unfolding sort
sort-IsSorted [] = tt
sort-IsSorted (x ∷ l) = insert-IsSorted x (sort l) (sort-IsSorted l)

abbrev pub in_memory : Sqlite
in_memory = record {
  like = λ pattern text. starts_with (codes text) (drop_last pattern);
  like-prefix =
      λ stem rest text p e. rw (drop_last-append_one stem b'%', e) (starts_with-append stem rest);
  order_by_timestamp = sort;
  order-In = In-sort;
  order-length = length-sort;
  order-IsSorted = sort-IsSorted;
}
