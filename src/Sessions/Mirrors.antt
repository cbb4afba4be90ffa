-- ===== src/Sessions/Mirrors.antt =====
-- One dict of the session manager and the table that stands for it on disk (kernel/sessions.py): the
-- table holds exactly the values of the dict that are kept, each under its own identity.
use terminal_agent.Base.{
  ◌+◌, ◌==◌, eq_iff, ℕ, ◌+◌, ◌<◌, ◌≤◌, ◌≡◌, ◌∙◌, refl, sym, String, Bool, false, none, some, [],
  ◌==◌, select, all, if◌then◌else◌, arith, eq_iff, Bool-cases, inl, inr,
}
use terminal_agent.Dict
use terminal_agent.Dict.{Dict}
use terminal_agent.Sessions.{replace, load}
use terminal_agent.Sessions.Tables.{
  kept, kept-kept, get-replace, replace-Distinct, select_all, kept_passes, IsKeyed, put-IsKeyed,
  remove-IsKeyed, replace-IsKeyed, load_all,
}

module _ {V : Type 0} (id : V → String) (keeps : V → Bool) (name : ℕ → String) (bound : ℕ) where
  -- after the given number of draws; `bound` is a number of draws among which no two answer alike
  pub record Mirrors (drawn : ℕ) (dict table : Dict V) : Type 0 where
    pub distinct : Dict.Distinct table
    pub dict-Distinct : Dict.Distinct dict
    pub dict-IsKeyed : IsKeyed id dict
    pub table-IsKeyed : IsKeyed id table
    pub same : (k : String) → Dict.get table k ≡ kept keeps (Dict.get dict k)
    pub free : (n : ℕ) → drawn ≤ n → n < bound → Dict.get dict (name n) ≡ none

-- the table after a write to the dict: only values that are kept are written
unfoldable pub written : {V : Type 0} → (V → Bool) → Dict V → String → V → Dict V
written keeps table k v = if keeps v then replace table k v else table

module _ {V : Type 0} {id : V → String} {keeps : V → Bool} {name : ℕ → String} {bound : ℕ} where
  pub empty-Mirrors : {drawn : ℕ} → Mirrors id keeps name bound drawn [] []
  unfolding Dict.get kept
  empty-Mirrors = record {
    distinct = tt;
    dict-Distinct = tt;
    dict-IsKeyed = λ k v h. cc;
    table-IsKeyed = λ k v h. cc;
    same = λ k. refl;
    free = λ n _ _. refl;
  }

  pub later-Mirrors :
      {drawn after : ℕ} {dict table : Dict V}
      → drawn ≤ after
      → Mirrors id keeps name bound drawn dict table
      → Mirrors id keeps name bound after dict table
  later-Mirrors le m = record {
    distinct = m.distinct;
    dict-Distinct = m.dict-Distinct;
    dict-IsKeyed = m.dict-IsKeyed;
    table-IsKeyed = m.table-IsKeyed;
    same = m.same;
    free = λ n l b. m.free n (omega (arith, le, l)) b;
  }

  -- the end of a session
  pub remove-Mirrors :
      {drawn : ℕ} {dict table : Dict V} (k : String)
      → Mirrors id keeps name bound drawn dict table
      → Mirrors id keeps name bound drawn (Dict.remove dict k) (Dict.remove table k)
  unfolding kept
  remove-Mirrors {dict = dict} {table = table} k m = record {
    distinct = Dict.remove-Distinct table k m.distinct;
    dict-Distinct = Dict.remove-Distinct dict k m.dict-Distinct;
    dict-IsKeyed = remove-IsKeyed id dict k m.dict-IsKeyed;
    table-IsKeyed = remove-IsKeyed id table k m.table-IsKeyed;
    same = λ j. elim (Bool-cases (k == j)) [
      | inl e ↦ rw (Dict.get-remove table k j, Dict.get-remove dict k j, e) refl
      | inr e ↦ rw (Dict.get-remove table k j, Dict.get-remove dict k j, e) (m.same j)
    ];
    free = λ n l b. Dict.get-remove dict k (name n) ∙ ground (arith, m.free n l b);
  }

  -- a write of a value that is kept if the one before it was
  write-Mirrors :
      {drawn after : ℕ} {dict table : Dict V} (k : String) (v : V)
      → id v ≡ k
      → (keeps v ≡ false → Dict.get table k ≡ none)
      → ((n : ℕ) → after ≤ n → n < bound → Dict.get (Dict.put dict k v) (name n) ≡ none)
      → Mirrors id keeps name bound drawn dict table
      → Mirrors id keeps name bound after (Dict.put dict k v) (written keeps table k v)
  unfolding written kept
  write-Mirrors {dict = dict} {table = table} k v own gone free m = elim (Bool-cases (keeps v)) [
    | inl e ↦ record {
      distinct = rw e (replace-Distinct table k v m.distinct);
      dict-Distinct = Dict.put-Distinct dict k v m.dict-Distinct;
      dict-IsKeyed = put-IsKeyed id dict k v own m.dict-IsKeyed;
      table-IsKeyed = rw e (replace-IsKeyed id table k v own m.table-IsKeyed);
      same = λ j.
          rw (e, get-replace table k j v, Dict.get-put dict k j v)
            (elim (Bool-cases (k == j)) [ inl q ↦ rw (q, e) refl | inr q ↦ rw q (m.same j) ]);
      free = free;
    }
    | inr e ↦ record {
      distinct = rw e m.distinct;
      dict-Distinct = Dict.put-Distinct dict k v m.dict-Distinct;
      dict-IsKeyed = put-IsKeyed id dict k v own m.dict-IsKeyed;
      table-IsKeyed = rw e m.table-IsKeyed;
      same = λ j.
          rw (e, Dict.get-put dict k j v)
            (elim (Bool-cases (k == j)) [
              | inl q ↦ rw (q, e, ← (eq_iff k j).0 q) (gone e)
              | inr q ↦ rw q (m.same j)
            ]);
      free = free;
    }
  ]

  -- a new value under the identity that was drawn
  pub add-Mirrors :
      {drawn : ℕ} {dict table : Dict V} (v : V)
      → id v ≡ name drawn
      → drawn < bound
      → ((m n : ℕ) → m < bound → n < bound → name m ≡ name n → m ≡ n)
      → Mirrors id keeps name bound drawn dict table
      → Mirrors id keeps name bound
          (drawn + 1)
          (Dict.put dict (name drawn) v)
          (written keeps table (name drawn) v)
  unfolding kept
  add-Mirrors {drawn} {dict} {table} v own below apart m =
      write-Mirrors (name drawn) v own
        (λ no. m.same (name drawn) ∙ rw (m.free drawn (omega arith) below) refl)
        (λ n l b. elim (Bool-cases (name drawn == name n)) [
          | inl q ↦
              absurd (omega (arith, l, apart drawn n below b ((eq_iff (name drawn) (name n)).0 q)))
          | inr q ↦ Dict.get-put dict (name drawn) (name n) v ∙ rw q (m.free n (omega (arith, l)) b)
        ])
        m

  -- a new version of a value that is there, kept if the old one was
  pub change-Mirrors :
      {drawn after : ℕ} {dict table : Dict V} (k : String) (u v : V)
      → drawn ≤ after
      → Dict.get dict k ≡ some u
      → id v ≡ id u
      → keeps v ≡ keeps u
      → Mirrors id keeps name bound drawn dict table
      → Mirrors id keeps name bound after (Dict.put dict k v) (written keeps table k v)
  unfolding kept
  change-Mirrors {drawn} {after} {dict} {table} k u v le got same_id same_kept m =
      write-Mirrors k v (same_id ∙ m.dict-IsKeyed k u got)
        (λ no. m.same k ∙ rw (got, sym same_kept ∙ no) refl)
        (λ n l b.
          let none_there = m.free n (omega (arith, le, l)) b in
          elim (Bool-cases (k == name n)) [
            | inl q ↦ absurd (cc ((eq_iff k (name n)).0 q, none_there, got))
            | inr q ↦ Dict.get-put dict k (name n) v ∙ rw q none_there
          ])
        m

  -- the dict that is loaded from the kept rows of the table
  pub load-Mirrors :
      {drawn : ℕ} {dict table rows : Dict V}
      → rows ≡ table
      → Mirrors id keeps name bound drawn dict table
      → Mirrors id keeps name bound drawn (load id rows []) table
  unfolding kept
  load-Mirrors {drawn} {dict} {table} {rows} all m =
      rw (all, load_all id table m.distinct m.table-IsKeyed)
        (record {
          distinct = m.distinct;
          dict-Distinct = m.distinct;
          dict-IsKeyed = m.table-IsKeyed;
          table-IsKeyed = m.table-IsKeyed;
          same = λ k. rw (m.same k) (sym (kept-kept keeps (Dict.get dict k)));
          free = λ n l b. m.same (name n) ∙ rw (m.free n l b) refl;
        })

  pub rows_pass :
      {drawn : ℕ} {dict table : Dict V}
      → Mirrors id keeps name bound drawn dict table
      → select (λ e. keeps e.1) table ≡ table
  rows_pass {drawn} {dict} {table} m =
      select_all keeps table m.distinct
        (λ k v got. kept_passes keeps (Dict.get dict k) v (sym (m.same k) ∙ got))
