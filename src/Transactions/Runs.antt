-- ===== src/Transactions/Runs.antt =====
-- Whatever is called on the coordinator: the current transaction is active, and a settled one stays
-- settled (kernel/transactions.py).
use terminal_agent.Base.{
  ℕ, ◌≤◌, ◌≡◌, ◌≢◌, ◌∙◌, refl, sym, ap, subst, String, true, false, Option, some, List, [], ◌∷◌,
  ◌==◌, eq_iff, arith, Bool-cases, inl, inr,
}
use mathlib.Core.Option.{some-injective}
use terminal_agent.Dict
use terminal_agent.Dict.{Dict}
use terminal_agent.Platform.{Platform}
use terminal_agent.Objects.Steps.{Op}
use terminal_agent.Transactions as T
use terminal_agent.Transactions.State.{
  Transaction, Coordinator, World, init, is_active, is_current, transaction_id,
}
use terminal_agent.Transactions.Acts.{acts, acts-coordinator}
use terminal_agent.Transactions.States.{
  Moves, still, entered, opened, closed, begin-Moves, checkpoint-Moves, rollback-Moves,
  commit-Moves, abort-Moves,
}

-- the calls, each at its time; `acts` are operations on objects
pub data Call : Type 0 where
  begin : ℕ → Call
  checkpoint : ℕ → String → Option String → Call
  rollback : ℕ → String → Option String → Call
  commit : ℕ → Option String → Call
  abort : ℕ → Option String → Call
  acting : List Op → Call

-- The current transaction, if there is one, is registered and active.
abbrev pub IsValid : Coordinator → Type 0
IsValid c =
    (id : String)
    → c.active_tx ≡ some id
    → (tx : Transaction) × (Dict.get c.transactions id ≡ some tx) × (is_active tx ≡ true)

-- The transaction has ended.
abbrev pub HasEnded : String → Coordinator → Type 0
HasEnded id c = (tx : Transaction) × (Dict.get c.transactions id ≡ some tx) × (is_active tx ≡ false)

-- no transaction that is begun from now on gets the identity
abbrev pub IsSpent : Platform → String → Coordinator → Type 0
IsSpent os id c = (d : Coordinator) → c.drawn ≤ d.drawn → transaction_id os d ≢ id

is_current_iff : (o : Option String) (id j : String) → o ≡ some j → is_current o id ≡ (j == id)
is_current_iff o id j e = rw e refl

module _ (os : Platform) where
  Moves-IsValid : {c d : Coordinator} → Moves os c d → IsValid c → IsValid d
  Moves-IsValid {c} {d} (still e) v = subst IsValid (sym e) v
  Moves-IsValid {c} {d} (entered id old tx got was act puts current drawn) v = λ j cur.
      elim (Bool-cases (id == j)) [
        | inl q ↦ (tx, puts j ∙ rw q refl, act)
        | inr q ↦ let (t, g, a) = v j (sym current ∙ cur) in (t, puts j ∙ rw q g, a)
      ]
  Moves-IsValid {c} {d} (opened tx act puts current drawn) v = λ j cur.
      let same : transaction_id os c ≡ j =
        some-injective (transaction_id os c) j (sym current ∙ cur) in
      (tx, puts j ∙ rw ((eq_iff (transaction_id os c) j).1 same) refl, act)
  Moves-IsValid {c} {d} (closed id tx over puts current drawn) v = λ j cur.
      elim (Bool-cases (is_current c.active_tx id)) [
        | inl q ↦ absurd (cc (cur, rw q at current))
        | inr q ↦
            let was : c.active_tx ≡ some j = sym (rw q at current) ∙ cur in
            let (t, g, a) = v j was in
            let other : id == j ≡ false = elim (Bool-cases (id == j)) [
              | inl r ↦ absurd (
                  cc (
                    is_current_iff c.active_tx id j was,
                    q,
                    (eq_iff j id).1 (sym ((eq_iff id j).0 r)),
                  ))
              | inr r ↦ r
            ] in
            (t, puts j ∙ rw other g, a)
      ]

  Moves-HasEnded :
      {c d : Coordinator} (id : String)
      → Moves os c d
      → IsSpent os id c
      → HasEnded id c
      → HasEnded id d
  Moves-HasEnded {c} {d} j (still e) spent h = subst (HasEnded j) (sym e) h
  Moves-HasEnded {c} {d} j (entered id old tx got was act puts current drawn) spent h =
      elim (Bool-cases (id == j)) [
        | inl q ↦
            let same : old ≡ h.0 =
              some-injective old h.0
                (sym got ∙ ap (Dict.get c.transactions) ((eq_iff id j).0 q) ∙ h.1) in
            absurd (cc (ap (λ (t : Transaction). is_active t) same, was, h.2))
        | inr q ↦ (h.0, puts j ∙ rw q h.1, h.2)
      ]
  Moves-HasEnded {c} {d} j (opened tx act puts current drawn) spent h =
      elim (Bool-cases (transaction_id os c == j)) [
        | inl q ↦ absurd (spent c (omega arith) ((eq_iff (transaction_id os c) j).0 q))
        | inr q ↦ (h.0, puts j ∙ rw q h.1, h.2)
      ]
  Moves-HasEnded {c} {d} j (closed id tx over puts current drawn) spent h =
      elim (Bool-cases (id == j)) [
        | inl q ↦ (tx, puts j ∙ rw q refl, over)
        | inr q ↦ (h.0, puts j ∙ rw q h.1, h.2)
      ]

  Moves-drawn : {c d : Coordinator} → Moves os c d → c.drawn ≤ d.drawn
  Moves-drawn (still e) = rw e (omega arith)
  Moves-drawn (entered id old tx got was act puts current drawn) = omega (arith, drawn)
  Moves-drawn (opened tx act puts current drawn) = omega (arith, drawn)
  Moves-drawn (closed id tx over puts current drawn) = omega (arith, drawn)

  unfoldable pub step : Call → World → World
  step (begin now) w = (T.begin os now w).1
  step (checkpoint now name tx_id) w = (T.checkpoint os now name tx_id w).1
  step (rollback now name tx_id) w = (T.rollback os now name tx_id w).1
  step (commit now tx_id) w = (T.commit os now tx_id w).1
  step (abort now tx_id) w = (T.abort os now tx_id w).1
  step (acting ops) w = acts os ops w

  unfoldable pub run : List Call → World → World
  unfolding step
  run [] w = w
  run (call ∷ calls) w = run calls (step call w)

  step-Moves : (call : Call) (w : World) → Moves os w.coordinator (step call w).coordinator
  unfolding step
  step-Moves (begin now) w = begin-Moves os now w
  step-Moves (checkpoint now name tx_id) w = checkpoint-Moves os now name tx_id w
  step-Moves (rollback now name tx_id) w = rollback-Moves os now name tx_id w
  step-Moves (commit now tx_id) w = commit-Moves os now tx_id w
  step-Moves (abort now tx_id) w = abort-Moves os now tx_id w
  step-Moves (acting ops) w = still (acts-coordinator os ops w)

  run-keeps-IsValid :
      (calls : List Call) (w : World) → IsValid w.coordinator → IsValid (run calls w).coordinator
  unfolding run
  run-keeps-IsValid [] w v = v
  run-keeps-IsValid (call ∷ calls) w v =
      run-keeps-IsValid calls (step call w) (Moves-IsValid (step-Moves call w) v)

  -- A transaction that has ended stays ended, whatever is begun, checkpointed, rolled back,
  -- committed, aborted and done to objects, as long as no begin draws its identity again.
  pub run-HasEnded :
      (calls : List Call) (w : World) (id : String)
      → IsSpent os id w.coordinator
      → HasEnded id w.coordinator
      → HasEnded id (run calls w).coordinator
  unfolding run
  run-HasEnded [] w id spent h = h
  run-HasEnded (call ∷ calls) w id spent h =
      run-HasEnded calls (step call w) id
        (λ d le. spent d (omega (arith, Moves-drawn (step-Moves call w))))
        (Moves-HasEnded id (step-Moves call w) spent h)

  -- From a new coordinator, after any calls, the current transaction, if there is one, is
  -- registered and active.
  pub active_tx-IsValid :
      (calls : List Call) (w : World) → w.coordinator ≡ init → IsValid (run calls w).coordinator
  active_tx-IsValid calls w fresh =
      run-keeps-IsValid calls w (subst IsValid (sym fresh) (λ id cur. absurd (cc cur)))
