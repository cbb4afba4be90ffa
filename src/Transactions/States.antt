-- ===== src/Transactions/States.antt =====
-- Sequences of calls on the coordinator: which transaction is current, and that none reopens
-- (kernel/transactions.py).
use terminal_agent.Base.{
  ℕ, ◌+◌, ◌≡◌, ◌⊎◌, ◌∙◌, refl, subst, String, true, false, Option, none, some, [], ◌==◌, Bool-cases,
  Option-cases, inl, inr, if◌then◌else◌,
}
use terminal_agent.Dict
use terminal_agent.Dict.{Dict, get-put}
use terminal_agent.Platform.{Platform}
use terminal_agent.Result.{Result, Error, ok, raise, transaction_error, transaction_not_active}
use terminal_agent.Objects.Manager.{restore_snapshot}
use terminal_agent.Transactions as T
use terminal_agent.Transactions.{restore_then, add_checkpoint, settle}
use terminal_agent.Transactions.State.{
  Transaction, TransactionState, Checkpoint, Coordinator, World, aborted, committed, is_active,
  is_active_state, is_current, chosen, transaction_id, require_active,
}

-- a table that differs from another at one identity
abbrev pub Puts : Dict Transaction → String → Transaction → Dict Transaction → Type 0
Puts txs id tx txs' = (j : String) → Dict.get txs' j ≡ (if id == j then some tx else Dict.get txs j)

-- what one call does to the coordinator
pub data Moves (os : Platform) (c d : Coordinator) : Type 0 where
  still : d ≡ c → Moves os c d
  -- an active transaction gets a checkpoint
  entered :
      (id : String) (old tx : Transaction)
      → Dict.get c.transactions id ≡ some old
      → is_active old ≡ true
      → is_active tx ≡ true
      → Puts c.transactions id tx d.transactions
      → d.active_tx ≡ c.active_tx
      → d.drawn ≡ c.drawn
      → Moves os c d
  opened :
      (tx : Transaction)
      → is_active tx ≡ true
      → Puts c.transactions (transaction_id os c) tx d.transactions
      → d.active_tx ≡ some (transaction_id os c)
      → d.drawn ≡ c.drawn + 1
      → Moves os c d
  closed :
      (id : String) (tx : Transaction)
      → is_active tx ≡ false
      → Puts c.transactions id tx d.transactions
      → d.active_tx ≡ (if is_current c.active_tx id then none else c.active_tx)
      → d.drawn ≡ c.drawn
      → Moves os c d

require_active_sound :
    (tx_id : Option String) (c : Coordinator)
    → ((e : Error) × (require_active tx_id c ≡ raise e))
      ⊎ ((id : String) × (tx : Transaction) × (require_active tx_id c ≡ ok (id, tx))
          × (Dict.get c.transactions id ≡ some tx)
          × (is_active tx ≡ true))
unfolding require_active
require_active_sound tx_id c = elim (Option-cases (chosen tx_id c)) [
  | inl e ↦ inl (transaction_error, rw (e, require_active) refl)
  | inr (id, e) ↦ elim (Option-cases (Dict.get c.transactions id)) [
    | inl q ↦ inl (transaction_not_active id, rw (e, require_active, q) refl)
    | inr (tx, q) ↦ elim (Bool-cases (is_active tx)) [
      | inl r ↦ inr (id, tx, rw (e, require_active, q, r) refl, q, r)
      | inr r ↦ inl (transaction_not_active id, rw (e, require_active, q, r) refl)
    ]
  ]
]

Result-cases : {A : Type 0} (r : Result A) → ((e : Error) × (r ≡ raise e)) ⊎ ((a : A) × (r ≡ ok a))
Result-cases (raise e) = inl (e, refl)
Result-cases (ok a) = inr (a, refl)

module _ (os : Platform) (now : ℕ) where
  pub begin-Moves : (w : World) → Moves os w.coordinator (T.begin os now w).1.coordinator
  unfolding T.begin add_checkpoint
  begin-Moves w =
      opened
        (record (T.new_transaction os now (transaction_id os w.coordinator)) {
          checkpoints =
              Dict.put [] "__initial__"
                (add_checkpoint os now "__initial__" (transaction_id os w.coordinator)
                  (T.new_transaction os now (transaction_id os w.coordinator))
                  (record w { coordinator = T.register os now w.coordinator })).0;
        })
        refl
        (λ j.
          get-put (T.register os now w.coordinator).transactions (transaction_id os w.coordinator) j
            _
          ∙ elim (Bool-cases (transaction_id os w.coordinator == j)) [
            | inl q ↦ rw q refl
            | inr q ↦ rw q (
                get-put w.coordinator.transactions (transaction_id os w.coordinator) j
                  (T.new_transaction os now (transaction_id os w.coordinator))
                ∙ rw q refl)
          ])
        refl refl

  pub checkpoint-Moves :
      (name : String) (tx_id : Option String) (w : World)
      → Moves os w.coordinator (T.checkpoint os now name tx_id w).1.coordinator
  unfolding T.checkpoint add_checkpoint
  checkpoint-Moves name tx_id w = elim (require_active_sound tx_id w.coordinator) [
    | inl (e, q) ↦ still (rw (q, T.checkpoint) refl)
    | inr (id, tx, q, got, act) ↦
        rw (q, T.checkpoint)
          (entered id tx _ got act act (λ j. get-put w.coordinator.transactions id j _) refl refl)
  ]

  -- a restore leaves the coordinator to what follows
  restore_then_cases :
      (cp : Checkpoint) (after : World → World) (w : World)
      → ((restore_then os now cp after w).1.coordinator ≡ w.coordinator)
        ⊎ ((v : World) × (v.coordinator ≡ w.coordinator)
            × ((restore_then os now cp after w).1 ≡ after v))
  unfolding restore_then
  restore_then_cases cp after w = elim (Result-cases (restore_snapshot now cp.state w.manager).0) [
    | inl (e, q) ↦ inl (rw (q, restore_then) refl)
    | inr (u, q) ↦ inr (
      record w { manager = (restore_snapshot now cp.state w.manager).1 },
      refl,
      rw (q, restore_then) refl,
    )
  ]

  settle-Moves :
      (state : TransactionState) (op result id : String) (tx : Transaction) (v w : World)
      → is_active_state state ≡ false
      → v.coordinator ≡ w.coordinator
      → Moves os w.coordinator (settle os now state op result id tx v).coordinator
  unfolding settle
  settle-Moves state op result id tx v w over same =
      subst (λ (c : Coordinator). Moves os c (settle os now state op result id tx v).coordinator)
        same
        (unfold settle in
          closed id _ over (λ j. get-put v.coordinator.transactions id j _) refl refl)

  pub rollback-Moves :
      (name : String) (tx_id : Option String) (w : World)
      → Moves os w.coordinator (T.rollback os now name tx_id w).1.coordinator
  unfolding T.rollback
  rollback-Moves name tx_id w = elim (require_active_sound tx_id w.coordinator) [
    | inl (e, q) ↦ still (rw (q, T.rollback) refl)
    | inr (id, tx, q, got, act) ↦ elim (Option-cases (Dict.get tx.checkpoints name)) [
      | inl r ↦ still (rw (q, T.rollback, r) refl)
      | inr (cp, r) ↦ elim (restore_then_cases cp _ w) [
        | inl s ↦ still (rw (q, T.rollback, r) s)
        | inr (v, same, s) ↦ still (rw (q, T.rollback, r, s) same)
      ]
    ]
  ]

  pub commit-Moves :
      (tx_id : Option String) (w : World)
      → Moves os w.coordinator (T.commit os now tx_id w).1.coordinator
  unfolding T.commit
  commit-Moves tx_id w = elim (require_active_sound tx_id w.coordinator) [
    | inl (e, q) ↦ still (rw (q, T.commit) refl)
    | inr (id, tx, q, got, act) ↦
        rw (q, T.commit)
          (settle-Moves committed "transaction.commit" "committed" id tx w w refl refl)
  ]

  pub abort-Moves :
      (tx_id : Option String) (w : World)
      → Moves os w.coordinator (T.abort os now tx_id w).1.coordinator
  unfolding T.abort
  abort-Moves tx_id w = elim (Option-cases (chosen tx_id w.coordinator)) [
    | inl e ↦ still (rw (e, T.abort) refl)
    | inr (id, e) ↦ elim (Option-cases (Dict.get w.coordinator.transactions id)) [
      | inl q ↦ still (rw (e, T.abort, q) refl)
      | inr (tx, q) ↦ elim (Bool-cases (is_active tx)) [
        | inl r ↦ elim (Option-cases (Dict.get tx.checkpoints "__initial__")) [
          | inl n ↦
              rw (e, T.abort, q, r, n)
                (settle-Moves aborted "transaction.abort" "aborted" id tx w w refl refl)
          | inr (cp, n) ↦
              elim (restore_then_cases cp
                (settle os now aborted "transaction.abort" "aborted" id tx) w) [
                  | inl s ↦ still (rw (e, T.abort, q, r, n) s)
                  | inr (v, same, s) ↦
                      rw (e, T.abort, q, r, n, s)
                        (settle-Moves aborted "transaction.abort" "aborted" id tx v w refl same)
                ]
        ]
        | inr r ↦
            rw (e, T.abort, q, r)
              (settle-Moves aborted "transaction.abort" "aborted" id tx w w refl refl)
      ]
    ]
  ]
