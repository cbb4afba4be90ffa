-- ===== src/Transactions/Acts.antt =====
-- The operations on objects between the calls of the coordinator (kernel/objects.py).
use terminal_agent.Base.{◌≡◌, ◌∙◌, refl, ap, Option, none, List, [], ◌∷◌, Option-cases, inl, inr}
use terminal_agent.Dict
use terminal_agent.Platform.{Platform}
use terminal_agent.Audit.Log.{AuditLog}
use terminal_agent.Objects.Manager as M
use terminal_agent.Objects.Manager.{Manager}
use terminal_agent.Objects.Steps.{Op, create, delete, call_on, snapshot_all, step, logged, run}
use terminal_agent.Transactions.State.{World}

module _ (os : Platform) where
  unfoldable pub act : Op → World → World
  act op w = record w {
    manager = step os w.audit op w.manager;
    audit = logged os w.audit op w.manager;
  }

  unfoldable pub acts : List Op → World → World
  unfolding act
  acts [] w = w
  acts (op ∷ ops) w = acts ops (act op w)

  pub acts-coordinator : (ops : List Op) (w : World) → (acts ops w).coordinator ≡ w.coordinator
  unfolding acts
  acts-coordinator [] w = refl
  acts-coordinator (op ∷ ops) w = unfold act in acts-coordinator ops (act op w)

  -- the log has no say in what becomes of the objects
  step_sink :
      (sink : Option AuditLog) (op : Op) (m : Manager) → step os sink op m ≡ step os none op m
  unfolding step M.create M.delete
  step_sink sink (create now c) m = refl
  step_sink sink (delete now id) m = elim (Option-cases (Dict.get m.objects id)) [
    | inl e ↦ rw (e, step, M.delete) refl
    | inr (o, e) ↦ rw (e, step, M.delete) refl
  ]
  step_sink sink (call_on now id f) m = refl
  step_sink sink (snapshot_all now) m = refl

  pub acts-manager : (ops : List Op) (w : World) → (acts ops w).manager ≡ run os none ops w.manager
  unfolding acts run
  acts-manager [] w = refl
  acts-manager (op ∷ ops) w =
      unfold act in
      acts-manager ops (act op w) ∙ ap (run os none ops) (step_sink w.audit op w.manager)
