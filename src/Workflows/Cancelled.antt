-- ===== src/Workflows/Cancelled.antt =====
-- workflows/control.py: what `cancel_workflow` leaves.
use agpair.Base.{
  ℕ, String, Bool, true, false, ◌≡◌, refl, ap, ◌∙◌, inl, inr, List, [], ◌∷◌, Option, none, some,
  if◌then◌else◌, any, find_row, update_rows, Bool-cases, Option-cases, arith, eq_iff, ◌==◌,
}
use agpair.Base.Members.{find_row-holds, any_of_find, find_row-update_rows}
use agpair.Models.{TaskRow, TaskRecord}
use agpair.Models.Workflows.{
  WorkflowPhase, NodePhase, WorkflowRecord, WorkflowNodeRecord, is_terminal, is_active,
}
use agpair.Result.{Result, ok, err}
use agpair.Db.{Db, Exec, continue, ◌>>=◌, ◌>>◌, pure}
use agpair.Tasks.Select.{has_id, get_task, prepare_retry}
use agpair.Tasks.Attempts.{record_attempt_terminal}
use agpair.Tasks.Mark.{mark_abandoned, checked, check_transition, may_move, update_task}
use agpair.Tasks.Found.{get_task-found, get_task-some, joined_fields}
use agpair.Journal.{append}
use agpair.Workflows.Store.{
  has_workflow_id, get_workflow, require_workflow, list_nodes, marked_workflow, mark_workflow_phase,
  workflow_from_row,
}
use agpair.Workflows.NodeStore.{active_node, cancelled_node, cancel_active_nodes}
use agpair.Workflows.Control.{
  CancelOutcome, log_cancel, is_active_task, abandon_task, abandon_found, abandon_id,
  cancel_node_task, cancel_node_tasks, cancel_active, cancel_workflow,
}

-- `m` returns, and leaves the table of the workflows.
abbrev Passes : Exec (Unit {0}) → Db → Type 0
Passes m db = ((m db).0 ≡ ok tt) × ((m db).1.workflows ≡ db.workflows)

Passes-then :
    (r : Result (Unit {0})) (k : Exec (Unit {0})) (db after : Db)
    → r ≡ ok tt
    → after.workflows ≡ db.workflows
    → Passes k after
    → ((continue r (λ _. k) after).0 ≡ ok tt)
      × ((continue r (λ _. k) after).1.workflows ≡ db.workflows)
Passes-then (ok u) k db after e same h = (h.0, h.1 ∙ same)
Passes-then (err x) k db after e same h = absurd (cc)

Passes-bind :
    (m k : Exec (Unit {0})) (db : Db) → Passes m db → Passes k (m db).1 → Passes (m >> k) db
unfolding ◌>>=◌
Passes-bind m k db h g = Passes-then (m db).0 k db (m db).1 h.0 h.1 g

mark_abandoned-Passes :
    (i why : String) (now later : ℕ) (db : Db) (r : TaskRow)
    → find_row (has_id i) db.tasks ≡ some r
    → Passes (mark_abandoned i why now later) db
unfolding mark_abandoned checked check_transition prepare_retry update_task record_attempt_terminal
    may_move ◌>>=◌
mark_abandoned-Passes i why now later db r e =
    rw (get_task-some i db e, any_of_find (has_id i) db.tasks e) (refl, refl)

module _ (cancel : TaskRecord → CancelOutcome) (reason : String) (now : ℕ) where
  -- The journal alone changes.
  log_cancel-Passes :
      (i : String) (o : CancelOutcome) (db : Db)
      → Passes (log_cancel i o reason now) db × ((log_cancel i o reason now db).1.tasks ≡ db.tasks)
  unfolding append
  log_cancel-Passes i CancelOutcome.no_executor db = ((refl, refl), refl)
  log_cancel-Passes i CancelOutcome.returned db = ((refl, refl), refl)
  log_cancel-Passes i (CancelOutcome.raised text) db = ((refl, refl), refl)

  log_if :
      (b : Bool) (i : String) (o : CancelOutcome) (db : Db)
      → let m : Exec (Unit {0}) = if b then log_cancel i o reason now else pure tt in
        Passes m db × ((m db).1.tasks ≡ db.tasks)
  log_if true i o db = log_cancel-Passes i o db
  log_if false i o db = ((refl, refl), refl)

  abandon_task-Passes :
      (task : TaskRecord) (db : Db) (r : TaskRow)
      → find_row (has_id task.task_id) db.tasks ≡ some r
      → Passes (abandon_task cancel reason now task) db
  unfolding abandon_task append
  abandon_task-Passes task db r e =
      let (logged, same) = log_if _ task.task_id (cancel task) db in
      Passes-bind _ _ db
        (Passes-bind _ _ db logged
          (mark_abandoned-Passes task.task_id reason now now _ r (rw same e)))
        (refl, refl)

  abandon_found-Passes :
      (i : String) (o : Option TaskRecord) (db : Db)
      → get_task i db ≡ o
      → Passes (abandon_found cancel reason now o) db
  abandon_found-Passes i none db e = (refl, refl)
  abandon_found-Passes i (some t) db e =
      let (r, found, same) = get_task-found i db e in
      let mine : t.task_id ≡ i =
        ap (λ x. x.task_id) same
        ∙ (joined_fields db r).3
        ∙ (eq_iff _ _).0 (find_row-holds (has_id i) db.tasks found) in
      elim (Bool-cases (is_active_task t.phase)) [
        | inl y ↦ rw y (abandon_task-Passes t db r (rw mine found))
        | inr n ↦ rw n (refl, refl)
      ]

  abandon_id-Passes : (o : Option String) (db : Db) → Passes (abandon_id cancel reason now o) db
  unfolding ◌>>=◌
  abandon_id-Passes none db = (refl, refl)
  abandon_id-Passes (some i) db = elim (Bool-cases (i == "")) [
    | inl y ↦ rw y (refl, refl)
    | inr n ↦ rw n (abandon_found-Passes i (get_task i db) db refl)
  ]

  cancel_node_task-Passes :
      (n : WorkflowNodeRecord) (db : Db) → Passes (cancel_node_task cancel reason now n) db
  unfolding cancel_node_task
  cancel_node_task-Passes n db = elim (Bool-cases (is_active n.phase)) [
    | inl y ↦ rw y (abandon_id-Passes n.task_id db)
    | inr x ↦ rw x (refl, refl)
  ]

  cancel_node_tasks-Passes :
      (ns : List WorkflowNodeRecord) (db : Db) → Passes (cancel_node_tasks cancel reason now ns) db
  unfolding cancel_node_tasks
  cancel_node_tasks-Passes [] db = (refl, refl)
  cancel_node_tasks-Passes (n ∷ ns) db =
      Passes-bind _ _ db (cancel_node_task-Passes n db) (cancel_node_tasks-Passes ns _)

  module _ (i : String) (db : Db) where
    abbrev looped : Db
    looped = (cancel_node_tasks cancel reason now (list_nodes i db) db).1

    cancel_active_lem : cancel_active cancel reason now i db ≡ (
      ok tt,
      record looped {
        workflow_nodes =
            update_rows
              (active_node i)
              (cancelled_node NodePhase.abandoned reason now)
              looped.workflow_nodes;
        workflows =
            update_rows
              (has_workflow_id i)
              (marked_workflow WorkflowPhase.abandoned (some reason) none none now)
              looped.workflows;
      },
    )
    unfolding cancel_active cancel_active_nodes mark_workflow_phase ◌>>=◌
    cancel_active_lem = rw ((cancel_node_tasks-Passes (list_nodes i db) db).0)

none_active :
    (i reason : String) (now : ℕ) (ns : List WorkflowNodeRecord)
    → any
        (active_node i)
        (update_rows (active_node i) (cancelled_node NodePhase.abandoned reason now) ns)
      ≡ false
none_active i reason now [] = refl
none_active i reason now (n ∷ ns) = elim (Bool-cases (active_node i n)) [
  | inl y ↦ rw y (ground (arith, none_active i reason now ns))
  | inr x ↦ rw x (rw x (none_active i reason now ns))
]

workflow_row :
    (i : String) (db : Db) (w : WorkflowRecord)
    → get_workflow i db ≡ some w
    → (r : WorkflowRecord) × (find_row (has_workflow_id i) db.workflows ≡ some r)
unfolding get_workflow
workflow_row i db w h = elim (Option-cases (find_row (has_workflow_id i) db.workflows)) [
  | inl missing ↦ absurd (let h' = rw missing at h in cc)
  | inr found ↦ found
]

-- The workflow after the UPDATE that abandons it.
abandoned_workflow :
    (i reason : String) (now : ℕ) (ws : List WorkflowRecord) (db : Db) (r : WorkflowRecord)
    → find_row (has_workflow_id i) ws ≡ some r
    → db.workflows
      ≡ update_rows
          (has_workflow_id i)
          (marked_workflow WorkflowPhase.abandoned (some reason) none none now)
          ws
    → (v : WorkflowRecord) × (get_workflow i db ≡ some v)
      × (v.phase ≡ WorkflowPhase.abandoned)
      × (v.error ≡ some reason)
unfolding get_workflow
abandoned_workflow i reason now ws db r e same =
    let f = marked_workflow WorkflowPhase.abandoned (some reason) none none now in
    (
      workflow_from_row (f r),
      rw (
        same,
        find_row-update_rows (has_workflow_id i) (has_workflow_id i) f ws (λ a. refl),
        e,
        find_row-holds (has_workflow_id i) ws e,
      ),
      refl,
      refl,
    )

module _ (cancel : TaskRecord → CancelOutcome) (reason : String) (now : ℕ) (i : String) (db : Db)
    (w : WorkflowRecord) where
  -- If the workflow is there and is not terminal, `cancel_workflow` returns, whatever comes of ending the
  -- processes; the workflow is abandoned after that, with the reason as its error, and none of its nodes is
  -- pending, dispatching or running.
  pub cancel_workflow-abandons :
      get_workflow i db ≡ some w
      → is_terminal w.phase ≡ false
      → ((cancel_workflow cancel reason now i db).0 ≡ ok tt)
        × (any (active_node i) (cancel_workflow cancel reason now i db).1.workflow_nodes ≡ false)
        × (v : WorkflowRecord) × (get_workflow i (cancel_workflow cancel reason now i db).1
            ≡ some v)
        × (v.phase ≡ WorkflowPhase.abandoned)
        × (v.error ≡ some reason)
  unfolding cancel_workflow require_workflow ◌>>=◌
  cancel_workflow-abandons found n =
      let (r, e) = workflow_row i db w found in
      let same =
        ap
          (update_rows (has_workflow_id i)
            (marked_workflow WorkflowPhase.abandoned (some reason) none none now))
          (cancel_node_tasks-Passes cancel reason now (list_nodes i db) db).1 in
      let (v, p, q, s) =
        abandoned_workflow i reason now db.workflows (cancel_active cancel reason now i db).1 r e
          (rw (cancel_active_lem cancel reason now i db) same) in
      rw (found, n)
        (
          ap (λ x. x.0) (cancel_active_lem cancel reason now i db),
          rw (cancel_active_lem cancel reason now i db)
              (none_active i reason now (looped cancel reason now i db).workflow_nodes),
          v,
          p,
          q,
          s,
        )

  -- A terminal workflow is left as it is, and so is everything else.
  pub cancel_workflow-terminal :
      get_workflow i db ≡ some w
      → is_terminal w.phase ≡ true
      → cancel_workflow cancel reason now i db ≡ (ok tt, db)
  unfolding cancel_workflow require_workflow ◌>>=◌
  cancel_workflow-terminal found y = rw (found, y)
