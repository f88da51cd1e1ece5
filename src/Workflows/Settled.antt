-- ===== src/Workflows/Settled.antt =====
-- workflows/control.py: cancelling a workflow settles it once and for all.
use agpair.Base.{
  ℕ, String, Bool, true, false, ◌≡◌, refl, ap, sym, ◌∙◌, ◌⊎◌, inl, inr, some, if◌then◌else◌,
}
use agpair.Models.{TaskRecord}
use agpair.Models.Workflows.{WorkflowPhase, WorkflowRecord, is_terminal}
use agpair.Result.{ok}
use agpair.Db.{Db}
use agpair.Workflows.Store.{get_workflow}
use agpair.Workflows.Control.{CancelOutcome, cancel_workflow}
use agpair.Workflows.Cancelled.{cancel_workflow-abandons, cancel_workflow-terminal}

-- the phase of a workflow after it was cancelled, by its phase before
abbrev pub settled_phase : WorkflowPhase → WorkflowPhase
settled_phase WorkflowPhase.new = WorkflowPhase.abandoned
settled_phase WorkflowPhase.created = WorkflowPhase.abandoned
settled_phase WorkflowPhase.running = WorkflowPhase.abandoned
settled_phase WorkflowPhase.ready_for_review = WorkflowPhase.ready_for_review
settled_phase WorkflowPhase.blocked = WorkflowPhase.blocked
settled_phase WorkflowPhase.stuck = WorkflowPhase.stuck
settled_phase WorkflowPhase.abandoned = WorkflowPhase.abandoned
settled_phase WorkflowPhase.cancelled = WorkflowPhase.cancelled

-- a workflow that no longer runs
abbrev pub is_over : WorkflowPhase → Bool
is_over WorkflowPhase.ready_for_review = true
is_over WorkflowPhase.blocked = true
is_over WorkflowPhase.stuck = true
is_over WorkflowPhase.abandoned = true
is_over WorkflowPhase.cancelled = true
is_over _ = false

abbrev Over : WorkflowPhase → Type 0
Over p = (is_terminal p ≡ true) × (is_over p ≡ true) × (settled_phase p ≡ p)

abbrev Running : WorkflowPhase → Type 0
Running p =
    (is_terminal p ≡ false) × (is_over p ≡ false) × (settled_phase p ≡ WorkflowPhase.abandoned)

by_phase : (p : WorkflowPhase) → Over p ⊎ Running p
by_phase WorkflowPhase.new = inr (refl, refl, refl)
by_phase WorkflowPhase.created = inr (refl, refl, refl)
by_phase WorkflowPhase.running = inr (refl, refl, refl)
by_phase WorkflowPhase.ready_for_review = inl (refl, refl, refl)
by_phase WorkflowPhase.blocked = inl (refl, refl, refl)
by_phase WorkflowPhase.stuck = inl (refl, refl, refl)
by_phase WorkflowPhase.abandoned = inl (refl, refl, refl)
by_phase WorkflowPhase.cancelled = inl (refl, refl, refl)

-- Cancelling a workflow that is there returns, whatever comes of ending the processes; a workflow
-- that is new, created or running is abandoned then, and one that is ready_for_review, blocked,
-- stuck, abandoned or cancelled keeps its phase, and everything is as before; cancelling it once
-- more, with any reason, returns and changes nothing.
pub cancel_workflow-settles :
    (cancel again : TaskRecord → CancelOutcome) (reason other : String) (now later : ℕ) (i : String)
    (db : Db) (w : WorkflowRecord)
    → get_workflow i db ≡ some w
    → ((cancel_workflow cancel reason now i db).0 ≡ ok tt)
      × ((v : WorkflowRecord) × (get_workflow i (cancel_workflow cancel reason now i db).1 ≡ some v)
          × (v.phase ≡ settled_phase w.phase))
      × ((cancel_workflow cancel reason now i db).1
          ≡ (if is_over w.phase then db else (cancel_workflow cancel reason now i db).1))
      × (cancel_workflow again other later i (cancel_workflow cancel reason now i db).1
          ≡ (ok tt, (cancel_workflow cancel reason now i db).1))
cancel_workflow-settles cancel again reason other now later i db w found = elim (by_phase w.phase) [
  | inl (terminal, over, same) ↦
      rw (cancel_workflow-terminal cancel reason now i db w found terminal, over)
        (
          refl,
          (w, found, sym same),
          refl,
          cancel_workflow-terminal again other later i db w found terminal,
        )
  | inr (runs, not_over, abandoned) ↦
      let (returns, _, v, found', phase, _) =
        cancel_workflow-abandons cancel reason now i db w found runs in
      (
        returns,
        (v, found', phase ∙ sym abandoned),
        rw not_over refl,
        cancel_workflow-terminal again other later i (cancel_workflow cancel reason now i db).1 v
            found' (ap is_terminal phase),
      )
]
