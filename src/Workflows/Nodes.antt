-- ===== src/Workflows/Nodes.antt =====
-- workflows/store.py: the updates of one node.
use agpair.Base.{
  ℕ, ◌+◌, String, false, ◌≡◌, refl, inl, inr, List, [], ◌∷◌, Option, none, some, ◌&&◌, find_row,
  update_rows, Bool-cases, Option-cases, arith, eq_iff, ◌==◌,
}
use agpair.Base.Members.{find_row-holds, find_row-update_rows}
use agpair.Models.Workflows.{NodePhase, WorkflowNodeRecord}
use agpair.Result.{ok}
use agpair.Db.{Db, ◌>>=◌}
use agpair.Workflows.Store.{is_node, get_node, require_node, node_from_row}
use agpair.Workflows.NodeStore.{
  NodeUpdate, marked_node, mark_node_phase, reset_node, reset_node_for_retry,
}

node_row :
    (w i : String) (db : Db) (n : WorkflowNodeRecord)
    → get_node w i db ≡ some n
    → (r : WorkflowNodeRecord) × (find_row (is_node w i) db.workflow_nodes ≡ some r)
      × (n ≡ node_from_row r)
unfolding get_node
node_row w i db n h = elim (Option-cases (find_row (is_node w i) db.workflow_nodes)) [
  | inl missing ↦ absurd (let h' = rw missing at h in cc)
  | inr (r, e) ↦ (r, e, let h' = rw e at h in cc)
]

module _ (w i : String) (profile executor reason : Option String) (now : ℕ) (db : Db) where
  abbrev reset_db : ℕ → Db
  reset_db k = record db {
    workflow_nodes =
        update_rows (is_node w i) (reset_node k profile executor reason now) db.workflow_nodes;
  }

  reset_found :
      (k : ℕ) (r : WorkflowNodeRecord)
      → find_row (is_node w i) db.workflow_nodes ≡ some r
      → get_node w i (reset_db k)
        ≡ some (node_from_row (reset_node k profile executor reason now r))
  unfolding get_node
  reset_found k r e = rw (
    find_row-update_rows (is_node w i) (is_node w i) (reset_node k profile executor reason now)
        db.workflow_nodes (λ a. refl),
    e,
    find_row-holds (is_node w i) db.workflow_nodes e,
  )

  -- A node that is reset for a retry can be read, and returns, as pending, at the next attempt, without a
  -- task, evidence, result or error.
  pub reset_node_for_retry-pending :
      (n : WorkflowNodeRecord)
      → get_node w i db ≡ some n
      → (m : WorkflowNodeRecord) × ((reset_node_for_retry w i profile executor reason now db).0
          ≡ ok m)
        × (get_node w i (reset_node_for_retry w i profile executor reason now db).1 ≡ some m)
        × (m.phase ≡ NodePhase.pending)
        × (m.attempt_no ≡ n.attempt_no + 1)
        × (m.task_id ≡ none)
        × (m.evidence_json ≡ none)
        × (m.result_json ≡ none)
        × (m.error ≡ none)
  unfolding reset_node_for_retry require_node ◌>>=◌
  reset_node_for_retry-pending n found =
      let (r, e, same) = node_row w i db n found in
      let again = reset_found (n.attempt_no + 1) r e in
      (
        node_from_row (reset_node (n.attempt_no + 1) profile executor reason now r),
        rw (found, again),
        rw (found, again) again,
        refl,
        refl,
        refl,
        refl,
        refl,
        refl,
      )

-- An UPDATE by one key leaves what another key finds.
find_other :
    (w i w' j : String) (f : WorkflowNodeRecord → WorkflowNodeRecord) (ns : List WorkflowNodeRecord)
    → ((n : WorkflowNodeRecord) → is_node w' j (f n) ≡ is_node w' j n)
    → (w' == w && j == i) ≡ false
    → find_row (is_node w' j) (update_rows (is_node w i) f ns) ≡ find_row (is_node w' j) ns
find_other w i w' j f [] keeps other = refl
find_other w i w' j f (n ∷ ns) keeps other = elim (Bool-cases (is_node w' j n)) [
  | inl y ↦
      let apart : is_node w i n ≡ false =
        ground (arith, eq_iff n.workflow_id w', eq_iff n.node_id j) in
      rw (apart, y)
  | inr x ↦ ground (arith, keeps n, find_other w i w' j f ns keeps other)
]

mark_other :
    (w i w' j : String) (phase : NodePhase) (u : NodeUpdate) (now : ℕ) (db : Db)
    → (w' == w && j == i) ≡ false
    → get_node w' j (mark_node_phase w i phase u now db).1 ≡ get_node w' j db
unfolding get_node mark_node_phase
mark_other w i w' j phase u now db other =
    rw (find_other w i w' j (marked_node phase u now) db.workflow_nodes (λ n. refl) other)

reset_db_other :
    (w i w' j : String) (profile executor reason : Option String) (now k : ℕ) (db : Db)
    → (w' == w && j == i) ≡ false
    → get_node w' j (reset_db w i profile executor reason now db k) ≡ get_node w' j db
unfolding get_node
reset_db_other w i w' j profile executor reason now k db other = rw (
    find_other w i w' j (reset_node k profile executor reason now) db.workflow_nodes (λ n. refl)
      other)

reset_other :
    (w i w' j : String) (profile executor reason : Option String) (now : ℕ) (db : Db)
    → (w' == w && j == i) ≡ false
    → get_node w' j (reset_node_for_retry w i profile executor reason now db).1 ≡ get_node w' j db
unfolding reset_node_for_retry require_node ◌>>=◌
reset_other w i w' j profile executor reason now db other = elim (Option-cases (get_node w i db)) [
  | inl missing ↦ rw missing refl
  | inr (n, found) ↦
      let (r, e, same) = node_row w i db n found in
      rw (found, reset_found w i profile executor reason now db (n.attempt_no + 1) r e)
        (reset_db_other w i w' j profile executor reason now (n.attempt_no + 1) db other)
]

-- Marking a node, or resetting it for a retry, leaves every other node as it is.
pub other_nodes_unchanged :
    (w i w' j : String) (phase : NodePhase) (u : NodeUpdate)
    (profile executor reason : Option String) (now : ℕ) (db : Db)
    → (w' == w && j == i) ≡ false
    → (get_node w' j (mark_node_phase w i phase u now db).1 ≡ get_node w' j db)
      × (get_node w' j (reset_node_for_retry w i profile executor reason now db).1
          ≡ get_node w' j db)
other_nodes_unchanged w i w' j phase u profile executor reason now db other = (
  mark_other w i w' j phase u now db other,
  reset_other w i w' j profile executor reason now db other,
)
