-- ===== src/Samples/WorkflowSamples.antt =====
-- workflows/store.py and workflows/control.py at a concrete workflow.
use agpair.Base.{String, false, ◌≡◌, refl, [], ◌∷◌, none, some, any}
use agpair.Models.{TaskRecord}
use agpair.Models.Workflows.{WorkflowPhase, NodePhase, WorkflowRecord, WorkflowNodeRecord}
use agpair.Result.{ok}
use agpair.Db.{Db, empty}
use agpair.Workflows.Store.{
  ManifestNode, WorkflowManifest, new_node, new_workflow, create_workflow, get_workflow, get_node,
  marked_workflow,
}
use agpair.Workflows.NodeStore.{NodeUpdate, mark_node_phase, reset_node_for_retry, active_node}
use agpair.Workflows.Control.{CancelOutcome, cancel_workflow}
use agpair.Workflows.Cancelled.{cancel_workflow-abandons}
use agpair.Workflows.Settled.{cancel_workflow-settles}
use agpair.Workflows.Nodes.{reset_node_for_retry-pending, other_nodes_unchanged}

abbrev lane : String → ManifestNode
lane id = record {
  id = id;
  kind = "task";
  depends_on_json = "[]";
  body = some "review the change";
  prompt = none;
  completion_policy = none;
  authorization_profile = some "local_readonly";
  executor = none;
  role = none;
  max_retries = none;
  allow_partial = false;
  isolated_worktree = false;
}

abbrev manifest : WorkflowManifest
manifest = record {
  name = "panel";
  controller = "codex";
  repo_path = some "/repo";
  manifest_json = "{}";
  limits_json = "{}";
  completion_policy = none;
  authorization_profile = none;
  executor = some "grok-cli";
  max_retries_per_node = 1;
  nodes = lane "a" ∷ lane "b" ∷ [];
}

abbrev workflow : WorkflowRecord
workflow = new_workflow manifest "WF-1" none 10

abbrev node_a : WorkflowNodeRecord
node_a = new_node manifest "WF-1" (lane "a") 10

abbrev db : Db
db = record empty {
  workflows = workflow ∷ [];
  workflow_nodes = node_a ∷ new_node manifest "WF-1" (lane "b") 10 ∷ [];
}

created : create_workflow manifest none none "WF-1" 10 empty ≡ (ok "WF-1", db)
unfolding create_workflow agpair.Db.◌>>=◌ agpair.Workflows.Store.insert_workflow
    agpair.Workflows.Store.insert_nodes
created = refl

workflow_found : get_workflow "WF-1" db ≡ some workflow
unfolding get_workflow
workflow_found = refl

abbrev failing : TaskRecord → CancelOutcome
failing task = CancelOutcome.raised "no such process"

cancel_workflow-abandons_example :
    ((cancel_workflow failing "stop" 20 "WF-1" db).0 ≡ ok tt)
    × (any (active_node "WF-1") (cancel_workflow failing "stop" 20 "WF-1" db).1.workflow_nodes
        ≡ false)
    × (v : WorkflowRecord) × (get_workflow "WF-1" (cancel_workflow failing "stop" 20 "WF-1" db).1
        ≡ some v)
    × (v.phase ≡ WorkflowPhase.abandoned)
    × (v.error ≡ some "stop")
cancel_workflow-abandons_example =
    cancel_workflow-abandons failing "stop" 20 "WF-1" db workflow workflow_found refl

abbrev finished : WorkflowRecord
finished = marked_workflow WorkflowPhase.ready_for_review none none none 15 workflow

abbrev finished_db : Db
finished_db = record db { workflows = finished ∷ [] }

finished_found : get_workflow "WF-1" finished_db ≡ some finished
unfolding get_workflow
finished_found = refl

cancel_workflow-settles_example :
    ((cancel_workflow failing "stop" 20 "WF-1" finished_db).0 ≡ ok tt)
    × ((v : WorkflowRecord) × (get_workflow "WF-1"
            (cancel_workflow failing "stop" 20 "WF-1" finished_db).1
          ≡ some v)
        × (v.phase ≡ WorkflowPhase.ready_for_review))
    × ((cancel_workflow failing "stop" 20 "WF-1" finished_db).1 ≡ finished_db)
    × (cancel_workflow failing "again" 30 "WF-1"
          (cancel_workflow failing "stop" 20 "WF-1" finished_db).1
        ≡ (ok tt, (cancel_workflow failing "stop" 20 "WF-1" finished_db).1))
cancel_workflow-settles_example =
    cancel_workflow-settles failing failing "stop" "again" 20 30 "WF-1" finished_db finished
      finished_found

node_found : get_node "WF-1" "a" db ≡ some node_a
unfolding get_node
node_found = refl

reset_node_for_retry-pending_example :
    (m : WorkflowNodeRecord) × ((reset_node_for_retry "WF-1" "a" none (some "codex") none 20 db).0
      ≡ ok m)
    × (get_node "WF-1" "a" (reset_node_for_retry "WF-1" "a" none (some "codex") none 20 db).1
        ≡ some m)
    × (m.phase ≡ NodePhase.pending)
    × (m.attempt_no ≡ 1)
    × (m.task_id ≡ none)
    × (m.evidence_json ≡ none)
    × (m.result_json ≡ none)
    × (m.error ≡ none)
reset_node_for_retry-pending_example =
    reset_node_for_retry-pending "WF-1" "a" none (some "codex") none 20 db node_a node_found

abbrev failed : NodeUpdate
failed = record {
  task_id = some "TASK-1";
  error = some "no eligible executor";
  evidence_json = none;
  result_json = none;
  effective_policy_json = none;
  executor_backend = none;
}

other_nodes_unchanged_example :
    (get_node "WF-1" "b" (mark_node_phase "WF-1" "a" NodePhase.blocked failed 20 db).1
      ≡ get_node "WF-1" "b" db)
    × (get_node "WF-1" "b" (reset_node_for_retry "WF-1" "a" none none none 20 db).1
        ≡ get_node "WF-1" "b" db)
other_nodes_unchanged_example =
    other_nodes_unchanged "WF-1" "a" "WF-1" "b" NodePhase.blocked failed none none none 20 db refl
