-- ===== src/Tasks/Attempts.antt =====
-- storage/tasks.py: the attempts of a task, and its artifacts. A SELECT without ORDER BY, and rows
-- that ORDER BY leaves equal, are in the order of the table.
use Prim.Native.String.{compare}
use Prim.Native.Nat.{Ordering}
use agpair.Base.{
  ℕ, String, Bool, true, false, ◌&&◌, ◌||◌, List, [], ◌∷◌, ◌++◌, Option, none, some, if◌then◌else◌,
  select, sort_by, update_rows, any, eqb, ltb, ◌==◌,
}
use agpair.Models.{Phase, TaskAttemptRecord, TaskArtifactRecord}
use agpair.Db.{Db, Exec, modify}
use agpair.Tasks.Select.{is_attempt}

-- COALESCE(a, b)
abbrev pub coalesce {ℓ} : {A : Type ℓ} → Option A → Option A → Option A
coalesce none b = b
coalesce (some a) b = some a

abbrev pub of_task : String → TaskAttemptRecord → Bool
of_task task_id a = a.task_id == task_id

-- ORDER BY attempt_no DESC LIMIT 1
abbrev latest : List TaskAttemptRecord → Option TaskAttemptRecord
latest [] = none
latest (a ∷ rest) = elim (latest rest) [
  | none ↦ some a
  | some b ↦ if ltb a.attempt_no b.attempt_no then some b else some a
]

unfoldable pub current_attempt : String → Db → Option TaskAttemptRecord
current_attempt task_id db = latest (select (of_task task_id) db.attempts)

unfoldable pub list_attempts : String → Db → List TaskAttemptRecord
list_attempts task_id db =
    sort_by (λ a b. ltb a.attempt_no b.attempt_no) (select (of_task task_id) db.attempts)

-- UPDATE task_attempts SET … WHERE task_id=? AND attempt_no=?
abbrev pub update_attempt : String → ℕ → (TaskAttemptRecord → TaskAttemptRecord) → Exec (Unit {0})
update_attempt task_id attempt_no f =
    modify
      (λ db. record db { attempts = update_rows (is_attempt task_id attempt_no) f db.attempts })

unfoldable pub record_attempt_terminal :
    String → ℕ → Phase → Option String → Option String → Option String → ℕ → Exec (Unit {0})
record_attempt_terminal task_id attempt_no phase terminal_receipt_json terminal_source
      effective_policy_json now =
    update_attempt task_id attempt_no λ a. record a {
      phase = phase;
      terminal_receipt_json = terminal_receipt_json;
      terminal_source = terminal_source;
      effective_policy_json = coalesce effective_policy_json a.effective_policy_json;
      finished_at = coalesce a.finished_at (some now);
      updated_at = now;
    }

unfoldable pub update_attempt_adoption :
    String → ℕ → (warnings errors adoptable evidence rework : String) → ℕ → Exec (Unit {0})
update_attempt_adoption task_id attempt_no warnings errors adoptable evidence rework now =
    update_attempt task_id attempt_no λ a. record a {
      protocol_warnings_json = warnings;
      protocol_errors_json = errors;
      adoptable_result = adoptable;
      adoption_evidence_json = evidence;
      controller_rework_json = rework;
      updated_at = now;
    }

unfoldable pub update_attempt_dirty_snapshot :
    String → ℕ → (mode snapshot : String) → Bool → ℕ → Exec (Unit {0})
update_attempt_dirty_snapshot task_id attempt_no mode snapshot applied now =
    update_attempt task_id attempt_no λ a. record a {
      dirty_snapshot_mode = mode;
      dirty_snapshot_json = snapshot;
      dirty_snapshot_applied = applied;
      updated_at = now;
    }

abbrev is_artifact : String → ℕ → String → TaskArtifactRecord → Bool
is_artifact task_id attempt_no artifact_type x =
    x.task_id == task_id && eqb x.attempt_no attempt_no && x.artifact_type == artifact_type

abbrev replace_artifact : TaskArtifactRecord → TaskArtifactRecord → TaskArtifactRecord
replace_artifact new old = record old {
  path = new.path;
  size_bytes = new.size_bytes;
  sha256 = new.sha256;
  created_at = new.created_at;
}

-- `size` and `digest` are what the file system says of the file
unfoldable pub record_artifact :
    String → ℕ → String → String → Option ℕ → Option String → ℕ → Exec (Unit {0})
record_artifact task_id attempt_no artifact_type path size digest now =
    let row : TaskArtifactRecord = record {
      task_id = task_id;
      attempt_no = attempt_no;
      artifact_type = artifact_type;
      path = path;
      size_bytes = size;
      sha256 = digest;
      created_at = now;
    } in
    let same = is_artifact task_id attempt_no artifact_type in
    modify λ db. record db {
      artifacts =
          if any same db.artifacts
          then update_rows same (replace_artifact row) db.artifacts
          else db.artifacts ++ row ∷ [];
    }

-- ORDER BY attempt_no ASC, artifact_type ASC
abbrev artifact_before : TaskArtifactRecord → TaskArtifactRecord → Bool
artifact_before a b =
    ltb a.attempt_no b.attempt_no
    || (eqb a.attempt_no b.attempt_no
        && elim (compare a.artifact_type b.artifact_type) [ Ordering.lt ↦ true | _ ↦ false ])

abbrev artifact_of : String → Option ℕ → TaskArtifactRecord → Bool
artifact_of task_id none x = x.task_id == task_id
artifact_of task_id (some n) x = x.task_id == task_id && eqb x.attempt_no n

unfoldable pub list_artifacts : String → Option ℕ → Db → List TaskArtifactRecord
list_artifacts task_id attempt_no db =
    sort_by artifact_before (select (artifact_of task_id attempt_no) db.artifacts)
