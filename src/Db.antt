-- ===== src/Db.antt =====
-- storage/db.py: the database as a state, the operations of the repositories as actions on it, and
-- the transactions that `connect` opens. Opening a connection creates and migrates the schema, which
-- is not modelled: the tables are there.
pub mod Rules
use agpair.Base.{Bool, Option, none, some, List, [], ◌≡◌, refl}
use agpair.Models.{
  TaskRow, TaskAttemptRecord, TaskArtifactRecord, WaiterRecord, ReceiptRow, JournalRecord,
}
use agpair.Models.Workflows.{WorkflowRecord, WorkflowNodeRecord}
use agpair.Result.{Error, Result, ok, err}

pub record Db : Type 0 where
  pub tasks : List TaskRow
  pub attempts : List TaskAttemptRecord
  pub artifacts : List TaskArtifactRecord
  pub waiters : List WaiterRecord
  pub receipts : List ReceiptRow
  pub journal : List JournalRecord
  pub workflows : List WorkflowRecord
  pub workflow_nodes : List WorkflowNodeRecord

abbrev pub empty : Db
empty = record {
  tasks = [];
  attempts = [];
  artifacts = [];
  waiters = [];
  receipts = [];
  journal = [];
  workflows = [];
  workflow_nodes = [];
}

-- What was committed before an exception stays committed: the state comes back beside the error.
abbrev pub Exec {ℓ} : Type ℓ → Type ℓ
Exec A = Db → Result A × Db

module _ {ℓ} {A : Type ℓ} where
  abbrev pub pure : A → Exec A
  pure a db = (ok a, db)

  abbrev pub raise : Error → Exec A
  raise e db = (err e, db)

  abbrev pub lift : Result A → Exec A
  lift r db = (r, db)

  abbrev pub gets : (Db → A) → Exec A
  gets f db = (ok (f db), db)

  -- `with connect(…) as conn: …; conn.commit()`: an exception closes the connection before the commit,
  -- and what the block wrote is lost
  abbrev rollback : Result A × Db → Db → Result A × Db
  rollback (ok a, after) before = (ok a, after)
  rollback (err e, after) before = (err e, before)

  abbrev pub transaction : Exec A → Exec A
  transaction m db = rollback (m db) db

abbrev pub modify : (Db → Db) → Exec (Unit {0})
modify f db = (ok tt, f db)

module _ {ℓ κ} {A : Type ℓ} {B : Type κ} where
  abbrev pub continue : Result A → (A → Exec B) → Exec B
  continue (ok a) f db = f a db
  continue (err e) f db = (err e, db)

  infixl 5 ◌>>=◌ ◌>>◌
  unfoldable pub ◌>>=◌ : Exec A → (A → Exec B) → Exec B
  ◌>>=◌ m f db = let (r, db') = m db in continue r f db'

  abbrev pub ◌>>◌ : Exec A → Exec B → Exec B
  m >> k = m >>= λ _. k

-- an exception if the condition does not hold
abbrev pub require_that : Bool → Error → Exec (Unit {0})
require_that Bool.true e = pure tt
require_that Bool.false e = raise e

-- the row that a SELECT returned, or an exception
abbrev pub require_some {ℓ} : {A : Type ℓ} → Option A → Error → Exec A
require_some none e = raise e
require_some (some a) e = pure a
