-- ===== src/Daemon/Due.antt =====
-- The rows that `list_stale_acked_tasks` selects: each once, and each acked.
use agpair.Base.{
  ℕ, String, Bool, true, false, ◌||◌, List, [], ◌∷◌, Memᴰ, map, ◌≡◌, refl, sym, ap, ◌∙◌, arith, any,
  select, sort_by, insert_by, ◌==◌,
}
use agpair.Base.Append.{differ_sym}
use agpair.Base.Chain.{if-rule}
use agpair.Models.{
  Phase, new, acked, ready_for_review, evidence_ready, committed, blocked, stuck, abandoned,
  same_phase, TaskRow, TaskRecord,
}
use agpair.Db.{Db}
use agpair.Tasks.Select.{has_id}
use agpair.Tasks.Queries.{list_stale_acked_tasks, plain, is_stale, by_activity}
use agpair.Tasks.Consistent.{IsConsistent, UniqueIds, find_of_mem}
use agpair.Base.Sorted.{mem-select, mem-sort_by, any-insert_by, any-sort_by, any-select, mem-map}
use agpair.Tasks.Select.{task_from_row}
use agpair.Daemon.GivenUp.{IsAcked}

-- no two rows of a query have one id
abbrev pub Distinct : List TaskRecord → Type 0
Distinct [] = Unit
Distinct (t ∷ ts) = (any (λ (u : TaskRecord). u.task_id == t.task_id) ts ≡ false) × Distinct ts

-- the rows of a query that a loop over it has still to come to
pub record Ahead (skipped : TaskRecord → Bool) (ts : List TaskRecord) (db : Db) : Type 0 where
  pub consistent : IsConsistent db
  pub distinct : Distinct ts
  pub acked : (t : TaskRecord) → Memᴰ t ts → IsAcked t.task_id db

-- The ids stay unique where rows are selected and sorted.
select-UniqueIds : (p : TaskRow → Bool) (rs : List TaskRow) → UniqueIds rs → UniqueIds (select p rs)
select-UniqueIds p [] u = tt
select-UniqueIds p (r ∷ rs) u =
    if-rule UniqueIds (p r) _ _
      (λ _. (any-select (has_id r.task_id) p rs u.0, select-UniqueIds p rs u.1))
      (λ _. select-UniqueIds p rs u.1)

insert-UniqueIds :
    (before : TaskRow → TaskRow → Bool) (r : TaskRow) (rs : List TaskRow)
    → any (has_id r.task_id) rs ≡ false
    → UniqueIds rs
    → UniqueIds (insert_by before r rs)
insert-UniqueIds before r [] h u = (refl, tt)
insert-UniqueIds before r (s ∷ rs) h u =
    if-rule UniqueIds (before s r) _ _
      (λ _. (
        any-insert_by (has_id s.task_id) before r rs
            ∙ ground (arith, u.0, differ_sym s.task_id r.task_id),
        insert-UniqueIds before r rs (ground arith) u.1,
      ))
      (λ _. (h, u))

sort-UniqueIds :
    (before : TaskRow → TaskRow → Bool) (rs : List TaskRow)
    → UniqueIds rs
    → UniqueIds (sort_by before rs)
sort-UniqueIds before [] u = tt
sort-UniqueIds before (r ∷ rs) u =
    insert-UniqueIds before r (sort_by before rs) (any-sort_by (has_id r.task_id) before rs ∙ u.0)
      (sort-UniqueIds before rs u.1)

any-plain :
    (i : String) (rs : List TaskRow)
    → any (λ (u : TaskRecord). u.task_id == i) (map plain rs) ≡ any (has_id i) rs
unfolding task_from_row
any-plain i [] = refl
any-plain i (r ∷ rs) = ap (λ b. (r.task_id == i) || b) (any-plain i rs)

map-Distinct : (rs : List TaskRow) → UniqueIds rs → Distinct (map plain rs)
unfolding task_from_row
map-Distinct [] u = tt
map-Distinct (r ∷ rs) u = (any-plain r.task_id rs ∙ u.0, map-Distinct rs u.1)

plain-id : (r : TaskRow) → (plain r).task_id ≡ r.task_id
unfolding task_from_row
plain-id r = refl

is_acked : (p : Phase) → same_phase p acked ≡ true → p ≡ acked
is_acked acked h = refl
is_acked new h = absurd (ground arith)
is_acked ready_for_review h = absurd (ground arith)
is_acked evidence_ready h = absurd (ground arith)
is_acked committed h = absurd (ground arith)
is_acked blocked h = absurd (ground arith)
is_acked stuck h = absurd (ground arith)
is_acked abandoned h = absurd (ground arith)

pub stale-Ahead :
    (skipped : TaskRecord → Bool) (cutoff : ℕ) (db : Db)
    → IsConsistent db
    → Ahead skipped (list_stale_acked_tasks cutoff db) db
unfolding list_stale_acked_tasks
stale-Ahead skipped cutoff db c = record {
  consistent = c;
  distinct =
      map-Distinct _
        (sort-UniqueIds by_activity _ (select-UniqueIds (is_stale cutoff) db.tasks c.unique));
  acked = λ t m.
      let (r, sorted, e) = mem-map plain _ m in
      let (there, stale) =
        mem-select (is_stale cutoff) db.tasks (mem-sort_by by_activity _ sorted) in
      let same : r.task_id ≡ t.task_id = sym (ap (λ (u : TaskRecord). u.task_id) e ∙ plain-id r) in
      record {
        row = r;
        found = find_of_mem db.tasks r t.task_id c.unique there same;
        phase = is_acked r.phase (ground arith);
      };
}
