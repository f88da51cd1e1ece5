-- ===== src/Tasks/Consistent.antt =====
-- The invariant of the tables `tasks` and `task_attempts`: ids are unique, every task has its current
-- attempt, and no attempt of a task is later than that.
use agpair.Base.{
  ℕ, ◌≤◌, String, Bool, true, false, ◌≡◌, refl, sym, ap, ◌∙◌, inl, inr, List, [], ◌∷◌, ◌++◌, Memᴰ,
  some, arith, any, find_row, update_rows, delete_rows, if◌then◌else◌, Bool-cases, eq_iff, ◌==◌,
}
use agpair.Base.Members.{
  mem-update_rows, mem-append, mem-single, mem-delete_rows, any-update_rows, any-append, any_of_mem,
  mem_of_any,
}
use agpair.Models.{TaskRow, TaskAttemptRecord}
use agpair.Db.{Db, empty}
use agpair.Tasks.Select.{has_id, is_attempt}

-- the ids of the rows differ: the primary key of `tasks`
abbrev pub UniqueIds : List TaskRow → Type 0
UniqueIds [] = Unit
UniqueIds (r ∷ rs) = (any (has_id r.task_id) rs ≡ false) × UniqueIds rs

pub record IsConsistent (db : Db) : Type 0 where
  pub unique : UniqueIds db.tasks
  pub current_exists :
      (r : TaskRow) → Memᴰ r db.tasks → any (is_attempt r.task_id r.attempt_no) db.attempts ≡ true
  pub latest :
      (r : TaskRow) (a : TaskAttemptRecord)
      → Memᴰ r db.tasks
      → Memᴰ a db.attempts
      → a.task_id ≡ r.task_id
      → a.attempt_no ≤ r.attempt_no
  pub first_exists :
      (a : TaskAttemptRecord) → Memᴰ a db.attempts → any (is_attempt a.task_id 1) db.attempts ≡ true

pub empty-IsConsistent : IsConsistent empty
empty-IsConsistent = record {
  unique = tt;
  current_exists = λ r m. elim m [ ];
  latest = λ r a m. elim m [ ];
  first_exists = λ a m. elim m [ ];
}

unique-update :
    (p : TaskRow → Bool) (f : TaskRow → TaskRow) (rs : List TaskRow)
    → ((r : TaskRow) → (f r).task_id ≡ r.task_id)
    → UniqueIds rs
    → UniqueIds (update_rows p f rs)
unique-update p f [] keeps u = u
unique-update p f (r ∷ rs) keeps u =
    let same : (if p r then f r else r).task_id ≡ r.task_id = ground (arith, keeps r) in
    (
      rw same (
          rw (any-update_rows (has_id r.task_id) p f rs (λ a. ap (λ t. t == r.task_id) (keeps a)))
            u.0),
      unique-update p f rs keeps u.1,
    )

unique-append :
    (rs : List TaskRow) (r : TaskRow)
    → any (has_id r.task_id) rs ≡ false
    → UniqueIds rs
    → UniqueIds (rs ++ r ∷ [])
unique-append [] r h u = ground arith
unique-append (s ∷ rs) r h u = (
  rw (any-append (has_id s.task_id) rs (r ∷ []))
      (ground (arith, eq_iff s.task_id r.task_id, eq_iff r.task_id s.task_id)),
  unique-append rs r (ground arith) u.1,
)

any-delete :
    (q p : TaskRow → Bool) (rs : List TaskRow) → any q rs ≡ false → any q (delete_rows p rs) ≡ false
any-delete q p [] h = refl
any-delete q p (r ∷ rs) h = ground (arith, any-delete q p rs)

unique-delete :
    (p : TaskRow → Bool) (rs : List TaskRow) → UniqueIds rs → UniqueIds (delete_rows p rs)
unique-delete p [] u = u
unique-delete p (r ∷ rs) u = elim (Bool-cases (p r)) [
  | inl y ↦ rw y (unique-delete p rs u.1)
  | inr n ↦ rw n (any-delete (has_id r.task_id) p rs u.0, unique-delete p rs u.1)
]

-- An UPDATE of tasks that keeps their keys.
pub update_tasks-IsConsistent :
    (p : TaskRow → Bool) (f : TaskRow → TaskRow) (db : Db)
    → ((r : TaskRow) → (f r).task_id ≡ r.task_id)
    → ((r : TaskRow) → (f r).attempt_no ≡ r.attempt_no)
    → IsConsistent db
    → IsConsistent (record db { tasks = update_rows p f db.tasks })
update_tasks-IsConsistent p f db same_id same_no c = record {
  unique = unique-update p f db.tasks same_id c.unique;
  current_exists = λ r m.
      let (s, m', e) = mem-update_rows p f db.tasks m in
      let h = c.current_exists s m' in ground (arith, same_id s, same_no s);
  latest = λ r a m n same.
      let (s, m', e) = mem-update_rows p f db.tasks m in
      ground (arith, same_id s, same_no s, c.latest s a m' n);
  first_exists = c.first_exists;
}

-- An UPDATE of attempts that keeps their keys.
pub update_attempts-IsConsistent :
    (p : TaskAttemptRecord → Bool) (f : TaskAttemptRecord → TaskAttemptRecord) (db : Db)
    → ((a : TaskAttemptRecord) → (f a).task_id ≡ a.task_id)
    → ((a : TaskAttemptRecord) → (f a).attempt_no ≡ a.attempt_no)
    → IsConsistent db
    → IsConsistent (record db { attempts = update_rows p f db.attempts })
update_attempts-IsConsistent p f db same_id same_no c = record {
  unique = c.unique;
  current_exists = λ r m. rw (still r.task_id r.attempt_no) (c.current_exists r m);
  latest = λ r a m n same.
      let (b, n', e) = mem-update_rows p f db.attempts n in
      ground (arith, same_id b, same_no b, c.latest r b m n');
  first_exists = λ a n.
      let (b, n', e) = mem-update_rows p f db.attempts n in
      rw (still a.task_id 1) (ground (arith, same_id b, c.first_exists b n'));
}
  where
    still :
        (i : String) (n : ℕ)
        → any (is_attempt i n) (update_rows p f db.attempts) ≡ any (is_attempt i n) db.attempts
    still i n = any-update_rows (is_attempt i n) p f db.attempts (λ a. rw (same_id a, same_no a))

-- A DELETE of tasks, which leaves the attempts.
pub delete_tasks-IsConsistent :
    (p : TaskRow → Bool) (db : Db)
    → IsConsistent db
    → IsConsistent (record db { tasks = delete_rows p db.tasks })
delete_tasks-IsConsistent p db c = record {
  unique = unique-delete p db.tasks c.unique;
  current_exists = λ r m. c.current_exists r (mem-delete_rows p db.tasks m);
  latest = λ r a m. c.latest r a (mem-delete_rows p db.tasks m);
  first_exists = c.first_exists;
}

attempt_key :
    (i : String) (n : ℕ) (a : TaskAttemptRecord)
    → a.task_id ≡ i
    → a.attempt_no ≡ n
    → is_attempt i n a ≡ true
attempt_key i n a p q = ground (arith, eq_iff a.task_id i)

-- With no first attempt there is no attempt at all.
no_attempts :
    (db : Db) (i : String) (a : TaskAttemptRecord)
    → IsConsistent db
    → any (is_attempt i 1) db.attempts ≡ false
    → Memᴰ a db.attempts
    → a.task_id ≡ i
    → ⊥
no_attempts db i a c none_first m e =
    cc (c.first_exists a m, ap (λ t. any (is_attempt t 1) db.attempts) e)

-- What INSERT adds to the attempts hides none of them.
any-insert :
    (q : TaskAttemptRecord → Bool) (xs ys : List TaskAttemptRecord)
    → any q xs ≡ true
    → any q (xs ++ ys) ≡ true
any-insert q xs ys h = rw (any-append q xs ys) (ground arith)

any-inserted :
    (q : TaskAttemptRecord → Bool) (xs : List TaskAttemptRecord) (a : TaskAttemptRecord)
    → q a ≡ true
    → any q (xs ++ a ∷ []) ≡ true
any-inserted q xs a h = rw (any-append q xs (a ∷ [])) (ground arith)

-- The two INSERTs that open a task and its first attempt.
pub insert-IsConsistent :
    (r : TaskRow) (a : TaskAttemptRecord) (db : Db)
    → r.attempt_no ≡ 1
    → a.task_id ≡ r.task_id
    → a.attempt_no ≡ 1
    → any (has_id r.task_id) db.tasks ≡ false
    → any (is_attempt r.task_id 1) db.attempts ≡ false
    → IsConsistent db
    → IsConsistent (record db { tasks = db.tasks ++ r ∷ []; attempts = db.attempts ++ a ∷ [] })
insert-IsConsistent r a db r1 same a1 fresh_id fresh_key c = record {
  unique = unique-append db.tasks r fresh_id c.unique;
  current_exists = λ s m. elim (mem-append db.tasks (r ∷ []) m) [
    | inl old ↦ any-insert _ db.attempts _ (c.current_exists s old)
    | inr m' ↦ any-inserted _ db.attempts a (
        attempt_key _ _ a (same ∙ sym (ap (λ t. t.task_id) (mem-single m')))
          (a1 ∙ sym r1 ∙ sym (ap (λ t. t.attempt_no) (mem-single m'))))
  ];
  latest = λ s b m n e. elim (mem-append db.tasks (r ∷ []) m) [
    | inl old ↦ elim (mem-append db.attempts (a ∷ []) n) [
      | inl n' ↦ c.latest s b old n' e
      | inr n' ↦ absurd (clash s b old (mem-single n') e)
    ]
    | inr m' ↦ elim (mem-append db.attempts (a ∷ []) n) [
      | inl n' ↦
          absurd
            (no_attempts db r.task_id b c fresh_key n' (e ∙ ap (λ t. t.task_id) (mem-single m')))
      | inr n' ↦ one (mem-single m') (mem-single n')
    ]
  ];
  first_exists = λ b n. elim (mem-append db.attempts (a ∷ []) n) [
    | inl n' ↦ any-insert _ db.attempts _ (c.first_exists b n')
    | inr n' ↦
        any-inserted _ db.attempts a
          (attempt_key _ _ a (ap (λ t. t.task_id) (sym (mem-single n'))) a1)
  ];
}
  where
    clash :
        (s : TaskRow) (b : TaskAttemptRecord) → Memᴰ s db.tasks → b ≡ a → b.task_id ≡ s.task_id → ⊥
    clash s b m e f =
        let i : s.task_id ≡ r.task_id = sym f ∙ ap (λ t. t.task_id) e ∙ same in
        cc (any_of_mem (has_id r.task_id) db.tasks m ((eq_iff _ _).1 i), fresh_id)

    one : {s : TaskRow} {b : TaskAttemptRecord} → s ≡ r → b ≡ a → b.attempt_no ≤ s.attempt_no
    one e f = omega (arith, ap (λ t. t.attempt_no) e, ap (λ t. t.attempt_no) f)

-- The UPDATE and the INSERT that open the next attempt `n` of the task `i`, whose attempts are all
-- earlier.
pub reopen-IsConsistent :
    (i : String) (n : ℕ) (f : TaskRow → TaskRow) (a : TaskAttemptRecord) (db : Db)
    → ((r : TaskRow) → (f r).task_id ≡ r.task_id)
    → ((r : TaskRow) → (f r).attempt_no ≡ n)
    → a.task_id ≡ i
    → a.attempt_no ≡ n
    → ((r : TaskRow) → Memᴰ r db.tasks → r.task_id ≡ i → r.attempt_no ≤ n)
    → any (has_id i) db.tasks ≡ true
    → IsConsistent db
    → IsConsistent
        (record db { tasks = update_rows (has_id i) f db.tasks; attempts = db.attempts ++ a ∷ [] })
reopen-IsConsistent i n f a db same_id next a_id a_no below known c = record {
  unique = unique-update (has_id i) f db.tasks same_id c.unique;
  current_exists = λ r m.
      let (s, m', e) = mem-update_rows (has_id i) f db.tasks m in
      elim (Bool-cases (has_id i s)) [
        | inl mine ↦ any-inserted _ db.attempts a (
            attempt_key _ _ a (ground (arith, same_id s, eq_iff s.task_id i))
              (ground (arith, next s)))
        | inr other ↦
            let unchanged : r ≡ s = rw other at e in
            any-insert _ db.attempts _ (rw unchanged (c.current_exists s m'))
      ];
  latest = λ r b m k e'.
      let (s, m', e) = mem-update_rows (has_id i) f db.tasks m in
      elim (mem-append db.attempts (a ∷ []) k) [
        | inl k' ↦
            ground (arith, same_id s, next s, eq_iff s.task_id i, below s m', c.latest s b m' k')
        | inr k' ↦ ground (arith, same_id s, next s, eq_iff s.task_id i, mem-single k')
      ];
  first_exists = λ b k. elim (mem-append db.attempts (a ∷ []) k) [
    | inl k' ↦ any-insert _ db.attempts _ (c.first_exists b k')
    | inr k' ↦
        let (s, m, e) = mem_of_any (has_id i) db.tasks known in
        let (b', m', e') = mem_of_any _ db.attempts (c.current_exists s m) in
        let same : b.task_id ≡ b'.task_id =
          ground (arith, mem-single k', eq_iff s.task_id i, eq_iff b'.task_id s.task_id) in
        any-insert _ db.attempts _ (rw same (c.first_exists b' m'))
  ];
}

-- With unique ids, a row of the table is the row that its id finds.
pub find_of_mem :
    (rs : List TaskRow) (r : TaskRow) (i : String)
    → UniqueIds rs
    → Memᴰ r rs
    → r.task_id ≡ i
    → find_row (has_id i) rs ≡ some r
find_of_mem [] r i u m e = elim m [ ]
find_of_mem (s ∷ rs) r i u (Memᴰ.head p) e = ground (arith, eq_iff s.task_id i)
find_of_mem (s ∷ rs) r i u (Memᴰ.tail m) e = elim (Bool-cases (has_id i s)) [
  | inl mine ↦ absurd (
      cc (
        u.0,
        any_of_mem (has_id s.task_id) rs m
            (ground (arith, eq_iff r.task_id s.task_id, eq_iff s.task_id i)),
      ))
  | inr other ↦ rw other (find_of_mem rs r i u.1 m e)
]
