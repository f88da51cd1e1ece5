-- ===== src/Waiters/Active.antt =====
-- storage/waiters.py: at most one active waiter per task, whatever the calls; and the life of one waiter.
use agpair.Base.{
  Bool, true, false, ◌≡◌, refl, inl, inr, List, [], ◌∷◌, ◌++◌, if◌then◌else◌, any, update_rows,
  delete_rows, Bool-cases, eq_refl, eq_iff, arith,
}
use agpair.Base.Members.{any-append}
use agpair.Models.{WaiterRecord}
use agpair.Waiters.{is_waiting, waits_for}

-- `uq_waiters_active_task`
abbrev pub OneActive : List WaiterRecord → Type 0
OneActive [] = Unit
OneActive (w ∷ ws) = (is_waiting w ≡ true → any (waits_for w.task_id) ws ≡ false) × OneActive ws

module _ (q p : WaiterRecord → Bool) where
  any-delete : (ws : List WaiterRecord) → any q ws ≡ false → any q (delete_rows p ws) ≡ false
  any-delete [] h = refl
  any-delete (w ∷ ws) h = ground (arith, any-delete ws)

  -- An UPDATE that makes no row meet the condition.
  pub any-weaken :
      (f : WaiterRecord → WaiterRecord) (ws : List WaiterRecord)
      → ((w : WaiterRecord) → q w ≡ false → q (f w) ≡ false)
      → any q ws ≡ false
      → any q (update_rows p f ws) ≡ false
  any-weaken f [] k h = refl
  any-weaken f (w ∷ ws) k h = ground (arith, k w, any-weaken f ws k)

pub OneActive-delete :
    (p : WaiterRecord → Bool) (ws : List WaiterRecord) → OneActive ws → OneActive (delete_rows p ws)
OneActive-delete p [] h = h
OneActive-delete p (w ∷ ws) h = elim (Bool-cases (p w)) [
  | inl y ↦ rw y (OneActive-delete p ws h.1)
  | inr n ↦ rw n ((λ a. any-delete (waits_for w.task_id) p ws (h.0 a)), OneActive-delete p ws h.1)
]

-- An UPDATE that keeps the task and starts no waiter.
pub OneActive-update :
    (p : WaiterRecord → Bool) (f : WaiterRecord → WaiterRecord) (ws : List WaiterRecord)
    → ((w : WaiterRecord) → (f w).task_id ≡ w.task_id)
    → ((w : WaiterRecord) → is_waiting w ≡ false → is_waiting (f w) ≡ false)
    → OneActive ws
    → OneActive (update_rows p f ws)
OneActive-update p f [] same calm h = h
OneActive-update p f (w ∷ ws) same calm h = (
  (λ a. rw task (any-weaken (waits_for w.task_id) p f ws weak (h.0 (active a)))),
  OneActive-update p f ws same calm h.1,
)
  where
    task : (if p w then f w else w).task_id ≡ w.task_id
    task = ground (arith, same w)

    active : is_waiting (if p w then f w else w) ≡ true → is_waiting w ≡ true
    active a = ground (arith, calm w)

    weak : (v : WaiterRecord) → waits_for w.task_id v ≡ false → waits_for w.task_id (f v) ≡ false
    weak v n = ground (arith, calm v, same v)

pub OneActive-insert :
    (ws : List WaiterRecord) (w : WaiterRecord)
    → any (waits_for w.task_id) ws ≡ false
    → OneActive ws
    → OneActive (ws ++ w ∷ [])
OneActive-insert [] w n h = ((λ a. refl), tt)
OneActive-insert (v ∷ ws) w n h = (
  (λ a.
      rw (any-append (waits_for v.task_id) ws (w ∷ []), h.0 a)
        (ground (arith, eq_iff w.task_id v.task_id, eq_refl v.task_id))),
  OneActive-insert ws w (ground arith) h.1,
)
