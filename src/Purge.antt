-- ===== src/Purge.antt =====
-- server/processes/models/task.py and models/workflow.py: purge_history, the same code on the
-- executions of a Task and of a Workflow. Rows that PostgreSQL orders have null instants last. The
-- deletion of a row may raise.
pub mod Counts
use task_manager.Prelude.{
  ℕ, zero, suc, ◌+◌, ◌-◌, min, Bool, true, false, not, Option, none, some, List, [], ◌∷◌, ◌++◌,
  ◌==◌, ltb, leb, if◌then◌else◌, length, select, Time,
}
use task_manager.Status.{Status, is_in_progress}

pub record Execution : Type 0 where
  pub status : Status
  pub started_at : Option Time
  pub finished_at : Option Time
  pub deletes : Bool

abbrev pub is_live : Execution → Bool
is_live x = is_in_progress x.status

abbrev pub is_done : Execution → Bool
is_done x = not (is_in_progress x.status)

abbrev pub not_after : Option Time → Option Time → Bool
not_after _ none = true
not_after none (some u) = false
not_after (some t) (some u) = leb t u

unfoldable pub insert_by : (Execution → Option Time) → Execution → List Execution → List Execution
insert_by key x [] = x ∷ []
insert_by key x (y ∷ ys) =
    let rest = insert_by key x ys in if not_after (key x) (key y) then x ∷ y ∷ ys else y ∷ rest

-- `.order_by(...)`
unfoldable pub order_by : (Execution → Option Time) → List Execution → List Execution
unfolding insert_by
order_by key [] = []
order_by key (x ∷ xs) = insert_by key x (order_by key xs)

-- The loop over the first rows: the number that is deleted, and the rows that are left.
unfoldable pub delete_first : ℕ → List Execution → ℕ × List Execution
delete_first zero xs = (0, xs)
delete_first (suc n) [] = (0, [])
delete_first (suc n) (x ∷ xs) =
    let rest = delete_first n xs in
    if x.deletes then (suc (rest.0), rest.1) else (rest.0, x ∷ rest.1)

-- The number of rows to remove; a number that is not positive is 0.
abbrev pub items_to_remove : ℕ → ℕ → ℕ → ℕ → ℕ
items_to_remove count most reserved max_to_purge =
    let n = count + reserved - most in if ltb 0 max_to_purge then min n max_to_purge else n

-- The completed executions go first, and those in progress only if more must be removed.
unfoldable pub purge_items : ℕ → List Execution → ℕ × List Execution
unfolding order_by delete_first
purge_items n xs =
    let live = order_by (λ x. x.started_at) (select is_live xs) in
    let done = delete_first n (order_by (λ x. x.finished_at) (select is_done xs)) in
    let more = delete_first (n - done.0) live in (done.0 + more.0, done.1 ++ more.1)

-- purge_history(reservation_count, max_to_purge); the default -1 of the latter acts as 0 does
unfoldable pub purge_history : Option ℕ → ℕ → ℕ → List Execution → ℕ × List Execution
unfolding purge_items
purge_history none reserved max_to_purge xs = (0, xs)
purge_history (some most) reserved max_to_purge xs =
    let n = items_to_remove (length xs) most reserved max_to_purge in
    if n == 0 then (0, xs) else purge_items n xs
