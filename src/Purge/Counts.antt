-- ===== src/Purge/Counts.antt =====
-- How many executions a purge removes, and which.
use task_manager.Prelude.{
  ℕ, zero, suc, ◌+◌, ◌-◌, ◌≤◌, ◌≡◌, refl, min, Bool, true, false, Option, none, some, List, [], ◌∷◌,
  arith, length, length-append, select, All, if◌then◌else◌, Time,
}
use task_manager.Purge.{
  Execution, not_after, is_live, is_done, insert_by, order_by, delete_first, items_to_remove,
  purge_items, purge_history,
}

length-insert_by :
    (key : Execution → Option Time) (x : Execution) (xs : List Execution)
    → length (insert_by key x xs) ≡ suc (length xs)
unfolding insert_by
length-insert_by key x [] = refl
length-insert_by key x (y ∷ ys) = ground (arith, length-insert_by key x ys)

length-order_by :
    (key : Execution → Option Time) (xs : List Execution) → length (order_by key xs) ≡ length xs
unfolding order_by
length-order_by key [] = refl
length-order_by key (x ∷ xs) =
    omega (arith, length-insert_by key x (order_by key xs), length-order_by key xs)

length-parts :
    (xs : List Execution) → length (select is_done xs) + length (select is_live xs) ≡ length xs
length-parts [] = refl
length-parts (x ∷ xs) = ground (arith, length-parts xs)

length-delete_first :
    (n : ℕ) (xs : List Execution) → (delete_first n xs).0 + length (delete_first n xs).1 ≡ length xs
unfolding delete_first
length-delete_first zero xs = omega arith
length-delete_first (suc n) [] = omega arith
length-delete_first (suc n) (x ∷ xs) = ground (arith, length-delete_first n xs)

purge_items-count :
    (n : ℕ) (xs : List Execution) → (purge_items n xs).0 + length (purge_items n xs).1 ≡ length xs
unfolding purge_items
purge_items-count n xs =
    let live = order_by (λ x. x.started_at) (select is_live xs) in
    let ended = order_by (λ x. x.finished_at) (select is_done xs) in
    let done = delete_first n ended in
    let more = delete_first (n - done.0) live in
    omega (
      arith,
      length-append done.1 more.1,
      length-delete_first n ended,
      length-delete_first (n - done.0) live,
      length-order_by (λ x. x.started_at) (select is_live xs),
      length-order_by (λ x. x.finished_at) (select is_done xs),
      length-parts xs,
    )

-- purge_history returns the number of executions by which it makes the table shorter, whichever
-- deletions raise.
pub purge_history-count :
    (o : Option ℕ) (reserved max_to_purge : ℕ) (xs : List Execution)
    → (purge_history o reserved max_to_purge xs).0
        + length (purge_history o reserved max_to_purge xs).1
      ≡ length xs
unfolding purge_history
purge_history-count none reserved max_to_purge xs = omega arith
purge_history-count (some most) reserved max_to_purge xs =
    ground (arith, purge_items-count (items_to_remove (length xs) most reserved max_to_purge) xs)

-- No deletion raises.
abbrev pub AllDelete : List Execution → Type 0
AllDelete xs = All (λ (x : Execution). x.deletes ≡ true) xs

if-AllDelete :
    (b : Bool) (xs ys : List Execution)
    → AllDelete xs
    → AllDelete ys
    → AllDelete (if b then xs else ys)
if-AllDelete true xs ys h k = h
if-AllDelete false xs ys h k = k

select-AllDelete :
    (p : Execution → Bool) (xs : List Execution) → AllDelete xs → AllDelete (select p xs)
select-AllDelete p [] h = tt
select-AllDelete p (x ∷ xs) (d, h) =
    if-AllDelete (p x) (x ∷ select p xs) (select p xs) (d, select-AllDelete p xs h)
      (select-AllDelete p xs h)

insert_by-AllDelete :
    (key : Execution → Option Time) (x : Execution) (xs : List Execution)
    → x.deletes ≡ true
    → AllDelete xs
    → AllDelete (insert_by key x xs)
unfolding insert_by
insert_by-AllDelete key x [] d h = (d, h)
insert_by-AllDelete key x (y ∷ ys) d (e, h) =
    if-AllDelete (not_after (key x) (key y)) (x ∷ y ∷ ys) (y ∷ insert_by key x ys) (d, (e, h))
      (e, insert_by-AllDelete key x ys d h)

order_by-AllDelete :
    (key : Execution → Option Time) (xs : List Execution)
    → AllDelete xs
    → AllDelete (order_by key xs)
unfolding order_by
order_by-AllDelete key [] h = tt
order_by-AllDelete key (x ∷ xs) (d, h) =
    insert_by-AllDelete key x (order_by key xs) d (order_by-AllDelete key xs h)

delete_first-AllDelete :
    (n : ℕ) (xs : List Execution) → AllDelete xs → (delete_first n xs).0 ≡ min n (length xs)
unfolding delete_first
delete_first-AllDelete zero xs h = omega arith
delete_first-AllDelete (suc n) [] h = omega arith
delete_first-AllDelete (suc n) (x ∷ xs) (d, h) = ground (arith, delete_first-AllDelete n xs h)

purge_items-AllDelete :
    (n : ℕ) (xs : List Execution) → AllDelete xs → (purge_items n xs).0 ≡ min n (length xs)
unfolding purge_items
purge_items-AllDelete n xs h =
    let live = order_by (λ x. x.started_at) (select is_live xs) in
    let ended = order_by (λ x. x.finished_at) (select is_done xs) in
    let done = delete_first n ended in
    omega (
      arith,
      delete_first-AllDelete n ended (
          order_by-AllDelete (λ x. x.finished_at) (select is_done xs)
            (select-AllDelete is_done xs h)),
      delete_first-AllDelete (n - done.0) live (
          order_by-AllDelete (λ x. x.started_at) (select is_live xs)
            (select-AllDelete is_live xs h)),
      length-order_by (λ x. x.started_at) (select is_live xs),
      length-order_by (λ x. x.finished_at) (select is_done xs),
      length-parts xs,
    )

-- If no deletion raises, no more executions are reserved than the limit allows and the purge is not
-- capped, then purge_history leaves room for the reserved executions within the limit.
pub purge_history-room :
    (most reserved : ℕ) (xs : List Execution)
    → reserved ≤ most
    → AllDelete xs
    → length (purge_history (some most) reserved 0 xs).1 + reserved ≤ most
unfolding purge_history
purge_history-room most reserved xs le h = ground (
  arith,
  purge_items-count (items_to_remove (length xs) most reserved 0) xs,
  purge_items-AllDelete (items_to_remove (length xs) most reserved 0) xs h,
)
