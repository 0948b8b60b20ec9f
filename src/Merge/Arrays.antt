-- ===== src/Merge/Arrays.antt =====
-- What the merge with arrays returns, beside what it does to the destination in place.
use task_manager.Prelude.{ℕ, suc, ◌≡◌, refl, max, arith}
use task_manager.Merge.{Items, array, no_items, item, merge, merge_items, deepmerge_with_lists}

abbrev pub items_length : Items → ℕ
items_length no_items = 0
items_length (item x xs) = suc (items_length xs)

length-merge_items :
    (xs ys : Items) → items_length (merge_items xs ys) ≡ max (items_length xs) (items_length ys)
unfolding merge_items
length-merge_items no_items ys = omega arith
length-merge_items (item x xs) no_items = omega arith
length-merge_items (item x xs) (item y ys) = omega (arith, length-merge_items xs ys)

-- The array that the merge of two arrays builds in place has as many items as the longer of the
-- two, but deepmerge_with_lists returns the source array unchanged.
pub deepmerge_with_lists-discards :
    (xs ys : Items)
    → (items_length (merge_items xs ys) ≡ max (items_length xs) (items_length ys))
      × (deepmerge_with_lists (array xs) (array ys) ≡ array ys)
unfolding merge
deepmerge_with_lists-discards xs ys = (length-merge_items xs ys, refl)
