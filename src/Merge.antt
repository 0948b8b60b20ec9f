-- ===== src/Merge.antt =====
-- server/processes/common/utils.py: the deep merge of JSON values. Strings, and with them the keys
-- of objects, are numbers up to equality; an object is its list of entries in insertion order.
pub mod Objects
pub mod Arrays
use task_manager.Prelude.{
  ℕ, Bool, true, false, ◌&&◌, not, Option, none, some, ◌==◌, if◌then◌else◌, is_some,
}

mutual
  pub data Json : Type 0 where
    null : Json
    boolean : Bool → Json
    number : ℕ → Json
    string : ℕ → Json
    array : Items → Json
    object : Fields → Json

  pub data Items : Type 0 where
    no_items : Items
    item : Json → Items → Items

  pub data Fields : Type 0 where
    no_fields : Fields
    field : ℕ → Json → Fields → Fields

-- `d.get(k)`, which tells a missing key from the value None
unfoldable pub get : ℕ → Fields → Option Json
get k no_fields = none
get k (field j v d) = if k == j then some v else get k d

-- `d[k] = v`: the entry keeps its place, a new one goes to the end
unfoldable pub set : ℕ → Json → Fields → Fields
set k v no_fields = field k v no_fields
set k v (field j w d) = if k == j then field j v d else field j w (set k v d)

-- `isinstance(x, abc.Sequence)`
abbrev pub is_sequence : Json → Bool
is_sequence (array xs) = true
is_sequence (string s) = true
is_sequence _ = false

-- `src`, or `dest` where None is ignored
abbrev pub kept : Bool → Json → Json → Json
kept true dest null = dest
kept ignore_none dest src = src

-- deepmerge_with_lists_pair: what it returns, where `dest` is changed in place. An array that it
-- extends in place is not what it returns.
unfoldable mutual
  unfolding get set

  pub merge : Bool → Bool → Json → Json → Json
  merge append_lists ignore_none (string d) null = string d
  merge append_lists ignore_none (string d) src = src
  merge append_lists ignore_none (object d) (object s) =
      object (merge_fields append_lists ignore_none d s)
  merge append_lists ignore_none (object d) src = src
  merge append_lists ignore_none (array d) src =
      if append_lists && not (is_sequence src) then src else kept ignore_none (array d) src
  merge append_lists ignore_none dest src = kept ignore_none dest src

  -- The loop over `src.items()`.
  pub merge_fields : Bool → Bool → Fields → Fields → Fields
  merge_fields append_lists ignore_none d no_fields = d
  merge_fields append_lists ignore_none d (field k v s) =
      merge_fields append_lists ignore_none
        (set k (elim (get k d) [ none ↦ v | some w ↦ merge append_lists ignore_none w v ]) d) s

-- The array in place after the branch for sequences: its items merged with those of `src`, and the
-- rest of `src` appended.
unfoldable pub merge_items : Items → Items → Items
unfolding merge
merge_items no_items ys = ys
merge_items (item x xs) no_items = item x xs
merge_items (item x xs) (item y ys) = item (merge true true x y) (merge_items xs ys)

-- deepmerge_core and deepmerge of two arguments, and deepmerge_with_lists
abbrev pub deepmerge : Bool → Bool → Json → Json → Json
deepmerge append_lists ignore_none dest src = merge append_lists ignore_none dest src

abbrev pub deepmerge_with_lists : Json → Json → Json
deepmerge_with_lists dest src = merge true true dest src
