-- ===== src/Merge/Objects.antt =====
-- What a key of a merged object holds.
use task_manager.Prelude.{
  ℕ, ◌≡◌, refl, ◌∙◌, inl, inr, Bool, false, Option, none, some, ◌==◌, arith, if◌then◌else◌,
  Bool-cases, Option-cases, ==_iff,
}
use task_manager.Merge.{
  Json, Fields, object, no_fields, field, get, set, merge, merge_fields, deepmerge,
}

-- The keys of an object are distinct.
unfoldable pub IsDistinct : Fields → Type 0
IsDistinct no_fields = Unit
IsDistinct (field k v d) = (get k d ≡ none) × IsDistinct d

-- What a merged object holds at a key that the destination and the source hold or miss.
abbrev pub merged : Bool → Bool → Option Json → Option Json → Option Json
merged a i none none = none
merged a i none (some v) = some v
merged a i (some w) none = some w
merged a i (some w) (some v) = some (merge a i w v)

get-set :
    (k j : ℕ) (v : Json) (d : Fields) → get k (set j v d) ≡ (if k == j then some v else get k d)
unfolding get set
get-set k j v no_fields = refl
get-set k j v (field l w d) = ground (arith, get-set k j v d)

abbrev pub entry : Bool → Bool → Option Json → Json → Json
entry a i none v = v
entry a i (some w) v = merge a i w v

merge_fields-field :
    (a i : Bool) (d : Fields) (j : ℕ) (v : Json) (s : Fields)
    → merge_fields a i d (field j v s) ≡ merge_fields a i (set j (entry a i (get j d) v) d) s
unfolding merge
merge_fields-field a i d j v s = elim (Option-cases (get j d)) [
  | inl e ↦ rw e refl
  | inr (w, e) ↦ rw e refl
]

merge_fields-none : (a i : Bool) (d : Fields) → merge_fields a i d no_fields ≡ d
unfolding merge
merge_fields-none a i d = refl

merged-none : (a i : Bool) (o : Option Json) → o ≡ merged a i o none
merged-none a i none = refl
merged-none a i (some v) = refl

merged-entry :
    (a i : Bool) (o : Option Json) (v : Json) → some (entry a i o v) ≡ merged a i o (some v)
merged-entry a i none v = refl
merged-entry a i (some w) v = refl

get-set_same : (j : ℕ) (v : Json) (d : Fields) → get j (set j v d) ≡ some v
get-set_same j v d = rw (get-set j j v d) (ground arith)

get_same : (j : ℕ) (v : Json) (s : Fields) → get j (field j v s) ≡ some v
unfolding get
get_same j v s = ground arith

merged-set_same :
    (a i : Bool) (j : ℕ) (v : Json) (d s : Fields)
    → get j s ≡ none
    → merged a i (get j (set j (entry a i (get j d) v) d)) (get j s)
      ≡ merged a i (get j d) (get j (field j v s))
merged-set_same a i j v d s fresh =
    rw (get-set_same j (entry a i (get j d) v) d)
      (rw fresh (rw (get_same j v s) (merged-entry a i (get j d) v)))

merged-set_other :
    (a i : Bool) (k j : ℕ) (v w : Json) (d s : Fields)
    → (k == j) ≡ false
    → merged a i (get k (set j w d)) (get k s) ≡ merged a i (get k d) (get k (field j v s))
unfolding get
merged-set_other a i k j v w d s e = rw (get-set k j w d) (ground arith)

-- The key of the entry that is merged first, and any other key.
merged-set :
    (a i : Bool) (k j : ℕ) (v : Json) (d s : Fields)
    → get j s ≡ none
    → merged a i (get k (set j (entry a i (get j d) v) d)) (get k s)
      ≡ merged a i (get k d) (get k (field j v s))
merged-set a i k j v d s fresh = elim (Bool-cases (k == j)) [
  | inl e ↦ rw ((==_iff k j).0 e) (merged-set_same a i j v d s fresh)
  | inr e ↦ merged-set_other a i k j v (entry a i (get j d) v) d s e
]

get_empty : (a i : Bool) (k : ℕ) (d : Fields) → get k d ≡ merged a i (get k d) (get k no_fields)
unfolding get
get_empty a i k d = merged-none a i (get k d)

get-merge_fields :
    (a i : Bool) (k : ℕ) (d s : Fields)
    → IsDistinct s
    → get k (merge_fields a i d s) ≡ merged a i (get k d) (get k s)
unfolding IsDistinct
get-merge_fields a i k d no_fields h = rw (merge_fields-none a i d) (get_empty a i k d)
get-merge_fields a i k d (field j v s) (fresh, h) =
    rw (merge_fields-field a i d j v s) (
      get-merge_fields a i k (set j (entry a i (get j d) v) d) s h ∙ merged-set a i k j v d s fresh)

-- deepmerge of two objects, the second with distinct keys, gives an object that holds at each key
-- what the first or the second holds, where one of them misses the key, and their merge where both
-- have it.
pub deepmerge-get :
    (append_lists ignore_none : Bool) (k : ℕ) (d s : Fields)
    → IsDistinct s
    → (m : Fields) × (deepmerge append_lists ignore_none (object d) (object s) ≡ object m)
      × (get k m ≡ merged append_lists ignore_none (get k d) (get k s))
unfolding merge
deepmerge-get a i k d s h = (merge_fields a i d s, refl, get-merge_fields a i k d s h)
