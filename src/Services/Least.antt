-- ===== src/Services/Least.antt =====
-- The least concurrency that the loop over the items finds.

use task_manager.Prelude.{
  ℕ, ◌≤◌, ◌≡◌, refl, Option, none, some, List, [], ◌∷◌, leb, arith, Bool-cases, inl, inr,
}
use mathlib.Core.List.{Memᴰ}
use mathlib.Core.List.Memᴰ.{head, tail, cases_cons}
use task_manager.Services.{Item, least_item}

-- The least item of a list with a first one.
pub record Least (o : Option Item) (first : Item) (rest : List Item) : Type 0 where
  pub item : Item
  pub result : o ≡ some item
  pub member : Memᴰ item (first ∷ rest)
  pub le_first : item.concurrency ≤ first.concurrency
  pub le_rest : (i : Item) → Memᴰ i rest → item.concurrency ≤ i.concurrency

pub le_member :
    (n : ℕ) (first : Item) (rest : List Item)
    → n ≤ first.concurrency
    → ((i : Item) → Memᴰ i rest → n ≤ i.concurrency)
    → (i : Item) → Memᴰ i (first ∷ rest)
    → n ≤ i.concurrency
le_member n first rest h f i m = elim (cases_cons m) [ inl e ↦ rw e h | inr r ↦ f i r ]

pub least_item-Least : (best : Item) (is : List Item) → Least (least_item (some best) is) best is
unfolding least_item
least_item-Least best [] = record {
  item = best;
  result = refl;
  member = head refl;
  le_first = omega arith;
  le_rest = λ i m. elim m [ ];
}
least_item-Least best (i ∷ is) = elim (Bool-cases (leb i.concurrency best.concurrency)) [
  | inl t ↦
      let l = least_item-Least i is in
      record {
        item = l.item;
        result = rw t l.result;
        member = tail l.member;
        le_first = ground (arith, l.le_first);
        le_rest = le_member l.item.concurrency i is l.le_first l.le_rest;
      }
  | inr f ↦
      let l = least_item-Least best is in
      record {
        item = l.item;
        result = rw f l.result;
        member = skip_second l.member;
        le_first = l.le_first;
        le_rest = le_member l.item.concurrency i is (ground (arith, l.le_first)) l.le_rest;
      }
]
  where
    skip_second : {x : Item} → Memᴰ x (best ∷ is) → Memᴰ x (best ∷ i ∷ is)
    skip_second m = elim (cases_cons m) [ inl e ↦ head e | inr r ↦ tail (tail r) ]

-- The least concurrency that the loop finds.
pub record LeastOf (o : Option Item) (items : List Item) : Type 0 where
  pub item : Item
  pub result : o ≡ some item
  pub member : Memᴰ item items
  pub least : (i : Item) → Memᴰ i items → item.concurrency ≤ i.concurrency

pub least_item-LeastOf :
    (i : Item) (items : List Item) → Memᴰ i items → LeastOf (least_item none items) items
unfolding least_item
least_item-LeastOf i [] m = elim m [ ]
least_item-LeastOf i (j ∷ js) m =
    let l = least_item-Least j js in
    record {
      item = l.item;
      result = l.result;
      member = l.member;
      least = le_member l.item.concurrency j js l.le_first l.le_rest;
    }
