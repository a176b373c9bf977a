-- ===== src/Selection.antt =====
-- A selection as the booking windows keep it: a set of texts under a bound, all of one kind.
use soldesk.Prelude.{
  ℕ, ◌≤◌, ◌≡◌, inl, inr, String, List, [], ◌∷◌, true, false, Bool-cases, leb, length, All,
  All-append, ◌===◌, arith,
}
use soldesk.Js.TextSet.{
  has, add, delete, Distinct, add-Distinct, delete-Distinct, length-add, length-delete,
}

-- No element twice, all of the kind, and no more than the bound.
pub record IsSelection (P : String → Type 0) (bound : ℕ) (selected : List String) : Type 0 where
  pub distinct : Distinct selected
  pub free : All P selected
  pub bounded : length selected ≤ bound

pub add-All :
    (P : String → Type 0) (key : String) (xs : List String) → P key → All P xs → All P (add key xs)
unfolding add
add-All P key xs f h = elim (Bool-cases (has key xs)) [
  | inl old ↦ rw old h
  | inr new ↦ rw new (All-append P xs (key ∷ []) h (f, tt))
]

pub delete-All :
    (P : String → Type 0) (key : String) (xs : List String) → All P xs → All P (delete key xs)
unfolding delete
delete-All P key [] h = tt
delete-All P key (x ∷ xs) (f, h) = elim (Bool-cases (x === key)) [
  | inl same ↦ rw same (delete-All P key xs h)
  | inr other ↦ rw other (f, delete-All P key xs h)
]

module _ (P : String → Type 0) (bound : ℕ) where
  pub add-IsSelection :
      (key : String) (xs : List String)
      → IsSelection P bound xs
      → P key
      → has key xs ≡ false
      → leb bound (length xs) ≡ false
      → IsSelection P bound (add key xs)
  add-IsSelection key xs c f new room = record {
    distinct = add-Distinct key xs c.distinct;
    free = add-All P key xs f c.free;
    bounded = ground (arith, length-add key xs);
  }

  pub delete-IsSelection :
      (key : String) (xs : List String)
      → IsSelection P bound xs
      → has key xs ≡ true
      → IsSelection P bound (delete key xs)
  delete-IsSelection key xs c old = record {
    distinct = delete-Distinct key xs c.distinct;
    free = delete-All P key xs c.free;
    bounded = omega (arith, length-delete key xs c.distinct old, c.bounded);
  }
