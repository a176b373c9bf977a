-- ===== src/Catalogue/Order.antt =====
-- A stable sort by a number, as `sort` does it with the difference of two ids, and its laws.
use soldesk.Prelude.{
  ℕ, ◌≤◌, ◌<◌, ◌≡◌, refl, sym, ap, ◌∙◌, not, is_empty, List, [], ◌∷◌, Bool, false, Bool-cases, inl,
  inr, if◌then◌else◌, leb, ◌==◌, keep, exists, All, if_holds, true, arith,
}

module _ {ℓ} {A : Type ℓ} (key : A → ℕ) where
  insert : A → List A → List A
  insert x [] = x ∷ []
  insert x (y ∷ ys) = if leb (key x) (key y) then x ∷ y ∷ ys else y ∷ insert x ys

  unfoldable pub sort_by : List A → List A
  unfolding insert
  sort_by [] = []
  sort_by (x ∷ xs) = insert x (sort_by xs)

  -- The elements with this number.
  abbrev pub with_key : ℕ → List A → List A
  with_key k xs = keep (λ x. key x == k) xs

  abbrev pub has_key : ℕ → List A → Bool
  has_key k xs = exists (λ x. key x == k) xs

  -- Each element's number is at most, or below, those behind it.
  abbrev pub Ordered : List A → Type ℓ
  Ordered [] = Unit
  Ordered (x ∷ xs) = All (λ y. key x ≤ key y) xs × Ordered xs

  abbrev pub Ascending : List A → Type ℓ
  Ascending [] = Unit
  Ascending (x ∷ xs) = All (λ y. key x < key y) xs × Ascending xs

  abbrev pub DistinctKeys : List A → Type ℓ
  DistinctKeys [] = Unit
  DistinctKeys (x ∷ xs) = (has_key (key x) xs ≡ false) × DistinctKeys xs

  insert-with_key :
      (k : ℕ) (x : A) (ys : List A)
      → with_key k (insert x ys) ≡ (if key x == k then x ∷ with_key k ys else with_key k ys)
  unfolding insert
  insert-with_key k x [] = refl
  insert-with_key k x (y ∷ ys) = elim (Bool-cases (leb (key x) (key y))) [
    | inl here ↦ rw here refl
    | inr later ↦ elim (Bool-cases (key x == k)) [
      | inl same ↦
          let other : (key y == k) ≡ false = ground arith in
          rw (later, other, insert-with_key k x ys, same) refl
      | inr apart ↦ rw (later, insert-with_key k x ys, apart) refl
    ]
  ]

  -- Elements with one number keep their order.
  pub sort_by-with_key : (k : ℕ) (xs : List A) → with_key k (sort_by xs) ≡ with_key k xs
  unfolding sort_by
  sort_by-with_key k [] = refl
  sort_by-with_key k (x ∷ xs) = rw (insert-with_key k x (sort_by xs), sort_by-with_key k xs)

  below-All : (n m : ℕ) (ys : List A) → n ≤ m → All (λ y. m ≤ key y) ys → All (λ y. n ≤ key y) ys
  below-All n m [] h a = tt
  below-All n m (y ∷ ys) h (p, a) = (omega arith, below-All n m ys h a)

  insert-All :
      (n : ℕ) (x : A) (ys : List A)
      → n ≤ key x
      → All (λ y. n ≤ key y) ys
      → All (λ y. n ≤ key y) (insert x ys)
  unfolding insert
  insert-All n x [] h a = (h, tt)
  insert-All n x (y ∷ ys) h (p, a) = elim (Bool-cases (leb (key x) (key y))) [
    | inl here ↦ rw here (h, (p, a))
    | inr later ↦ rw later (p, insert-All n x ys h a)
  ]

  insert-Ordered : (x : A) (ys : List A) → Ordered ys → Ordered (insert x ys)
  unfolding insert
  insert-Ordered x [] o = (tt, tt)
  insert-Ordered x (y ∷ ys) (a, o) = elim (Bool-cases (leb (key x) (key y))) [
    | inl here ↦
        let below : key x ≤ key y = ground arith in
        rw here ((below, below-All (key x) (key y) ys below a), (a, o))
    | inr later ↦
        let above : key y ≤ key x = ground arith in
        rw later (insert-All (key y) x ys above a, insert-Ordered x ys o)
  ]

  pub sort_by-Ordered : (xs : List A) → Ordered (sort_by xs)
  unfolding sort_by
  sort_by-Ordered [] = tt
  sort_by-Ordered (x ∷ xs) = insert-Ordered x (sort_by xs) (sort_by-Ordered xs)

  has_key-is_empty : (k : ℕ) (xs : List A) → has_key k xs ≡ not (is_empty (with_key k xs))
  has_key-is_empty k [] = refl
  has_key-is_empty k (x ∷ xs) = elim (Bool-cases (key x == k)) [
    | inl same ↦ rw same refl
    | inr other ↦ rw other (has_key-is_empty k xs)
  ]

  has_key-insert : (k : ℕ) (x : A) (ys : List A) → has_key k (insert x ys) ≡ has_key k (x ∷ ys)
  has_key-insert k x ys =
      has_key-is_empty k (insert x ys)
      ∙ ap (λ zs. not (is_empty zs)) (insert-with_key k x ys)
      ∙ sym (has_key-is_empty k (x ∷ ys))

  has_key-sort_by : (k : ℕ) (xs : List A) → has_key k (sort_by xs) ≡ has_key k xs
  has_key-sort_by k xs =
      has_key-is_empty k (sort_by xs)
      ∙ ap (λ zs. not (is_empty zs)) (sort_by-with_key k xs)
      ∙ sym (has_key-is_empty k xs)

  pub sort_by-is_empty : (xs : List A) → is_empty (sort_by xs) ≡ is_empty xs
  unfolding insert sort_by
  sort_by-is_empty [] = refl
  sort_by-is_empty (x ∷ xs) = insert-is_empty x (sort_by xs)
    where
      insert-is_empty : (y : A) (ys : List A) → is_empty (insert y ys) ≡ false
      insert-is_empty y [] = refl
      insert-is_empty y (z ∷ zs) = ground arith

  insert-DistinctKeys :
      (x : A) (ys : List A)
      → has_key (key x) ys ≡ false
      → DistinctKeys ys
      → DistinctKeys (insert x ys)
  unfolding insert
  insert-DistinctKeys x [] new d = (refl, tt)
  insert-DistinctKeys x (y ∷ ys) new (e, d) = elim (Bool-cases (leb (key x) (key y))) [
    | inl here ↦ rw here (new, (e, d))
    | inr later ↦
        let apart : (key y == key x) ≡ false = ground arith in
        let rest : has_key (key x) ys ≡ false = ground arith in
        let other : has_key (key y) (insert x ys) ≡ false =
          has_key-insert (key y) x ys ∙ ground arith in
        rw later (other, insert-DistinctKeys x ys rest d)
  ]

  sort_by-DistinctKeys : (xs : List A) → DistinctKeys xs → DistinctKeys (sort_by xs)
  unfolding sort_by
  sort_by-DistinctKeys [] d = tt
  sort_by-DistinctKeys (x ∷ xs) (e, d) =
      insert-DistinctKeys x (sort_by xs) (has_key-sort_by (key x) xs ∙ e)
        (sort_by-DistinctKeys xs d)

  above-All :
      (n : ℕ) (ys : List A)
      → All (λ y. n ≤ key y) ys
      → has_key n ys ≡ false
      → All (λ y. n < key y) ys
  above-All n [] a h = tt
  above-All n (y ∷ ys) (p, a) h = (ground arith, above-All n ys a (ground arith))

  ascends : (xs : List A) → Ordered xs → DistinctKeys xs → Ascending xs
  ascends [] o d = tt
  ascends (x ∷ xs) (a, o) (e, d) = (above-All (key x) xs a e, ascends xs o d)

  -- Elements with distinct numbers come in ascending order.
  pub sort_by-Ascending : (xs : List A) → DistinctKeys xs → Ascending (sort_by xs)
  sort_by-Ascending xs d = ascends (sort_by xs) (sort_by-Ordered xs) (sort_by-DistinctKeys xs d)

  insert-every {κ} : (P : A → Type κ) (x : A) (ys : List A) → P x → All P ys → All P (insert x ys)
  unfolding insert
  insert-every P x [] p a = (p, tt)
  insert-every P x (y ∷ ys) p (q, a) =
      if_holds (All P) (leb (key x) (key y)) (λ _. (p, (q, a))) (λ _. (q, insert-every P x ys p a))

  pub sort_by-every {κ} : (P : A → Type κ) (xs : List A) → All P xs → All P (sort_by xs)
  unfolding sort_by
  sort_by-every P [] a = tt
  sort_by-every P (x ∷ xs) (p, a) = insert-every P x (sort_by xs) p (sort_by-every P xs a)

  insert-first : (x : A) (ys : List A) → All (λ y. key x ≤ key y) ys → insert x ys ≡ x ∷ ys
  unfolding insert
  insert-first x [] a = refl
  insert-first x (y ∷ ys) (p, a) =
      let here : leb (key x) (key y) ≡ true = ground arith in rw here refl

  -- A list that is in order is left as it is.
  pub sort_by-sorted : (xs : List A) → Ordered xs → sort_by xs ≡ xs
  unfolding sort_by
  sort_by-sorted [] o = refl
  sort_by-sorted (x ∷ xs) (a, o) = rw (sort_by-sorted xs o, insert-first x xs a) refl
