-- ===== src/Catalogue/Paging.antt =====
-- The pages of a list (`renderMovies` of frontend/src/js/movie/movie_main.js, `renderList` of
-- frontend/src/js/concert/concert_main.js).
use soldesk.Prelude.{
  ℕ, zero, suc, ◌+◌, ◌-◌, ◌*◌, ◌/◌, ◌≤◌, min, max, ◌≡◌, refl, sym, ap, ◌∙◌, List, [], ◌∷◌, ◌++◌,
  false, if◌then◌else◌, length, take, drop, is_empty, length-take, length-drop, arith,
}

abbrev pub items_per_page : ℕ
items_per_page = 10

unfoldable pub total_pages {ℓ} : {A : Type ℓ} → List A → ℕ
total_pages items = (length items + items_per_page - 1) / items_per_page

-- `hasMovies ? Math.min(Math.max(currentPage, 1), totalPages) : 1`
unfoldable pub safe_page {ℓ} : {A : Type ℓ} → List A → ℕ → ℕ
unfolding total_pages
safe_page items page = if is_empty items then 1 else min (max page 1) (total_pages items)

-- `movies.slice(startIndex, startIndex + MOVIES_PER_PAGE)`
unfoldable pub slice_of {ℓ} : {A : Type ℓ} → List A → ℕ → List A
slice_of items page = take items_per_page (drop ((page - 1) * items_per_page) items)

unfoldable pub page_items {ℓ} : {A : Type ℓ} → List A → ℕ → List A
unfolding safe_page slice_of
page_items items page = slice_of items (safe_page items page)

-- The pages from the first on, one behind the other.
pub pages {ℓ} : {A : Type ℓ} → List A → ℕ → List A
unfolding page_items
pages items zero = []
pages items (suc n) = pages items n ++ page_items items (suc n)

take-plus {ℓ} :
    {A : Type ℓ} (t m k : ℕ) (xs : List A) → t ≡ m + k → take t xs ≡ take m xs ++ take k (drop m xs)
take-plus t zero k xs e = let same : t ≡ k = omega arith in ap (λ n. take n xs) same
take-plus zero (suc m) k xs e = absurd (omega arith)
take-plus (suc t) (suc m) zero [] e = refl
take-plus (suc t) (suc m) (suc k) [] e = refl
take-plus (suc t) (suc m) k (x ∷ xs) e = ap (x ∷◌) (take-plus t m k xs (omega arith))

take_all {ℓ} : {A : Type ℓ} (n : ℕ) (xs : List A) → length xs ≤ n → take n xs ≡ xs
take_all zero [] h = refl
take_all zero (x ∷ xs) h = absurd (omega arith)
take_all (suc n) [] h = refl
take_all (suc n) (x ∷ xs) h = ap (x ∷◌) (take_all n xs (omega arith))

is_empty-length {ℓ} : {A : Type ℓ} (xs : List A) → is_empty xs ≡ false → 1 ≤ length xs
is_empty-length [] h = cc
is_empty-length (x ∷ xs) h = omega arith

pages-take {ℓ} :
    {A : Type ℓ} (items : List A) (n : ℕ)
    → is_empty items ≡ false
    → n ≤ total_pages items
    → pages items n ≡ take (n * items_per_page) items
unfolding pages page_items total_pages
pages-take items zero some_item h = refl
pages-take items (suc n) some_item h =
    let here : safe_page items (suc n) ≡ suc n = unfold safe_page in rw some_item (omega arith) in
    rw (pages-take items n some_item (omega arith), here)
      (let back : suc n - 1 ≡ n = omega arith in
        rw back (
          sym (
            take-plus (suc n * items_per_page) (n * items_per_page) items_per_page items
              (omega arith))))

-- The pages show every item once, in order: put one behind the other they are the list. Whichever
-- page is asked for, an existing one is shown, with at least one item and no more than ten.
pub pages_lem {ℓ} :
    {A : Type ℓ} (items : List A) (page : ℕ)
    → is_empty items ≡ false
    → (pages items (total_pages items) ≡ items)
      × (1 ≤ safe_page items page)
      × (safe_page items page ≤ total_pages items)
      × (1 ≤ length (page_items items page))
      × (length (page_items items page) ≤ items_per_page)
unfolding page_items total_pages
pages_lem items page some_item =
    let filled : 1 ≤ length items = is_empty-length items some_item in
    let safe : safe_page items page ≡ min (max page 1) (total_pages items) =
      unfold safe_page in rw some_item in
    let count =
      length-take items_per_page (drop ((safe_page items page - 1) * items_per_page) items) in
    let left = length-drop ((safe_page items page - 1) * items_per_page) items in
    (
      pages-take items (total_pages items) some_item (omega arith)
          ∙ take_all (total_pages items * items_per_page) items (omega arith),
      omega (arith, safe, filled),
      omega (arith, safe, filled),
      omega (arith, safe, filled, count, left),
      omega (arith, count),
    )
