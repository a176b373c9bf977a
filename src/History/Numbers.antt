-- ===== src/History/Numbers.antt =====
-- The numbers below the booking history.
use soldesk.Prelude.{
  ◌<◌, ◌++◌, ap, ℕ, zero, suc, ◌+◌, ◌-◌, ◌≤◌, min, max, ◌≡◌, refl, inl, inr, List, [], ◌∷◌, Bool,
  true, false, Bool-cases, if◌then◌else◌, ltb, leb, All, All-append, range_from, arith,
}
use soldesk.History.{pagination_window, render_pagination}

-- The numbers that stand side by side hold the page that is shown, all lead to pages that exist,
-- and there are five of them, or as many as there are pages.
pagination_window_lem :
    (page total : ℕ)
    → 1 ≤ page
    → page ≤ total
    → let (start, last) = pagination_window page total in
      (1 ≤ start)
      × (start ≤ page)
      × (page ≤ last)
      × (last ≤ total)
      × (last + 1 - start ≡ min 5 total)
unfolding pagination_window
pagination_window_lem page total low high =
    elim (Bool-cases (ltb total (max 1 (page - 2) + 5 - 1))) [
      | inl over ↦ rw over (omega arith, ground arith, omega arith, omega arith, ground arith)
      | inr within ↦ rw within (omega arith, omega arith, omega arith, ground arith, ground arith)
    ]

range_from-All :
    (low high first count : ℕ)
    → low ≤ first
    → first + count ≤ high + 1
    → All (λ n. (low ≤ n) × (n ≤ high)) (range_from first count)
range_from-All low high first zero a b = tt
range_from-All low high first (suc count) a b = (
  (omega arith, omega arith),
  range_from-All low high (suc first) count (omega arith) (omega arith),
)

if-All :
    (low high : ℕ) (b : Bool) (xs ys : List ℕ)
    → (b ≡ true → All (λ n. (low ≤ n) × (n ≤ high)) xs)
    → (b ≡ false → All (λ n. (low ≤ n) × (n ≤ high)) ys)
    → All (λ n. (low ≤ n) × (n ≤ high)) (if b then xs else ys)
if-All low high true xs ys f g = f refl
if-All low high false xs ys f g = g refl

-- Each button leads to a page that exists.
render_pagination-All :
    (page total : ℕ)
    → 1 ≤ page
    → page ≤ total
    → All (λ n. (1 ≤ n) × (n ≤ total)) (render_pagination page total)
unfolding render_pagination
render_pagination-All page total low high =
    let inside : ℕ → Type 0 = λ n. (1 ≤ n) × (n ≤ total) in
    let (from, below, reach, to, five) = pagination_window_lem page total low high in
    let (start, last) = pagination_window page total in
    let before =
      if-All 1 total (ltb 1 page) ((page - 1) ∷ []) [] (λ h. ((ground arith, ground arith), tt))
        (λ _. tt) in
    let after =
      if-All 1 total (ltb page total) ((page + 1) ∷ []) [] (λ h. ((ground arith, ground arith), tt))
        (λ _. tt) in
    let numbers =
      range_from-All 1 total start (last + 1 - start) from (omega (arith, below, reach, to)) in
    if-All 1 total (leb total 1) [] _ (λ _. tt)
      (λ _. All-append inside _ _ before (All-append inside _ _ numbers after))

-- For a page that exists: where there is one page only, no button is shown. Else there is one for the
-- page before, where there is one, then the numbers of five neighbouring pages, or of all where there
-- are fewer, the page that is shown among them, and then one for the page behind, where there is one;
-- and each of them leads to a page that exists.
pub render_pagination_lem :
    (page total : ℕ)
    → 1 ≤ page
    → page ≤ total
    → (start : ℕ) × (render_pagination page total ≡ (
        if leb total 1
        then []
        else (if ltb 1 page then (page - 1) ∷ [] else [])
          ++ (range_from start (min 5 total) ++ (if ltb page total then (page + 1) ∷ [] else []))))
      × (start ≤ page)
      × (page < start + min 5 total)
      × All (λ n. (1 ≤ n) × (n ≤ total)) (render_pagination page total)
unfolding render_pagination
render_pagination_lem page total low high =
    let (from, below, reach, to, five) = pagination_window_lem page total low high in
    let (start, last) = pagination_window page total in
    (
      start,
      ap
          (λ count.
            if leb total 1
            then []
            else (if ltb 1 page then (page - 1) ∷ [] else [])
              ++ (range_from start count ++ (if ltb page total then (page + 1) ∷ [] else [])))
          five,
      below,
      omega (arith, reach, five, below),
      render_pagination-All page total low high,
    )
