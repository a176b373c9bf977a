-- ===== src/Theaters/Month/Grid.antt =====
-- Where the days stand in the grid of the month, and which of them can be clicked.
use soldesk.Prelude.{
  sym, subst, ℕ, zero, suc, ◌+◌, ◌%◌, ◌<◌, ◌≤◌, ◌≡◌, refl, ap, ◌∙◌, String, List, ◌∷◌, some, false,
  Bool-cases, inl, inr, ◌==◌, ◌===◌, length, get_elem?, arith,
}
use soldesk.Theaters.Month.{
  full_year, View, Cell, slot, day_cell, day_key, is_leap, days_in_month, days_before_month,
  days_before_year, weekday, cell_of, slots_then, cells_from, render_cal_month, previous_month,
  next_month,
}
use soldesk.Theaters.Month.Keys.{earlier, day_key-text_ltb}

get_elem-slots :
    (n i : ℕ) (cells : List Cell) → get_elem? (slots_then n cells) (n + i) ≡ get_elem? cells i
unfolding slots_then
get_elem-slots zero i cells = ap (get_elem? cells) (omega arith)
get_elem-slots (suc n) i cells =
    ap (get_elem? (slot ∷ slots_then n cells)) (the_next n i) ∙ get_elem-slots n i cells
  where
    the_next : (n i : ℕ) → suc n + i ≡ suc (n + i)
    the_next n i = omega arith

get_elem-cells :
    (today selected : String) (view : View) (first i n : ℕ)
    → i < n
    → get_elem? (cells_from today selected view first n) i
      ≡ some (cell_of today selected view (first + i))
unfolding cells_from
get_elem-cells today selected view first i zero h = absurd (omega arith)
get_elem-cells today selected view first zero (suc n) h =
    ap (λ d. some (cell_of today selected view d)) (omega arith)
get_elem-cells today selected view first (suc i) (suc n) h =
    get_elem-cells today selected view (suc first) i n (omega arith)
    ∙ ap (λ d. some (cell_of today selected view d)) (omega arith)

length-slots : (n : ℕ) (cells : List Cell) → length (slots_then n cells) ≡ n + length cells
unfolding slots_then
length-slots zero cells = omega arith
length-slots (suc n) cells = omega (arith, length-slots n cells)

length-cells :
    (today selected : String) (view : View) (first n : ℕ)
    → length (cells_from today selected view first n) ≡ n
unfolding cells_from
length-cells today selected view first zero = refl
length-cells today selected view first (suc n) =
    omega (arith, length-cells today selected view (suc first) n)

-- The days of a month are at most 31.
days_in_month_le : (year month : ℕ) → days_in_month year month ≤ 31
unfolding days_in_month
days_in_month_le year month = ground arith

-- The grid of a month, for a month and a day of today in years of four digits: the cell of each day
-- stands in the column of its weekday, one behind the other, after as many slots as there are columns
-- before the first day; it cannot be clicked just if the day is before today; and nothing follows
-- the last day.
pub render_cal_month_lem :
    (y m i ty tm td : ℕ) (selected : String)
    → 1000 ≤ y
    → y < 10000
    → m < 12
    → 1000 ≤ ty
    → ty < 10000
    → tm < 12
    → td < 100
    → i < days_in_month y m
    → let today = day_key ty tm td in
      let key = day_key y m (1 + i) in
      let grid = render_cal_month today selected (record { year = y; month = m }) in
      (get_elem? grid (weekday y m 1 + i)
        ≡ some (
            day_cell (1 + i) key (earlier y m (1 + i) ty tm td) (key === today) (key === selected)))
      × ((weekday y m 1 + i) % 7 ≡ weekday y m (1 + i))
      × (length grid ≡ weekday y m 1 + days_in_month y m)
unfolding render_cal_month cell_of weekday
render_cal_month_lem y m i ty tm td selected hy ly hm hty lty htm htd hi =
    let today = day_key ty tm td in
    let key = day_key y m (1 + i) in
    let view : View = record { year = y; month = m } in
    let cells = cells_from today selected view 1 (days_in_month y m) in
    (
      get_elem-slots (weekday y m 1) i cells
          ∙ get_elem-cells today selected view 1 i (days_in_month y m) hi
          ∙ ap (λ b. some (day_cell (1 + i) key b (key === today) (key === selected)))
              (day_key-text_ltb y m (1 + i) ty tm td hy ly hty lty hm htm
                (omega (arith, days_in_month_le y m)) htd),
      omega arith,
      length-slots (weekday y m 1) cells
          ∙ ap (weekday y m 1 +◌) (length-cells today selected view 1 (days_in_month y m)),
    )

full_year_lem : (y : ℕ) → 100 ≤ y → full_year y ≡ y
unfolding full_year
full_year_lem y h = ground arith

days_of_year :
    (y : ℕ) → 100 ≤ y → days_before_year (y + 1) ≡ days_before_year y + days_before_month y 12
unfolding days_before_year days_before_month days_in_month is_leap full_year
days_of_year y h = ground arith

first_weekday_on : (y m : ℕ) → weekday y (suc m) 1 ≡ (weekday y m 1 + days_in_month y m) % 7
unfolding weekday days_before_month
first_weekday_on y m = omega arith

weekday_lem :
    (y m d : ℕ) → 100 ≤ y → weekday y m d ≡ (days_before_year y + days_before_month y m + d) % 7
unfolding weekday
weekday_lem y m d h =
    ap (λ k. (days_before_year k + days_before_month y m + d) % 7) (full_year_lem y h)

first_weekday_over :
    (y : ℕ) → 100 ≤ y → weekday (y + 1) 0 1 ≡ (weekday y 11 1 + days_in_month y 11) % 7
unfolding days_before_month
first_weekday_over y h =
    weekday_lem (y + 1) 0 1 (omega arith)
    ∙ carried y h
    ∙ ap (λ w. (w + days_in_month y 11) % 7) (sym (weekday_lem y 11 1 h))
  where
    carried :
        (y : ℕ)
        → 100 ≤ y
        → (days_before_year (y + 1) + days_before_month (y + 1) 0 + 1) % 7
          ≡ ((days_before_year y + days_before_month y 11 + 1) % 7 + days_in_month y 11) % 7
    carried y h = omega (arith, days_of_year y h)

december_next :
    (y : ℕ)
    → 100 ≤ y
    → next_month (record { year = y; month = 11 }) ≡ record { year = y + 1; month = 0 }
unfolding next_month
december_next y h = rw (full_year_lem y h) refl

january_previous :
    (y : ℕ)
    → 100 ≤ y
    → previous_month (record { year = y + 1; month = 0 }) ≡ record { year = y; month = 11 }
unfolding previous_month
january_previous y h =
    rw (full_year_lem (y + 1) (omega arith))
      (ap (λ k. record { year = k; month = 11 }) (omega arith))

within_next :
    (y m : ℕ)
    → 100 ≤ y
    → (m == 11) ≡ false
    → next_month (record { year = y; month = m }) ≡ record { year = y; month = m + 1 }
unfolding next_month
within_next y m h e = rw (e, full_year_lem y h) refl

within_previous :
    (y m : ℕ)
    → 100 ≤ y
    → previous_month (record { year = y; month = m + 1 }) ≡ record { year = y; month = m }
unfolding previous_month
within_previous y m h =
    let inside : (m + 1 == 0) ≡ false = ground arith in
    rw (inside, full_year_lem y h) (ap (λ k. record { year = y; month = k }) (omega arith))

-- What follows the month is the view `after`.
Follows : View → View → Type 0
Follows v after =
    (weekday after.year after.month 1
      ≡ (weekday v.year v.month 1 + days_in_month v.year v.month) % 7)
    × (after.month < 12)
    × (previous_month after ≡ v)

-- The month after a shown one, one of the twelve of a year from 100 to 275759, begins in the column
-- that comes after its last day, also where the year changes and whether or not it is a leap year; its number is one of the
-- twelve; and to go back from it leads to the shown one.
pub next_month_lem :
    (v : View)
    → 100 ≤ v.year
    → v.year < 275760
    → v.month < 12
    → let after = next_month v in
      (weekday after.year after.month 1
        ≡ (weekday v.year v.month 1 + days_in_month v.year v.month) % 7)
      × (after.month < 12)
      × (previous_month after ≡ v)
unfolding Follows
next_month_lem v hy ly hm = elim (Bool-cases (v.month == 11)) [
  | inl last ↦
      let december : v.month ≡ 11 = ground arith in
      subst
        (λ m.
          Follows (record { year = v.year; month = m })
            (next_month (record { year = v.year; month = m })))
        (sym december)
        (subst (Follows (record { year = v.year; month = 11 })) (sym (december_next v.year hy))
          (first_weekday_over v.year hy, omega arith, january_previous v.year hy))
  | inr within ↦ subst (Follows v) (sym (within_next v.year v.month hy within)) (
    ap (λ k. weekday v.year k 1) (after_suc v.month) ∙ first_weekday_on v.year v.month,
    ground arith,
    within_previous v.year v.month hy,
  )
]
  where
    after_suc : (m : ℕ) → m + 1 ≡ suc m
    after_suc m = omega arith
