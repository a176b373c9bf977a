-- ===== src/Theaters/Month.antt =====
-- The month that the calendar of the booking page shows
-- (frontend/src/js/theaters/theaters_main.js), up to the year 275759, the last whole one that the
-- engine has dates for.
pub mod Keys
pub mod Grid
use Prim.Native.String.{◌++◌}
use soldesk.Prelude.{
  ℕ, zero, suc, ◌+◌, ◌-◌, ◌*◌, ◌/◌, ◌%◌, String, List, Bool, true, false, not, ◌&&◌, ◌||◌, ltb,
  ◌==◌, ◌===◌, if◌then◌else◌,
}
use soldesk.Js.Text.{print, text_ltb}

-- `view`: the months are counted from 0 on.
pub record View : Type 0 where
  pub year : ℕ
  pub month : ℕ

-- A slot before the first day, or the cell of a day.
pub data Cell : Type 0 where
  slot : Cell
  day_cell : ℕ → String → (disabled is_today is_selected : Bool) → Cell

unfoldable pub pad2 : ℕ → String
pad2 n = if ltb n 10 then "0" ++ print n else print n

-- The day as a text, written as toDateKey writes it; here the month is counted from 0 on.
unfoldable pub day_key : ℕ → ℕ → ℕ → String
unfolding pad2
day_key year month day = print year ++ ("-" ++ (pad2 (month + 1) ++ ("-" ++ pad2 day)))

-- The year that `new Date(year, month, day)` takes a number for: below 100 it counts from 1900 on.
unfoldable pub full_year : ℕ → ℕ
full_year year = if ltb year 100 then 1900 + year else year

unfoldable pub is_leap : ℕ → Bool
is_leap year = (year % 4 == 0 && not (year % 100 == 0)) || year % 400 == 0

-- `new Date(year, month + 1, 0).getDate()`
unfoldable pub days_in_month : ℕ → ℕ → ℕ
unfolding is_leap full_year
days_in_month year month =
    if month == 1
    then (if is_leap (full_year year) then 29 else 28)
    else if month == 3 || month == 5 || month == 8 || month == 10
    then 30
    else 31

unfoldable pub days_before_month : ℕ → ℕ → ℕ
unfolding days_in_month
days_before_month year zero = 0
days_before_month year (suc month) = days_before_month year month + days_in_month year month

-- The days from the first one of the year 1, a Monday, to the first one of this year.
unfoldable pub days_before_year : ℕ → ℕ
days_before_year year = 365 * (year - 1) + (year - 1) / 4 + (year - 1) / 400 - (year - 1) / 100

-- `new Date(year, month, day).getDay()`, with 0 for Sunday.
unfoldable pub weekday : ℕ → ℕ → ℕ → ℕ
unfolding full_year days_before_year days_before_month
weekday year month day =
    (days_before_year (full_year year) + days_before_month year month + day) % 7

unfoldable pub cell_of : String → String → View → ℕ → Cell
unfolding day_key
cell_of today selected view day =
    let key = day_key view.year view.month day in
    day_cell day key (text_ltb key today) (key === today) (key === selected)

-- The slots, and the cells of so many days from this one on.
slots_then : ℕ → List Cell → List Cell
slots_then zero cells = cells
slots_then (suc n) cells = List.◌∷◌ slot (slots_then n cells)

cells_from : String → String → View → ℕ → ℕ → List Cell
unfolding cell_of
cells_from today selected view day zero = List.[]
cells_from today selected view day (suc n) =
    List.◌∷◌ (cell_of today selected view day) (cells_from today selected view (suc day) n)

-- `renderCalMonth`: the grid.
unfoldable pub render_cal_month : String → String → View → List Cell
unfolding slots_then cells_from weekday days_in_month
render_cal_month today selected view =
    slots_then (weekday view.year view.month 1)
      (cells_from today selected view 1 (days_in_month view.year view.month))

-- `new Date(year, month - 1, 1)` and `new Date(year, month + 1, 1)`.
unfoldable pub previous_month : View → View
unfolding full_year
previous_month view =
    if view.month == 0
    then record { year = full_year view.year - 1; month = 11 }
    else record { year = full_year view.year; month = view.month - 1 }

unfoldable pub next_month : View → View
unfolding full_year
next_month view =
    if view.month == 11
    then record { year = full_year view.year + 1; month = 0 }
    else record { year = full_year view.year; month = view.month + 1 }
