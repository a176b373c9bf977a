-- ===== src/Tests/Month.antt =====
-- Examples of the laws of the month that the calendar of the booking page shows.
use soldesk.Prelude.{◌+◌, ◌%◌, ◌<◌, ◌≡◌, refl, some, ◌===◌, length, get_elem?, arith}
use soldesk.Theaters.Month.{
  View, day_cell, day_key, days_in_month, weekday, render_cal_month, previous_month, next_month,
}
use soldesk.Theaters.Month.Keys.{earlier}
use soldesk.Theaters.Month.Grid.{render_cal_month_lem, next_month_lem}

abbrev february : View
february = record { year = 2028; month = 1 }

-- The last day of a February in a leap year, seen from the day before.
render_cal_month_lem_example :
    let today = day_key 2028 1 28 in
    let key = day_key 2028 1 29 in
    let grid = render_cal_month today key february in
    (get_elem? grid (weekday 2028 1 1 + 28)
      ≡ some (day_cell 29 key (earlier 2028 1 29 2028 1 28) (key === today) (key === key)))
    × ((weekday 2028 1 1 + 28) % 7 ≡ weekday 2028 1 29)
    × (length grid ≡ weekday 2028 1 1 + days_in_month 2028 1)
unfolding days_in_month soldesk.Theaters.Month.is_leap
render_cal_month_lem_example =
    render_cal_month_lem 2028 1 28 2028 1 28 (day_key 2028 1 29) (omega arith) (omega arith)
      (omega arith) (omega arith) (omega arith) (omega arith) (omega arith) (omega arith)

-- It is a Tuesday.
last_of_february : weekday 2028 1 29 ≡ 2
unfolding weekday
last_of_february = refl

next_month_lem_example :
    let after = next_month february in
    (weekday after.year after.month 1 ≡ (weekday 2028 1 1 + days_in_month 2028 1) % 7)
    × (after.month < 12)
    × (previous_month after ≡ february)
next_month_lem_example = next_month_lem february (omega arith) (omega arith) (omega arith)
