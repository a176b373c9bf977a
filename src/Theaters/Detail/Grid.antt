-- ===== src/Theaters/Detail/Grid.antt =====
-- The grid of the window of a screening: as many rows of ten as the total needs.
use soldesk.Prelude.{ℕ, ◌+◌, ◌*◌, ◌≤◌, ◌<◌, ◌≡◌, List, Option, true, ◌↔◌, arith}
use soldesk.Js.TextSet.{has}
use soldesk.Js.Value.{Engine, Value}
use soldesk.Concert.Seat.{create_seat_key}
use soldesk.Concert.Seat.Keys.{create_seat_key-injective}
use soldesk.Concert.Modal.Pages.{has-all_keys, all_keys-has}
use soldesk.Theaters.Detail.{Schedule, Hall, seat_cols, rows_for, grid_keys, hall_of}

rows_for_least :
    (total : ℕ)
    → 1 ≤ total
    → (total ≤ rows_for total * seat_cols) × (rows_for total * seat_cols < total + seat_cols)
unfolding rows_for
rows_for_least total h = (omega arith, omega arith)

grid_keys_iff :
    (hall : Hall) (row col : ℕ)
    → (has (create_seat_key row col) (grid_keys hall) ≡ true)
      ↔ ((1 ≤ row) × (row ≤ hall.seat_rows) × (1 ≤ col) × (col ≤ seat_cols))
unfolding grid_keys
grid_keys_iff hall row col = (there, back)
  where
    there :
        has (create_seat_key row col) (grid_keys hall) ≡ true
        → (1 ≤ row) × (row ≤ hall.seat_rows) × (1 ≤ col) × (col ≤ seat_cols)
    there h =
        let (row', col', from, to, low, high, e) =
          has-all_keys (create_seat_key row col) 1 hall.seat_rows seat_cols h in
        let (same_row, same_col) = create_seat_key-injective row col row' col' e in
        (omega arith, omega arith, omega arith, omega arith)

    back :
        (1 ≤ row) × (row ≤ hall.seat_rows) × (1 ≤ col) × (col ≤ seat_cols)
        → has (create_seat_key row col) (grid_keys hall) ≡ true
    back (from, to, low, high) =
        all_keys-has row col 1 hall.seat_rows seat_cols from (omega arith) low high

-- Whatever the services say of a screening, its window counts at least one seat in total, the grid
-- has just the seats of ten columns in its rows, and the rows are the fewest that hold the total.
pub hall_of-grid :
    (js : Engine) (schedule : Schedule) (reserved : Option (List Value)) (row col : ℕ)
    → let hall = hall_of js schedule reserved in
      (1 ≤ hall.total_count)
      × (hall.total_count ≤ hall.seat_rows * seat_cols)
      × (hall.seat_rows * seat_cols < hall.total_count + seat_cols)
      × ((has (create_seat_key row col) (grid_keys hall) ≡ true)
          ↔ ((1 ≤ row) × (row ≤ hall.seat_rows) × (1 ≤ col) × (col ≤ seat_cols)))
unfolding hall_of
hall_of-grid js schedule reserved row col =
    let hall = hall_of js schedule reserved in
    let some_seat : 1 ≤ hall.total_count = ground arith in
    let (holds, fewest) = rows_for_least hall.total_count some_seat in
    (some_seat, holds, fewest, grid_keys_iff hall row col)
