-- ===== src/Concert/Modal/Pages.antt =====
-- Which seats the grid shows: only seats of the hall, and each one on exactly one page.
use soldesk.Prelude.{
  ℕ, zero, suc, ◌+◌, ◌-◌, ◌/◌, ◌≤◌, ◌<◌, ◌≡◌, sym, inl, inr, ◌↔◌, String, map, true, false,
  Bool-cases, ◌===◌, ===_iff, range_from, arith,
}
use soldesk.Js.TextSet.{has, has-append}
use soldesk.Concert.Seat.{create_seat_key}
use soldesk.Concert.Seat.Keys.{create_seat_key-injective}
use soldesk.Concert.Modal.{Venue, Paging}
use soldesk.Concert.Modal.Grid.{
  cols_per_page, total_pages, start_of, end_of, numbers_on, is_large, row_keys, all_keys,
  shown_keys, row_buttons_per_page,
}

-- A hall has a row and a column.
pub record IsVenue (v : Venue) : Type 0 where
  pub has_row : 1 ≤ v.seat_rows
  pub has_col : 1 ≤ v.seat_cols

-- The row and the pages that the large grid has open exist.
pub record IsPaged (v : Venue) (p : Paging) : Type 0 where
  pub row_from : 1 ≤ p.active_row
  pub row_to : p.active_row ≤ v.seat_rows
  pub col_page_from : 1 ≤ p.active_col_page
  pub col_page_to : p.active_col_page ≤ total_pages v.seat_cols cols_per_page
  pub row_page_from : 1 ≤ p.active_row_page
  pub row_page_to : p.active_row_page ≤ total_pages v.seat_rows row_buttons_per_page

-- `key` is the key of a seat of the hall.
abbrev pub IsSeat : Venue → String → Type 0
IsSeat v key =
    (row : ℕ) × (col : ℕ) × (1 ≤ row)
    × (row ≤ v.seat_rows)
    × (1 ≤ col)
    × (col ≤ v.seat_cols)
    × (key ≡ create_seat_key row col)

has-row_keys :
    (key : String) (row first count : ℕ)
    → has key (map (create_seat_key row) (range_from first count)) ≡ true
    → (col : ℕ) × (first ≤ col) × (col < first + count) × (key ≡ create_seat_key row col)
unfolding has
has-row_keys key row first zero h = cc
has-row_keys key row first (suc count) h = elim (Bool-cases (create_seat_key row first === key)) [
  | inl same ↦ (first, omega arith, omega arith, sym ((===_iff _ _).0 same))
  | inr other ↦
      let (col, from, to, e) = has-row_keys key row (suc first) count (rw other at h) in
      (col, omega arith, omega arith, e)
]

row_keys-has :
    (row first count col : ℕ)
    → first ≤ col
    → col < first + count
    → has (create_seat_key row col) (map (create_seat_key row) (range_from first count)) ≡ true
unfolding has
row_keys-has row first zero col from to = absurd (omega arith)
row_keys-has row first (suc count) col from to =
    elim (Bool-cases (create_seat_key row first === create_seat_key row col)) [
      | inl same ↦ rw same
      | inr other ↦ rw other (
          row_keys-has row (suc first) count col
            (ground (arith, ===_iff (create_seat_key row first) (create_seat_key row col)))
            (omega arith))
    ]

pub has-all_keys :
    (key : String) (first count cols : ℕ)
    → has key (all_keys (range_from first count) (range_from 1 cols)) ≡ true
    → (row : ℕ) × (col : ℕ) × (first ≤ row)
      × (row < first + count)
      × (1 ≤ col)
      × (col < 1 + cols)
      × (key ≡ create_seat_key row col)
unfolding has all_keys
has-all_keys key first zero cols h = cc
has-all_keys key first (suc count) cols h =
    elim (Bool-cases (has key (map (create_seat_key first) (range_from 1 cols)))) [
      | inl here ↦
          let (col, from, to, e) = has-row_keys key first 1 cols here in
          (first, col, omega arith, omega arith, from, to, e)
      | inr later ↦
          let (row, col, from, to, low, high, e) =
            has-all_keys key (suc first) count cols (
              rw (has-append key (map (create_seat_key first) (range_from 1 cols)) _, later) at
                h) in
          (row, col, omega arith, omega arith, low, high, e)
    ]

pub all_keys-has :
    (row col first count cols : ℕ)
    → first ≤ row
    → row < first + count
    → 1 ≤ col
    → col ≤ cols
    → has (create_seat_key row col) (all_keys (range_from first count) (range_from 1 cols)) ≡ true
unfolding all_keys
all_keys-has row col first zero cols from to low high = absurd (omega arith)
all_keys-has row col first (suc count) cols from to low high = ground (
  arith,
  has-append (create_seat_key row col) (map (create_seat_key first) (range_from 1 cols))
      (all_keys (range_from (suc first) count) (range_from 1 cols)),
  row_keys-has first 1 cols col,
  all_keys-has row col (suc first) count cols,
)

-- The grid shows seats of the hall only.
pub shown_keys-IsSeat :
    (v : Venue) (p : Paging) (key : String)
    → IsVenue v
    → IsPaged v p
    → has key (shown_keys v p) ≡ true
    → IsSeat v key
unfolding shown_keys row_keys numbers_on start_of end_of
shown_keys-IsSeat v p key hv hp h = elim (Bool-cases (is_large v)) [
  | inl large ↦
      let (col, from, to, e) = has-row_keys key p.active_row _ _ (rw large at h) in
      (p.active_row, col, hp.row_from, hp.row_to, omega arith, omega arith, e)
  | inr small ↦
      let (row, col, from, to, low, high, e) =
        has-all_keys key 1 v.seat_rows v.seat_cols (rw small at h) in
      (row, col, from, omega arith, low, omega arith, e)
]

-- The page of columns that holds a column.
abbrev pub page_of : ℕ → ℕ
page_of col = (col + cols_per_page - 1) / cols_per_page

-- In a large hall a seat of the open row is shown on the page `page_of` of its column, which
-- exists, and on no other page.
pub large_page_iff :
    (v : Venue) (p : Paging) (row col : ℕ)
    → is_large v ≡ true
    → IsVenue v
    → IsPaged v p
    → 1 ≤ col
    → col ≤ v.seat_cols
    → (page_of col ≤ total_pages v.seat_cols cols_per_page)
      × ((has (create_seat_key row col) (shown_keys v p) ≡ true)
          ↔ ((p.active_row ≡ row) × (p.active_col_page ≡ page_of col)))
unfolding shown_keys row_keys numbers_on start_of end_of total_pages
large_page_iff v p row col large hv hp low high = (omega arith, (there, back))
  where
    there :
        has (create_seat_key row col) (shown_keys v p) ≡ true
        → (p.active_row ≡ row) × (p.active_col_page ≡ page_of col)
    there h =
        let (col', from, to, e) = has-row_keys _ p.active_row _ _ (rw large at h) in
        let (same_row, same_col) = create_seat_key-injective row col p.active_row col' e in
        (sym same_row, omega arith)

    back :
        (p.active_row ≡ row) × (p.active_col_page ≡ page_of col)
        → has (create_seat_key row col) (shown_keys v p) ≡ true
    back (same_row, same_page) =
        rw (large, same_row) (row_keys-has row _ _ col (omega arith) (omega arith))

-- In a small hall every seat is shown.
pub small_shows_all :
    (v : Venue) (p : Paging) (row col : ℕ)
    → is_large v ≡ false
    → 1 ≤ row
    → row ≤ v.seat_rows
    → 1 ≤ col
    → col ≤ v.seat_cols
    → has (create_seat_key row col) (shown_keys v p) ≡ true
unfolding shown_keys
small_shows_all v p row col small from to low high =
    rw small (all_keys-has row col 1 v.seat_rows v.seat_cols from (omega arith) low high)
