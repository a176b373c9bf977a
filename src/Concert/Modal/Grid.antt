-- ===== src/Concert/Modal/Grid.antt =====
-- The seat grid of the window: `renderSmallGrid` for up to 1500 seats, and the pages of rows and
-- columns of `renderLargeGrid` for more.
use soldesk.Prelude.{
  ℕ, ◌+◌, ◌-◌, ◌*◌, ◌/◌, min, max, String, List, [], ◌∷◌, ◌++◌, map, Bool, false, if◌then◌else◌,
  ltb, leb, range_from,
}
use soldesk.Prelude.Int.{pos, pos_part, ltb_ℤ, leb_ℤ}
use soldesk.Js.Value.{Engine, Value, to_int}
use soldesk.Concert.Seat.{create_seat_key}
use soldesk.Concert.Modal.{Venue, Modal, Paging, emit, alert}

abbrev pub cols_per_page : ℕ
cols_per_page = 80

abbrev pub row_buttons_per_page : ℕ
row_buttons_per_page = 20

-- `Math.max(1, Math.ceil(n / size))`
unfoldable pub total_pages : ℕ → ℕ → ℕ
total_pages n size = max 1 ((n + size - 1) / size)

-- `Math.min(Math.max(page, 1), total)`
unfoldable pub clamp_page : ℕ → ℕ → ℕ
clamp_page page total = min (max page 1) total

-- The first and the last number on a page, as in `startCol` and `endCol`.
unfoldable pub start_of : ℕ → ℕ → ℕ
start_of page size = (page - 1) * size + 1

unfoldable pub end_of : ℕ → ℕ → ℕ → ℕ
unfolding start_of
end_of n page size = min n (start_of page size + size - 1)

-- The numbers of a page: `for (let col = startCol; col <= endCol; col += 1)`.
unfoldable pub numbers_on : ℕ → ℕ → ℕ → List ℕ
unfolding start_of end_of
numbers_on n page size =
    range_from (start_of page size) (end_of n page size + 1 - start_of page size)

unfoldable pub is_large : Venue → Bool
is_large v = ltb 1500 (v.seat_rows * v.seat_cols)

unfoldable pub row_keys : ℕ → List ℕ → List String
row_keys row cols = map (create_seat_key row) cols

unfoldable pub all_keys : List ℕ → List ℕ → List String
all_keys [] cols = []
all_keys (row ∷ rows) cols = map (create_seat_key row) cols ++ all_keys rows cols

-- The keys of the buttons in the grid, row by row.
unfoldable pub shown_keys : Venue → Paging → List String
unfolding is_large row_keys all_keys numbers_on
shown_keys v p =
    if is_large v
    then row_keys p.active_row (numbers_on v.seat_cols p.active_col_page cols_per_page)
    else all_keys (range_from 1 v.seat_rows) (range_from 1 v.seat_cols)

-- `renderRowButtons` and `renderRowPage` keep their page within bounds.
unfoldable pub render_row_buttons : Venue → Paging → Paging
unfolding clamp_page total_pages
render_row_buttons v p = record p {
  active_row_page = clamp_page p.active_row_page (total_pages v.seat_rows row_buttons_per_page);
}

unfoldable pub render_row_page : Venue → Paging → Paging
unfolding clamp_page total_pages
render_row_page v p = record p {
  active_col_page = clamp_page p.active_col_page (total_pages v.seat_cols cols_per_page);
}

-- A row button stands on the page of rows that is shown.
unfoldable pub has_row_button : Venue → Paging → ℕ → Bool
has_row_button v p row =
    if leb (start_of p.active_row_page row_buttons_per_page) row
    then leb row (end_of v.seat_rows p.active_row_page row_buttons_per_page)
    else false

unfoldable pub pick_row : Venue → ℕ → Paging → Paging
unfolding has_row_button render_row_buttons render_row_page
pick_row v row p =
    if has_row_button v p row
    then render_row_page v
        (render_row_buttons v (record p { active_row = row; active_col_page = 1 }))
    else p

-- The four page buttons; a disabled button takes no click.
unfoldable pub row_prev : Venue → Paging → Paging
unfolding render_row_buttons
row_prev v p =
    if leb p.active_row_page 1
    then p
    else render_row_buttons v (record p { active_row_page = p.active_row_page - 1 })

unfoldable pub row_next : Venue → Paging → Paging
unfolding render_row_buttons
row_next v p =
    if leb (total_pages v.seat_rows row_buttons_per_page) p.active_row_page
    then p
    else render_row_buttons v (record p { active_row_page = p.active_row_page + 1 })

unfoldable pub seat_prev : Venue → Paging → Paging
unfolding render_row_page
seat_prev v p =
    if leb p.active_col_page 1
    then p
    else render_row_page v (record p { active_col_page = p.active_col_page - 1 })

unfoldable pub seat_next : Venue → Paging → Paging
unfolding render_row_page
seat_next v p =
    if leb (total_pages v.seat_cols cols_per_page) p.active_col_page
    then p
    else render_row_page v (record p { active_col_page = p.active_col_page + 1 })

-- The jump to the page of a seat number.
unfoldable pub jump : Engine → Value → Modal → Modal
unfolding render_row_page
jump js typed m =
    let target_col = to_int js typed in
    if leb_ℤ target_col (pos 0)
    then emit (alert "좌석 번호가 올바르지 않습니다.") m
    else if ltb_ℤ (pos m.venue.seat_cols) target_col
    then emit (alert "좌석 번호가 올바르지 않습니다.") m
    else record m {
      paging = render_row_page m.venue (record (m.paging) {
        active_col_page = (pos_part target_col + cols_per_page - 1) / cols_per_page;
      });
    }
