-- ===== src/Concert/Modal/Bounds.antt =====
-- The pages of the large grid stay within the hall, whatever is clicked.
use soldesk.Prelude.{ℕ, ◌≤◌, ◌≡◌, inl, inr, true, Bool-cases, leb, arith}
use soldesk.Concert.Modal.{Venue, Paging}
use soldesk.Concert.Modal.Grid.{
  clamp_page, total_pages, render_row_buttons, render_row_page, pick_row, row_prev, row_next,
  seat_prev, seat_next, start_of, end_of, cols_per_page, row_buttons_per_page, has_row_button,
}
use soldesk.Concert.Modal.Pages.{IsPaged}

clamp_page_bounds :
    (n size page : ℕ)
    → (1 ≤ clamp_page page (total_pages n size))
      × (clamp_page page (total_pages n size) ≤ total_pages n size)
unfolding clamp_page total_pages
clamp_page_bounds n size page = (omega arith, omega arith)

render_row_buttons-IsPaged :
    (v : Venue) (p : Paging)
    → 1 ≤ p.active_row
    → p.active_row ≤ v.seat_rows
    → 1 ≤ p.active_col_page
    → p.active_col_page ≤ total_pages v.seat_cols cols_per_page
    → IsPaged v (render_row_buttons v p)
unfolding render_row_buttons
render_row_buttons-IsPaged v p a b c d =
    let (from, to) = clamp_page_bounds v.seat_rows row_buttons_per_page p.active_row_page in
    record {
      row_from = a;
      row_to = b;
      col_page_from = c;
      col_page_to = d;
      row_page_from = from;
      row_page_to = to;
    }

pub render_row_page-IsPaged :
    (v : Venue) (p : Paging)
    → 1 ≤ p.active_row
    → p.active_row ≤ v.seat_rows
    → 1 ≤ p.active_row_page
    → p.active_row_page ≤ total_pages v.seat_rows row_buttons_per_page
    → IsPaged v (render_row_page v p)
unfolding render_row_page
render_row_page-IsPaged v p a b c d =
    let (from, to) = clamp_page_bounds v.seat_cols cols_per_page p.active_col_page in
    record {
      row_from = a;
      row_to = b;
      col_page_from = from;
      col_page_to = to;
      row_page_from = c;
      row_page_to = d;
    }

has_row_button_bounds :
    (v : Venue) (p : Paging) (row : ℕ)
    → has_row_button v p row ≡ true
    → (1 ≤ row) × (row ≤ v.seat_rows)
unfolding has_row_button start_of end_of
has_row_button_bounds v p row h = ground arith

pub pick_row-IsPaged :
    (v : Venue) (row : ℕ) (p : Paging) → IsPaged v p → IsPaged v (pick_row v row p)
unfolding pick_row
pick_row-IsPaged v row p h = elim (Bool-cases (has_row_button v p row)) [
  | inl there ↦ rw there (
      render_row_page-IsPaged v
        (render_row_buttons v (record p { active_row = row; active_col_page = 1 }))
        (has_row_button_bounds v p row there).0 (has_row_button_bounds v p row there).1
        (clamp_page_bounds v.seat_rows row_buttons_per_page p.active_row_page).0
        (clamp_page_bounds v.seat_rows row_buttons_per_page p.active_row_page).1)
  | inr missing ↦ rw missing h
]

pub row_prev-IsPaged : (v : Venue) (p : Paging) → IsPaged v p → IsPaged v (row_prev v p)
unfolding row_prev
row_prev-IsPaged v p h = elim (Bool-cases (leb p.active_row_page 1)) [
  | inl off ↦ rw off h
  | inr on ↦
      rw on (render_row_buttons-IsPaged v _ h.row_from h.row_to h.col_page_from h.col_page_to)
]

pub row_next-IsPaged : (v : Venue) (p : Paging) → IsPaged v p → IsPaged v (row_next v p)
unfolding row_next
row_next-IsPaged v p h =
    elim (Bool-cases (leb (total_pages v.seat_rows row_buttons_per_page) p.active_row_page)) [
      | inl off ↦ rw off h
      | inr on ↦
          rw on (render_row_buttons-IsPaged v _ h.row_from h.row_to h.col_page_from h.col_page_to)
    ]

pub seat_prev-IsPaged : (v : Venue) (p : Paging) → IsPaged v p → IsPaged v (seat_prev v p)
unfolding seat_prev
seat_prev-IsPaged v p h = elim (Bool-cases (leb p.active_col_page 1)) [
  | inl off ↦ rw off h
  | inr on ↦ rw on (render_row_page-IsPaged v _ h.row_from h.row_to h.row_page_from h.row_page_to)
]

pub seat_next-IsPaged : (v : Venue) (p : Paging) → IsPaged v p → IsPaged v (seat_next v p)
unfolding seat_next
seat_next-IsPaged v p h =
    elim (Bool-cases (leb (total_pages v.seat_cols cols_per_page) p.active_col_page)) [
      | inl off ↦ rw off h
      | inr on ↦
          rw on (render_row_page-IsPaged v _ h.row_from h.row_to h.row_page_from h.row_page_to)
    ]
