-- ===== src/Tests/Seats.antt =====
-- Examples of the laws of seats, of the seat grid and of the choice.
use soldesk.Prelude.{◌≤◌, ◌≡◌, refl, ◌↔◌, true, none, arith}
use soldesk.Js.TextSet.{has}
use soldesk.Concert.Seat.{create_seat_key}
use soldesk.Concert.Modal.{Venue, Paging, venue_of}
use soldesk.Concert.Modal.Grid.{cols_per_page, total_pages, shown_keys, is_large}
use soldesk.Concert.Modal.Pages.{IsVenue, IsPaged, page_of, large_page_iff}
use soldesk.Tests.{plain, large_show, small_show}

abbrev large_hall : Venue
large_hall = venue_of plain large_show none

abbrev small_hall : Venue
small_hall = venue_of plain small_show none

-- The second page of the fifth row.
abbrev opened : Paging
opened = record { active_row = 5; active_col_page = 2; active_row_page = 1 }

large_hall-IsVenue : IsVenue large_hall
unfolding venue_of
large_hall-IsVenue = record { has_row = omega arith; has_col = omega arith }

opened-IsPaged : IsPaged large_hall opened
unfolding venue_of total_pages soldesk.Js.Value.to_int
opened-IsPaged = record {
  row_from = omega arith;
  row_to = omega arith;
  col_page_from = omega arith;
  col_page_to = omega arith;
  row_page_from = omega arith;
  row_page_to = omega arith;
}

large_page_iff_example :
    (page_of 100 ≤ total_pages large_hall.seat_cols cols_per_page)
    × ((has (create_seat_key 5 100) (shown_keys large_hall opened) ≡ true)
        ↔ ((opened.active_row ≡ 5) × (opened.active_col_page ≡ page_of 100)))
unfolding venue_of is_large soldesk.Js.Value.to_int
large_page_iff_example =
    large_page_iff large_hall opened 5 100 refl large_hall-IsVenue opened-IsPaged (omega arith)
      (omega arith)
