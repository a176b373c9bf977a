-- ===== src/Tests/ConcertPage.antt =====
-- Examples of the laws of the booking page of a concert.
use soldesk.Prelude.{
  if◌then◌else◌, ◌===◌, ◌≡◌, refl, String, List, [], ◌∷◌, none, some, true, arith,
}
use soldesk.Prelude.Int.{pos}
use soldesk.Js.Value.{text, number, whole, text_or_empty, string_of, to_int}
use soldesk.Concert.Page.{Show, Page, open_page, on_booked, is_disabled}
use soldesk.Concert.Page.Booked.{find_show, booked_out_closes}
use soldesk.Tests.{plain, whole_value}

abbrev first_show : Show
first_show = record {
  show_id = whole_value 7;
  status = text "OPEN";
  sale_status = none;
  remain_count = whole_value 2;
  reserved_seats = some ("1-1" ∷ []);
}

abbrev second_show : Show
second_show = record first_show { show_id = whole_value 8 }

abbrev page : Page
page = open_page plain (first_show ∷ second_show ∷ [])

abbrev booked : List String
booked = "1-2" ∷ "1-3" ∷ []

booked_out_closes_example :
    let after = on_booked plain "7" booked page in
    let left : Show = record first_show {
      remain_count = number (whole (pos 0));
      status =
          if plain.upper (text_or_empty plain first_show.status) === "OPEN"
          then text "CLOSED"
          else first_show.status;
    } in
    (find_show plain "7" after.shows ≡ some left)
    × (is_disabled plain left ≡ true)
    × (find_show plain "8" after.shows ≡ find_show plain "8" page.shows)
unfolding open_page string_of to_int plain
booked_out_closes_example =
    booked_out_closes plain "7" "8" booked page first_show refl (omega arith) refl
