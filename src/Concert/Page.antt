-- ===== src/Concert/Page.antt =====
-- The booking page of a concert (frontend/src/js/concert/concert_booking.js): its shows, the seats
-- reserved in each, and what a booking reported by the window changes.
pub mod Booked
use soldesk.Prelude.{
  ℕ, ◌+◌, ◌-◌, String, List, [], ◌∷◌, map, Option, none, some, Bool, true, false, ◌&&◌, not, ◌===◌,
  if◌then◌else◌, length,
}
use soldesk.Prelude.Int.{ℤ, pos, pos_part, leb_ℤ}
use soldesk.Js.TextSet.{add_all}
use soldesk.Js.Value.{
  Engine, Value, number, text, whole, truthy, or_else, string_of, to_int, text_or_empty,
}
use soldesk.Theaters.Dataset.{SeatStore, stored_seats, store_seats}

-- The fields of a show that the page computes with; `sale_status` is `none` where the show has no
-- sale, and `reserved_seats` where it has no list.
pub record Show : Type 0 where
  pub show_id : Value
  pub status : Value
  pub sale_status : Option Value
  pub remain_count : Value
  pub reserved_seats : Option (List String)

pub record Page : Type 0 where
  pub shows : List Show
  pub reserved_by_show : SeatStore

abbrev seats_or_none : Option (List String) → List String
seats_or_none none = []
seats_or_none (some seats) = seats

-- `Math.max(0, n - k)`
abbrev pub less : ℤ → ℕ → ℕ
less n k = pos_part n - k

-- `find` of a show by the text of its id, with what is done to it.
module _ (js : Engine) where
  unfoldable pub at_show : String → (Show → Show) → List Show → List Show
  at_show sid f [] = []
  at_show sid f (s ∷ shows) =
      if string_of js s.show_id === sid then f s ∷ shows else s ∷ at_show sid f shows

  -- The state that `mountConcertBookingPage` starts with.
  unfoldable pub reserve_all : List Show → SeatStore → SeatStore
  reserve_all [] store = store
  reserve_all (s ∷ shows) store =
      reserve_all shows
        (store_seats (string_of js s.show_id) (seats_or_none s.reserved_seats) store)

  unfoldable pub open_page : List Show → Page
  unfolding reserve_all
  open_page shows = record { shows = shows; reserved_by_show = reserve_all shows [] }

  -- `onBooked` for one show: what is left, and the end of its sale when nothing is.
  unfoldable pub book_in : ℕ → Show → Show
  book_in count s =
      let left = less (to_int js s.remain_count) count in
      let counted = record s { remain_count = number (whole (pos left)) } in
      let is_open = js.upper (text_or_empty js s.status) === "OPEN" in
      let is_sold = leb_ℤ (to_int js counted.remain_count) (pos 0) in
      if is_open && is_sold then record counted { status = text "CLOSED" } else counted

  -- `onBooked`, up to its request for the show.
  unfoldable pub on_booked : String → List String → Page → Page
  unfolding book_in
  on_booked sid selected p = record {
    reserved_by_show =
        store_seats sid (add_all selected (stored_seats sid p.reserved_by_show)) p.reserved_by_show;
    shows = at_show sid (book_in (length selected)) p.shows;
  }

  -- The answer to that request: the first show that it has.
  unfoldable pub refresh : String → Show → Page → Page
  refresh sid one p = record {
    shows =
        at_show sid
          (λ s. record s {
            remain_count = number (whole (to_int js one.remain_count));
            status = one.status;
            reserved_seats = some (seats_or_none one.reserved_seats);
          })
          p.shows;
    reserved_by_show =
        if has_show sid p.shows
        then store_seats sid (seats_or_none one.reserved_seats) p.reserved_by_show
        else p.reserved_by_show;
  }
    where
      has_show : String → List Show → Bool
      has_show sid [] = false
      has_show sid (s ∷ shows) = if string_of js s.show_id === sid then true else has_show sid shows

  unfoldable pub is_sale_open : Show → Bool
  is_sale_open s = elim s.sale_status [
    | none ↦ true
    | some status ↦ if truthy status then js.upper (string_of js status) === "OPEN" else true
  ]

  -- `createScheduleButton`: the button of a show is disabled.
  unfoldable pub is_disabled : Show → Bool
  unfolding is_sale_open
  is_disabled s =
      let is_open = is_sale_open s && (js.upper (text_or_empty js s.status) === "OPEN") in
      let is_sold_out = leb_ℤ (to_int js s.remain_count) (pos 0) in
      if not is_open then true else is_sold_out

  -- `renderPage`: the seats that the window is opened with.
  unfoldable pub seats_of : Show → Page → List String
  seats_of s p = stored_seats (string_of js s.show_id) p.reserved_by_show
