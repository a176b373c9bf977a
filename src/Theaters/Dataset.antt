-- ===== src/Theaters/Dataset.antt =====
-- The data of the booking page for screenings (frontend/src/js/theaters/theaters_main.js): how the
-- answers of the services are read, brought up to date, and looked through.
pub mod Offers
pub mod Laws
use soldesk.Prelude.{
  ℕ, zero, suc, ◌+◌, ◌-◌, String, List, [], ◌∷◌, ◌++◌, map, Option, none, some, Bool, true, false,
  ◌&&◌, not, ◌===◌, ◌==◌, leb, ltb, ◌||◌, if◌then◌else◌, keep, length, exists,
}
use soldesk.Prelude.Int.{ℤ, pos, pos_part, eqb_ℤ}
use soldesk.Js.TextSet.{add_all}
use soldesk.Js.Value.{
  Engine, Value, number, text, whole, or_else, string_of, to_int, text_or_empty, is_nullish,
}
use soldesk.Catalogue.Order.{sort_by}

-- A screening as a service sends it, and as the page keeps it.
pub record RawSchedule : Type 0 where
  pub schedule_id : Value
  pub movie_id : Value
  pub hall_id : Value
  pub show_date : Value
  pub total_count : Value
  pub total_seats : Value
  pub remain_count : Value
  pub status : Value
  pub price : Value

pub record Screening : Type 0 where
  pub schedule_id : ℤ
  pub movie_id : ℤ
  pub hall_id : ℤ
  pub show_date : String
  pub total_count : ℕ
  pub remain_count : ℕ
  pub status : String
  pub price : ℕ

pub record HallOf : Type 0 where
  pub hall_id : ℤ
  pub theater_id : ℤ
  pub hall_name : String

pub record Film : Type 0 where
  pub movie_id : ℤ
  pub status : String
  pub hide : String
  pub stat : String

-- The seats that are reserved, by the text of the id of their screening.
abbrev pub SeatStore : Type 0
SeatStore = List (String × List String)

pub record Dataset : Type 0 where
  pub halls : List HallOf
  pub movies : List Film
  pub schedules : List Screening
  pub reserved_seats : SeatStore

-- What an answer with the details of a theater says of a screening.
pub record Detail : Type 0 where
  pub schedule_id : Value
  pub remain_count : Value
  pub status : Value
  pub total_count : Value

unfoldable pub stored_seats : String → SeatStore → List String
stored_seats key [] = []
stored_seats key ((k, seats) ∷ store) = if k === key then seats else stored_seats key store

unfoldable pub store_seats : String → List String → SeatStore → SeatStore
store_seats key seats [] = (key, seats) ∷ []
store_seats key seats ((k, old) ∷ store) =
    if k === key then (k, seats) ∷ store else (k, old) ∷ store_seats key seats store

-- `find` of a screening by its id, with what is done to it.
unfoldable pub at_schedule : ℤ → (Screening → Screening) → List Screening → List Screening
at_schedule id f [] = []
at_schedule id f (s ∷ schedules) =
    if eqb_ℤ s.schedule_id id then f s ∷ schedules else s ∷ at_schedule id f schedules

abbrev pub default_seats : Value
default_seats = number (whole (pos 30))

module _ (js : Engine) where
  -- One row of `normalizeBootstrap`, at its index.
  unfoldable pub normalize_schedule : ℕ → RawSchedule → Screening
  normalize_schedule index item = record {
    schedule_id = to_int js (or_else item.schedule_id (number (whole (pos (index + 1)))));
    movie_id = to_int js item.movie_id;
    hall_id = to_int js item.hall_id;
    show_date = js.trim (text_or_empty js item.show_date);
    total_count =
        pos_part (to_int js (or_else item.total_count (or_else item.total_seats default_seats)));
    remain_count = pos_part (
        to_int js (
          or_else item.remain_count
            (or_else item.total_count (or_else item.total_seats default_seats))));
    status = js.upper (string_of js (or_else item.status (text "OPEN")));
    price = pos_part (to_int js (or_else item.price (number (whole (pos 14000)))));
  }

  normalize_from : ℕ → List RawSchedule → List Screening
  normalize_from index [] = []
  normalize_from index (item ∷ items) =
      normalize_schedule index item ∷ normalize_from (suc index) items

  -- The screenings of `normalizeBootstrap`; `none` is a list that is no array.
  unfoldable pub normalize_schedules : Option (List RawSchedule) → List Screening
  unfolding normalize_from
  normalize_schedules none = []
  normalize_schedules (some items) = normalize_from 0 items

  -- What `mergeTheaterDetailSlice` does to a screening.
  unfoldable pub merge_into : Detail → Screening → Screening
  merge_into incoming s = record s {
    remain_count = pos_part (to_int js incoming.remain_count);
    status =
        js.upper (string_of js (or_else incoming.status (or_else (text s.status) (text "OPEN"))));
    total_count =
        if is_nullish incoming.total_count
        then s.total_count
        else pos_part (to_int js incoming.total_count);
  }

  unfoldable pub merge_details : List Detail → List Screening → List Screening
  unfolding merge_into
  merge_details [] schedules = schedules
  merge_details (incoming ∷ details) schedules =
      merge_details details
        (at_schedule (to_int js incoming.schedule_id) (merge_into incoming) schedules)

  -- The value at a key is `none` where it is no array.
  unfoldable pub merge_seats : List (String × Option (List Value)) → SeatStore → SeatStore
  merge_seats [] store = store
  merge_seats ((key, none) ∷ more) store = merge_seats more (store_seats key [] store)
  merge_seats ((key, some values) ∷ more) store =
      merge_seats more (store_seats key (map (string_of js) values) store)

  -- `mergeTheaterDetailSlice`
  unfoldable pub merge_theater_detail_slice :
      Dataset → List Detail → List (String × Option (List Value)) → Dataset
  merge_theater_detail_slice d details seats = record d {
    schedules = merge_details details d.schedules;
    reserved_seats = merge_seats seats d.reserved_seats;
  }

  override : List (String × Value) → String → Option Value
  override [] key = none
  override ((k, v) ∷ overrides) key = if k === key then some v else override overrides key

  -- `applyRemainOverrides`
  unfoldable pub apply_remain_overrides : List (String × Value) → List Screening → List Screening
  unfolding override
  apply_remain_overrides overrides [] = []
  apply_remain_overrides overrides (s ∷ schedules) =
      elim (override overrides (js.show (whole s.schedule_id))) [
        | none ↦ s
        | some v ↦ record s { remain_count = pos_part (to_int js v) }
      ]
      ∷ apply_remain_overrides overrides schedules

  -- `isMovieActiveForBooking`
  unfoldable pub is_movie_active_for_booking : Film → Bool
  is_movie_active_for_booking movie =
      let stat = if movie.stat === "" then "" else js.upper (js.trim movie.stat) in
      if stat === "Y"
      then true
      else if stat === "N"
      then false
      else (js.upper movie.status === "ACTIVE")
        && (js.upper (if movie.hide === "" then "N" else movie.hide) === "N")

  -- `onBooked` of `openScheduleDetail`, up to its request for the details. The screening that was
  -- opened is the one of the page with this id.
  unfoldable pub on_booked : ℤ → List String → Dataset → Dataset
  on_booked id selected d =
      let key = js.show (whole id) in
      record d {
        reserved_seats =
            store_seats key (add_all selected (stored_seats key d.reserved_seats)) d.reserved_seats;
        schedules =
            at_schedule id (λ s. record s { remain_count = s.remain_count - length selected })
              d.schedules;
      }
