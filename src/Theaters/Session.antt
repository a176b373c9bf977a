-- ===== src/Theaters/Session.antt =====
-- The state of the booking page for screenings (frontend/src/js/theaters/theaters_main.js): the
-- dates it offers, its defaults, its handlers, and the panel of the screenings.
pub mod Defaults
pub mod Opening
use soldesk.Prelude.{
  ℕ, zero, suc, String, List, Option, none, some, Bool, true, false, ◌&&◌, ◌||◌, not, ◌===◌, [],
  ◌∷◌, if◌then◌else◌, exists, map,
}
use soldesk.Prelude.Int.{ℤ, pos, eqb_ℤ}
use soldesk.Js.Text.{split, text_ltb}
use soldesk.Js.Value.{Engine, Value, text, to_int}
use soldesk.Theaters.Dataset.{
  Dataset, Screening, Film, HallOf, on_booked, Detail, merge_theater_detail_slice,
  apply_remain_overrides,
}
use soldesk.Theaters.Dataset.Offers.{
  Calendar, Choice, get_available_movies, get_schedules_for_selection,
}
use soldesk.Theaters.Prefill.{Chooser, get_all_theaters_sorted, apply_booking_url_movie_prefill}

-- What the engine makes of days: the time at which the day with this year, month and day begins, and
-- the time so many days later.
pub record Days : Type 0 where
  pub begins : ℤ → ℤ → ℤ → Option ℕ
  pub days_later : ℕ → ℕ → ℕ

-- `state`, in which the choice is kept apart.
pub record Session : Type 0 where
  pub chooser : Chooser
  pub selected_time_band : String
  pub movie_sort_order : String

pub data Event : Type 0 where
  theater_click movie_click : ℤ → Event
  sort_change : String → Event
  date_click calendar_click : String → Event
  band_click : String → Event
  -- what a booking of this screening gives, and then the details of its theater
  booked : ℤ → List String → Event
  details_answer : List Detail → List (String × Option (List Value)) → Event
  -- `refetchBookingDatasetAfterCacheRebuild`, from its answers on: the data, and its theaters
  refetched : Dataset → List ℤ → Event

abbrev date_strip_length : ℕ
date_strip_length = 7

-- `!id` of what is chosen, negated.
abbrev pub is_set : Option ℤ → Bool
is_set none = false
is_set (some id) = not (eqb_ℤ id (pos 0))

abbrev pub is_among : Option ℤ → List ℤ → Bool
is_among none ids = false
is_among (some id) ids = exists (λ i. eqb_ℤ i id) ids

-- What is chosen is kept where it is offered; else the first takes its place.
unfoldable pub keep_or_first : Option ℤ → List ℤ → Option ℤ
keep_or_first selected [] = none
keep_or_first selected (id ∷ ids) =
    if is_set selected && is_among selected (id ∷ ids) then selected else some id

unfoldable pub keep_or_first_key : String → List String → String
keep_or_first_key selected [] = selected
keep_or_first_key selected (key ∷ keys) =
    if not (selected === "") && exists (λ k. k === selected) (key ∷ keys) then selected else key

module _ (js : Engine) (cal : Calendar) (days : Days) where
  unfoldable pub start_of_day_from_date_key : String → Option ℕ
  start_of_day_from_date_key key = elim (split 45 key) [
    | y ∷ m ∷ d ∷ [] ↦
        let year = to_int js (text y) in
        let month = to_int js (text m) in
        let day = to_int js (text d) in
        if eqb_ℤ year (pos 0) || eqb_ℤ month (pos 0) || eqb_ℤ day (pos 0)
        then none
        else days.begins year month day
    | _ ↦ none
  ]

  unfoldable pub add_days_to_date_key : String → ℕ → String
  unfolding start_of_day_from_date_key
  add_days_to_date_key key delta = elim (start_of_day_from_date_key key) [
    | none ↦ ""
    | some t ↦ cal.key_of (days.days_later t delta)
  ]

  -- The keys of so many days from this one on.
  strip_from : String → ℕ → ℕ → List String
  unfolding add_days_to_date_key
  strip_from start i zero = []
  strip_from start i (suc n) =
      let key = add_days_to_date_key start i in
      let keys = strip_from start (suc i) n in if key === "" then keys else key ∷ keys

  unfoldable pub strip_of : ℕ → String → List String
  unfolding strip_from
  strip_of now start =
      strip_from (if start === "" then cal.key_of now else start) 0 date_strip_length

  unfoldable pub get_date_strip_keys : ℕ → Chooser → List String
  unfolding strip_of
  get_date_strip_keys now p = strip_of now p.date_window_start_key

  unfoldable pub clamped_key : ℕ → String → String
  clamped_key now start =
      let today = cal.key_of now in if start === "" || text_ltb start today then today else start

  unfoldable pub clamp_date_window_to_today : ℕ → Chooser → Chooser
  unfolding clamped_key
  clamp_date_window_to_today now p = record p {
    date_window_start_key = clamped_key now p.date_window_start_key;
  }

  -- The ids of the films that a theater offers.
  abbrev pub offered_ids : Dataset → Option ℤ → List ℤ
  offered_ids d none = []
  offered_ids d (some id) = map (λ m. m.movie_id) (get_available_movies js d id)

  unfoldable pub default_choice : Option ℤ → Chooser → Chooser
  unfolding keep_or_first
  default_choice theater p = record p {
    selected_theater_id = theater;
    selected_movie_id = keep_or_first p.selected_movie_id (offered_ids p.dataset theater);
  }

  unfoldable pub default_date : ℕ → Chooser → Chooser
  unfolding keep_or_first_key get_date_strip_keys
  default_date now p = record p {
    selected_date_key = keep_or_first_key p.selected_date_key (get_date_strip_keys now p);
  }

  -- `ensureStateDefaults`, by the theaters of the data.
  unfoldable pub ensure_among : List ℤ → ℕ → Chooser → Chooser
  unfolding keep_or_first default_choice clamp_date_window_to_today default_date
  ensure_among [] now p = p
  ensure_among (id ∷ ids) now p =
      let theater = keep_or_first p.selected_theater_id (id ∷ ids) in
      default_date now (clamp_date_window_to_today now (default_choice theater p))

  unfoldable pub ensure_state_defaults : ℕ → Chooser → Chooser
  unfolding ensure_among
  ensure_state_defaults now p = ensure_among (get_all_theaters_sorted p.theaters) now p

  -- A handler: it changes the choice, and `render` sees to the defaults.
  abbrev rendered : ℕ → Chooser → Session → Session
  rendered now p s = record s { chooser = ensure_state_defaults now p }

  unfoldable pub handle : ℕ → Event → Session → Session
  unfolding ensure_state_defaults
  handle now (theater_click id) s =
      rendered now
        (record s.chooser {
          selected_theater_id = some id;
          selected_movie_id = none;
          date_window_start_key = cal.key_of now;
          selected_date_key = "";
          selected_hall_id = none;
        })
        s
  handle now (movie_click id) s =
      rendered now
        (record s.chooser {
          selected_movie_id = some id;
          selected_date_key = "";
          selected_hall_id = none;
        })
        s
  handle now (sort_change value) s =
      rendered now s.chooser
        (record s { movie_sort_order = if value === "AUDIENCE" then "AUDIENCE" else "TITLE" })
  handle now (date_click key) s =
      rendered now (record s.chooser { selected_date_key = key; selected_hall_id = none }) s
  -- a day before today has no button that can be clicked
  handle now (calendar_click key) s =
      if text_ltb key (cal.key_of now)
      then s
      else rendered now (record s.chooser { date_window_start_key = key; selected_date_key = key })
          s
  handle now (band_click band) s = rendered now s.chooser (record s { selected_time_band = band })
  handle now (booked id seats) s =
      rendered now (record s.chooser { dataset = on_booked js id seats s.chooser.dataset }) s
  handle now (details_answer details seats) s =
      rendered now
        (record s.chooser {
          dataset = merge_theater_detail_slice js s.chooser.dataset details seats;
        })
        s
  handle now (refetched d theaters) s =
      rendered now (record s.chooser { dataset = d; theaters = theaters }) s

  -- `mountTheatersMain` from its answers on: the data, its theaters and the seats that remain.
  unfoldable pub mount_theaters_main :
      ℕ
      → Option (String × Value)
      → List (String × String)
      → Dataset
      → List ℤ
      → List (String × Value)
      → Session
      → Session
  unfolding ensure_state_defaults
  mount_theaters_main now route params d theaters overrides s =
      let loaded = record s.chooser {
        date_window_start_key = cal.key_of now;
        dataset = record d { schedules = apply_remain_overrides js overrides d.schedules };
        theaters = theaters;
      } in
      let (chosen, p) = apply_booking_url_movie_prefill js cal now route params loaded in
      rendered now (ensure_state_defaults now p) (record s { movie_sort_order = "AUDIENCE" })
