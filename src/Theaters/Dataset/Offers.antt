-- ===== src/Theaters/Dataset/Offers.antt =====
-- What the booking page for screenings offers for a choice (frontend/src/js/theaters/theaters_main.js).
use soldesk.Prelude.{
  ℕ, String, List, Option, none, some, Bool, true, false, ◌&&◌, ◌===◌, leb, ltb, ◌||◌,
  if◌then◌else◌, keep, exists,
}
use soldesk.Prelude.Int.{ℤ, eqb_ℤ}
use soldesk.Js.Value.{Engine}
use soldesk.Catalogue.Order.{sort_by}
use soldesk.Theaters.Dataset.{Screening, Film, Dataset, is_movie_active_for_booking}

-- `getTheaterSchedules`
unfoldable pub get_theater_schedules : Dataset → ℤ → List Screening
get_theater_schedules d theater_id =
    let halls = keep (λ h. eqb_ℤ h.theater_id theater_id) d.halls in
    keep (λ s. exists (λ h. eqb_ℤ h.hall_id s.hall_id) halls) d.schedules

-- What the page has chosen.
pub record Choice : Type 0 where
  pub theater_id : ℤ
  pub movie_id : ℤ
  pub date_key : String
  pub time_band : String

-- What the engine makes of dates: the time that a text is parsed to, and the day (written with
-- hyphens) and the hour of a time, by the clock of its place.
pub record Calendar : Type 0 where
  pub time_of : String → Option ℕ
  pub key_of : ℕ → String
  pub hour_of : ℕ → ℕ

unfoldable pub to_date_key : Calendar → String → String
to_date_key cal date = elim (cal.time_of date) [ none ↦ "" | some t ↦ cal.key_of t ]

unfoldable pub band_of_hour : ℕ → String
band_of_hour hour =
    if leb 23 hour || ltb hour 5
    then "LATE"
    else if leb 19 hour
    then "AFTER_19"
    else if leb 13 hour
    then "AFTER_13"
    else "ALL"

unfoldable pub get_time_band : Calendar → String → String
unfolding band_of_hour
get_time_band cal date = elim (cal.time_of date) [
  | none ↦ "ALL"
  | some t ↦ band_of_hour (cal.hour_of t)
]

abbrev pub time_or_zero : Calendar → Screening → ℕ
time_or_zero cal s = elim (cal.time_of s.show_date) [ none ↦ 0 | some t ↦ t ]

-- The tests of `getSchedulesForSelection`, at the time `now`, where all of the choice is made.
unfoldable pub is_offered : Calendar → ℕ → Choice → Screening → Bool
unfolding to_date_key get_time_band
is_offered cal now c s =
    eqb_ℤ s.movie_id c.movie_id
    && (to_date_key cal s.show_date === c.date_key)
    && elim (cal.time_of s.show_date) [ none ↦ false | some t ↦ leb now t ]
    && (if c.time_band === "ALL" then true else get_time_band cal s.show_date === c.time_band)

unfoldable pub get_schedules_for_selection : Calendar → ℕ → Choice → Dataset → List Screening
unfolding is_offered
get_schedules_for_selection cal now c d =
    sort_by (time_or_zero cal) (keep (is_offered cal now c) (get_theater_schedules d c.theater_id))

module _ (js : Engine) where
  -- `getAvailableMovies`
  unfoldable pub get_available_movies : Dataset → ℤ → List Film
  get_available_movies d theater_id =
      keep (λ m. exists (λ s. eqb_ℤ s.movie_id m.movie_id) (get_theater_schedules d theater_id))
        (keep (is_movie_active_for_booking js) d.movies)
