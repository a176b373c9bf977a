-- ===== src/Theaters/Prefill.antt =====
-- The choice that the booking page starts with when a film sends the visitor to it
-- (frontend/src/js/theaters/theaters_main.js).
pub mod Times
pub mod First
pub mod Laws
use soldesk.Prelude.{
  ℕ, String, List, [], ◌∷◌, Option, none, some, Bool, true, false, ◌&&◌, ◌||◌, not, ◌===◌, ltb,
  if◌then◌else◌, find, exists,
}
use soldesk.Prelude.Int.{ℤ, pos, eqb_ℤ, leb_ℤ}
use soldesk.Js.Value.{Engine, Value, text, text_or_empty, to_int}
use soldesk.Router.{get_param, param_value}
use soldesk.Theaters.Dataset.{Dataset, Screening, is_movie_active_for_booking}
use soldesk.Theaters.Dataset.Offers.{Calendar, get_theater_schedules, get_available_movies}

-- The part of the page's state that a choice is kept in; the theaters stand by their ids.
pub record Chooser : Type 0 where
  pub dataset : Dataset
  pub theaters : List ℤ
  pub selected_theater_id : Option ℤ
  pub selected_movie_id : Option ℤ
  pub selected_hall_id : Option ℤ
  pub date_window_start_key : String
  pub selected_date_key : String

insert_id : ℤ → List ℤ → List ℤ
insert_id id [] = id ∷ []
insert_id id (other ∷ ids) = if leb_ℤ id other then id ∷ other ∷ ids else other ∷ insert_id id ids

-- `getAllTheatersSorted`, of which only the ids are looked at here.
unfoldable pub get_all_theaters_sorted : List ℤ → List ℤ
unfolding insert_id
get_all_theaters_sorted [] = []
get_all_theaters_sorted (id ∷ ids) = insert_id id (get_all_theaters_sorted ids)

unfoldable pub sooner : ℕ → Option ℕ → Option ℕ
sooner t none = some t
sooner t (some best) = if ltb t best then some t else some best

-- What one screening does to the best time so far: is it of the film, and when is it?
unfoldable pub take_time : ℕ → Bool → Option ℕ → Option ℕ → Option ℕ
unfolding sooner
take_time now false time best = best
take_time now true none best = best
take_time now true (some t) best = if ltb t now then best else sooner t best

unfoldable pub key_of_best : Calendar → Option ℕ → Option String
key_of_best cal none = none
key_of_best cal (some t) = some (cal.key_of t)

module _ (cal : Calendar) (now : ℕ) (movie_id : ℤ) where
  unfoldable pub best_time : Option ℕ → List Screening → Option ℕ
  unfolding take_time
  best_time best [] = best
  best_time best (s ∷ schedules) =
      best_time (take_time now (eqb_ℤ s.movie_id movie_id) (cal.time_of s.show_date) best) schedules

  -- `findEarliestFutureScheduleDateKey`
  unfoldable pub find_earliest_future_schedule_date_key : Dataset → ℤ → Option String
  unfolding best_time key_of_best
  find_earliest_future_schedule_date_key d theater_id =
      key_of_best cal (best_time none (get_theater_schedules d theater_id))

-- The dates that a choice starts with.
unfoldable pub start_with : Calendar → ℕ → Option String → Chooser → Chooser
start_with cal now none p = record p {
  date_window_start_key = cal.key_of now;
  selected_date_key = "";
}
start_with cal now (some date_key) p =
    if date_key === ""
    then record p { date_window_start_key = cal.key_of now; selected_date_key = "" }
    else record p { date_window_start_key = date_key; selected_date_key = date_key }

module _ (js : Engine) where
  -- A film can be booked in a theater.
  abbrev pub is_shown_in : Dataset → ℤ → ℤ → Bool
  is_shown_in d movie_id theater_id =
      exists (λ m. eqb_ℤ m.movie_id movie_id) (get_available_movies js d theater_id)

  -- `findFirstTheaterIdForMovie`
  unfoldable pub find_first_theater_id_for_movie : Dataset → List ℤ → ℤ → Option ℤ
  unfolding get_all_theaters_sorted
  find_first_theater_id_for_movie d theaters movie_id =
      if eqb_ℤ movie_id (pos 0)
      then none
      else find (is_shown_in d movie_id) (get_all_theaters_sorted theaters)

  -- The film of the address: that of the route (none where the router is not there), or that of
  -- the parameters.
  unfoldable pub movie_of_address : Option (String × Value) → List (String × String) → ℤ
  unfolding get_param param_value text_or_empty
  movie_of_address route params =
      let routed : ℤ = elim route [
        | none ↦ pos 0
        | some r ↦ if js.trim r.0 === "booking" then to_int js r.1 else pos 0
      ] in
      if not (eqb_ℤ routed (pos 0))
      then routed
      else if js.trim (text_or_empty js (param_value (get_param "view" params))) === "booking"
      then to_int js (param_value (get_param "movie_id" params))
      else pos 0

  -- `applyBookingUrlMoviePrefill`, from the theater and from the film on: whether a choice was made,
  -- and the state.
  unfoldable pub choose_theater : Calendar → ℕ → ℤ → Option ℤ → Chooser → Bool × Chooser
  unfolding start_with
  choose_theater cal now movie_id none p = (false, p)
  choose_theater cal now movie_id (some theater_id) p =
      let first = find_earliest_future_schedule_date_key cal now movie_id p.dataset theater_id in
      if eqb_ℤ theater_id (pos 0) then (false, p) else (
        true,
        start_with cal now first (record p {
          selected_theater_id = some theater_id;
          selected_movie_id = some movie_id;
          selected_hall_id = none;
        }),
      )

  unfoldable pub choose_movie : Calendar → ℕ → ℤ → Chooser → Bool × Chooser
  unfolding choose_theater
  choose_movie cal now movie_id p =
      let known =
        exists (λ m. eqb_ℤ m.movie_id movie_id && is_movie_active_for_booking js m)
          p.dataset.movies in
      if eqb_ℤ movie_id (pos 0) || not known
      then (false, p)
      else choose_theater cal now movie_id
          (find_first_theater_id_for_movie p.dataset p.theaters movie_id) p

  -- `applyBookingUrlMoviePrefill`
  unfoldable pub apply_booking_url_movie_prefill :
      Calendar → ℕ → Option (String × Value) → List (String × String) → Chooser → Bool × Chooser
  unfolding movie_of_address choose_movie
  apply_booking_url_movie_prefill cal now route params p =
      choose_movie cal now (movie_of_address route params) p
