-- ===== src/Tests/BookingPage.antt =====
-- Examples of the laws of the choice on the booking page for screenings.
use soldesk.Prelude.{
  true, false, ◌&&◌, exists, All, ◌≡◌, refl, String, [], ◌∷◌, Option, none, some, ◌===◌, ◌==◌,
  if◌then◌else◌,
}
use soldesk.Prelude.Int.{ℤ, pos, eqb_ℤ, ltb_ℤ}
use soldesk.Js.Value.{Value}
use soldesk.Theaters.Dataset.{Dataset, Screening, apply_remain_overrides}
use soldesk.Theaters.Dataset.Offers.{Calendar}
use soldesk.Theaters.Prefill.{Chooser, is_shown_in, movie_of_address}
use soldesk.Theaters.Session.{Days, Session, theater_click, handle, mount_theaters_main}
use soldesk.Theaters.Session.Defaults.{IsReady, handle-IsReady}
use soldesk.Theaters.Session.Opening.{mount_theaters_main-shows}
use soldesk.Tests.{plain, whole_value}

-- A calendar of one month, of which a day is a time.
abbrev calendar : Calendar
calendar = record {
  time_of = λ s. if s === "late" then some 7 else none;
  key_of = λ t. if t == 5 then "2026-1-5" else "2026-1-7";
  hour_of = λ t. 12;
}

abbrev days : Days
days = record { begins = λ y m d. elim d [ pos n ↦ some n | _ ↦ none ]; days_later = λ t n. t }

abbrev screening : Screening
screening = record {
  schedule_id = pos 5;
  movie_id = pos 1;
  hall_id = pos 2;
  show_date = "late";
  total_count = 30;
  remain_count = 28;
  status = "OPEN";
  price = 14000;
}

abbrev dataset : Dataset
dataset = record {
  halls = record { hall_id = pos 2; theater_id = pos 9; hall_name = "A관" } ∷ [];
  movies = record { movie_id = pos 1; status = "ACTIVE"; hide = "N"; stat = "" } ∷ [];
  schedules = screening ∷ [];
  reserved_seats = [];
}

abbrev chosen_before : Chooser
chosen_before = record {
  dataset = dataset;
  theaters = pos 9 ∷ pos 4 ∷ [];
  selected_theater_id = none;
  selected_movie_id = none;
  selected_hall_id = none;
  date_window_start_key = "";
  selected_date_key = "";
}

abbrev session : Session
session = record { chooser = chosen_before; selected_time_band = "ALL"; movie_sort_order = "TITLE" }

handle-IsReady_example :
    IsReady plain calendar days 5
      (handle plain calendar days 5 (theater_click (pos 9)) session).chooser
unfolding soldesk.Theaters.Prefill.get_all_theaters_sorted handle
handle-IsReady_example =
    handle-IsReady plain calendar days 5 (theater_click (pos 9)) session tt refl

abbrev route : Option (String × Value)
route = some ("booking", whole_value 1)

-- The data as the page keeps it.
abbrev loaded : Dataset
loaded = record dataset { schedules = apply_remain_overrides plain [] (screening ∷ []) }

mount_theaters_main-shows_example :
    let film = movie_of_address plain route [] in
    let after =
      (mount_theaters_main plain calendar days 5 route [] dataset
        (pos 9 ∷ pos 4 ∷ [])
        []
        session).chooser in
    (t : ℤ) × (exists (λ id. eqb_ℤ id t) (pos 9 ∷ pos 4 ∷ []) ≡ true)
    × (is_shown_in plain loaded film t ≡ true)
    × All (λ id. (ltb_ℤ id t && is_shown_in plain loaded film id) ≡ false) (pos 9 ∷ pos 4 ∷ [])
    × (after.selected_theater_id ≡ some t)
    × (after.selected_movie_id ≡ some film)
unfolding soldesk.Theaters.Prefill.apply_booking_url_movie_prefill plain soldesk.Js.Value.to_int
    soldesk.Theaters.Dataset.is_movie_active_for_booking
    soldesk.Theaters.Prefill.find_first_theater_id_for_movie
    soldesk.Theaters.Dataset.Offers.get_available_movies
    soldesk.Theaters.Dataset.Offers.get_theater_schedules apply_remain_overrides
mount_theaters_main-shows_example =
    mount_theaters_main-shows plain calendar days 5 route [] dataset (pos 9 ∷ pos 4 ∷ []) [] session
      refl
