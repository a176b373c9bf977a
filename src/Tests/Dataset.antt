-- ===== src/Tests/Dataset.antt =====
-- Examples of the laws of the booking page for screenings.
use soldesk.Prelude.{
  ℕ, ◌≡◌, refl, String, List, [], ◌∷◌, Option, none, some, ◌===◌, if◌then◌else◌, keep,
}
use soldesk.Prelude.Int.{pos}
use soldesk.Js.Value.{Value, text, undefined}
use soldesk.Catalogue.Order.{Ordered, with_key}
use soldesk.Theaters.Dataset.{
  RawSchedule, Screening, Dataset, Detail, stored_seats, normalize_schedule,
  merge_theater_detail_slice, on_booked,
}
use soldesk.Theaters.Dataset.Offers.{
  Choice, Calendar, get_theater_schedules, is_offered, get_schedules_for_selection, time_or_zero,
}
use soldesk.Theaters.Dataset.Laws.{is_bookable, get_schedules_for_selection_lem}
use soldesk.Theaters.Prefill.{Chooser, choose_movie}
use soldesk.Theaters.Prefill.Laws.{IsStart, choose_movie-IsStart}
use soldesk.Tests.{plain, whole_value}

abbrev screening : ℕ → String → Screening
screening id date = record {
  schedule_id = pos id;
  movie_id = pos 1;
  hall_id = pos 2;
  show_date = date;
  total_count = 30;
  remain_count = 28;
  status = "OPEN";
  price = 14000;
}

abbrev dataset : Dataset
dataset = record {
  halls = record { hall_id = pos 2; theater_id = pos 9; hall_name = "A관" } ∷ [];
  movies = record { movie_id = pos 1; status = "ACTIVE"; hide = "N"; stat = "" } ∷ [];
  schedules = screening 5 "late" ∷ screening 6 "early" ∷ [];
  reserved_seats = ("5", "1-1" ∷ "1-2" ∷ []) ∷ ("6", "2-1" ∷ []) ∷ [];
}

abbrev calendar : Calendar
calendar = record {
  time_of = λ s. if s === "late" then some 20 else some 10;
  key_of = λ t. "today";
  hour_of = λ t. 12;
}

abbrev choice : Choice
choice = record { theater_id = pos 9; movie_id = pos 1; date_key = "today"; time_band = "ALL" }

get_schedules_for_selection_lem_example :
    Ordered (time_or_zero calendar) (get_schedules_for_selection calendar 5 choice dataset)
    × (with_key (time_or_zero calendar) 10 (get_schedules_for_selection calendar 5 choice dataset)
        ≡ with_key
            (time_or_zero calendar)
            10
            (keep (is_bookable calendar 5 choice dataset) dataset.schedules))
get_schedules_for_selection_lem_example =
    get_schedules_for_selection_lem calendar 5 choice dataset 10

abbrev details : List Detail
details =
    record {
      schedule_id = whole_value 6;
      remain_count = whole_value 3;
      status = text "CLOSED";
      total_count = undefined;
    }
    ∷ []

abbrev new_seats : List (String × Option (List Value))
new_seats = ("6", some (text "3-3" ∷ [])) ∷ []

abbrev chooser : Chooser
chooser = record {
  dataset = dataset;
  theaters = pos 12 ∷ pos 9 ∷ [];
  selected_theater_id = none;
  selected_movie_id = none;
  selected_hall_id = none;
  date_window_start_key = "";
  selected_date_key = "";
}

choose_movie-IsStart_example :
    IsStart plain calendar 5 (pos 1) dataset (choose_movie plain calendar 5 (pos 1) chooser).1
unfolding choose_movie soldesk.Theaters.Dataset.is_movie_active_for_booking plain
    soldesk.Theaters.Prefill.find_first_theater_id_for_movie
    soldesk.Theaters.Dataset.Offers.get_available_movies get_theater_schedules
choose_movie-IsStart_example =
    choose_movie-IsStart plain calendar 5 (pos 1) chooser (λ t. refl) refl
