-- ===== src/Tests/Panel.antt =====
-- Examples of the laws of the panel of the screenings on the booking page.
use soldesk.Prelude.{
  ◌≡◌, refl, String, [], ◌∷◌, none, some, Bool, ◌===◌, if◌then◌else◌, arith, keep, length,
}
use soldesk.Prelude.Int.{pos, eqb_ℤ}
use soldesk.Theaters.Dataset.{Screening, Dataset, HallOf}
use soldesk.Theaters.Dataset.Offers.{Calendar}
use soldesk.Theaters.Session.{Session}
use soldesk.Theaters.Panel.{render_date_panel, selected_schedules}
use soldesk.Theaters.Panel.Groups.{plain_panel, render_date_panel_lem}
use soldesk.Theaters.Panel.Shown.{count, shown, shown_once}
use soldesk.Tests.{plain}

abbrev clock : Calendar
clock = record {
  time_of = λ s. if s === "late" then some 20 else some 10;
  key_of = λ t. "2026-1-5";
  hour_of = λ t. 12;
}

abbrev names_in_order : String → String → Bool
names_in_order a b = a === "A관"

abbrev hall_a : HallOf
hall_a = record { hall_id = pos 2; theater_id = pos 9; hall_name = "A관" }

abbrev hall_b : HallOf
hall_b = record { hall_id = pos 3; theater_id = pos 9; hall_name = "B관" }

abbrev showing : Screening
showing = record {
  schedule_id = pos 5;
  movie_id = pos 1;
  hall_id = pos 2;
  show_date = "late";
  total_count = 30;
  remain_count = 28;
  status = "OPEN";
  price = 14000;
}

abbrev two_halls : Dataset
two_halls = record {
  halls = hall_b ∷ hall_a ∷ [];
  movies = record { movie_id = pos 1; status = "ACTIVE"; hide = "N"; stat = "" } ∷ [];
  schedules =
      showing
      ∷ record showing { schedule_id = pos 6; hall_id = pos 3 }
      ∷ record showing { schedule_id = pos 7; show_date = "early" }
      ∷ [];
  reserved_seats = [];
}

abbrev on_page : Session
on_page = record {
  chooser = record {
    dataset = two_halls;
    theaters = pos 9 ∷ [];
    selected_theater_id = some (pos 9);
    selected_movie_id = some (pos 1);
    selected_hall_id = none;
    date_window_start_key = "2026-1-5";
    selected_date_key = "2026-1-5";
  };
  selected_time_band = "ALL";
  movie_sort_order = "TITLE";
}

render_date_panel_lem_example :
    render_date_panel plain clock names_in_order 5 on_page
    ≡ plain_panel plain clock names_in_order 5 on_page
render_date_panel_lem_example = render_date_panel_lem plain clock names_in_order 5 on_page

abbrev is_in_hall_a : Screening → Bool
is_in_hall_a s = eqb_ℤ s.hall_id (pos 2)

-- Both screenings in the first hall are shown.
two_shown :
    length (keep is_in_hall_a (shown (render_date_panel plain clock names_in_order 5 on_page))) ≡ 2
unfolding render_date_panel soldesk.Theaters.Dataset.Offers.get_available_movies
    soldesk.Theaters.Dataset.is_movie_active_for_booking plain
    soldesk.Theaters.Dataset.Offers.get_theater_schedules soldesk.Catalogue.Order.sort_by
    soldesk.Theaters.Dataset.Offers.get_schedules_for_selection
two_shown = refl

shown_once_example :
    count is_in_hall_a (shown (render_date_panel plain clock names_in_order 5 on_page))
    ≡ count is_in_hall_a (selected_schedules plain clock 5 on_page)
unfolding soldesk.Theaters.Panel.has_movies soldesk.Theaters.Dataset.Offers.get_available_movies
    soldesk.Theaters.Dataset.is_movie_active_for_booking plain
    soldesk.Theaters.Dataset.Offers.get_theater_schedules
shown_once_example =
    shown_once plain clock names_in_order 5 on_page is_in_hall_a (λ id. ground arith) refl refl
