-- ===== src/Theaters/Panel.antt =====
-- The panel of the screenings on the booking page (frontend/src/js/theaters/theaters_main.js): the
-- screenings of the choice, by the halls of the theater.
pub mod Groups
pub mod Shown
use soldesk.Prelude.{
  ℕ, String, List, [], ◌∷◌, ◌++◌, map, Option, none, some, Bool, true, false, not, ◌&&◌, ◌||◌, ◌==◌,
  ◌===◌, if◌then◌else◌, is_empty, keep, find,
}
use soldesk.Prelude.Int.{ℤ, pos, eqb_ℤ}
use soldesk.Js.Value.{Engine}
use soldesk.Catalogue.Order.{sort_by}
use soldesk.Theaters.Dataset.{Dataset, Screening, HallOf}
use soldesk.Theaters.Dataset.Offers.{
  Calendar, get_available_movies, get_schedules_for_selection, time_or_zero,
}
use soldesk.Theaters.Prefill.{Chooser}
use soldesk.Theaters.Session.{Session, is_set}

-- The screenings at the ids of their halls, as the map keeps them: in the order of insertion.
abbrev pub ByHall : Type 0
ByHall = List (ℤ × List Screening)

pub record Card : Type 0 where
  pub schedule : Screening
  pub disabled : Bool

-- A section of the panel, with the part of its title that names the hall; the section without cards
-- says that there are no times.
pub record Group : Type 0 where
  pub title : String
  pub cards : List Card

pub data Panel : Type 0 where
  no_movies choose_movie no_times : Panel
  groups : List Group → Panel

unfoldable pub push : Screening → ByHall → ByHall
push s [] = (s.hall_id, s ∷ []) ∷ []
push s ((id, items) ∷ by_hall) =
    if eqb_ℤ id s.hall_id then (id, items ++ s ∷ []) ∷ by_hall else (id, items) ∷ push s by_hall

unfoldable pub push_all : List Screening → ByHall → ByHall
unfolding push
push_all [] by_hall = by_hall
push_all (s ∷ schedules) by_hall = push_all schedules (push s by_hall)

unfoldable pub items_at : ℤ → ByHall → List Screening
items_at id [] = []
items_at id ((k, items) ∷ by_hall) = if eqb_ℤ k id then items else items_at id by_hall

-- `getHallById` of each key, less those that are not found.
unfoldable pub halls_of_keys : Dataset → ByHall → List HallOf
halls_of_keys d [] = []
halls_of_keys d ((id, _) ∷ by_hall) =
    let halls = halls_of_keys d by_hall in
    elim (find (λ h. eqb_ℤ h.hall_id id) d.halls) [ none ↦ halls | some hall ↦ hall ∷ halls ]

unfoldable pub hall_title : Engine → HallOf → String
hall_title js hall =
    let title = js.trim (if hall.hall_name === "" then "상영관" else hall.hall_name) in
    if title === "" then "상영관" else title

-- `createScheduleCard`: the screening that a click opens, and whether the button can be clicked.
unfoldable pub create_schedule_card : Engine → Screening → Card
create_schedule_card js s = record {
  schedule = s;
  disabled = not (js.upper s.status === "OPEN") || (s.remain_count == 0);
}

abbrev pub id_or_zero : Option ℤ → ℤ
id_or_zero none = pos 0
id_or_zero (some id) = id

-- The order of the names is that of `localeCompare`: is the first not behind the second?
module _ (in_order : String → String → Bool) where
  insert_hall : HallOf → List HallOf → List HallOf
  insert_hall hall [] = hall ∷ []
  insert_hall hall (other ∷ halls) =
      if in_order hall.hall_name other.hall_name
      then hall ∷ other ∷ halls
      else other ∷ insert_hall hall halls

  unfoldable pub sort_halls : List HallOf → List HallOf
  unfolding insert_hall
  sort_halls [] = []
  sort_halls (hall ∷ halls) = insert_hall hall (sort_halls halls)

  unfoldable pub get_halls_for_theater_sorted : Dataset → ℤ → List HallOf
  unfolding sort_halls
  get_halls_for_theater_sorted d theater_id =
      sort_halls (keep (λ h. eqb_ℤ h.theater_id theater_id) d.halls)

module _ (js : Engine) (cal : Calendar) where
  -- `getSchedulesForSelection`, whatever is chosen.
  unfoldable pub selected_schedules : ℕ → Session → List Screening
  selected_schedules now s =
      let p = s.chooser in
      if is_set p.selected_theater_id
        && is_set p.selected_movie_id
        && not (p.selected_date_key === "")
      then get_schedules_for_selection cal now
          (record {
            theater_id = id_or_zero p.selected_theater_id;
            movie_id = id_or_zero p.selected_movie_id;
            date_key = p.selected_date_key;
            time_band = s.selected_time_band;
          })
          p.dataset
      else []

  unfoldable pub has_movies : Chooser → Bool
  has_movies p =
      is_set p.selected_theater_id
      && not (is_empty (get_available_movies js p.dataset (id_or_zero p.selected_theater_id)))

  unfoldable pub group_of : ByHall → HallOf → Group
  unfolding create_schedule_card hall_title items_at
  group_of by_hall hall = record {
    title = hall_title js hall;
    cards =
        map (create_schedule_card js) (sort_by (time_or_zero cal) (items_at hall.hall_id by_hall));
  }

module _ (js : Engine) (cal : Calendar) (in_order : String → String → Bool) where
  unfoldable pub fill_schedule_area : Dataset → List HallOf → List Screening → Panel
  unfolding push_all halls_of_keys sort_halls group_of
  fill_schedule_area d halls_ordered schedules =
      let by_hall = push_all schedules [] in
      let list_source =
        if is_empty halls_ordered
        then sort_halls in_order (halls_of_keys d by_hall)
        else halls_ordered in
      if is_empty halls_ordered && is_empty schedules
      then no_times
      else groups (map (group_of js cal by_hall) list_source)

  -- The area of the screenings in `renderDatePanel`.
  unfoldable pub render_date_panel : ℕ → Session → Panel
  unfolding selected_schedules has_movies fill_schedule_area get_halls_for_theater_sorted
  render_date_panel now s =
      let p = s.chooser in
      if not (has_movies js cal p)
      then no_movies
      else if not (is_set p.selected_movie_id)
      then choose_movie
      else fill_schedule_area p.dataset
          (get_halls_for_theater_sorted in_order p.dataset (id_or_zero p.selected_theater_id))
          (selected_schedules js cal now s)
