-- ===== src/Theaters/Prefill/Laws.antt =====
-- What the booking page offers for the film that sent the visitor to it.
use soldesk.Prelude.{
  ℕ, ◌≡◌, refl, sym, ap, ◌∙◌, String, List, Option, none, some, Bool, true, false, not, ◌===◌,
  if◌then◌else◌, Bool-cases, inl, inr, exists, is_empty, arith,
}
use soldesk.Prelude.Int.{ℤ, pos, eqb_ℤ}
use soldesk.Js.Value.{Engine}
use soldesk.Theaters.Dataset.{Dataset}
use soldesk.Theaters.Dataset.Offers.{Calendar, get_theater_schedules, get_schedules_for_selection}
use soldesk.Theaters.Prefill.{
  Chooser, key_of_best, best_time, find_earliest_future_schedule_date_key, is_shown_in,
  find_first_theater_id_for_movie, choose_theater, choose_movie, start_with,
  get_all_theaters_sorted,
}
use soldesk.Theaters.Prefill.Times.{
  is_some, find_fits, is_coming, chosen, best_time-is_some, none_offered, day_offered,
}

module _ (cal : Calendar) (now : ℕ) (movie_id : ℤ) where
  start_offered :
      (d : Dataset) (theater_id : ℤ) (p : Chooser) (best : Option ℕ)
      → ((t : ℕ) → (cal.key_of t === "") ≡ false)
      → best_time cal now movie_id none (get_theater_schedules d theater_id) ≡ best
      → is_empty (
          get_schedules_for_selection cal now
            (chosen cal now movie_id theater_id
              (start_with cal now
                (find_earliest_future_schedule_date_key cal now movie_id d theater_id)
                p).selected_date_key)
            d)
        ≡ not (exists (is_coming cal now movie_id) (get_theater_schedules d theater_id))
  unfolding find_earliest_future_schedule_date_key start_with key_of_best
  start_offered d theater_id p none named e =
      let none_comes : exists (is_coming cal now movie_id) (get_theater_schedules d theater_id)
          ≡ false =
        sym (best_time-is_some cal now movie_id none (get_theater_schedules d theater_id))
        ∙ ap is_some e in
      let day : find_earliest_future_schedule_date_key cal now movie_id d theater_id ≡ none =
        ap (key_of_best cal) e in
      rw (day, none_comes) (none_offered cal now movie_id d theater_id "" none_comes)
  start_offered d theater_id p (some t) named e =
      let one_comes : exists (is_coming cal now movie_id) (get_theater_schedules d theater_id)
          ≡ true =
        sym (best_time-is_some cal now movie_id none (get_theater_schedules d theater_id))
        ∙ ap is_some e in
      let day : find_earliest_future_schedule_date_key cal now movie_id d theater_id
          ≡ some (cal.key_of t) =
        ap (key_of_best cal) e in
      rw (day, one_comes, named t) (day_offered cal now movie_id d theater_id (some t) e t refl)

after_test {κ} :
    (b : Bool) (x y : Bool × Chooser) (P : Chooser → Type κ)
    → x.0 ≡ false
    → (y.0 ≡ true → P y.1)
    → (if b then x else y).0 ≡ true
    → P (if b then x else y).1
after_test true x y P stopped go e = cc
after_test false x y P stopped go e = go e

start_with-choice :
    (cal : Calendar) (now : ℕ) (first : Option String) (p : Chooser)
    → ((start_with cal now first p).selected_theater_id ≡ p.selected_theater_id)
      × ((start_with cal now first p).selected_movie_id ≡ p.selected_movie_id)
unfolding start_with
start_with-choice cal now none p = (refl, refl)
start_with-choice cal now (some date_key) p = elim (Bool-cases (date_key === "")) [
  | inl empty ↦ rw empty (refl, refl)
  | inr day ↦ rw day (refl, refl)
]

module _ (js : Engine) (cal : Calendar) (now : ℕ) (movie_id : ℤ) where
  -- A choice that the page starts with: a theater that shows the film, the film, and a day on which
  -- something is offered, with all bands of the day, just if a screening of the film is to come there.
  abbrev pub IsStart : Dataset → Chooser → Type 0
  IsStart d after =
      (theater_id : ℤ) × (after.selected_theater_id ≡ some theater_id)
      × (after.selected_movie_id ≡ some movie_id)
      × (is_shown_in js d movie_id theater_id ≡ true)
      × (is_empty (
            get_schedules_for_selection cal now
              (chosen cal now movie_id theater_id after.selected_date_key) d)
          ≡ not (exists (is_coming cal now movie_id) (get_theater_schedules d theater_id)))

  choose_theater-IsStart :
      (p : Chooser) (found : Option ℤ)
      → ((t : ℕ) → (cal.key_of t === "") ≡ false)
      → ((theater_id : ℤ)
          → found ≡ some theater_id
          → is_shown_in js p.dataset movie_id theater_id ≡ true)
      → (choose_theater js cal now movie_id found p).0 ≡ true
      → IsStart p.dataset (choose_theater js cal now movie_id found p).1
  unfolding choose_theater
  choose_theater-IsStart p none named shown e = ground (arith, e)
  choose_theater-IsStart p (some theater_id) named shown e =
      let first = find_earliest_future_schedule_date_key cal now movie_id p.dataset theater_id in
      let asked = record p {
        selected_theater_id = some theater_id;
        selected_movie_id = some movie_id;
        selected_hall_id = none;
      } in
      let (same_theater, same_movie) = start_with-choice cal now first asked in
      after_test (eqb_ℤ theater_id (pos 0)) (false, p) (true, start_with cal now first asked)
        (IsStart p.dataset) refl
        (λ _. (
          theater_id,
          same_theater,
          same_movie,
          shown theater_id refl,
          start_offered cal now movie_id p.dataset theater_id asked _ named refl,
        ))
        e

  pub find_first-is_shown_in :
      (d : Dataset) (theaters : List ℤ) (theater_id : ℤ)
      → find_first_theater_id_for_movie js d theaters movie_id ≡ some theater_id
      → is_shown_in js d movie_id theater_id ≡ true
  unfolding find_first_theater_id_for_movie
  find_first-is_shown_in d theaters theater_id e = elim (Bool-cases (eqb_ℤ movie_id (pos 0))) [
    | inl zero ↦ ground (arith, rw zero at e)
    | inr other ↦
        find_fits (is_shown_in js d movie_id) (get_all_theaters_sorted theaters) theater_id
          (rw other at e)
  ]

  -- Where a day is never written as the empty text: if the page starts with a choice for the film,
  -- then it is one of a theater that shows the film and of a day on which something is offered, with
  -- all bands of the day, just if a screening of the film is to come there.
  pub choose_movie-IsStart :
      (p : Chooser)
      → ((t : ℕ) → (cal.key_of t === "") ≡ false)
      → (choose_movie js cal now movie_id p).0 ≡ true
      → IsStart p.dataset (choose_movie js cal now movie_id p).1
  unfolding choose_movie
  choose_movie-IsStart p named e =
      after_test _ (false, p) _ (IsStart p.dataset) refl
        (choose_theater-IsStart p (find_first_theater_id_for_movie js p.dataset p.theaters movie_id)
          named (find_first-is_shown_in p.dataset p.theaters))
        e
