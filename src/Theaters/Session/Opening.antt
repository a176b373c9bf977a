-- ===== src/Theaters/Session/Opening.antt =====
-- What the booking page shows when a film sends the visitor to it.
use mathlib.Core.Option.{some-injective, none-ne-some}
use soldesk.Prelude.{
  ◌&&◌, if_true, if_false, All, ℕ, ◌≡◌, refl, sym, ap, ◌∙◌, String, List, [], ◌∷◌, Option, none,
  some, Bool, true, false, not, if◌then◌else◌, Bool-cases, inl, inr, exists, find, map, arith,
}
use soldesk.Prelude.Int.{ℤ, pos, eqb_ℤ, ltb_ℤ}
use soldesk.Js.Value.{Engine, Value}
use soldesk.Theaters.Dataset.{Dataset, Film, apply_remain_overrides}
use soldesk.Theaters.Dataset.Offers.{Calendar, get_available_movies}
use soldesk.Theaters.Prefill.{
  Chooser, get_all_theaters_sorted, find_first_theater_id_for_movie,
  find_earliest_future_schedule_date_key, is_shown_in, start_with, choose_theater, choose_movie,
  movie_of_address, apply_booking_url_movie_prefill,
}
use soldesk.Theaters.Prefill.First.{find-get_all_theaters_sorted, get_all_theaters_sorted-exists}
use soldesk.Theaters.Prefill.Laws.{find_first-is_shown_in}
use soldesk.Theaters.Session.{
  Days, Session, is_among, offered_ids, ensure_state_defaults, mount_theaters_main,
}
use soldesk.Theaters.Session.Defaults.{kept_choice, ensure_state_defaults_twice}

after_false {κ} :
    (b : Bool) (x y : Bool × Chooser) (P : Chooser → Type κ)
    → x.0 ≡ false
    → (b ≡ false → y.0 ≡ true → P y.1)
    → (if b then x else y).0 ≡ true
    → P (if b then x else y).1
after_false true x y P stopped go e = cc
after_false false x y P stopped go e = go refl e

find-is_among :
    (p : ℤ → Bool) (ids : List ℤ) (id : ℤ) → find p ids ≡ some id → is_among (some id) ids ≡ true
find-is_among p [] id e = cc
find-is_among p (i ∷ ids) id e = elim (Bool-cases (p i)) [
  | inl fits ↦ let same : i ≡ id = some-injective i id (rw fits at e) in ground (arith, same)
  | inr misfits ↦ ground (arith, find-is_among p ids id (rw misfits at e))
]

exists-map :
    (id : ℤ) (movies : List Film)
    → exists (λ m. eqb_ℤ m.movie_id id) movies ≡ is_among (some id) (map (λ m. m.movie_id) movies)
exists-map id [] = refl
exists-map id (m ∷ movies) = rw (exists-map id movies) refl

start_with-rest :
    (cal : Calendar) (now : ℕ) (first : Option String) (p : Chooser)
    → ((start_with cal now first p).selected_theater_id ≡ p.selected_theater_id)
      × ((start_with cal now first p).selected_movie_id ≡ p.selected_movie_id)
      × ((start_with cal now first p).theaters ≡ p.theaters)
      × ((start_with cal now first p).dataset ≡ p.dataset)
unfolding start_with
start_with-rest cal now none p = (refl, refl, refl, refl)
start_with-rest cal now (some date_key) p = ground arith

-- The theater that is found is one of the theaters, offers the film, and none before it does.
first_of_all :
    (js : Engine) (d : Dataset) (movie_id : ℤ) (theaters : List ℤ) (t : ℤ)
    → find_first_theater_id_for_movie js d theaters movie_id ≡ some t
    → (exists (λ id. eqb_ℤ id t) theaters ≡ true)
      × (is_shown_in js d movie_id t ≡ true)
      × All (λ id. (ltb_ℤ id t && is_shown_in js d movie_id id) ≡ false) theaters
unfolding find_first_theater_id_for_movie
first_of_all js d movie_id theaters t e = elim (Bool-cases (eqb_ℤ movie_id (pos 0))) [
  | inl missing ↦ absurd (none-ne-some t (sym (if_true _ _ missing) ∙ e))
  | inr named ↦
      let found = sym (if_false _ _ named) ∙ e in
      let (offers, first) =
        find-get_all_theaters_sorted (is_shown_in js d movie_id) theaters t found in
      (
        sym (get_all_theaters_sorted-exists (λ id. eqb_ℤ id t) theaters)
            ∙ find-is_among (is_shown_in js d movie_id) (get_all_theaters_sorted theaters) t found,
        offers,
        first,
      )
]

module _ (js : Engine) (cal : Calendar) (days : Days) (now : ℕ) (movie_id : ℤ) where
  -- The page keeps a choice of the film in this theater.
  Keeps : Option ℤ → Chooser → Type 0
  Keeps found q =
      (t : ℤ) × (found ≡ some t)
      × ((ensure_state_defaults js cal days now q).selected_theater_id ≡ some t)
      × ((ensure_state_defaults js cal days now q).selected_movie_id ≡ some movie_id)

  choose_theater-Keeps :
      (p : Chooser) (found : Option ℤ)
      → find_first_theater_id_for_movie js p.dataset p.theaters movie_id ≡ found
      → eqb_ℤ movie_id (pos 0) ≡ false
      → (choose_theater js cal now movie_id found p).0 ≡ true
      → Keeps found (choose_theater js cal now movie_id found p).1
  unfolding choose_theater Keeps find_first_theater_id_for_movie
  choose_theater-Keeps p none e named chosen = ground (arith, chosen)
  choose_theater-Keeps p (some t) e named chosen =
      let first = find_earliest_future_schedule_date_key cal now movie_id p.dataset t in
      let asked = record p {
        selected_theater_id = some t;
        selected_movie_id = some movie_id;
        selected_hall_id = none;
      } in
      let (theater, movie, theaters, dataset) = start_with-rest cal now first asked in
      let among : is_among (some t) (get_all_theaters_sorted p.theaters) ≡ true =
        find-is_among (is_shown_in js p.dataset movie_id) (get_all_theaters_sorted p.theaters) t
          (rw named at e) in
      let offered : is_among (some movie_id) (offered_ids js cal days p.dataset (some t)) ≡ true =
        sym (exists-map movie_id (get_available_movies js p.dataset t))
        ∙ find_first-is_shown_in js cal now movie_id p.dataset p.theaters t e in
      after_false (eqb_ℤ t (pos 0)) (false, p) (true, start_with cal now first asked)
        (Keeps (some t)) refl
        (λ other _.
          let (a, b) =
            kept_choice js cal days now (start_with cal now first asked) t movie_id theater
              (ap not other) (rw theaters among) movie (ap not named) (rw dataset offered) in
          (t, refl, a, b))
        chosen

  choose_movie-Keeps :
      (p : Chooser)
      → (choose_movie js cal now movie_id p).0 ≡ true
      → Keeps
          (find_first_theater_id_for_movie js p.dataset p.theaters movie_id)
          (choose_movie js cal now movie_id p).1
  unfolding choose_movie
  choose_movie-Keeps p chosen =
      let found = find_first_theater_id_for_movie js p.dataset p.theaters movie_id in
      after_false _ (false, p) (choose_theater js cal now movie_id found p) (Keeps found) refl
        (λ known e. choose_theater-Keeps p found refl (ground (arith, known)) e) chosen

-- A film in the address that the page can start with is shown when the page has opened, whatever was
-- chosen before: the film is chosen, in a theater of the data that offers it, and no theater with a
-- smaller id offers it; and the choice has outlasted the defaults.
pub mount_theaters_main-shows :
    (js : Engine) (cal : Calendar) (days : Days) (now : ℕ) (route : Option (String × Value))
    (params : List (String × String)) (d : Dataset) (theaters : List ℤ)
    (overrides : List (String × Value)) (s : Session)
    → let loaded = record s.chooser {
      date_window_start_key = cal.key_of now;
      dataset = record d { schedules = apply_remain_overrides js overrides d.schedules };
      theaters = theaters;
    } in
      (apply_booking_url_movie_prefill js cal now route params loaded).0 ≡ true
      → let film = movie_of_address js route params in
        let after =
          (mount_theaters_main js cal days now route params d theaters overrides s).chooser in
        (t : ℤ) × (exists (λ id. eqb_ℤ id t) theaters ≡ true)
        × (is_shown_in js loaded.dataset film t ≡ true)
        × All (λ id. (ltb_ℤ id t && is_shown_in js loaded.dataset film id) ≡ false) theaters
        × (after.selected_theater_id ≡ some t)
        × (after.selected_movie_id ≡ some film)
unfolding mount_theaters_main apply_booking_url_movie_prefill Keeps
mount_theaters_main-shows js cal days now route params d theaters overrides s chosen =
    let loaded = record s.chooser {
      date_window_start_key = cal.key_of now;
      dataset = record d { schedules = apply_remain_overrides js overrides d.schedules };
      theaters = theaters;
    } in
    let film = movie_of_address js route params in
    let (t, found, theater, movie) = choose_movie-Keeps js cal days now film loaded chosen in
    let (among, offers, first) = first_of_all js loaded.dataset film theaters t found in
    rw (ensure_state_defaults_twice js cal days now (choose_movie js cal now film loaded).1)
      (t, among, offers, first, theater, movie)
