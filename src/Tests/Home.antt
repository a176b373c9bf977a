-- ===== src/Tests/Home.antt =====
-- Examples of the laws of the home page.
use mathlib.Core.List.{Permᴰ}
use soldesk.Prelude.{
  ℕ, ◌≡◌, ◌≤◌, refl, inl, min, List, [], ◌∷◌, ◌++◌, none, some, true, keep, length, All,
}
use soldesk.Js.Value.{text, undefined}
use soldesk.Home.Films.{Film, is_active, load_main_movies, Descending, load_main_movies_lem}
use soldesk.Home.Slider.{
  Event, mounts, movies_answer, background_settled, arrow_click, next, mouse_enter, mouse_leave,
  interval_fires, current_film, plus_one, unopened, run,
}
use soldesk.Home.Slider.Timer.{IsSound}
use soldesk.Home.Slider.Laws.{run-unopened-IsSound}
use soldesk.Home.Slider.Shown.{run-unopened-IsCurrent}

abbrev film : ℕ → Film
film n = record {
  status = text "ACTIVE";
  audience_count = n;
  title = text "A";
  genre = undefined;
  release_date = undefined;
  synopsis = undefined;
}

abbrev films : List Film
films = film 3 ∷ record (film 9) { status = text "ENDED" } ∷ film 7 ∷ film 5 ∷ film 1 ∷ film 2 ∷ []

load_main_movies_lem_example :
    let shown = load_main_movies (some films) in
    (others : List Film) × Permᴰ (shown ++ others) (keep is_active films)
    × (length shown ≡ min 4 (length (keep is_active films)))
    × Descending shown
    × All (λ m. All (λ x. x.audience_count ≤ m.audience_count) others) shown
load_main_movies_lem_example = load_main_movies_lem films

abbrev visit : List Event
visit =
    mounts
    ∷ movies_answer (some (some films))
    ∷ background_settled 0 true
    ∷ interval_fires 1
    ∷ mouse_enter
    ∷ arrow_click next
    ∷ background_settled 0 true
    ∷ background_settled 0 true
    ∷ mouse_leave
    ∷ []

run-unopened-IsSound_example : IsSound (run visit unopened)
run-unopened-IsSound_example = run-unopened-IsSound visit

run-unopened-IsCurrent_example :
    let after = run visit unopened in
    (after.shown ≡ current_film after) × (after.rank ≡ plus_one after.current_index)
unfolding run load_main_movies soldesk.Js.Value.is_text soldesk.Prelude.pick
run-unopened-IsCurrent_example =
    run-unopened-IsCurrent visit (tt, (tt, (refl, (tt, (tt, (tt, (refl, (refl, (tt, tt))))))))) refl
      refl
