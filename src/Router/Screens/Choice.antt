-- ===== src/Router/Screens/Choice.antt =====
-- Which page an address shows.
use soldesk.Prelude.{
  ◌≡◌, refl, sym, subst, ap, ◌&&◌, ◌||◌, not, String, List, [], ◌∷◌, ◌++◌, Option, none, some, Bool,
  true, false, Bool-cases, inl, inr, ◌===◌, if◌then◌else◌, arith,
}
use soldesk.Js.TextSet.{has}
use soldesk.Js.Value.{Engine, text_or_empty, or_else}
use soldesk.Router.{
  legacy_detail_path, Url, Route, is_root, get_route_from_url, text_param, number_param, get_param,
  normalize_pathname,
}
use soldesk.Router.Roundtrip.{IsEngine}
use soldesk.Router.Screens.{
  Task, replace_url, clear_transient_ui, reset_primary_sections, ensure_footer, ensure_script,
  run_page_action, prefetch_scripts, fail, root_url, render_page, render_route, render_movie_route,
  render_concert_route, render_home_route, render_view_route, given, after_tasks, render_from,
  render_entry, normalize_legacy_url,
}
use soldesk.Router.Views.{Config, config_of, inherited_names}

-- The page actions of the tasks; a failure is none.
abbrev pub shown : List Task → List (Option String)
shown [] = []
shown (run_page_action name ∷ tasks) = some name ∷ shown tasks
shown (fail ∷ tasks) = none ∷ shown tasks
shown (_ ∷ tasks) = shown tasks

abbrev pub first_match {ℓ} : {A : Type ℓ} → List (Bool × A) → A → A
first_match [] standard = standard
first_match ((test, a) ∷ rules) standard = if test then a else first_match rules standard

-- The rules for a view and for an address without one, the strongest first.
abbrev pub view_screen : String → Option String
view_screen view =
    first_match
      (("mypage" === view, some "openMyPage")
        ∷ ("edit" === view, some "openUserEdit")
        ∷ ("changepw" === view, some "openChangePw")
        ∷ ("booking_history" === view, some "openBookingHistory")
        ∷ ("booking" === view, some "openTheatersMain")
        ∷ ("concert_booking" === view, some "openConcertBookingFromRouter")
        ∷ (has view inherited_names, none)
        ∷ [])
      (some "renderHomePage")

abbrev pub page_screen : Route → Option String
page_screen r =
    first_match
      ((given r.movie_id, some "renderMovieDetail")
        ∷ (given r.concert_id, some "renderConcertDetail")
        ∷ (given r.c_page || not (r.c_q === ""), some "renderConcertMain")
        ∷ (given r.page || not (r.q === ""), some "renderMovieMain")
        ∷ [])
      (some "renderHomePage")

unfoldable pub screen_of : Route → Option String
screen_of r =
    if not (is_root r.pathname)
    then some "renderHomePage"
    else if r.view === ""
    then page_screen r
    else view_screen r.view

shown-append : (xs ys : List Task) → shown (xs ++ ys) ≡ shown xs ++ shown ys
shown-append [] ys = refl
shown-append (run_page_action name ∷ xs) ys = ap (some name ∷◌) (shown-append xs ys)
shown-append (fail ∷ xs) ys = ap (none ∷◌) (shown-append xs ys)
shown-append (replace_url u ∷ xs) ys = shown-append xs ys
shown-append (clear_transient_ui ∷ xs) ys = shown-append xs ys
shown-append (reset_primary_sections ∷ xs) ys = shown-append xs ys
shown-append (ensure_footer ∷ xs) ys = shown-append xs ys
shown-append (ensure_script s ∷ xs) ys = shown-append xs ys
shown-append (prefetch_scripts s ∷ xs) ys = shown-append xs ys

abbrev pub Shows : Option (List Task) → Option String → Type 0
Shows result screen = (tasks : List Task) × (result ≡ some tasks) × (shown tasks ≡ screen ∷ [])

after_tasks-Shows :
    (tasks : List Task) (o : Option (List Task)) (screen : Option String)
    → shown tasks ≡ []
    → Shows o screen
    → Shows (after_tasks tasks o) screen
unfolding after_tasks
after_tasks-Shows tasks none screen quiet (rest, e, one) = cc
after_tasks-Shows tasks (some found) screen quiet (rest, e, one) = (
  tasks ++ found,
  refl,
  rw (shown-append tasks found, quiet)
      (subst (λ o. shown (elim o [ none ↦ [] | some ts ↦ ts ]) ≡ screen ∷ []) (sym e) one),
)

pick-Shows :
    (b : Bool) (at_root : Option (List Task)) (c d : Config) {s t : Option String}
    → Shows (render_view_route c at_root) s
    → Shows (render_view_route d at_root) t
    → Shows (render_view_route (if b then c else d) at_root) (if b then s else t)
pick-Shows true at_root c d x y = x
pick-Shows false at_root c d x y = y

-- The table of views, read as rules.
Config-cases :
    (view : String) (at_root : Option (List Task))
    → Shows at_root (some "renderHomePage")
    → Shows (render_view_route (config_of view) at_root) (view_screen view)
unfolding config_of render_view_route render_entry
Config-cases view at_root root =
    pick-Shows ("mypage" === view) at_root _ _ (_, refl, refl)
      (pick-Shows ("edit" === view) at_root _ _ (_, refl, refl)
        (pick-Shows ("changepw" === view) at_root _ _ (_, refl, refl)
          (pick-Shows ("booking_history" === view) at_root _ _ (_, refl, refl)
            (pick-Shows ("booking" === view) at_root _ _ (_, refl, refl)
              (pick-Shows ("concert_booking" === view) at_root _ _ (_, refl, refl)
                (pick-Shows (has view inherited_names) at_root _ _ (_, refl, refl)
                  (after_tasks-Shows (replace_url root_url ∷ []) at_root _ refl root)))))))

page_shows : (js : Engine) (r : Route) → shown (render_page js r) ≡ page_screen r ∷ []
unfolding render_page render_movie_route render_concert_route render_home_route
page_shows js r = ground arith

module _ (js : Engine) where
  render_from-Shows :
      (r : Route) (at_root : Option (List Task))
      → Shows at_root (some "renderHomePage")
      → Shows (render_from js r at_root) (screen_of r)
  unfolding render_from screen_of is_root
  render_from-Shows r at_root root =
      elim (Bool-cases (not (is_root r.pathname) && not (r.pathname === "/"))) [
        | inl elsewhere ↦
            let far : is_root r.pathname ≡ false = ground arith in
            rw (elsewhere, far) (after_tasks-Shows (replace_url root_url ∷ []) at_root _ refl root)
        | inr here ↦
            let near : is_root r.pathname ≡ true = ground arith in
            elim (Bool-cases (r.view === "")) [
              | inl plain ↦ rw (here, near, plain) (_, refl, page_shows js r)
              | inr named ↦ rw (here, near, named) (Config-cases r.view at_root root)
            ]
      ]

module _ (js : Engine) (ok : IsEngine js) where
  root_shows :
      render_from js (get_route_from_url js (normalize_legacy_url js root_url)) none
      ≡ some render_home_route
  unfolding render_from render_page get_route_from_url normalize_legacy_url normalize_pathname
      is_root get_param text_or_empty given soldesk.Router.to_positive_int render_home_route
      soldesk.Js.Value.number_of
  root_shows = simp (ok.trim_empty)

  render_root : Shows (render_route js 1 root_url) (some "renderHomePage")
  unfolding render_route render_home_route
  render_root =
      after_tasks-Shows (clear_transient_ui ∷ []) _ _ refl (render_home_route, root_shows, refl)

  pub render_route-screen :
      (url : Url)
      → Shows
          (render_route js 2 url)
          (screen_of (get_route_from_url js (normalize_legacy_url js url)))
  unfolding render_route
  render_route-screen url = elim (Bool-cases (url.pathname === legacy_detail_path)) [
    | inl legacy ↦ rw legacy (
        after_tasks-Shows (replace_url (normalize_legacy_url js url) ∷ clear_transient_ui ∷ []) _ _
          refl (render_from-Shows js _ _ render_root))
    | inr usual ↦ rw usual (
        after_tasks-Shows (clear_transient_ui ∷ []) _ _ refl (render_from-Shows js _ _ render_root))
  ]
