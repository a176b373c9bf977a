-- ===== src/Router/Screens.antt =====
-- Rendering a route (`renderRoute` and the functions that it calls): the tasks that an address
-- leads to, in their order.
pub mod Choice
pub mod Rebuilt
use soldesk.Prelude.{
  ℕ, zero, suc, ◌&&◌, ◌||◌, not, String, List, [], ◌∷◌, ◌++◌, map, Option, none, some, Bool, true,
  false, ◌==◌, ◌===◌, if◌then◌else◌,
}
use soldesk.Js.TextSet.{has}
use soldesk.Js.Value.{Engine, Value, undefined, text, number, whole}
use soldesk.Prelude.Int.{pos}
use soldesk.Router.Views.{
  ViewRoute, Config, mypage_js, edit_js, changepw_js, booking_history_js, theaters_main_js,
  theaters_detail_js, movie_main_js, movie_detail_js, concert_main_js, concert_detail_js,
  concert_booking_js, concert_booking_modal_js, home_js, footer_js, view_routes, inherited_names,
  config_of, entry, inherited, missing,
}
use soldesk.Router.{
  Url, Route, Target, is_root, legacy_detail_path, get_route_from_url, build_url_from_route,
  number_param, text_param,
}

pub data Task : Type 0 where
  replace_url : Url → Task
  clear_transient_ui reset_primary_sections ensure_footer : Task
  ensure_script run_page_action : String → Task
  prefetch_scripts : List String → Task
  -- a `TypeError`
  fail : Task

abbrev pub root_url : Url
root_url = record { pathname = "/"; params = [] }

-- `if (number)` of a page or an id.
unfoldable pub given : Option ℕ → Bool
given none = false
given (some n) = not (n == 0)

unfoldable pub render_entry : ViewRoute → List Task
render_entry config =
    reset_primary_sections ∷ map ensure_script config.scripts
    ++ (prefetch_scripts config.prefetch ∷ run_page_action config.action ∷ ensure_footer ∷ [])

unfoldable pub render_movie_route : Route → List Task
unfolding given
render_movie_route route =
    reset_primary_sections
    ∷ ensure_script movie_main_js
    ∷ prefetch_scripts (movie_detail_js ∷ [])
    ∷ (if given route.movie_id
        then ensure_script movie_detail_js
          ∷ run_page_action "renderMovieDetail"
          ∷ ensure_footer
          ∷ []
        else run_page_action "renderMovieMain" ∷ ensure_footer ∷ [])

unfoldable pub render_concert_route : Route → List Task
unfolding given
render_concert_route route =
    reset_primary_sections
    ∷ ensure_script concert_main_js
    ∷ prefetch_scripts (concert_detail_js ∷ concert_booking_js ∷ concert_booking_modal_js ∷ [])
    ∷ (if given route.concert_id
        then ensure_script concert_detail_js
          ∷ run_page_action "renderConcertDetail"
          ∷ ensure_footer
          ∷ []
        else run_page_action "renderConcertMain" ∷ ensure_footer ∷ [])

unfoldable pub render_home_route : List Task
render_home_route =
    reset_primary_sections
    ∷ ensure_script home_js
    ∷ prefetch_scripts (footer_js ∷ movie_main_js ∷ mypage_js ∷ [])
    ∷ run_page_action "renderHomePage"
    ∷ ensure_footer
    ∷ []

unfoldable pub after_tasks : List Task → Option (List Task) → Option (List Task)
after_tasks done none = none
after_tasks done (some rest) = some (done ++ rest)

unfoldable pub number_or_null : Option ℕ → Value
number_or_null none = Value.null
number_or_null (some n) = number (whole (pos n))

-- A view with no entry is sent to the root; the `for` over the scripts of an inherited property,
-- which has none, fails.
unfoldable pub render_view_route : Config → Option (List Task) → Option (List Task)
unfolding after_tasks render_entry
render_view_route (entry config) at_root = some (render_entry config)
render_view_route inherited at_root = some (reset_primary_sections ∷ fail ∷ [])
render_view_route missing at_root = after_tasks (replace_url root_url ∷ []) at_root

module _ (js : Engine) where
  unfoldable pub normalize_legacy_url : Url → Url
  unfolding number_or_null
  normalize_legacy_url url =
      if url.pathname === legacy_detail_path
      then build_url_from_route js (record {
        view = undefined;
        page = number_or_null (number_param js "page" url.params);
        q = text (text_param js "q" url.params);
        movie_id = number_or_null (number_param js "movie_id" url.params);
        c_page = undefined;
        c_q = undefined;
        concert_id = undefined;
      })
      else url

  -- Which page a route shows, if it stands at the root and names no view.
  unfoldable pub render_page : Route → List Task
  unfolding given
  render_page route =
      if given route.movie_id
      then render_movie_route route
      else if given route.concert_id || given route.c_page || not (route.c_q === "")
      then render_concert_route route
      else if given route.page || not (route.q === "")
      then render_movie_route route
      else render_home_route

  -- The tests of `renderRoute`, with what rendering the root gives.
  unfoldable pub render_from : Route → Option (List Task) → Option (List Task)
  unfolding after_tasks
  render_from route at_root =
      if not (is_root route.pathname) && not (route.pathname === "/")
      then after_tasks (replace_url root_url ∷ []) at_root
      else if not (route.view === "")
      then render_view_route (config_of route.view) at_root
      else some (render_page route)

  -- `renderRoute` at an address; `none` means that the fuel ran out.
  unfoldable pub render_route : ℕ → Url → Option (List Task)
  unfolding after_tasks
  render_route zero url = none
  render_route (suc fuel) url =
      let at_root = render_route fuel root_url in
      let current = normalize_legacy_url url in
      let start =
        if url.pathname === legacy_detail_path
        then replace_url current ∷ clear_transient_ui ∷ []
        else clear_transient_ui ∷ [] in
      after_tasks start (render_from (get_route_from_url js current) at_root)
