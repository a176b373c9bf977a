-- ===== src/Router.antt =====
-- Routes and addresses (frontend/src/js/main/router.js): the route that an address names and the
-- address of a route. An address stands with its decoded query, as `URLSearchParams` has it.
pub mod Roundtrip
pub mod Views
pub mod Screens
pub mod Loading
use soldesk.Prelude.{
  ℕ, ◌/◌, suc, ◌||◌, String, List, [], ◌∷◌, Option, none, some, Bool, true, false, ◌==◌, ◌===◌,
  if◌then◌else◌,
}
use soldesk.Prelude.Int.{ℤ, pos, negsuc}
use soldesk.Js.Value.{
  Engine, Number, nan, infinity, ratio, whole, Value, null, text, number_of, text_or_empty,
}

pub record Url : Type 0 where
  pub pathname : String
  pub params : List (String × String)

-- `searchParams.get`, `searchParams.delete` and `searchParams.set`.
unfoldable pub get_param : String → List (String × String) → Option String
get_param key [] = none
get_param key ((k, v) ∷ ps) = if k === key then some v else get_param key ps

unfoldable pub delete_param : String → List (String × String) → List (String × String)
delete_param key [] = []
delete_param key ((k, v) ∷ ps) =
    if k === key then delete_param key ps else (k, v) ∷ delete_param key ps

unfoldable pub set_param : String → String → List (String × String) → List (String × String)
unfolding delete_param
set_param key value [] = (key, value) ∷ []
set_param key value ((k, v) ∷ ps) =
    if k === key then (key, value) ∷ delete_param key ps else (k, v) ∷ set_param key value ps

-- `ROOT_PATHS.has(pathname)`
unfoldable pub is_root : String → Bool
is_root pathname = pathname === "/" || pathname === "/index.html"

abbrev pub legacy_detail_path : String
legacy_detail_path = "/movie/detail.html"

unfoldable pub normalize_pathname : String → String
unfolding is_root
normalize_pathname pathname =
    if is_root pathname then "/" else if pathname === legacy_detail_path then "/" else pathname

-- What `getRouteFromUrl` gives.
pub record Route : Type 0 where
  pub pathname : String
  pub page : Option ℕ
  pub movie_id : Option ℕ
  pub q : String
  pub view : String
  pub c_page : Option ℕ
  pub c_q : String
  pub concert_id : Option ℕ

-- What `buildUrlFromRoute` takes: a field that the caller leaves out is `undefined`.
pub record Target : Type 0 where
  pub view : Value
  pub page : Value
  pub q : Value
  pub movie_id : Value
  pub c_page : Value
  pub c_q : Value
  pub concert_id : Value

unfoldable pub param_value : Option String → Value
param_value none = null
param_value (some s) = text s

-- A finite positive number's whole part.
unfoldable pub positive_part : Number → Option ℕ
positive_part (ratio (pos n) d) = if n == 0 then none else some (n / suc d)
positive_part (ratio (negsuc n) d) = none
positive_part nan = none
positive_part (infinity _) = none

-- A parameter is set where there is a value for it.
unfoldable pub set_field : String → Option String → List (String × String) → List (String × String)
set_field key none ps = ps
set_field key (some value) ps = set_param key value ps

module _ (js : Engine) where
  unfoldable pub to_positive_int : Value → Option ℕ
  unfolding positive_part
  to_positive_int value = positive_part (number_of js value)

  -- `toPositiveInt(params.get(key))` and `String(params.get(key) || '').trim()`.
  unfoldable pub number_param : String → List (String × String) → Option ℕ
  unfolding param_value
  number_param key ps = to_positive_int (param_value (get_param key ps))

  unfoldable pub text_param : String → List (String × String) → String
  unfolding param_value
  text_param key ps = js.trim (text_or_empty js (param_value (get_param key ps)))

  unfoldable pub get_route_from_url : Url → Route
  unfolding number_param text_param normalize_pathname
  get_route_from_url url = record {
    pathname = normalize_pathname url.pathname;
    page = number_param "page" url.params;
    movie_id = number_param "movie_id" url.params;
    q = text_param "q" url.params;
    view = text_param "view" url.params;
    c_page = number_param "c_page" url.params;
    c_q = text_param "c_q" url.params;
    concert_id = number_param "concert_id" url.params;
  }

  -- The texts that the address gets for a number (0 counts as none) and for a text.
  unfoldable pub number_text : Option ℕ → Option String
  number_text none = none
  number_text (some n) = if n == 0 then none else some (js.show (whole (pos n)))

  unfoldable pub trimmed : Value → Option String
  trimmed value = let t = js.trim (text_or_empty js value) in if t === "" then none else some t

  unfoldable pub build_url_from_route : Target → Url
  unfolding set_field number_text trimmed
  build_url_from_route route =
      let with_view = set_field "view" (trimmed route.view) [] in
      let with_page = set_field "page" (number_text (to_positive_int route.page)) with_view in
      let with_q = set_field "q" (trimmed route.q) with_page in
      let with_movie = set_field "movie_id" (number_text (to_positive_int route.movie_id)) with_q in
      let with_c_page =
        set_field "c_page" (number_text (to_positive_int route.c_page)) with_movie in
      let with_c_q = set_field "c_q" (trimmed route.c_q) with_c_page in
      let with_concert =
        set_field "concert_id" (number_text (to_positive_int route.concert_id)) with_c_q in
      record { pathname = "/"; params = with_concert }
