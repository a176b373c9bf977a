-- ===== src/Catalogue/Movies.antt =====
-- The list of films (frontend/src/js/movie/movie_main.js): which films of the answer it holds, in
-- which order, and which of them a keyword finds. An id is the whole number of the database, 0
-- where a film has none.
pub mod Laws
use soldesk.Prelude.{
  ℕ, String, List, [], ◌∷◌, ◌++◌, Option, none, some, Bool, true, false, ◌&&◌, ◌||◌, not, ◌==◌,
  ◌===◌, if◌then◌else◌, keep, is_empty,
}
use soldesk.Js.Text.{starts_with, includes, without_spaces}
use soldesk.Js.Value.{Engine, Value, text, or_else, string_of, text_or_empty}
use soldesk.Catalogue.Order.{sort_by, has_key}
use soldesk.Catalogue.Paging.{page_items}

pub record Movie : Type 0 where
  pub movie_id : ℕ
  pub hide : Value
  pub status : Value
  pub title : Value
  pub synopsis : Value

-- The elements of an array that are truthy.
abbrev pub present {ℓ} : {A : Type ℓ} → List (Option A) → List A
present [] = []
present (none ∷ xs) = present xs
present (some x ∷ xs) = x ∷ present xs

module _ (js : Engine) where
  unfoldable pub normalize_search_keyword : Value → String
  normalize_search_keyword value = js.lower (without_spaces (js.trim (text_or_empty js value)))

  unfoldable pub is_movie_visible_in_main_list : Movie → Bool
  is_movie_visible_in_main_list movie =
      let hide_ok = js.upper (string_of js (or_else movie.hide (text "N"))) === "N" in
      let active = js.upper (text_or_empty js movie.status) === "ACTIVE" in
      let title = js.trim (text_or_empty js movie.title) in
      let synopsis = js.trim (text_or_empty js movie.synopsis) in
      if not hide_ok
      then false
      else if active
      then true
      else starts_with "더미데이터" title || starts_with "더미데이터" synopsis

  -- A film is listed where it has an id and is visible.
  unfoldable pub is_listed : Movie → Bool
  is_listed movie = not (movie.movie_id == 0) && is_movie_visible_in_main_list movie

  -- The `Map` keeps the first film of each id, in the order in which the ids came.
  unfoldable pub dedup : List Movie → List (Option Movie) → List Movie
  unfolding is_listed
  dedup found [] = found
  dedup found (none ∷ movies) = dedup found movies
  dedup found (some movie ∷ movies) =
      dedup
        (if is_listed movie && not (has_key (λ m. m.movie_id) movie.movie_id found)
          then found ++ movie ∷ []
          else found)
        movies

  -- `loadMovies`, from the answer; `none` is an answer that is no array.
  unfoldable pub load_movies : Option (List (Option Movie)) → List Movie
  unfolding dedup
  load_movies none = []
  load_movies (some response) = sort_by (λ m. m.movie_id) (dedup [] response)

  -- `applySearch`
  unfoldable pub apply_search : Value → List Movie → List Movie
  unfolding normalize_search_keyword
  apply_search keyword movies =
      let current = js.trim (text_or_empty js keyword) in
      let normalized = normalize_search_keyword (text current) in
      if normalized === ""
      then movies
      else keep
          (λ m.
            includes normalized (normalize_search_keyword (or_else m.title (text "")))
            || includes normalized (normalize_search_keyword (or_else m.synopsis (text ""))))
          movies

  -- What `mountMovieMain` shows: nothing where there is no film, and else a page of those found.
  unfoldable pub shown_movies : Option (List (Option Movie)) → String → ℕ → Option (List Movie)
  shown_movies response q page =
      let all_movies = load_movies response in
      if is_empty all_movies
      then none
      else some (page_items (apply_search (text q) all_movies) page)
