-- ===== src/Tests/Catalogue.antt =====
-- Examples of the laws of the lists of films and concerts.
use soldesk.Prelude.{
  ℕ, ◌≤◌, ◌≡◌, refl, List, [], ◌∷◌, Option, none, some, ◌&&◌, ◌==◌, keep, take, length,
}
use soldesk.Js.Value.{text, undefined}
use soldesk.Catalogue.Order.{Ascending, with_key}
use soldesk.Catalogue.Paging.{items_per_page, total_pages, safe_page, page_items, pages, pages_lem}
use soldesk.Catalogue.Movies.{Movie, present, is_listed, load_movies}
use soldesk.Catalogue.Movies.Laws.{id_of, load_movies_lem}
use soldesk.Catalogue.Concerts.{Concert}
use soldesk.Tests.{plain}

abbrev numbers : List ℕ
numbers = 4 ∷ 8 ∷ 15 ∷ 16 ∷ 23 ∷ 42 ∷ 1 ∷ 2 ∷ 3 ∷ 5 ∷ 7 ∷ []

pages_lem_example :
    (pages numbers (total_pages numbers) ≡ numbers)
    × (1 ≤ safe_page numbers 9)
    × (safe_page numbers 9 ≤ total_pages numbers)
    × (1 ≤ length (page_items numbers 9))
    × (length (page_items numbers 9) ≤ items_per_page)
pages_lem_example = pages_lem numbers 9 refl

abbrev film : ℕ → Movie
film id = record {
  movie_id = id;
  hide = text "N";
  status = text "ACTIVE";
  title = text "Film";
  synopsis = undefined;
}

abbrev films : List (Option Movie)
films = some (film 3) ∷ none ∷ some (film 1) ∷ some (film 3) ∷ []

load_movies_lem_example :
    Ascending id_of (load_movies plain (some films))
    × (with_key id_of 3 (load_movies plain (some films))
        ≡ take 1 (keep (λ m. (m.movie_id == 3) && is_listed plain m) (present films)))
load_movies_lem_example = load_movies_lem plain films 3

abbrev concerts : List Concert
concerts =
    record { concert_id = 2; hide = undefined; status = text "ACTIVE"; title = text "Rock" }
    ∷ record { concert_id = 1; hide = text "Y"; status = text "ACTIVE"; title = text "Jazz" }
    ∷ []
