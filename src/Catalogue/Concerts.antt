-- ===== src/Catalogue/Concerts.antt =====
-- The list of concerts (frontend/src/js/concert/concert_main.js). An id is the whole number of the
-- database, 0 where a concert has none.
use soldesk.Prelude.{
  ℕ, ◌≡◌, ◌∙◌, refl, String, List, [], ◌∷◌, Option, none, some, Bool, ◌&&◌, ◌==◌, ◌===◌,
  if◌then◌else◌, Bool-cases, inl, inr, keep, is_empty,
}
use soldesk.Js.Text.{includes}
use soldesk.Js.Value.{Engine, Value, text, or_else, string_of, text_or_empty}
use soldesk.Catalogue.Order.{sort_by, sort_by-with_key, sort_by-Ordered, with_key, Ordered}
use soldesk.Catalogue.Paging.{page_items}
use soldesk.Catalogue.Movies.{normalize_search_keyword}

pub record Concert : Type 0 where
  pub concert_id : ℕ
  pub hide : Value
  pub status : Value
  pub title : Value

module _ (js : Engine) where
  -- The filter of `loadConcerts`.
  unfoldable pub is_concert_visible : Concert → Bool
  is_concert_visible c =
      let status_ok = js.upper (text_or_empty js c.status) === "ACTIVE" in
      let hide_ok = js.upper (string_of js (or_else c.hide (text "N"))) === "N" in
      status_ok && hide_ok

  -- `loadConcerts`, from the answer; `none` is an answer that is no array.
  unfoldable pub load_concerts : Option (List Concert) → List Concert
  load_concerts none = []
  load_concerts (some response) = sort_by (λ c. c.concert_id) (keep is_concert_visible response)

  -- `applySearch`
  unfoldable pub apply_search : Value → List Concert → List Concert
  apply_search keyword concerts =
      let current = js.trim (text_or_empty js keyword) in
      let normalized = normalize_search_keyword js (text current) in
      if normalized === ""
      then concerts
      else keep (λ c. includes normalized (normalize_search_keyword js (or_else c.title (text ""))))
          concerts

  -- What `mountConcertMain` shows.
  unfoldable pub shown_concerts : Option (List Concert) → String → ℕ → Option (List Concert)
  shown_concerts response q page =
      let all_items = load_concerts response in
      if is_empty all_items then none else some (page_items (apply_search (text q) all_items) page)

  keep_both :
      (p q : Concert → Bool) (xs : List Concert) → keep p (keep q xs) ≡ keep (λ x. p x && q x) xs
  keep_both p q [] = refl
  keep_both p q (x ∷ xs) = elim (Bool-cases (q x)) [
    | inl fits ↦ elim (Bool-cases (p x)) [
      | inl both ↦ rw (fits, both, keep_both p q xs) refl
      | inr one ↦ rw (fits, one, keep_both p q xs) refl
    ]
    | inr misfits ↦ elim (Bool-cases (p x)) [
      | inl one ↦ rw (misfits, one, keep_both p q xs) refl
      | inr none_of ↦ rw (misfits, none_of, keep_both p q xs) refl
    ]
  ]

  -- The concerts of the list come by ascending id, and those with one id are the visible ones of
  -- the answer with this id, as often and in the same order.
  pub load_concerts_lem :
      (response : List Concert) (id : ℕ)
      → Ordered (λ c. c.concert_id) (load_concerts (some response))
        × (with_key (λ c. c.concert_id) id (load_concerts (some response))
            ≡ keep (λ c. (c.concert_id == id) && is_concert_visible c) response)
  unfolding load_concerts
  load_concerts_lem response id = (
    sort_by-Ordered (λ c. c.concert_id) (keep is_concert_visible response),
    sort_by-with_key (λ c. c.concert_id) id (keep is_concert_visible response)
        ∙ keep_both (λ c. c.concert_id == id) is_concert_visible response,
  )
