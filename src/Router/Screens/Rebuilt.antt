-- ===== src/Router/Screens/Rebuilt.antt =====
-- The address that a route is written back to, and the views that no rule foresees.
use soldesk.Prelude.{
  ℕ, ◌≡◌, refl, ap, ◌∙◌, subst, String, List, [], ◌∷◌, Option, none, some, true, false, Bool-cases,
  inl, inr, ◌===◌, ===_iff, All, arith,
}
use soldesk.Js.TextSet.{has}
use soldesk.Js.Value.{Engine, text, text_or_empty, or_else, truthy, string_of}
use soldesk.Router.{
  Url, Route, Target, is_root, get_route_from_url, build_url_from_route, to_positive_int,
  text_param, param_value, get_param,
}
use soldesk.Router.Roundtrip.{IsEngine, get_route-build_url, nonzero}
use soldesk.Router.Screens.{number_or_null, render_route, normalize_legacy_url, given}
use soldesk.Router.Views.{inherited_names}
use soldesk.Router.Screens.Choice.{Shows, screen_of, view_screen, render_route-screen}

-- What holds of each text of a set holds of one that the set has.
All-has :
    (P : String → Type 0) (xs : List String) (key : String) → All P xs → has key xs ≡ true → P key
unfolding has
All-has P [] key hs h = cc
All-has P (x ∷ xs) key (p, ps) h = elim (Bool-cases (x === key)) [
  | inl same ↦ subst P ((===_iff _ _).0 same) p
  | inr other ↦ All-has P xs key ps (rw other at h)
]

Unforeseen : String → Type 0
Unforeseen view = (view_screen view ≡ none) × ((view === "") ≡ false)

inherited_names-Unforeseen : All Unforeseen inherited_names
unfolding Unforeseen has
inherited_names-Unforeseen = (
  (refl, refl),
  (
    (refl, refl),
    (
      (refl, refl),
      (
        (refl, refl),
        (
          (refl, refl),
          (
            (refl, refl),
            (
              (refl, refl),
              ((refl, refl), ((refl, refl), ((refl, refl), ((refl, refl), ((refl, refl), tt))))),
            ),
          ),
        ),
      ),
    ),
  ),
)

-- The fields of a route as the pages hand them back to `navigate`.
pub target_of : Route → Target
target_of r = record {
  view = text r.view;
  page = number_or_null r.page;
  q = text r.q;
  movie_id = number_or_null r.movie_id;
  c_page = number_or_null r.c_page;
  c_q = text r.c_q;
  concert_id = number_or_null r.concert_id;
}

module _ (js : Engine) (ok : IsEngine js) where
  -- A view that is named like a property which every object inherits is no unknown view, which
  -- would be sent to the home page: rendering it fails, and no page is shown.
  inherited_view_fails :
      (url : Url)
      → is_root (get_route_from_url js (normalize_legacy_url js url)).pathname ≡ true
      → has (get_route_from_url js (normalize_legacy_url js url)).view inherited_names ≡ true
      → Shows (render_route js 2 url) none
  unfolding screen_of Unforeseen
  inherited_view_fails url here h =
      let r = get_route_from_url js (normalize_legacy_url js url) in
      let (nothing, named) =
        All-has Unforeseen inherited_names r.view inherited_names-Unforeseen h in
      let same : screen_of r ≡ none = rw (here, named) nothing in
      subst (Shows (render_route js 2 url)) same (render_route-screen js ok url)

  same_number : (o : Option ℕ) → given (nonzero (to_positive_int js (number_or_null o))) ≡ given o
  unfolding given nonzero to_positive_int soldesk.Js.Value.number_of number_or_null
  same_number none = refl
  same_number (some n) = ground arith

  text_or_empty-text : (s : String) → text_or_empty js (text s) ≡ s
  unfolding text_or_empty or_else truthy string_of
  text_or_empty-text s = ground (arith, ===_iff s "")

  same_text :
      (key : String) (ps : List (String × String))
      → js.trim (text_or_empty js (text (text_param js key ps))) ≡ text_param js key ps
  unfolding text_param
  same_text key ps =
      ap js.trim (text_or_empty-text (text_param js key ps))
      ∙ ok.trim_twice (text_or_empty js (param_value (get_param key ps)))

  same_texts :
      (url : Url)
      → let r = get_route_from_url js url in
        (js.trim (text_or_empty js (text r.view)) ≡ r.view)
        × (js.trim (text_or_empty js (text r.q)) ≡ r.q)
        × (js.trim (text_or_empty js (text r.c_q)) ≡ r.c_q)
  unfolding get_route_from_url
  same_texts url =
      (same_text "view" url.params, same_text "q" url.params, same_text "c_q" url.params)

  -- The address that the route of an address is written to shows the same page.
  pub rebuilt_screen :
      (url : Url)
      → let r = get_route_from_url js url in
        is_root r.pathname ≡ true
        → screen_of (get_route_from_url js (build_url_from_route js (target_of r))) ≡ screen_of r
  unfolding screen_of target_of is_root
  rebuilt_screen url here =
      let r = get_route_from_url js url in
      let (view, q, c_q) = same_texts url in
      rw
        (
          get_route-build_url js ok (target_of r),
          view,
          q,
          c_q,
          here,
          same_number r.movie_id,
          same_number r.concert_id,
          same_number r.c_page,
          same_number r.page,
        )
        refl
