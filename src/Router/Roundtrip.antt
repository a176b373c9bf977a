-- ===== src/Router/Roundtrip.antt =====
-- The address of a route names that route again.
use soldesk.Prelude.{
  ℕ, ◌≡◌, refl, ap, ◌∙◌, String, List, [], ◌∷◌, Option, none, some, false, Bool-cases, inl, inr,
  ◌==◌, ◌===◌, ===_iff, if◌then◌else◌, arith,
}
use soldesk.Prelude.Int.{pos}
use soldesk.Js.Value.{Engine, whole, Value, or_else, string_of, number_of, text_or_empty}
use soldesk.Router.{
  Target, get_param, set_param, delete_param, set_field, to_positive_int, param_value, number_param,
  text_param, get_route_from_url, number_text, trimmed, build_url_from_route, normalize_pathname,
}

-- What the router relies on of the engine: a trimmed text has nothing to trim, as the empty text
-- has not, and a whole number is read back from its text.
pub record IsEngine (js : Engine) : Type 0 where
  pub trim_twice : (s : String) → js.trim (js.trim s) ≡ js.trim s
  pub trim_empty : js.trim "" ≡ ""
  pub read_show : (n : ℕ) → js.read (js.show (whole (pos n))) ≡ whole (pos n)

or_given : Option String → Option String → Option String
or_given none rest = rest
or_given (some s) rest = some s

get_param-delete_param :
    (key k : String) (ps : List (String × String))
    → (key === k) ≡ false
    → get_param key (delete_param k ps) ≡ get_param key ps
unfolding get_param delete_param
get_param-delete_param key k [] h = refl
get_param-delete_param key k ((k', v) ∷ ps) h =
    ground (arith, get_param-delete_param key k ps h, ===_iff k' k, ===_iff k' key, ===_iff key k)

get_param-set_param :
    (key k value : String) (ps : List (String × String))
    → get_param key (set_param k value ps) ≡ (if key === k then some value else get_param key ps)
unfolding get_param set_param
get_param-set_param key k value [] = ground (arith, ===_iff k key, ===_iff key k)
get_param-set_param key k value ((k', v) ∷ ps) = ground (
  arith,
  get_param-set_param key k value ps,
  get_param-delete_param key k ps,
  ===_iff k' k,
  ===_iff k' key,
  ===_iff k key,
  ===_iff key k,
)

get_param-set_field :
    (key k : String) (o : Option String) (ps : List (String × String))
    → get_param key (set_field k o ps)
      ≡ (if key === k then or_given o (get_param key ps) else get_param key ps)
unfolding set_field or_given
get_param-set_field key k none ps = ground arith
get_param-set_field key k (some value) ps = get_param-set_param key k value ps

-- What is left of a number: 0 is dropped.
unfoldable pub nonzero : Option ℕ → Option ℕ
nonzero none = none
nonzero (some n) = if n == 0 then none else some n

or_given-none : (o : Option String) → or_given o none ≡ o
unfolding or_given
or_given-none none = refl
or_given-none (some s) = refl

module _ (js : Engine) (ok : IsEngine js) where
  -- A number field is read back.
  number_back : (o : Option ℕ) → to_positive_int js (param_value (number_text js o)) ≡ nonzero o
  unfolding to_positive_int number_text number_of nonzero param_value
  number_back none = refl
  number_back (some n) = elim (Bool-cases (n == 0)) [
    | inl zero_n ↦ rw zero_n refl
    | inr pos_n ↦ rw (pos_n, ok.read_show n, pos_n) (ap some (omega arith))
  ]

  -- A text field is read back.
  text_back :
      (v : Value)
      → js.trim (text_or_empty js (param_value (trimmed js v))) ≡ js.trim (text_or_empty js v)
  unfolding trimmed param_value text_or_empty or_else string_of
  text_back v = elim (Bool-cases (js.trim (text_or_empty js v) === "")) [
    | inl empty ↦ ground (
      arith,
      empty,
      ok.trim_twice (text_or_empty js v),
      ===_iff (js.trim (text_or_empty js v)) "",
    )
    | inr full ↦ rw full (ground (arith, full, ok.trim_twice (text_or_empty js v)))
  ]

  number_field :
      (key : String) (ps : List (String × String)) (o : Option ℕ)
      → get_param key ps ≡ number_text js o
      → number_param js key ps ≡ nonzero o
  unfolding number_param
  number_field key ps o e = rw e (number_back o)

  text_field :
      (key : String) (ps : List (String × String)) (v : Value)
      → get_param key ps ≡ trimmed js v
      → text_param js key ps ≡ js.trim (text_or_empty js v)
  unfolding text_param
  text_field key ps v e = ap (λ o. js.trim (text_or_empty js (param_value o))) e ∙ text_back v

  -- Each parameter of the address is the one of its field.
  get_param-build :
      (t : Target)
      → let ps = (build_url_from_route js t).params in
        (get_param "page" ps ≡ number_text js (to_positive_int js t.page))
        × (get_param "movie_id" ps ≡ number_text js (to_positive_int js t.movie_id))
        × (get_param "q" ps ≡ trimmed js t.q)
        × (get_param "view" ps ≡ trimmed js t.view)
        × (get_param "c_page" ps ≡ number_text js (to_positive_int js t.c_page))
        × (get_param "c_q" ps ≡ trimmed js t.c_q)
        × (get_param "concert_id" ps ≡ number_text js (to_positive_int js t.concert_id))
  unfolding build_url_from_route get_param
  get_param-build t = (
    simp (get_param-set_field, or_given-none),
    simp (get_param-set_field, or_given-none),
    simp (get_param-set_field, or_given-none),
    simp (get_param-set_field, or_given-none),
    simp (get_param-set_field, or_given-none),
    simp (get_param-set_field, or_given-none),
    simp (get_param-set_field, or_given-none),
  )

  -- The address of a route names that route: the page is the root, numbers are cut to positive
  -- whole ones (0 is dropped) and texts are trimmed.
  pub get_route-build_url :
      (t : Target)
      → get_route_from_url js (build_url_from_route js t) ≡ record {
        pathname = "/";
        page = nonzero (to_positive_int js t.page);
        movie_id = nonzero (to_positive_int js t.movie_id);
        q = js.trim (text_or_empty js t.q);
        view = js.trim (text_or_empty js t.view);
        c_page = nonzero (to_positive_int js t.c_page);
        c_q = js.trim (text_or_empty js t.c_q);
        concert_id = nonzero (to_positive_int js t.concert_id);
      }
  unfolding get_route_from_url build_url_from_route normalize_pathname
  get_route-build_url t =
      let ps = (build_url_from_route js t).params in
      let (page, movie_id, q, view, c_page, c_q, concert_id) = get_param-build t in
      rw
        (
          number_field "page" ps (to_positive_int js t.page) page,
          number_field "movie_id" ps (to_positive_int js t.movie_id) movie_id,
          text_field "q" ps t.q q,
          text_field "view" ps t.view view,
          number_field "c_page" ps (to_positive_int js t.c_page) c_page,
          text_field "c_q" ps t.c_q c_q,
          number_field "concert_id" ps (to_positive_int js t.concert_id) concert_id,
        )
        refl
