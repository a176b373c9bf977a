-- ===== src/Runtime/Requests/Laws.antt =====
-- Which address a request goes to, and with which headers.
use Prim.Native.String.{[], ◌∷◌, ◌++◌}
use package.text.Mathlib.TextLemmas.{cons-append}
use soldesk.Prelude.{
  ◌≡◌, refl, ap, ◌∙◌, ◌⊎◌, inl, inr, code, String, Bool, true, false, ◌&&◌, ◌===◌, ===_iff, ◌==◌,
  if◌then◌else◌, Bool-cases, arith,
}
use soldesk.Js.Text.{starts_with}
use soldesk.Js.Value.{Engine, Value, undefined, null, boolean, number, text, object}
use soldesk.Account.{Fields, field}
use soldesk.Account.Laws.{field-set_field}
use soldesk.Runtime.Requests.{
  Origins, fold, resolve_with, begins_with, has_scheme, without_last_slash,
  normalize_ticketing_api_origin, first_origin, get_ticketing_api_origin, resolve_ticketing_api_url,
  takes_token, with_token, takes_type, with_type,
}

begins_with-append :
    (prefix s t : String) → begins_with prefix s ≡ true → begins_with prefix (s ++ t) ≡ true
unfolding begins_with
begins_with-append [] s t h = refl
begins_with-append (c ∷ prefix) [] t h = cc
begins_with-append (c ∷ prefix) (d ∷ s) t h =
    rw cons-append (elim (Bool-cases (fold (code d) == code c)) [
      | inl same ↦ rw same (begins_with-append prefix s t (rw same at h))
      | inr other ↦ ground (arith, rw other at h)
    ])

has_scheme-append : (s t : String) → has_scheme s ≡ true → has_scheme (s ++ t) ≡ true
unfolding has_scheme
has_scheme-append s t h = elim (Bool-cases (begins_with "http://" s)) [
  | inl plain ↦ rw (begins_with-append "http://" s t plain) refl
  | inr other ↦ ground (arith, begins_with-append "https://" s t)
]

-- An address with a scheme is not one under /api/.
has_scheme-starts_with : (s : String) → has_scheme s ≡ true → starts_with "/api/" s ≡ false
unfolding has_scheme starts_with
has_scheme-starts_with [] h = refl
has_scheme-starts_with (d ∷ s) h = ground arith

-- No origin, or one with a scheme.
abbrev IsOrigin : String → Type 0
IsOrigin s = (s ≡ "") ⊎ (has_scheme s ≡ true)

resolve_with_twice :
    (origin u : String)
    → IsOrigin origin
    → (resolve_with origin (resolve_with origin u) ≡ resolve_with origin u)
      × ((resolve_with origin u ≡ u) ⊎ (has_scheme (resolve_with origin u) ≡ true))
unfolding resolve_with
resolve_with_twice origin u valid = elim (Bool-cases (starts_with "/api/" u)) [
  | inr elsewhere ↦ rw (elsewhere, elsewhere) (refl, inl refl)
  | inl ours ↦ elim (Bool-cases (origin === "")) [
    | inl unset ↦ rw (ours, unset, ours) (refl, inl refl)
    | inr set ↦
        let schemed : has_scheme (origin ++ u) ≡ true =
          has_scheme-append origin u (given valid set) in
        rw (ours, set, has_scheme-starts_with (origin ++ u) schemed) (refl, inr schemed)
  ]
]
  where
    given : IsOrigin origin → (origin === "") ≡ false → has_scheme origin ≡ true
    given (inl unset) set = ground (arith, ===_iff origin "")
    given (inr schemed) set = schemed

module _ (js : Engine) where
  normalize-IsOrigin : (raw : String) → IsOrigin (normalize_ticketing_api_origin js raw)
  unfolding normalize_ticketing_api_origin
  normalize-IsOrigin raw =
      let s = without_last_slash (js.trim raw) in
      elim (Bool-cases (s === "")) [
        | inl empty ↦ rw empty (inl refl)
        | inr filled ↦ elim (Bool-cases (has_scheme s)) [
          | inl given ↦ rw (filled, given) (inr given)
          | inr bare ↦ rw (filled, bare) (inr (has_scheme-append "http://" s refl))
        ]
      ]

  first_origin-IsOrigin :
      (v : Value) (rest : String) → IsOrigin rest → IsOrigin (first_origin js v rest)
  unfolding first_origin
  first_origin-IsOrigin (text s) rest h = elim (Bool-cases (js.trim s === "")) [
    | inl blank ↦ rw blank h
    | inr filled ↦ rw filled (normalize-IsOrigin s)
  ]
  first_origin-IsOrigin undefined rest h = h
  first_origin-IsOrigin null rest h = h
  first_origin-IsOrigin (boolean b) rest h = h
  first_origin-IsOrigin (number n) rest h = h
  first_origin-IsOrigin (object s) rest h = h

  get_ticketing_api_origin-IsOrigin : (o : Origins) → IsOrigin (get_ticketing_api_origin js o)
  unfolding get_ticketing_api_origin
  get_ticketing_api_origin-IsOrigin o = first_origin-IsOrigin o.from_window _ (
      first_origin-IsOrigin o.from_storage _
        (first_origin-IsOrigin o.from_meta _ (first_origin-IsOrigin o.from_config "" (inl refl))))

  -- To resolve an address twice, as `readApi` and `writeApi` do with `requestJson` behind them, is to
  -- resolve it once, and an address that is changed by it has a scheme.
  pub resolve_twice :
      (o : Origins) (u : String)
      → let once = resolve_ticketing_api_url js o u in
        (resolve_ticketing_api_url js o once ≡ once) × ((once ≡ u) ⊎ (has_scheme once ≡ true))
  unfolding resolve_ticketing_api_url
  resolve_twice o u =
      resolve_with_twice (get_ticketing_api_origin js o) u (get_ticketing_api_origin-IsOrigin o)

  field-with_token :
      (token : String) (headers : Fields) (key : String)
      → field key (with_token js (text token) headers) ≡ (
          if takes_token js token headers && "Authorization" === key
          then text ("Bearer " ++ js.trim token)
          else field key headers)
  unfolding with_token
  field-with_token token headers key = elim (Bool-cases (takes_token js token headers)) [
    | inl taken ↦
        rw taken (field-set_field key "Authorization" (text ("Bearer " ++ js.trim token)) headers)
    | inr kept ↦ rw kept refl
  ]

  same_type :
      (token : String) (wants : Bool) (headers : Fields)
      → takes_type wants (with_token js (text token) headers) ≡ takes_type wants headers
  unfolding takes_type
  same_type token wants headers =
      rw
        (
          either (takes_token js token headers) _ (field-with_token token headers "Content-Type"),
          either (takes_token js token headers) _ (field-with_token token headers "content-type"),
        )
        refl
    where
      either : (b : Bool) {v w : Value} (t : Value) → v ≡ (if b && false then t else w) → v ≡ w
      either true t e = e
      either false t e = e

  -- Each header of a request is the caller's, but for two: the authorization is that of the token
  -- where there is one and the caller gives none, under either spelling, and the type is that of JSON
  -- where one is wanted and the caller gives none, under either spelling.
  pub headers_lem :
      (token : String) (wants : Bool) (headers : Fields) (key : String)
      → field key (with_type wants (with_token js (text token) headers)) ≡ (
          if takes_type wants headers && "Content-Type" === key
          then text "application/json"
          else if takes_token js token headers && "Authorization" === key
          then text ("Bearer " ++ js.trim token)
          else field key headers)
  unfolding with_type
  headers_lem token wants headers key =
      let given = with_token js (text token) headers in
      let same : takes_type wants given ≡ takes_type wants headers =
        same_type token wants headers in
      elim (Bool-cases (takes_type wants headers)) [
        | inl taken ↦
            rw (same, taken)
              (field-set_field key "Content-Type" (text "application/json") given
                ∙ ap (λ v. if "Content-Type" === key then text "application/json" else v)
                    (field-with_token token headers key))
        | inr kept ↦ rw (same, kept) (field-with_token token headers key)
      ]
