-- ===== src/Catalogue/Movies/Laws.antt =====
-- The list of films holds each listed film of the answer once, by ascending id.
use soldesk.Prelude.{
  ℕ, ◌≡◌, refl, sym, subst, ap, ◌∙◌, List, [], ◌∷◌, ◌++◌, Option, none, some, true, false, ◌&&◌,
  not, ◌==◌, if◌then◌else◌, Bool-cases, inl, inr, keep, take, arith,
}
use soldesk.Js.Value.{Engine}
use soldesk.Catalogue.Order.{
  has_key, with_key, DistinctKeys, Ascending, sort_by-with_key, sort_by-Ascending,
}
use soldesk.Catalogue.Movies.{Movie, present, is_listed, dedup, load_movies}

abbrev pub id_of : Movie → ℕ
id_of m = m.movie_id

append-nil : (xs : List Movie) → xs ++ [] ≡ xs
append-nil [] = refl
append-nil (x ∷ xs) = ap (x ∷◌) (append-nil xs)

with_key-snoc :
    (k : ℕ) (xs : List Movie) (m : Movie)
    → with_key id_of k (xs ++ m ∷ [])
      ≡ with_key id_of k xs ++ (if m.movie_id == k then m ∷ [] else [])
with_key-snoc k [] m = refl
with_key-snoc k (x ∷ xs) m = elim (Bool-cases (x.movie_id == k)) [
  | inl same ↦ rw (same, with_key-snoc k xs m) refl
  | inr other ↦ rw (other, with_key-snoc k xs m) refl
]

has_key-snoc :
    (k : ℕ) (xs : List Movie) (m : Movie)
    → has_key id_of k (xs ++ m ∷ []) ≡ (if has_key id_of k xs then true else m.movie_id == k)
has_key-snoc k [] m = ground arith
has_key-snoc k (x ∷ xs) m = ground (arith, has_key-snoc k xs m)

with_key-none : (k : ℕ) (xs : List Movie) → has_key id_of k xs ≡ false → with_key id_of k xs ≡ []
with_key-none k [] h = refl
with_key-none k (x ∷ xs) h = ground (arith, with_key-none k xs)

DistinctKeys-snoc :
    (xs : List Movie) (m : Movie)
    → DistinctKeys id_of xs
    → has_key id_of m.movie_id xs ≡ false
    → DistinctKeys id_of (xs ++ m ∷ [])
DistinctKeys-snoc [] m d h = (refl, tt)
DistinctKeys-snoc (x ∷ xs) m (e, d) h =
    (has_key-snoc x.movie_id xs m ∙ ground arith, DistinctKeys-snoc xs m d (ground arith))

module _ (js : Engine) where
  dedup-DistinctKeys :
      (found : List Movie) (movies : List (Option Movie))
      → DistinctKeys id_of found
      → DistinctKeys id_of (dedup js found movies)
  unfolding dedup
  dedup-DistinctKeys found [] d = d
  dedup-DistinctKeys found (none ∷ movies) d = dedup-DistinctKeys found movies d
  dedup-DistinctKeys found (some m ∷ movies) d =
      elim (Bool-cases (is_listed js m && not (has_key id_of m.movie_id found))) [
        | inl new ↦ rw new (
            dedup-DistinctKeys (found ++ m ∷ []) movies
              (DistinctKeys-snoc found m d (ground arith)))
        | inr old ↦ rw old (dedup-DistinctKeys found movies d)
      ]

  absent_at :
      (k : ℕ) (found : List Movie) (m : Movie)
      → (is_listed js m && not (has_key id_of m.movie_id found)) ≡ true
      → (m.movie_id == k) ≡ true
      → has_key id_of k found ≡ false
  absent_at k found m new same =
      let e : m.movie_id ≡ k = ground arith in
      let gone : has_key id_of m.movie_id found ≡ false = ground arith in
      subst (λ n. has_key id_of n found ≡ false) e gone

  unlisted_at :
      (k : ℕ) (found : List Movie) (m : Movie)
      → (is_listed js m && not (has_key id_of m.movie_id found)) ≡ false
      → has_key id_of k found ≡ false
      → ((m.movie_id == k) && is_listed js m) ≡ false
  unlisted_at k found m old absent = elim (Bool-cases (m.movie_id == k)) [
    | inr other ↦ rw other refl
    | inl same ↦
        let e : m.movie_id ≡ k = ground arith in
        let gone : has_key id_of m.movie_id found ≡ false =
          subst (λ n. has_key id_of n found ≡ false) (sym e) absent in
        ground arith
  ]

  -- The films of one id: the one that was found first, and else the first listed one.
  dedup-with_key :
      (k : ℕ) (found : List Movie) (movies : List (Option Movie))
      → with_key id_of k (dedup js found movies) ≡ (
          if has_key id_of k found
          then with_key id_of k found
          else take 1 (keep (λ m. (m.movie_id == k) && is_listed js m) (present movies)))
  unfolding dedup
  dedup-with_key k found [] = ground (arith, with_key-none k found)
  dedup-with_key k found (none ∷ movies) = dedup-with_key k found movies
  dedup-with_key k found (some m ∷ movies) =
      elim (Bool-cases (is_listed js m && not (has_key id_of m.movie_id found))) [
        | inl new ↦
            let longer = dedup-with_key k (found ++ m ∷ []) movies in
            elim (Bool-cases (m.movie_id == k)) [
              | inl same ↦
                  let absent : has_key id_of k found ≡ false = absent_at k found m new same in
                  let listed : is_listed js m ≡ true = ground arith in
                  rw
                    (
                      new,
                      longer,
                      has_key-snoc k found m,
                      with_key-snoc k found m,
                      absent,
                      same,
                      listed,
                    )
                    (ap (λ xs. xs ++ m ∷ []) (with_key-none k found absent))
              | inr other ↦
                  rw (new, longer, has_key-snoc k found m, with_key-snoc k found m, other)
                    (elim (Bool-cases (has_key id_of k found)) [
                      | inl there ↦ rw there (append-nil (with_key id_of k found))
                      | inr absent ↦ rw absent refl
                    ])
            ]
        | inr old ↦ elim (Bool-cases (has_key id_of k found)) [
          | inl there ↦ rw (old, dedup-with_key k found movies, there) refl
          | inr absent ↦
              let unlisted : ((m.movie_id == k) && is_listed js m) ≡ false =
                unlisted_at k found m old absent in
              rw (old, dedup-with_key k found movies, absent, unlisted) refl
        ]
      ]

  -- The films of the list come by ascending id, so none twice, and the one with an id is the first
  -- of the answer that has this id and is listed.
  pub load_movies_lem :
      (response : List (Option Movie)) (id : ℕ)
      → Ascending id_of (load_movies js (some response))
        × (with_key id_of id (load_movies js (some response))
            ≡ take 1 (keep (λ m. (m.movie_id == id) && is_listed js m) (present response)))
  unfolding load_movies
  load_movies_lem response id = (
    sort_by-Ascending id_of (dedup js [] response) (dedup-DistinctKeys [] response tt),
    sort_by-with_key id_of id (dedup js [] response) ∙ dedup-with_key id [] response,
  )
