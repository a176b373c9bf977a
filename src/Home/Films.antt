-- ===== src/Home/Films.antt =====
-- The films of the home page (`loadMainMovies`).
use mathlib.Core.List.Permᴰ
use mathlib.Core.List.{Permᴰ}
use soldesk.Prelude.{
  ℕ, ◌≤◌, ◌≡◌, refl, List, [], ◌∷◌, ◌++◌, Option, none, some, Bool, if◌then◌else◌, leb, leb→le,
  if_holds, zero, suc, min, ◌∙◌, take-append-drop, length-take, keep, take, drop, length, All,
  arith,
}
use soldesk.Js.Value.{Value, is_text}

-- A film of the answer; its audience is the whole number of the database, 0 where it has none.
pub record Film : Type 0 where
  pub status : Value
  pub audience_count : ℕ
  pub title : Value
  pub genre : Value
  pub release_date : Value
  pub synopsis : Value

-- `sort` by the difference of two audiences is stable, and puts the larger first.
insert_film : Film → List Film → List Film
insert_film m [] = m ∷ []
insert_film m (x ∷ xs) =
    if leb x.audience_count m.audience_count then m ∷ x ∷ xs else x ∷ insert_film m xs

unfoldable pub sort_films : List Film → List Film
unfolding insert_film
sort_films [] = []
sort_films (m ∷ movies) = insert_film m (sort_films movies)

abbrev pub is_active : Film → Bool
is_active m = is_text "ACTIVE" m.status

-- `loadMainMovies`, from the answer; `none` is an answer that is no array.
unfoldable pub load_main_movies : Option (List Film) → List Film
unfolding sort_films
load_main_movies none = []
load_main_movies (some response) = take 4 (sort_films (keep is_active response))

-- Each film has at least the audience of those behind it.
abbrev pub Descending : List Film → Type 0
Descending [] = Unit
Descending (m ∷ ms) = All (λ x. x.audience_count ≤ m.audience_count) ms × Descending ms

Perm-length : {xs ys : List Film} → Permᴰ xs ys → length xs ≡ length ys
Perm-length Permᴰ.nil = refl
Perm-length (Permᴰ.cons e d) = rw (Perm-length d) refl
Perm-length (Permᴰ.swap e f) = refl
Perm-length (Permᴰ.trans d e) = Perm-length d ∙ Perm-length e

insert_film-Perm : (m : Film) (xs : List Film) → Permᴰ (insert_film m xs) (m ∷ xs)
unfolding insert_film
insert_film-Perm m [] = Permᴰ.refl _
insert_film-Perm m (x ∷ xs) =
    if_holds (λ l. Permᴰ l (m ∷ x ∷ xs)) (leb x.audience_count m.audience_count)
      (λ here. Permᴰ.refl _)
      (λ later. Permᴰ.trans (Permᴰ.cons refl (insert_film-Perm m xs)) (Permᴰ.swap refl refl))

sort_films-Perm : (xs : List Film) → Permᴰ (sort_films xs) xs
unfolding sort_films
sort_films-Perm [] = Permᴰ.nil
sort_films-Perm (m ∷ xs) =
    Permᴰ.trans (insert_film-Perm m (sort_films xs)) (Permᴰ.cons refl (sort_films-Perm xs))

insert_film-All :
    (P : Film → Type 0) (m : Film) (xs : List Film) → P m → All P xs → All P (insert_film m xs)
unfolding insert_film
insert_film-All P m [] p a = (p, tt)
insert_film-All P m (x ∷ xs) p (q, a) =
    if_holds (All P) (leb x.audience_count m.audience_count) (λ here. (p, (q, a)))
      (λ later. (q, insert_film-All P m xs p a))

below-All :
    (n m : ℕ) (xs : List Film)
    → n ≤ m
    → All (λ x. x.audience_count ≤ n) xs
    → All (λ x. x.audience_count ≤ m) xs
below-All n m [] h a = tt
below-All n m (x ∷ xs) h (p, a) = (omega (arith, h, p), below-All n m xs h a)

insert_film-Descending : (m : Film) (xs : List Film) → Descending xs → Descending (insert_film m xs)
unfolding insert_film
insert_film-Descending m [] d = (tt, tt)
insert_film-Descending m (x ∷ xs) (a, d) =
    if_holds Descending (leb x.audience_count m.audience_count)
      (λ here.
        let below = leb→le x.audience_count m.audience_count here in
        ((below, below-All x.audience_count m.audience_count xs below a), (a, d)))
      (λ later. (
        insert_film-All (λ y. y.audience_count ≤ x.audience_count) m xs (ground arith) a,
        insert_film-Descending m xs d,
      ))

sort_films-Descending : (xs : List Film) → Descending (sort_films xs)
unfolding sort_films
sort_films-Descending [] = tt
sort_films-Descending (m ∷ xs) = insert_film-Descending m (sort_films xs) (sort_films-Descending xs)

take-All :
    (P : Film → Type 0) (n : ℕ) (xs : List Film) → All P xs → All P (take n xs) × All P (drop n xs)
take-All P zero xs a = (tt, a)
take-All P (suc n) [] a = (tt, tt)
take-All P (suc n) (x ∷ xs) (p, a) = let (front, back) = take-All P n xs a in ((p, front), back)

-- The first films of a descending list descend, and each has at least the audience of the others.
take-Descending :
    (n : ℕ) (xs : List Film)
    → Descending xs
    → Descending (take n xs)
      × All (λ m. All (λ x. x.audience_count ≤ m.audience_count) (drop n xs)) (take n xs)
take-Descending zero xs d = (tt, tt)
take-Descending (suc n) [] d = (tt, tt)
take-Descending (suc n) (x ∷ xs) (a, d) =
    let (front, back) = take-All (λ y. y.audience_count ≤ x.audience_count) n xs a in
    let (ordered, over) = take-Descending n xs d in ((front, ordered), (back, over))

-- The films of the home page: with some others, they are the active films of the answer in some
-- order; they are four, or all the active ones where these are fewer; they descend by audience; and
-- none of the others has a larger audience than one of them.
pub load_main_movies_lem :
    (response : List Film)
    → let shown = load_main_movies (some response) in
      (others : List Film) × Permᴰ (shown ++ others) (keep is_active response)
      × (length shown ≡ min 4 (length (keep is_active response)))
      × Descending shown
      × All (λ m. All (λ x. x.audience_count ≤ m.audience_count) others) shown
unfolding load_main_movies
load_main_movies_lem response =
    let sorted = sort_films (keep is_active response) in
    let (ordered, over) =
      take-Descending 4 sorted (sort_films-Descending (keep is_active response)) in
    let same = sort_films-Perm (keep is_active response) in
    (
      drop 4 sorted,
      rw (take-append-drop 4 sorted) same,
      rw (length-take 4 sorted, Perm-length same) refl,
      ordered,
      over,
    )
