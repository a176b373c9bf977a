-- ===== src/Theaters/Prefill/First.antt =====
-- The first theater by id that passes a test.
use mathlib.Core.Option.{some-injective}
use soldesk.Prelude.{
  ◌≡◌, refl, sym, ◌∙◌, subst, List, [], ◌∷◌, some, Bool, true, false, ◌&&◌, Bool-cases, inl, inr,
  if_holds, if_true, if_false, find, exists, All, arith,
}
use soldesk.Prelude.Int.{ℤ, leb_ℤ, ltb_ℤ}
use soldesk.Theaters.Prefill.{insert_id, get_all_theaters_sorted}

insert_id-exists :
    (q : ℤ → Bool) (id : ℤ) (ids : List ℤ) → exists q (insert_id id ids) ≡ exists q (id ∷ ids)
unfolding insert_id
insert_id-exists q id [] = refl
insert_id-exists q id (i ∷ ids) =
    if_holds (λ js. exists q js ≡ exists q (id ∷ i ∷ ids)) (leb_ℤ id i) (λ _. refl)
      (λ _. let further = insert_id-exists q id ids in ground (arith, further))

-- The sorted theaters are the theaters.
pub get_all_theaters_sorted-exists :
    (q : ℤ → Bool) (ids : List ℤ) → exists q (get_all_theaters_sorted ids) ≡ exists q ids
unfolding get_all_theaters_sorted
get_all_theaters_sorted-exists q [] = refl
get_all_theaters_sorted-exists q (id ∷ ids) =
    let further = get_all_theaters_sorted-exists q ids in
    insert_id-exists q id (get_all_theaters_sorted ids) ∙ ground (arith, further)

-- Each id is at most those behind it.
abbrev AreSorted : List ℤ → Type 0
AreSorted [] = Unit
AreSorted (id ∷ ids) = All (λ i. leb_ℤ id i ≡ true) ids × AreSorted ids

insert_id-All {κ} :
    (P : ℤ → Type κ) (id : ℤ) (ids : List ℤ) → P id → All P ids → All P (insert_id id ids)
unfolding insert_id
insert_id-All P id [] p a = (p, tt)
insert_id-All P id (i ∷ ids) p (q, a) =
    if_holds (All P) (leb_ℤ id i) (λ _. (p, (q, a))) (λ _. (q, insert_id-All P id ids p a))

All-insert_id {κ} :
    (P : ℤ → Type κ) (id : ℤ) (ids : List ℤ) → All P (insert_id id ids) → All P (id ∷ ids)
unfolding insert_id
All-insert_id P id [] a = a
All-insert_id P id (i ∷ ids) a = elim (Bool-cases (leb_ℤ id i)) [
  | inl here ↦ subst (All P) (if_true _ _ here) a
  | inr later ↦
      let (q, rest) : All P (i ∷ insert_id id ids) = subst (All P) (if_false _ _ later) a in
      let (p, others) = All-insert_id P id ids rest in (p, (q, others))
]

-- What holds of all sorted theaters holds of all theaters.
All-get_all_theaters_sorted {κ} :
    (P : ℤ → Type κ) (ids : List ℤ) → All P (get_all_theaters_sorted ids) → All P ids
unfolding get_all_theaters_sorted
All-get_all_theaters_sorted P [] a = tt
All-get_all_theaters_sorted P (id ∷ ids) a =
    let (p, rest) = All-insert_id P id (get_all_theaters_sorted ids) a in
    (p, All-get_all_theaters_sorted P ids rest)

below-All :
    (a b : ℤ) (ids : List ℤ)
    → leb_ℤ a b ≡ true
    → All (λ i. leb_ℤ b i ≡ true) ids
    → All (λ i. leb_ℤ a i ≡ true) ids
below-All a b [] h all = tt
below-All a b (i ∷ ids) h (p, all) = (ground (arith, h, p), below-All a b ids h all)

insert_id-AreSorted : (id : ℤ) (ids : List ℤ) → AreSorted ids → AreSorted (insert_id id ids)
unfolding insert_id
insert_id-AreSorted id [] o = (tt, tt)
insert_id-AreSorted id (i ∷ ids) (a, o) =
    if_holds AreSorted (leb_ℤ id i) (λ here. ((here, below-All id i ids here a), (a, o)))
      (λ later. (
        insert_id-All (λ j. leb_ℤ i j ≡ true) id ids (ground (arith, later)) a,
        insert_id-AreSorted id ids o,
      ))

get_all_theaters_sorted-AreSorted : (ids : List ℤ) → AreSorted (get_all_theaters_sorted ids)
unfolding get_all_theaters_sorted
get_all_theaters_sorted-AreSorted [] = tt
get_all_theaters_sorted-AreSorted (id ∷ ids) =
    insert_id-AreSorted id (get_all_theaters_sorted ids) (get_all_theaters_sorted-AreSorted ids)

-- A theater that comes before the id fails the test.
abbrev pub FailsBefore : (ℤ → Bool) → ℤ → ℤ → Type 0
FailsBefore p t id = (ltb_ℤ id t && p id) ≡ false

none_before :
    (p : ℤ → Bool) (t : ℤ) (ids : List ℤ)
    → All (λ i. leb_ℤ t i ≡ true) ids
    → All (FailsBefore p t) ids
none_before p t [] a = tt
none_before p t (i ∷ ids) (h, a) =
    let late : ltb_ℤ i t ≡ false = ground (arith, h) in (rw late refl, none_before p t ids a)

find_first :
    (p : ℤ → Bool) (ids : List ℤ) (t : ℤ)
    → AreSorted ids
    → find p ids ≡ some t
    → (p t ≡ true) × All (FailsBefore p t) ids
find_first p [] t o e = cc
find_first p (i ∷ ids) t (a, o) e = elim (Bool-cases (p i)) [
  | inl fits ↦
      let same : i ≡ t = some-injective i t (sym (if_true _ _ fits) ∙ e) in
      let late : ltb_ℤ i i ≡ false = ground arith in
      subst (λ k. (p k ≡ true) × All (FailsBefore p k) (i ∷ ids)) same
        (fits, (rw late refl, none_before p i ids a))
  | inr misfits ↦
      let (good, rest) = find_first p ids t o (sym (if_false _ _ misfits) ∙ e) in
      (good, (fails i misfits, rest))
]
  where
    either : (b : Bool) → (b && false) ≡ false
    either true = refl
    either false = refl

    fails : (k : ℤ) → p k ≡ false → FailsBefore p t k
    fails k misfits = rw misfits (either (ltb_ℤ k t))

-- The theater that is found passes the test, and no theater with a smaller id does.
pub find-get_all_theaters_sorted :
    (p : ℤ → Bool) (ids : List ℤ) (t : ℤ)
    → find p (get_all_theaters_sorted ids) ≡ some t
    → (p t ≡ true) × All (FailsBefore p t) ids
find-get_all_theaters_sorted p ids t e =
    let (good, rest) =
      find_first p (get_all_theaters_sorted ids) t (get_all_theaters_sorted-AreSorted ids) e in
    (good, All-get_all_theaters_sorted (FailsBefore p t) ids rest)
