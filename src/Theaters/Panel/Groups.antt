-- ===== src/Theaters/Panel/Groups.antt =====
-- Which screenings the panel shows under which hall.
use mathlib.Core.List.{append-nil, append_assoc}
use soldesk.Prelude.{
  ℕ, ◌≡◌, refl, sym, ap, ◌∙◌, String, List, [], ◌∷◌, ◌++◌, map, Bool, true, false, not, ◌&&◌, ◌===◌,
  if◌then◌else◌, Bool-cases, inl, inr, if_holds, is_empty, keep, exists, All, arith,
}
use soldesk.Prelude.Int.{ℤ, eqb_ℤ}
use soldesk.Js.Value.{Engine}
use soldesk.Catalogue.Order.{sort_by, Ordered, sort_by-Ordered, sort_by-sorted}
use soldesk.Theaters.Dataset.{Dataset, Screening, HallOf}
use soldesk.Theaters.Dataset.Offers.{
  Calendar, Choice, get_theater_schedules, get_schedules_for_selection, is_offered, time_or_zero,
}
use soldesk.Theaters.Session.{Session, is_set}
use soldesk.Theaters.Panel.{
  ByHall, Group, Panel, no_movies, choose_movie, no_times, groups, push, push_all, items_at,
  hall_title, create_schedule_card, id_or_zero, insert_hall, sort_halls,
  get_halls_for_theater_sorted, selected_schedules, has_movies, group_of, fill_schedule_area,
  render_date_panel,
}

-- The screenings in a hall.
abbrev pub in_hall : ℤ → List Screening → List Screening
in_hall id schedules = keep (λ s. eqb_ℤ s.hall_id id) schedules

items_at-push :
    (id : ℤ) (s : Screening) (by_hall : ByHall)
    → items_at id (push s by_hall) ≡ items_at id by_hall ++ in_hall id (s ∷ [])
unfolding items_at push
items_at-push id s [] = refl
items_at-push id s ((k, items) ∷ by_hall) = elim (Bool-cases (eqb_ℤ k s.hall_id)) [
  | inl own ↦ elim (Bool-cases (eqb_ℤ k id)) [
    | inl asked ↦ let same : eqb_ℤ s.hall_id id ≡ true = ground arith in rw (own, asked, same) refl
    | inr other ↦
        let apart : eqb_ℤ s.hall_id id ≡ false = ground arith in
        rw (own, other, apart) (sym (append-nil (items_at id by_hall)))
  ]
  | inr later ↦ elim (Bool-cases (eqb_ℤ k id)) [
    | inl asked ↦
        let apart : eqb_ℤ s.hall_id id ≡ false = ground arith in
        rw (later, asked, apart) (sym (append-nil items))
    | inr other ↦ rw (later, other) (items_at-push id s by_hall)
  ]
]

-- The map holds the screenings of each hall, in their order.
items_at-push_all :
    (id : ℤ) (schedules : List Screening) (by_hall : ByHall)
    → items_at id (push_all schedules by_hall) ≡ items_at id by_hall ++ in_hall id schedules
unfolding push_all
items_at-push_all id [] by_hall = sym (append-nil (items_at id by_hall))
items_at-push_all id (s ∷ schedules) by_hall =
    items_at-push_all id schedules (push s by_hall)
    ∙ ap (λ items. items ++ in_hall id schedules) (items_at-push id s by_hall)
    ∙ append_assoc (items_at id by_hall) (in_hall id (s ∷ [])) (in_hall id schedules)
    ∙ ap (items_at id by_hall ++◌) (in_hall_cons id s schedules)
  where
    in_hall_cons :
        (id : ℤ) (s : Screening) (schedules : List Screening)
        → in_hall id (s ∷ []) ++ in_hall id schedules ≡ in_hall id (s ∷ schedules)
    in_hall_cons id s schedules = elim (Bool-cases (eqb_ℤ s.hall_id id)) [
      | inl here ↦ rw here refl
      | inr elsewhere ↦ rw elsewhere refl
    ]

pub keep-All {ℓ κ} :
    {A : Type ℓ} (P : A → Type κ) (q : A → Bool) (xs : List A) → All P xs → All P (keep q xs)
keep-All P q [] a = tt
keep-All P q (x ∷ xs) (p, a) =
    if_holds (All P) (q x) (λ _. (p, keep-All P q xs a)) (λ _. keep-All P q xs a)

pub keep-holds {ℓ} : {A : Type ℓ} (q : A → Bool) (xs : List A) → All (λ x. q x ≡ true) (keep q xs)
keep-holds q [] = tt
keep-holds q (x ∷ xs) =
    if_holds (All (λ y. q y ≡ true)) (q x) (λ h. (h, keep-holds q xs)) (λ _. keep-holds q xs)

keep-Ordered {ℓ} :
    {A : Type ℓ} (key : A → ℕ) (q : A → Bool) (xs : List A)
    → Ordered key xs
    → Ordered key (keep q xs)
keep-Ordered key q [] o = tt
keep-Ordered key q (x ∷ xs) (a, o) =
    if_holds (Ordered key) (q x) (λ _. (keep-All _ q xs a, keep-Ordered key q xs o))
      (λ _. keep-Ordered key q xs o)

module _ (js : Engine) (cal : Calendar) where
  selected_schedules-Ordered :
      (now : ℕ) (s : Session) → Ordered (time_or_zero cal) (selected_schedules js cal now s)
  unfolding selected_schedules get_schedules_for_selection
  selected_schedules-Ordered now s =
      if_holds (Ordered (time_or_zero cal))
        (is_set s.chooser.selected_theater_id
          && is_set s.chooser.selected_movie_id
          && not (s.chooser.selected_date_key === ""))
        (λ _. sort_by-Ordered (time_or_zero cal) _) (λ _. tt)

  -- The section of a hall, with the screenings in it.
  abbrev pub section_of : List Screening → HallOf → Group
  section_of schedules hall = record {
    title = hall_title js hall;
    cards = map (create_schedule_card js) (in_hall hall.hall_id schedules);
  }

  group_of_lem :
      (schedules : List Screening) (hall : HallOf)
      → Ordered (time_or_zero cal) schedules
      → group_of js cal (push_all schedules []) hall ≡ section_of schedules hall
  unfolding group_of items_at
  group_of_lem schedules hall ordered =
      ap
        (λ items. record {
          title = hall_title js hall;
          cards = map (create_schedule_card js) (sort_by (time_or_zero cal) items);
        })
        (items_at-push_all hall.hall_id schedules [])
      ∙ ap
          (λ items. record {
            title = hall_title js hall;
            cards = map (create_schedule_card js) items;
          })
          (sort_by-sorted (time_or_zero cal) (in_hall hall.hall_id schedules)
            (keep-Ordered (time_or_zero cal) _ schedules ordered))

  sections_lem :
      (schedules : List Screening) (halls : List HallOf)
      → Ordered (time_or_zero cal) schedules
      → map (group_of js cal (push_all schedules [])) halls ≡ map (section_of schedules) halls
  sections_lem schedules [] ordered = refl
  sections_lem schedules (hall ∷ halls) ordered =
      rw (group_of_lem schedules hall ordered, sections_lem schedules halls ordered) refl

  module _ (in_order : String → String → Bool) where
    sort_halls-is_empty :
        (halls : List HallOf) → is_empty (sort_halls in_order halls) ≡ is_empty halls
    unfolding sort_halls insert_hall
    sort_halls-is_empty [] = refl
    sort_halls-is_empty (hall ∷ halls) = insert-is_empty hall (sort_halls in_order halls)
      where
        insert-is_empty :
            (h : HallOf) (hs : List HallOf) → is_empty (insert_hall in_order h hs) ≡ false
        insert-is_empty h [] = refl
        insert-is_empty h (g ∷ gs) = ground arith

    -- A theater without halls has no screenings.
    hall_less :
        (d : Dataset) (now : ℕ) (c : Choice)
        → is_empty (get_halls_for_theater_sorted in_order d c.theater_id) ≡ true
        → get_schedules_for_selection cal now c d ≡ []
    unfolding get_schedules_for_selection get_halls_for_theater_sorted get_theater_schedules sort_by
    hall_less d now c empty =
        by_halls (keep (λ h. eqb_ℤ h.theater_id c.theater_id) d.halls)
          (sym (sort_halls-is_empty (keep (λ h. eqb_ℤ h.theater_id c.theater_id) d.halls)) ∙ empty)
      where
        never : (schedules : List Screening) → keep (λ s. false) schedules ≡ []
        never [] = refl
        never (s ∷ schedules) = never schedules

        by_halls :
            (halls : List HallOf)
            → is_empty halls ≡ true
            → sort_by (time_or_zero cal) (
                keep
                  (is_offered cal now c)
                  (keep (λ s. exists (λ h. eqb_ℤ h.hall_id s.hall_id) halls) d.schedules))
              ≡ []
        by_halls [] e = rw (never d.schedules) refl
        by_halls (h ∷ halls) e = ground arith

    selected-hall_less :
        (now : ℕ) (s : Session)
        → is_empty (
            get_halls_for_theater_sorted in_order s.chooser.dataset
              (id_or_zero s.chooser.selected_theater_id))
          ≡ true
        → selected_schedules js cal now s ≡ []
    unfolding selected_schedules
    selected-hall_less now s empty =
        if_holds (λ schedules. schedules ≡ [])
          (is_set s.chooser.selected_theater_id
            && is_set s.chooser.selected_movie_id
            && not (s.chooser.selected_date_key === ""))
          (λ _. hall_less s.chooser.dataset now _ empty) (λ _. refl)

    -- What the panel says, told without the map of the halls.
    abbrev pub plain_panel : ℕ → Session → Panel
    plain_panel now s =
        let p = s.chooser in
        let halls =
          get_halls_for_theater_sorted in_order p.dataset (id_or_zero p.selected_theater_id) in
        if not (has_movies js cal p)
        then no_movies
        else if not (is_set p.selected_movie_id)
        then choose_movie
        else if is_empty halls
        then no_times
        else groups (map (section_of (selected_schedules js cal now s)) halls)

    area_lem :
        (d : Dataset) (halls : List HallOf) (schedules : List Screening)
        → Ordered (time_or_zero cal) schedules
        → (is_empty halls ≡ true → schedules ≡ [])
        → fill_schedule_area js cal in_order d halls schedules
          ≡ (if is_empty halls then no_times else groups (map (section_of schedules) halls))
    unfolding fill_schedule_area
    area_lem d [] schedules ordered nothing = rw (nothing refl) refl
    area_lem d (hall ∷ halls) schedules ordered nothing =
        ap groups (sections_lem schedules (hall ∷ halls) ordered)

    -- The panel is the plain one: each hall of the theater has a section, with just the screenings of
    -- the choice that are in it, by time; and the order in which the code looks for halls where the
    -- theater has none is of no matter, since then there are no screenings.
    pub render_date_panel_lem :
        (now : ℕ) (s : Session) → render_date_panel js cal in_order now s ≡ plain_panel now s
    unfolding render_date_panel
    render_date_panel_lem now s =
        ap
          (λ area.
            if not (has_movies js cal s.chooser)
            then no_movies
            else if not (is_set s.chooser.selected_movie_id)
            then choose_movie
            else area)
          (area_lem s.chooser.dataset _ (selected_schedules js cal now s)
            (selected_schedules-Ordered now s) (selected-hall_less now s))
