-- ===== src/Home/Slider/Shown.antt =====
-- Which film the slides show, once the backgrounds they wait for are there.
use soldesk.Prelude.{
  ℕ, zero, suc, ◌-◌, ◌<◌, ◌≡◌, refl, sym, subst, inl, inr, List, [], ◌∷◌, ◌++◌, Option, none, some,
  Bool, true, false, ◌&&◌, if◌then◌else◌, if_holds, option_holds, ltb, leb, ◌==◌, length, get_elem?,
  exists, pick, All, arith,
}
use soldesk.Home.Films.{Film, load_main_movies}
use soldesk.Home.Slider.{
  Rendering, Hero, Event, stop_auto_slide, start_auto_slide, reset_auto_slide, slide_at,
  current_film, is_layout, is_message, render_current_slide, plus_one, show_slide, settle,
  move_slide, advance, mount_body, fill_body, take_answer, on_cache_rebuilt, handle, run, mounts,
  leaves, cache_rebuilt, movies_answer, background_settled, interval_fires, arrow_click,
  indicator_click, mouse_enter, mouse_leave, unopened,
}
use soldesk.Home.Slider.Timer.{IsSound, IsIndex, at_index-IsSound, moved-IsIndex, waiting-IsSound}
use soldesk.Home.Slider.Laws.{handle-IsSound, unopened-IsSound, filled_body-IsSound}

abbrev pub last {ℓ} : {A : Type ℓ} → List A → Option A
last [] = none
last (x ∷ []) = some x
last (x ∷ y ∷ xs) = last (y ∷ xs)

last-append {ℓ} : {A : Type ℓ} (xs : List A) (x : A) → last (xs ++ x ∷ []) ≡ some x
last-append [] x = refl
last-append (y ∷ []) x = refl
last-append (y ∷ z ∷ xs) x = last-append (z ∷ xs) x

-- The last slide that waits is that of the current film; where none waits, the film shown and its
-- rank are the current ones.
abbrev pub CurrentAt :
    Option Rendering → Option Film → Option ℕ → ℕ → Option Film → Option ℕ → Type 0
CurrentAt none film top layouts shown rank = (shown ≡ film) × (rank ≡ top)
CurrentAt (some r) film top layouts shown rank = (some r.movie ≡ film) × (r.layout ≡ layouts)

pub record IsCurrent (s : Hero) : Type 0 where
  pub current :
      is_layout s.mount ≡ true
      → CurrentAt
          (last s.renderings)
          (current_film s)
          (plus_one s.current_index)
          s.layouts
          s.shown
          s.rank

get_elem?-some :
    (i : ℕ) (movies : List Film) → i < length movies → (m : Film) × (get_elem? movies i ≡ some m)
get_elem?-some i [] h = ground (arith, h)
get_elem?-some zero (m ∷ movies) h = (m, refl)
get_elem?-some (suc i) (m ∷ movies) h = get_elem?-some i movies (omega (arith, h))

film_there :
    (index : Option ℕ) (movies : List Film)
    → IsIndex index (length movies)
    → 0 < length movies
    → (m : Film) × (slide_at index movies ≡ some m)
unfolding slide_at
film_there none movies v h = ground (arith, v, h)
film_there (some i) movies (inl v) h = ground (arith, v, h)
film_there (some i) movies (inr v) h = get_elem?-some i movies v

render-IsCurrent : (b : Bool) {s : Hero} → IsSound s → IsCurrent (render_current_slide b s)
unfolding render_current_slide
render-IsCurrent b {s} v =
    if_holds IsCurrent (is_layout s.mount) rendered
      (λ plain. record { current = λ e. ground (arith, plain, e) })
  where
    rendered :
        is_layout s.mount ≡ true
        → IsCurrent (elim (current_film s) [
          | none ↦ s
          | some movie ↦ record s {
            renderings =
                s.renderings ++ record { movie = movie; layout = s.layouts; starts = b } ∷ [];
          }
        ])
    rendered here =
        let (m, e) = film_there s.current_index s.slider_data v.indexed (v.filled here) in
        rw e (record {
          current = λ _.
              rw (last-append s.renderings (record { movie = m; layout = s.layouts; starts = b }))
                (sym e, refl);
        })

stop-IsCurrent : {s : Hero} → IsCurrent s → IsCurrent (stop_auto_slide s)
unfolding stop_auto_slide
stop-IsCurrent {s} c =
    option_holds IsCurrent s.auto_slide_timer (λ _. c) (λ t _. record { current = c.current })

start-IsCurrent : {s : Hero} → IsCurrent s → IsCurrent (start_auto_slide s)
unfolding start_auto_slide
start-IsCurrent {s} c =
    let d = stop-IsCurrent c in
    if_holds IsCurrent (leb (length s.slider_data) 1) (λ _. d)
      (λ _. if_holds IsCurrent s.is_hovering_hero (λ _. d) (λ _. record { current = d.current }))

reset-IsCurrent : {s : Hero} → IsCurrent s → IsCurrent (reset_auto_slide s)
unfolding reset_auto_slide
reset-IsCurrent {s} c =
    if_holds IsCurrent s.is_hovering_hero (λ _. stop-IsCurrent c)
      (λ _. start-IsCurrent (stop-IsCurrent c))

-- While one waits, what is shown is of no matter.
still_waiting :
    (r : Rendering) (rs : List Rendering) (film : Option Film) (top : Option ℕ) (layouts : ℕ)
    (shown shown' : Option Film) (rank rank' : Option ℕ)
    → CurrentAt (last (r ∷ rs)) film top layouts shown rank
    → CurrentAt (last (r ∷ rs)) film top layouts shown' rank'
still_waiting r [] film top layouts shown shown' rank rank' c = c
still_waiting r (r' ∷ rs) film top layouts shown shown' rank rank' c =
    still_waiting r' rs film top layouts shown shown' rank rank' c

-- A slide that is done with: the oldest.
show-IsCurrent :
    (r : Rendering) (there : Bool) {s : Hero} (others : List Rendering)
    → IsCurrent s
    → s.renderings ≡ r ∷ others
    → IsCurrent (show_slide r there (record s { renderings = others }))
unfolding show_slide
show-IsCurrent r there {s} [] c e =
    if_holds IsCurrent (is_layout s.mount)
      (λ here.
        let same =
          subst
            (λ rs.
              CurrentAt (last rs) (current_film s) (plus_one s.current_index) s.layouts s.shown
                s.rank)
            e (c.current here) in
        let own : (r.layout == s.layouts) ≡ true = ground (arith, same.1) in
        rw own (record { current = λ _. (same.0, refl) }))
      (λ plain. record { current = λ e'. ground (arith, plain, e') })
show-IsCurrent r there {s} (x ∷ xs) c e =
    if_holds IsCurrent (is_layout s.mount)
      (λ here.
        let same =
          subst
            (λ rs.
              CurrentAt (last rs) (current_film s) (plus_one s.current_index) s.layouts s.shown
                s.rank)
            e (c.current here) in
        if_holds IsCurrent (r.layout == s.layouts)
          {x = record s {
            renderings = x ∷ xs;
            indicators = length s.slider_data;
            background = if there then some r.movie else none;
            rank = plus_one s.current_index;
            shown = some r.movie;
          }}
          {y = record s { renderings = x ∷ xs; indicators = length s.slider_data }}
          (λ _. record { current = λ _. still_waiting x xs _ _ _ s.shown _ s.rank _ same })
          (λ _. record { current = λ _. same }))
      (λ plain. record { current = λ e'. ground (arith, plain, e') })

abbrev pub OldestFirst : Event → Type 0
OldestFirst (background_settled place there) = place ≡ 0
OldestFirst _ = Unit

settle-IsCurrent :
    (there : Bool) {s : Hero} → IsCurrent s → IsCurrent (settle (pick 0 s.renderings) there s)
unfolding settle pick
settle-IsCurrent there {s} c = from s.renderings refl
  where
    from : (rs : List Rendering) → s.renderings ≡ rs → IsCurrent (settle (pick 0 rs) there s)
    from [] e = c
    from (r ∷ rs) e =
        let d = show-IsCurrent r there rs c e in
        if_holds IsCurrent r.starts (λ _. start-IsCurrent d) (λ _. d)

fill-IsCurrent : (movies : List Film) {s : Hero} → IsSound s → IsCurrent (fill_body movies s)
unfolding fill_body
fill-IsCurrent [] v = record { current = λ e. ground (arith, e) }
fill-IsCurrent (m ∷ movies) v = render-IsCurrent true (filled_body-IsSound m movies v)

plain-IsCurrent : {s : Hero} → is_layout s.mount ≡ false → IsCurrent s
plain-IsCurrent plain = record { current = λ e. ground (arith, plain, e) }

answer-IsCurrent :
    (answer : Option (Option (List Film))) {s : Hero} → IsSound s → IsCurrent (take_answer answer s)
unfolding take_answer
answer-IsCurrent none v = plain-IsCurrent refl
answer-IsCurrent (some response) v = fill-IsCurrent (load_main_movies response) v

handle-IsCurrent :
    (e : Event) {s : Hero} → OldestFirst e → IsSound s → IsCurrent s → IsCurrent (handle e s)
unfolding handle mount_body on_cache_rebuilt advance move_slide
handle-IsCurrent mounts o v c = plain-IsCurrent refl
handle-IsCurrent leaves o v c = plain-IsCurrent refl
handle-IsCurrent cache_rebuilt {s} o v c =
    if_holds IsCurrent (is_message s.mount) (λ _. plain-IsCurrent refl) (λ _. c)
handle-IsCurrent (movies_answer answer) {s} o v c =
    if_holds IsCurrent (s.loads == 0) (λ _. c)
      (λ _. answer-IsCurrent answer (waiting-IsSound s.renderings (s.loads - 1) v))
handle-IsCurrent (background_settled place there) {s} o v c = rw o (settle-IsCurrent there c)
handle-IsCurrent (interval_fires t) {s} o v c =
    if_holds IsCurrent (exists (λ i. i == t) s.intervals)
      (λ _.
        render-IsCurrent false (at_index-IsSound _ v (moved-IsIndex s.current_index _ _ v.indexed)))
      (λ _. c)
handle-IsCurrent (arrow_click d) {s} o v c =
    if_holds IsCurrent (is_layout s.mount)
      (λ _.
        if_holds IsCurrent (length s.slider_data == 0) (λ _. c)
          (λ _. reset-IsCurrent (
            render-IsCurrent false
              (at_index-IsSound _ v (moved-IsIndex s.current_index _ _ v.indexed)))))
      (λ _. c)
handle-IsCurrent (indicator_click i) {s} o v c =
    if_holds IsCurrent (is_layout s.mount && ltb i s.indicators)
      (λ h.
        reset-IsCurrent (
          render-IsCurrent false
            (at_index-IsSound (some i) v (inr (ground (arith, h, v.buttons))))))
      (λ _. c)
handle-IsCurrent mouse_enter {s} o v c =
    if_holds IsCurrent (is_layout s.mount)
      (λ _.
        reset-IsCurrent {s = record s { is_hovering_hero = true }} (record { current = c.current }))
      (λ _. c)
handle-IsCurrent mouse_leave {s} o v c =
    if_holds IsCurrent (is_layout s.mount)
      (λ _.
        reset-IsCurrent {s = record s { is_hovering_hero = false }}
          (record { current = c.current }))
      (λ _. c)

run-IsCurrent :
    (es : List Event) {s : Hero}
    → All OldestFirst es
    → IsSound s
    → IsCurrent s
    → let after = run es s in
      is_layout after.mount ≡ true
      → after.renderings ≡ []
      → (after.shown ≡ current_film after) × (after.rank ≡ plus_one after.current_index)
unfolding run
run-IsCurrent [] {s} o v c here e =
    subst
      (λ rs.
        CurrentAt (last rs) (current_film s) (plus_one s.current_index) s.layouts s.shown s.rank)
      e (c.current here)
run-IsCurrent (e ∷ es) (o, os) v c here waiting =
    run-IsCurrent es os (handle-IsSound e v) (handle-IsCurrent e o v c) here waiting

-- Whatever happens from before the page is opened on, where the backgrounds come in the order in which
-- they are asked for: while slides are shown and no background is waited for, the film shown is the
-- current one, under the rank of its place.
pub run-unopened-IsCurrent :
    (es : List Event)
    → All OldestFirst es
    → let after = run es unopened in
      is_layout after.mount ≡ true
      → after.renderings ≡ []
      → (after.shown ≡ current_film after) × (after.rank ≡ plus_one after.current_index)
run-unopened-IsCurrent es o here waiting =
    run-IsCurrent es o unopened-IsSound (record { current = λ e. ground (arith, e) }) here waiting
