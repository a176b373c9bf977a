-- ===== src/Home/Slider/Laws.antt =====
-- What the slides keep true, whatever happens to the page.
use soldesk.Prelude.{
  ℕ, ◌≡◌, refl, ap, ◌∙◌, List, [], ◌∷◌, Option, none, some, true, false, ◌&&◌, if_holds,
  option_holds, inl, inr, ltb, ◌==◌, exists, pick, arith,
}
use soldesk.Home.Films.{Film, load_main_movies}
use soldesk.Home.Slider.{
  Mount, other, loading, failed, Hero, Event, stop_auto_slide, reset_auto_slide, is_layout,
  is_message, mount_body, filled_body, fill_body, take_answer, on_cache_rebuilt, handle, run,
  mounts, leaves, cache_rebuilt, movies_answer, background_settled, interval_fires, arrow_click,
  indicator_click, mouse_enter, mouse_leave, unopened,
}
use soldesk.Home.Slider.Timer.{
  just, IsSound, none_left, stop-IsSound, start-IsSound, reset-IsSound, waiting-IsSound,
  render-IsSound, at_index-IsSound, move-IsSound, advance-IsSound, settle-IsSound,
}

-- Another page, or a part of this one without slides.
mounted-IsSound :
    (m : Mount) (loads : ℕ) {s : Hero}
    → is_layout m ≡ false
    → IsSound s
    → IsSound (record s { mount = m; loads = loads })
mounted-IsSound m loads plain v = record {
  timed = v.timed;
  still = v.still;
  indexed = v.indexed;
  filled = λ e. ground (arith, plain, e);
  buttons = λ e. ground (arith, plain, e);
}

pub filled_body-IsSound :
    (m : Film) (movies : List Film) {s : Hero} → IsSound s → IsSound (filled_body m movies s)
unfolding filled_body
filled_body-IsSound m movies v = record {
  timed = v.timed;
  still = v.still;
  indexed = inr (omega arith);
  filled = λ e. omega arith;
  buttons = λ e. omega arith;
}

fill-IsSound : (movies : List Film) {s : Hero} → IsSound s → IsSound (fill_body movies s)
unfolding fill_body
fill-IsSound [] v = record {
  timed = v.timed;
  still = v.still;
  indexed = inl refl;
  filled = λ e. ground (arith, e);
  buttons = λ e. ground (arith, e);
}
fill-IsSound (m ∷ movies) {s} v = render-IsSound true (filled_body-IsSound m movies v)

answer-IsSound :
    (answer : Option (Option (List Film))) (loads : ℕ) {s : Hero}
    → IsSound s
    → IsSound (take_answer answer (record s { loads = loads }))
unfolding take_answer
answer-IsSound none loads v = mounted-IsSound failed loads refl v
answer-IsSound (some response) loads v =
    fill-IsSound (load_main_movies response) (waiting-IsSound _ loads v)

-- The mouse comes over the slides, and leaves them.
hovering-IsSound :
    {s : Hero} → IsSound s → IsSound (stop_auto_slide (record s { is_hovering_hero = true }))
unfolding stop_auto_slide
hovering-IsSound {s} v =
    option_holds IsSound s.auto_slide_timer
      (λ idle. record {
        timed = v.timed;
        still = λ _. idle;
        indexed = v.indexed;
        filled = v.filled;
        buttons = v.buttons;
      })
      (λ t running. record {
        timed = none_left t s.intervals (v.timed ∙ ap just running);
        still = λ _. refl;
        indexed = v.indexed;
        filled = v.filled;
        buttons = v.buttons;
      })

away-IsSound : {s : Hero} → IsSound s → IsSound (record s { is_hovering_hero = false })
away-IsSound v = record {
  timed = v.timed;
  still = λ e. ground (arith, e);
  indexed = v.indexed;
  filled = v.filled;
  buttons = v.buttons;
}

pub handle-IsSound : (e : Event) {s : Hero} → IsSound s → IsSound (handle e s)
unfolding handle mount_body on_cache_rebuilt reset_auto_slide
handle-IsSound mounts v = mounted-IsSound loading _ refl v
handle-IsSound leaves v = mounted-IsSound other _ refl v
handle-IsSound cache_rebuilt {s} v =
    if_holds IsSound (is_message s.mount) (λ _. mounted-IsSound loading _ refl v) (λ _. v)
handle-IsSound (movies_answer answer) {s} v =
    if_holds IsSound (s.loads == 0) (λ _. v) (λ _. answer-IsSound answer _ v)
handle-IsSound (background_settled place there) {s} v =
    settle-IsSound (pick place s.renderings) there v
handle-IsSound (interval_fires t) {s} v =
    if_holds IsSound (exists (λ i. i == t) s.intervals) (λ _. advance-IsSound v) (λ _. v)
handle-IsSound (arrow_click d) {s} v =
    if_holds IsSound (is_layout s.mount) (λ _. move-IsSound d v) (λ _. v)
handle-IsSound (indicator_click i) {s} v =
    if_holds IsSound (is_layout s.mount && ltb i s.indicators)
      (λ h.
        reset-IsSound
          (render-IsSound false (at_index-IsSound (some i) v (inr (ground (arith, h, v.buttons))))))
      (λ _. v)
handle-IsSound mouse_enter {s} v =
    if_holds IsSound (is_layout s.mount) (λ _. hovering-IsSound v) (λ _. v)
handle-IsSound mouse_leave {s} v =
    if_holds IsSound (is_layout s.mount) (λ _. start-IsSound (stop-IsSound (away-IsSound v)))
      (λ _. v)

run-IsSound : (es : List Event) {s : Hero} → IsSound s → IsSound (run es s)
unfolding run
run-IsSound [] v = v
run-IsSound (e ∷ es) v = run-IsSound es (handle-IsSound e v)

pub unopened-IsSound : IsSound unopened
unopened-IsSound = record {
  timed = refl;
  still = λ _. refl;
  indexed = inl refl;
  filled = λ e. ground (arith, e);
  buttons = λ e. ground (arith, e);
}

-- Whatever happens from before the page is opened on: at most one interval runs, the one that is kept,
-- and none while the mouse is over the slides; and where the slides are shown there are films, the
-- index is that of one of them, and there are no more buttons than films.
pub run-unopened-IsSound : (es : List Event) → IsSound (run es unopened)
run-unopened-IsSound es = run-IsSound es unopened-IsSound
