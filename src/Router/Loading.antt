-- ===== src/Router/Loading.antt =====
-- The queue of renderings and the loading layer (`queueRender`, `showRouteLoading`,
-- `hideRouteLoading`): renderings run one behind the other, each under the layer, whose spinner a
-- timer turns on.
use soldesk.Prelude.{
  ℕ, ◌+◌, ◌-◌, ◌≡◌, refl, List, [], ◌∷◌, Option, none, some, Bool, true, false, not, ◌&&◌, ◌==◌,
  if◌then◌else◌, arith,
}

pub record Loading : Type 0 where
  -- `routeLoadingToken`, and `routeLoadingSpinnerTimer` by the token that its timer was set with
  pub token : ℕ
  pub spinner_timer : Option ℕ
  -- the timers that have not fired
  pub pending : List ℕ
  -- the layer, where it is in the document: does its indicator show?
  pub layer : Option Bool
  -- renderings that wait, and whether one runs
  pub queued : ℕ
  pub rendering : Bool

pub data Event : Type 0 where
  -- `queueRender` is called; the next rendering begins; the one that runs ends, well or not
  queue_render begin : Event
  finish : Bool → Event
  -- the timer that was set with this token fires
  timer_fires : ℕ → Event

unfoldable pub without : ℕ → List ℕ → List ℕ
without k [] = []
without k (x ∷ xs) = if x == k then without k xs else x ∷ without k xs

unfoldable pub contains : ℕ → List ℕ → Bool
contains k [] = false
contains k (x ∷ xs) = if x == k then true else contains k xs

-- `clearRouteLoadingSpinnerTimer`
unfoldable pub clear_timer : Loading → Loading
unfolding without
clear_timer s = elim s.spinner_timer [
  | none ↦ s
  | some k ↦ record s { spinner_timer = none; pending = without k s.pending }
]

-- `showRouteLoading`
unfoldable pub show_route_loading : Loading → Loading
unfolding clear_timer
show_route_loading s =
    let cleared = clear_timer s in
    let token = cleared.token + 1 in
    record cleared {
      token = token;
      layer = some false;
      spinner_timer = some token;
      pending = token ∷ cleared.pending;
    }

-- `hideRouteLoading`
unfoldable pub hide_route_loading : Loading → Loading
unfolding clear_timer
hide_route_loading s = record (clear_timer s) { layer = none }

-- The timer's callback.
unfoldable pub show_spinner : ℕ → Loading → Loading
show_spinner k s = elim s.layer [
  | none ↦ s
  | some visible ↦ if k == s.token then record s { layer = some true } else s
]

-- The layer goes in the `finally` block, and once more where the rendering failed.
unfoldable pub handle : Event → Loading → Loading
unfolding show_route_loading hide_route_loading show_spinner contains
handle queue_render s = record s { queued = s.queued + 1 }
handle begin s =
    if not s.rendering && not (s.queued == 0)
    then record (show_route_loading s) { queued = s.queued - 1; rendering = true }
    else s
handle (finish well) s =
    let hidden = hide_route_loading s in
    if s.rendering
    then record (if well then hidden else hide_route_loading hidden) { rendering = false }
    else s
handle (timer_fires k) s =
    if contains k s.pending then show_spinner k (record s { pending = without k s.pending }) else s

unfoldable pub run : Loading → List Event → Loading
unfolding handle
run s [] = s
run s (e ∷ es) = run (handle e s) es

abbrev pub idle : Loading
idle = record {
  token = 0;
  spinner_timer = none;
  pending = [];
  layer = none;
  queued = 0;
  rendering = false;
}

-- The layer is there just while a rendering runs; then the last timer set is the one of this
-- rendering and no other can fire, and otherwise none can.
pub data IsTidy (s : Loading) : Type 0 where
  quiet : s.rendering ≡ false → s.layer ≡ none → s.spinner_timer ≡ none → s.pending ≡ [] → IsTidy s
  waiting :
      {visible : Bool}
      → s.rendering ≡ true
      → s.layer ≡ some visible
      → s.spinner_timer ≡ some s.token
      → s.pending ≡ s.token ∷ []
      → IsTidy s
  fired :
      {visible : Bool}
      → s.rendering ≡ true
      → s.layer ≡ some visible
      → s.spinner_timer ≡ some s.token
      → s.pending ≡ []
      → IsTidy s

-- Both branches of a test.
if_IsTidy :
    (b : Bool) (x y : Loading)
    → (b ≡ true → IsTidy x)
    → (b ≡ false → IsTidy y)
    → IsTidy (if b then x else y)
if_IsTidy true x y f g = f refl
if_IsTidy false x y f g = g refl

handle-IsTidy : (e : Event) (s : Loading) → IsTidy s → IsTidy (handle e s)
unfolding handle
handle-IsTidy queue_render s (quiet a b c d) = quiet a b c d
handle-IsTidy queue_render s (waiting a b c d) = waiting a b c d
handle-IsTidy queue_render s (fired a b c d) = fired a b c d
handle-IsTidy begin s (quiet a b c d) =
    if_IsTidy (not s.rendering && not (s.queued == 0)) _ _
      (λ _. waiting refl refl refl (ground arith)) (λ _. quiet a b c d)
handle-IsTidy begin s (waiting a b c d) =
    if_IsTidy (not s.rendering && not (s.queued == 0)) _ _ (λ h. absurd (ground arith))
      (λ _. waiting a b c d)
handle-IsTidy begin s (fired a b c d) =
    if_IsTidy (not s.rendering && not (s.queued == 0)) _ _ (λ h. absurd (ground arith))
      (λ _. fired a b c d)
handle-IsTidy (finish well) s (quiet a b c d) =
    if_IsTidy s.rendering _ _ (λ h. absurd (ground arith)) (λ _. quiet a b c d)
handle-IsTidy (finish well) s (waiting a b c d) =
    if_IsTidy s.rendering _ _ (λ _. quiet refl (ground arith) (ground arith) (ground arith))
      (λ _. waiting a b c d)
handle-IsTidy (finish well) s (fired a b c d) =
    if_IsTidy s.rendering _ _ (λ _. quiet refl (ground arith) (ground arith) (ground arith))
      (λ _. fired a b c d)
handle-IsTidy (timer_fires k) s (quiet a b c d) =
    if_IsTidy (contains k s.pending) _ _ (λ h. absurd (ground arith)) (λ _. quiet a b c d)
handle-IsTidy (timer_fires k) s (waiting a b c d) =
    if_IsTidy (contains k s.pending) _ _
      (λ h. fired {visible = true} (ground arith) (ground arith) (ground arith) (ground arith))
      (λ _. waiting a b c d)
handle-IsTidy (timer_fires k) s (fired a b c d) =
    if_IsTidy (contains k s.pending) _ _ (λ h. absurd (ground arith)) (λ _. fired a b c d)

run-IsTidy : (es : List Event) (s : Loading) → IsTidy s → IsTidy (run s es)
unfolding run
run-IsTidy [] s t = t
run-IsTidy (e ∷ es) s t = run-IsTidy es (handle e s) (handle-IsTidy e s t)

-- Whatever is queued and however the renderings end, the loading layer is there just while one of
-- them runs, a timer can fire only for the one that runs, and nothing is left when none runs.
pub run_idle-IsTidy : (es : List Event) → IsTidy (run idle es)
run_idle-IsTidy es = run-IsTidy es idle (quiet refl refl refl refl)
