-- ===== src/Runtime/Files/Phases.antt =====
-- The life of a file that no element of the document stands for at first: five phases, which the
-- loader's bookkeeping goes through, and the last of which has no way out.
use soldesk.Prelude.{
  ◌≡◌, refl, ap, ◌∙◌, String, List, [], ◌∷◌, none, some, Bool, true, false, ◌===◌, ===_iff,
  if◌then◌else◌, exists, Bool-cases, inl, inr, arith,
}
use soldesk.Runtime.Files.{
  Kind, fetching, marked, broken, File, Event, request, load, error, Loader, step, handle, run,
}

-- Nobody asked for it; it is fetched; it is there; it failed; it failed and was asked for again.
pub data Phase : Type 0 where
  unasked fetched there failed hung : Phase

unfoldable pub next : Event → Phase → Phase
next request unasked = fetched
next load fetched = there
next error fetched = failed
next request failed = hung
next _ phase = phase

unfoldable pub phase_of : List Event → Phase → Phase
phase_of [] phase = phase
phase_of (e ∷ es) phase = phase_of es (next e phase)

-- The bookkeeping of each phase: one promise up to the failure, and one element ever.
abbrev pub file_of : Phase → File
file_of unasked = record {
  promise = none;
  element = none;
  listeners = [];
  made = 0;
  resolved = [];
  rejected = [];
  appended = 0;
}
file_of fetched = record {
  promise = some 0;
  element = some fetching;
  listeners = 0 ∷ [];
  made = 1;
  resolved = [];
  rejected = [];
  appended = 1;
}
file_of there = record {
  promise = some 0;
  element = some marked;
  listeners = [];
  made = 1;
  resolved = 0 ∷ [];
  rejected = [];
  appended = 1;
}
file_of failed = record {
  promise = none;
  element = some broken;
  listeners = [];
  made = 1;
  resolved = [];
  rejected = 0 ∷ [];
  appended = 1;
}
file_of hung = record {
  promise = some 1;
  element = some broken;
  listeners = 1 ∷ [];
  made = 2;
  resolved = [];
  rejected = 0 ∷ [];
  appended = 1;
}

-- The events at one name.
abbrev pub events_at : String → List (String × Event) → List Event
events_at name [] = []
events_at name ((other, e) ∷ es) =
    if other === name then e ∷ events_at name es else events_at name es

step-file_of :
    (kind : Kind) (e : Event) (phase : Phase) → step kind e (file_of phase) ≡ file_of (next e phase)
unfolding step next
step-file_of kind request unasked = refl
step-file_of kind request fetched = refl
step-file_of kind request there = refl
step-file_of kind request failed = refl
step-file_of kind request hung = refl
step-file_of kind load unasked = refl
step-file_of kind load fetched = refl
step-file_of kind load there = refl
step-file_of kind load failed = refl
step-file_of kind load hung = refl
step-file_of kind error unasked = refl
step-file_of kind error fetched = refl
step-file_of kind error there = refl
step-file_of kind error failed = refl
step-file_of kind error hung = refl

handle-same :
    (kind : Kind) (other : String) (e : Event) (files : Loader) (name : String)
    → (name === "") ≡ false
    → (other === name) ≡ true
    → handle kind other e files name ≡ step kind e (files name)
unfolding handle
handle-same kind other e files name named same =
    let filled : (other === "") ≡ false =
      ground (arith, ===_iff other name, ===_iff other "", ===_iff name "") in
    rw (filled, same) refl

handle-apart :
    (kind : Kind) (other : String) (e : Event) (files : Loader) (name : String)
    → (other === name) ≡ false
    → handle kind other e files name ≡ files name
unfolding handle
handle-apart kind other e files name apart = ground arith

-- At each name, whatever is asked for and whatever the browser fires at this and at other names, the
-- loader's bookkeeping is that of the phase which the events at this name lead to, if it was that of a
-- phase at first.
pub run_refines :
    (kind : Kind) (es : List (String × Event)) (files : Loader) (name : String) (phase : Phase)
    → (name === "") ≡ false
    → files name ≡ file_of phase
    → run kind es files name ≡ file_of (phase_of (events_at name es) phase)
unfolding run phase_of
run_refines kind [] files name phase named h = h
run_refines kind ((other, e) ∷ es) files name phase named h = elim (Bool-cases (other === name)) [
  | inl same ↦ rw same (
      run_refines kind es (handle kind other e files) name (next e phase) named (
        handle-same kind other e files name named same
        ∙ ap (step kind e) h
        ∙ step-file_of kind e phase))
  | inr apart ↦ rw apart (
      run_refines kind es (handle kind other e files) name phase named
        (handle-apart kind other e files name apart ∙ h))
]

phase_of-hung : (es : List Event) → phase_of es hung ≡ hung
unfolding phase_of next
phase_of-hung [] = refl
phase_of-hung (request ∷ es) = phase_of-hung es
phase_of-hung (load ∷ es) = phase_of-hung es
phase_of-hung (error ∷ es) = phase_of-hung es

-- The file is asked for, its fetch fails, and it is asked for again: whatever happens then, at this
-- and at other names, the second request is neither fulfilled nor refused; nothing fetches the file
-- again.
pub retry_hangs :
    (kind : Kind) (later : List (String × Event)) (files : Loader) (name : String)
    → (name === "") ≡ false
    → files name ≡ file_of unasked
    → let f = run kind ((name, request) ∷ (name, error) ∷ (name, request) ∷ later) files name in
      (f.promise ≡ some 1)
      × (f.listeners ≡ 1 ∷ [])
      × (f.resolved ≡ [])
      × (f.rejected ≡ 0 ∷ [])
      × (f.appended ≡ 1)
unfolding phase_of next
retry_hangs kind later files name named h =
    let self : (name === name) ≡ true = ground (arith, ===_iff name name) in
    let es = (name, request) ∷ (name, error) ∷ (name, request) ∷ later in
    let reach : phase_of (events_at name es) unasked ≡ phase_of (events_at name later) hung =
      rw self refl in
    let hangs =
      run_refines kind es files name unasked named h
      ∙ ap file_of (reach ∙ phase_of-hung (events_at name later)) in
    (
      ap (λ f. f.promise) hangs,
      ap (λ f. f.listeners) hangs,
      ap (λ f. f.resolved) hangs,
      ap (λ f. f.rejected) hangs,
      ap (λ f. f.appended) hangs,
    )

abbrev pub is_request : Event → Bool
is_request request = true
is_request _ = false

abbrev pub is_error : Event → Bool
is_error error = true
is_error _ = false

abbrev pub asks : List Event → Bool
asks es = exists is_request es

abbrev pub fails : List Event → Bool
fails es = exists is_error es

-- In one phase out of two, with no failure, the next `load` brings the file.
loads :
    (es : List Event) → fails es ≡ false → asks es ≡ true → next load (phase_of es unasked) ≡ there
unfolding phase_of next
loads [] sound asked = cc
loads (request ∷ es) sound asked = loads_fetched es sound
  where
    loads_there : (es : List Event) → next load (phase_of es there) ≡ there
    loads_there [] = refl
    loads_there (request ∷ es) = loads_there es
    loads_there (load ∷ es) = loads_there es
    loads_there (error ∷ es) = loads_there es

    loads_fetched : (es : List Event) → fails es ≡ false → next load (phase_of es fetched) ≡ there
    loads_fetched [] sound = refl
    loads_fetched (request ∷ es) sound = loads_fetched es sound
    loads_fetched (load ∷ es) sound = loads_there es
    loads_fetched (error ∷ es) sound = cc
loads (load ∷ es) sound asked = loads es sound asked
loads (error ∷ es) sound asked = cc

-- If a file was asked for, however often, and its fetch has not failed, then once it loads there has
-- been one promise and one element for it, and the promise is fulfilled.
pub load_fulfils :
    (kind : Kind) (es : List (String × Event)) (files : Loader) (name : String)
    → (name === "") ≡ false
    → files name ≡ file_of unasked
    → asks (events_at name es) ≡ true
    → fails (events_at name es) ≡ false
    → let f = handle kind name load (run kind es files) name in
      (f.made ≡ 1) × (f.appended ≡ 1) × (f.resolved ≡ 0 ∷ []) × (f.listeners ≡ [])
load_fulfils kind es files name named h asked sound =
    let loaded =
      handle-same kind name load (run kind es files) name named (ground (arith, ===_iff name name))
      ∙ ap (step kind load) (run_refines kind es files name unasked named h)
      ∙ step-file_of kind load (phase_of (events_at name es) unasked)
      ∙ ap file_of (loads (events_at name es) sound asked) in
    (
      ap (λ f. f.made) loaded,
      ap (λ f. f.appended) loaded,
      ap (λ f. f.resolved) loaded,
      ap (λ f. f.listeners) loaded,
    )
