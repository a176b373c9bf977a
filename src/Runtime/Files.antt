-- ===== src/Runtime/Files.antt =====
-- Loading styles and scripts (`ensureStyle`, `ensureScript`, `prefetchScript`): the promise that is
-- kept for each file, the element that fetches it, and the events that the browser fires on it.
pub mod Phases
use soldesk.Prelude.{
  ℕ, ◌+◌, String, List, [], ◌∷◌, ◌++◌, Option, none, some, Bool, true, false, ◌===◌, if◌then◌else◌,
  is_empty,
}
use soldesk.Js.TextSet.{has, add}

pub data Kind : Type 0 where
  style script : Kind

-- The element of a file: it fetches; it is marked (`dataset.loaded`); it has loaded before anyone
-- listened, so nothing marked it; or it has failed.
pub data Element : Type 0 where
  fetching marked bare broken : Element

-- What there is for one file. Promises are numbered in the order in which they were made; each was
-- handed out to a caller.
pub record File : Type 0 where
  -- the entry of the map
  pub promise : Option ℕ
  pub element : Option Element
  -- the promises that listen to the element
  pub listeners : List ℕ
  pub made : ℕ
  pub resolved : List ℕ
  pub rejected : List ℕ
  -- the elements that were appended to the document
  pub appended : ℕ

-- A style sheet that has loaded has its `sheet`, marked or not.
unfoldable pub is_loaded : Kind → Element → Bool
is_loaded kind marked = true
is_loaded style bare = true
is_loaded script bare = false
is_loaded kind fetching = false
is_loaded kind broken = false

-- A new promise, by the element that there is.
unfoldable pub make_promise : Kind → Option Element → File → File
unfolding is_loaded
make_promise kind none f = record f {
  made = f.made + 1;
  promise = some f.made;
  element = some fetching;
  listeners = f.made ∷ [];
  appended = f.appended + 1;
}
make_promise kind (some e) f =
    let kept = record f { made = f.made + 1; promise = some f.made } in
    if is_loaded kind e
    then record kept { element = some marked; resolved = f.made ∷ f.resolved }
    else record kept { listeners = f.listeners ++ f.made ∷ [] }

-- `ensureStyle(href)` and `ensureScript(src)` for a file with a name: the promise of the map, or a
-- new one.
unfoldable pub ensure_by : Kind → Option ℕ → File → File
unfolding make_promise
ensure_by kind (some p) f = f
ensure_by kind none f = make_promise kind f.element f

unfoldable pub ensure : Kind → File → File
unfolding ensure_by
ensure kind f = ensure_by kind f.promise f

-- The browser fires `load` or `error` on an element that fetches, once.
unfoldable pub load_at : Option Element → File → File
load_at (some fetching) f = record f {
  element = some (if is_empty f.listeners then bare else marked);
  resolved = f.listeners ++ f.resolved;
  listeners = [];
}
load_at _ f = f

unfoldable pub error_at : Option Element → File → File
error_at (some fetching) f = record f {
  element = some broken;
  promise = if is_empty f.listeners then f.promise else none;
  rejected = f.listeners ++ f.rejected;
  listeners = [];
}
error_at _ f = f

pub data Event : Type 0 where
  request load error : Event

unfoldable pub step : Kind → Event → File → File
unfolding ensure load_at error_at
step kind request f = ensure kind f
step kind load f = load_at f.element f
step kind error f = error_at f.element f

-- All files of a kind, by their names, and events at them. A request for the empty name is answered
-- by a promise of null and changes nothing.
abbrev pub Loader : Type 0
Loader = String → File

unfoldable pub handle : Kind → String → Event → Loader → Loader
unfolding step
handle kind name e files other =
    if name === ""
    then files other
    else if name === other
    then step kind e (files other)
    else files other

unfoldable pub run : Kind → List (String × Event) → Loader → Loader
unfolding handle
run kind [] files = files
run kind ((name, e) ∷ es) files = run kind es (handle kind name e files)

-- `prefetchScript`: the set of the names dealt with, and the links that were appended. `present` says
-- of a name whether the document has a script or a prefetching link for it.
unfoldable pub prefetch_script :
    (String → Bool) → String → List String × List String → List String × List String
prefetch_script present src (dealt_with, links) =
    if src === ""
    then (dealt_with, links)
    else if has src dealt_with
    then (dealt_with, links)
    else if present src
    then (add src dealt_with, links)
    else (add src dealt_with, links ++ src ∷ [])

-- `prefetchScripts`; the document has the links that were appended before.
unfoldable pub prefetch_scripts :
    (String → Bool) → List String → List String × List String → List String × List String
unfolding prefetch_script
prefetch_scripts present [] s = s
prefetch_scripts present (src ∷ sources) s =
    prefetch_scripts present sources
      (prefetch_script (λ name. if present name then true else has name s.1) src s)
