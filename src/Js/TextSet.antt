-- ===== src/Js/TextSet.antt =====
-- A `Set` of texts, as the list of its elements in the order of their insertion.
use soldesk.Prelude.{
  ◌+◌, ◌≡◌, refl, String, Bool, true, false, List, [], ◌∷◌, ◌++◌, ◌===◌, ===_iff, if◌then◌else◌,
  length, arith,
}

-- `set.has(key)`, also `array.includes(key)`.
unfoldable pub has : String → List String → Bool
has key [] = false
has key (x ∷ xs) = if x === key then true else has key xs

-- `set.add(key)`: a new element goes to the end.
unfoldable pub add : String → List String → List String
unfolding has
add key xs = if has key xs then xs else xs ++ key ∷ []

-- `set.delete(key)`.
unfoldable pub delete : String → List String → List String
delete key [] = []
delete key (x ∷ xs) = if x === key then delete key xs else x ∷ delete key xs

-- `new Set(items)`, and the loop that adds `items` one by one.
unfoldable pub add_all : List String → List String → List String
unfolding add
add_all [] xs = xs
add_all (key ∷ keys) xs = add_all keys (add key xs)

-- No element occurs twice.
abbrev pub Distinct : List String → Type 0
Distinct [] = Unit {0}
Distinct (x ∷ xs) = (has x xs ≡ false) × Distinct xs

pub has-append :
    (key : String) (xs ys : List String)
    → has key (xs ++ ys) ≡ (if has key xs then true else has key ys)
unfolding has
has-append key [] ys = refl
has-append key (x ∷ xs) ys = ground (arith, has-append key xs ys)

pub has-add :
    (key j : String) (xs : List String)
    → has j (add key xs) ≡ (if key === j then true else has j xs)
unfolding add has
has-add key j xs = ground (arith, has-append j xs (key ∷ []), ===_iff key j)

pub has-delete :
    (key j : String) (xs : List String)
    → has j (delete key xs) ≡ (if key === j then false else has j xs)
unfolding has delete
has-delete key j [] = ground arith
has-delete key j (x ∷ xs) =
    ground (arith, has-delete key j xs, ===_iff key j, ===_iff x key, ===_iff x j)

pub has-add_all :
    (keys : List String) (j : String) (xs : List String)
    → has j (add_all keys xs) ≡ (if has j keys then true else has j xs)
unfolding add_all has
has-add_all [] j xs = refl
has-add_all (key ∷ keys) j xs = ground (arith, has-add_all keys j (add key xs), has-add key j xs)

Distinct-snoc :
    (key : String) (xs : List String) → Distinct xs → has key xs ≡ false → Distinct (xs ++ key ∷ [])
unfolding has
Distinct-snoc key [] d h = (refl, tt)
Distinct-snoc key (x ∷ xs) (e, d) h =
    ground (arith, Distinct-snoc key xs d, has-append x xs (key ∷ []), ===_iff key x, ===_iff x key)

pub add-Distinct : (key : String) (xs : List String) → Distinct xs → Distinct (add key xs)
unfolding add
add-Distinct key xs d = ground (arith, Distinct-snoc key xs d)

pub delete-Distinct : (key : String) (xs : List String) → Distinct xs → Distinct (delete key xs)
unfolding delete
delete-Distinct key [] d = tt
delete-Distinct key (x ∷ xs) (e, d) = ground (arith, delete-Distinct key xs d, has-delete key x xs)

pub add_all-Distinct : (keys xs : List String) → Distinct xs → Distinct (add_all keys xs)
unfolding add_all
add_all-Distinct [] xs d = d
add_all-Distinct (key ∷ keys) xs d = add_all-Distinct keys (add key xs) (add-Distinct key xs d)

pub length-snoc : (key : String) (xs : List String) → length (xs ++ key ∷ []) ≡ length xs + 1
length-snoc key [] = omega arith
length-snoc key (x ∷ xs) = omega (arith, length-snoc key xs)

pub length-add :
    (key : String) (xs : List String)
    → length (add key xs) ≡ (if has key xs then length xs else length xs + 1)
unfolding add
length-add key xs = ground (arith, length-snoc key xs)

pub delete_of_not_has : (key : String) (xs : List String) → has key xs ≡ false → delete key xs ≡ xs
unfolding has delete
delete_of_not_has key [] h = refl
delete_of_not_has key (x ∷ xs) h = ground (arith, delete_of_not_has key xs)

pub length-delete :
    (key : String) (xs : List String)
    → Distinct xs
    → has key xs ≡ true
    → length (delete key xs) + 1 ≡ length xs
unfolding has delete
length-delete key [] d h = ground arith
length-delete key (x ∷ xs) (e, d) h =
    ground (arith, length-delete key xs d, delete_of_not_has key xs, ===_iff x key)

delete-snoc :
    (key : String) (xs : List String) → has key xs ≡ false → delete key (xs ++ key ∷ []) ≡ xs
unfolding has delete
delete-snoc key [] h = ground (arith, ===_iff key key)
delete-snoc key (x ∷ xs) h = ground (arith, delete-snoc key xs)

-- An element that was added last is taken out again.
pub delete-add :
    (key : String) (xs : List String) → has key xs ≡ false → delete key (add key xs) ≡ xs
unfolding add
delete-add key xs h = ground (arith, delete-snoc key xs h)
