-- ===== src/Tests/Router.antt =====
-- Examples of the laws of routes and of the loading layer.
use Prim.Native.String.{[], ◌∷◌}
use soldesk.Prelude.{
  ℕ, zero, suc, ◌/◌, ◌%◌, ◌≡◌, refl, Char, Bool, String, List, true, false, ◌===◌, Bool-cases, inl,
  inr, ltb, arith, ap, ===_iff,
}
use soldesk.Prelude.Int.{pos}
use soldesk.Js.Text.{print, print_from, digit}
use soldesk.Js.Text.Decimal.{read_from-print, code-digit}
use soldesk.Js.Value.{whole, text, text_or_empty, undefined}
use soldesk.Concert.Modal.Events.{all_digits}
use soldesk.Router.{Url, Target, get_route_from_url, build_url_from_route, to_positive_int}
use soldesk.Router.Roundtrip.{IsEngine, get_route-build_url, nonzero}
use soldesk.Router.Loading.{
  queue_render, begin, finish, timer_fires, run, idle, IsTidy, run_idle-IsTidy,
}
use soldesk.Tests.{plain, read_number, show_number, whole_value}

all_digits-print_from :
    (fuel n : ℕ) (rest : String)
    → all_digits rest ≡ true
    → all_digits (print_from fuel n rest) ≡ true
unfolding all_digits print_from
all_digits-print_from zero n rest h = h
all_digits-print_from (suc fuel) n rest h =
    let more : all_digits (digit (n % 10) ∷ rest) ≡ true = ground (arith, code-digit (n % 10)) in
    elim (Bool-cases (ltb n 10)) [
      | inl small ↦ rw small more
      | inr big ↦ rw big (all_digits-print_from fuel (n / 10) (digit (n % 10) ∷ rest) more)
    ]

is_filled : String → Bool
is_filled [] = false
is_filled (c ∷ s) = true

filled : (c : Char) (rest : String) → (c ∷ rest === "") ≡ false
unfolding is_filled
filled c rest = elim (Bool-cases (c ∷ rest === "")) [
  | inl empty ↦ absurd (let e = ap is_filled ((===_iff (c ∷ rest) "").0 empty) in cc)
  | inr other ↦ other
]

filled-print_from :
    (fuel n : ℕ) (c : Char) (rest : String) → (print_from fuel n (c ∷ rest) === "") ≡ false
unfolding print_from
filled-print_from zero n c rest = filled c rest
filled-print_from (suc fuel) n c rest = elim (Bool-cases (ltb n 10)) [
  | inl small ↦ rw small (filled (digit (n % 10)) (c ∷ rest))
  | inr big ↦ rw big (filled-print_from fuel (n / 10) (digit (n % 10)) (c ∷ rest))
]

filled-print : (n : ℕ) → (print n === "") ≡ false
unfolding print print_from
filled-print n = elim (Bool-cases (ltb n 10)) [
  | inl small ↦ rw small (filled (digit (n % 10)) "")
  | inr big ↦ rw big (filled-print_from n (n / 10) (digit (n % 10)) "")
]

plain-IsEngine : IsEngine plain
unfolding plain read_number show_number print
plain-IsEngine = record {
  trim_twice = λ s. refl;
  trim_empty = refl;
  read_show = λ n.
      rw (filled-print n, all_digits-print_from (suc n) n "" refl)
        (ap (λ k. whole (pos k)) (read_from-print n));
}

abbrev target : Target
target = record {
  view = undefined;
  page = whole_value 3;
  q = text "film";
  movie_id = undefined;
  c_page = undefined;
  c_q = undefined;
  concert_id = whole_value 12;
}

get_route-build_url_example :
    get_route_from_url plain (build_url_from_route plain target) ≡ record {
      pathname = "/";
      page = nonzero (to_positive_int plain target.page);
      movie_id = nonzero (to_positive_int plain target.movie_id);
      q = plain.trim (text_or_empty plain target.q);
      view = plain.trim (text_or_empty plain target.view);
      c_page = nonzero (to_positive_int plain target.c_page);
      c_q = plain.trim (text_or_empty plain target.c_q);
      concert_id = nonzero (to_positive_int plain target.concert_id);
    }
get_route-build_url_example = get_route-build_url plain plain-IsEngine target

-- An old address of a film, an address of concerts, and one with an odd view.
abbrev old_url : Url
old_url = record {
  pathname = "/movie/detail.html";
  params = List.◌∷◌ ("movie_id", "4") (List.◌∷◌ ("c_page", "2") List.[]);
}

abbrev concerts_url : Url
concerts_url = record {
  pathname = "/index.html";
  params = List.◌∷◌ ("c_page", "2") (List.◌∷◌ ("page", "0") List.[]);
}

run_idle-IsTidy_example : IsTidy (
    run idle (
      List.◌∷◌ queue_render
        (List.◌∷◌ begin (List.◌∷◌ (timer_fires 1) (List.◌∷◌ (finish false) List.[])))))
run_idle-IsTidy_example = run_idle-IsTidy (
    List.◌∷◌ queue_render
      (List.◌∷◌ begin (List.◌∷◌ (timer_fires 1) (List.◌∷◌ (finish false) List.[]))))
