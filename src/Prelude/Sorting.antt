-- ===== src/Prelude/Sorting.antt =====
-- Go's sort of strings.
use mathlib.Core.Path.{◌≡◌, refl, ◌∙◌}
use mathlib.Core.Bool.{true, false, ◌||◌}
use mathlib.Core.List.{List, [], ◌∷◌, ◌++◌}
use native.Mathlib.Omega.{arith}
use supavisor.Prelude.Tests.{if◌then◌else◌}
use supavisor.Prelude.Strings.{
  Str, str_eq, str_eq_iff, str_eq_refl, str_le, contains, contains-append,
}

-- No name stands twice.
abbrev pub Distinct : List Str → Type 0
Distinct [] = Unit
Distinct (x ∷ xs) = (contains xs x ≡ false) × Distinct xs

-- `slices.Sort` and `sort.Strings`, as an insertion sort.
unfoldable pub insert_sorted : Str → List Str → List Str
insert_sorted x [] = x ∷ []
insert_sorted x (y ∷ ys) =
    let rest = insert_sorted x ys in if str_le x y then x ∷ y ∷ ys else y ∷ rest

unfoldable pub sort : List Str → List Str
sort [] = []
sort (x ∷ xs) = insert_sorted x (sort xs)

contains-insert_sorted :
    (x : Str) (xs : List Str) (a : Str)
    → contains (insert_sorted x xs) a ≡ (str_eq x a || contains xs a)
unfolding insert_sorted contains
contains-insert_sorted x [] a = refl
contains-insert_sorted x (y ∷ ys) a = ground (arith, contains-insert_sorted x ys a)

pub contains-sort : (xs : List Str) (a : Str) → contains (sort xs) a ≡ contains xs a
unfolding sort contains
contains-sort [] a = refl
contains-sort (x ∷ xs) a = ground (arith, contains-insert_sorted x (sort xs) a, contains-sort xs a)

insert_sorted-Distinct :
    (x : Str) (xs : List Str) → contains xs x ≡ false → Distinct xs → Distinct (insert_sorted x xs)
unfolding insert_sorted contains
insert_sorted-Distinct x [] h d = (refl, tt)
insert_sorted-Distinct x (y ∷ ys) h d = ground (
  arith,
  insert_sorted-Distinct x ys,
  contains-insert_sorted x ys y,
  str_eq_iff x y,
  str_eq_iff y x,
)

pub sort-Distinct : (xs : List Str) → Distinct xs → Distinct (sort xs)
unfolding sort
sort-Distinct [] d = tt
sort-Distinct (x ∷ xs) d =
    insert_sorted-Distinct x (sort xs) (contains-sort xs x ∙ d.0) (sort-Distinct xs d.1)

pub Distinct-append :
    (xs ys : List Str)
    → Distinct xs
    → Distinct ys
    → ((a : Str) → contains xs a ≡ true → contains ys a ≡ false)
    → Distinct (xs ++ ys)
unfolding contains
Distinct-append [] ys dx dy h = dy
Distinct-append (x ∷ xs) ys dx dy h = (
  contains-append xs ys x ∙ ground (arith, dx.0, h x, str_eq_refl x),
  Distinct-append xs ys dx.1 dy (λ a m. h a (ground (arith, m))),
)
