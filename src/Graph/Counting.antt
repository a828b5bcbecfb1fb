-- ===== src/Graph/Counting.antt =====
-- Counting the names of a list that pass a test, for the in-degrees of internal/dependency/graph.go.
use supavisor.Prelude.{
  ℕ, suc, ◌+◌, ◌≤◌, ◌<◌, ◌≡◌, refl, inl, inr, Bool, true, false, List, [], ◌∷◌, ◌++◌, length,
  if◌then◌else◌, Str, str_eq, str_eq_iff, str_eq_refl, contains, Distinct, arith, Bool-cases,
}

abbrev pub count : (Str → Bool) → List Str → ℕ
count p [] = 0
count p (x ∷ xs) = let rest = count p xs in if p x then suc rest else rest

pub count-le :
    (p q : Str → Bool) (xs : List Str)
    → ((a : Str) → p a ≡ true → q a ≡ true)
    → count p xs ≤ count q xs
count-le p q [] h = omega arith
count-le p q (x ∷ xs) h = ground (arith, h x, count-le p q xs h)

-- The same where only names of the list pass from the one test to the other.
pub count-le_on :
    (p q : Str → Bool) (xs : List Str)
    → ((a : Str) → contains xs a ≡ true → p a ≡ true → q a ≡ true)
    → count p xs ≤ count q xs
unfolding contains
count-le_on p q [] h = omega arith
count-le_on p q (x ∷ xs) h =
    ground (arith, h x, str_eq_refl x, count-le_on p q xs (λ a m. h a (ground (arith, m))))

-- Where the weaker test counts no more, it passes no more.
pub count-le-back :
    (p q : Str → Bool) (xs : List Str)
    → ((a : Str) → p a ≡ true → q a ≡ true)
    → count q xs ≤ count p xs
    → (a : Str) → contains xs a ≡ true
    → q a ≡ true
    → p a ≡ true
unfolding contains
count-le-back p q [] h le a m e = ground arith
count-le-back p q (x ∷ xs) h le a m e = elim (Bool-cases (str_eq x a)) [
  | inl same ↦ ground (arith, h x, count-le p q xs h, (str_eq_iff x a).0 same)
  | inr other ↦
      count-le-back p q xs h (ground (arith, h x, count-le p q xs h)) a (ground (arith, m, other)) e
]

-- Where one test counts more than another, some name passes the one and not the other.
pub count-lt :
    (p q : Str → Bool) (xs : List Str)
    → count p xs < count q xs
    → (a : Str) × (contains xs a ≡ true) × (q a ≡ true) × (p a ≡ false)
unfolding contains
count-lt p q [] lt = absurd (omega arith)
count-lt p q (x ∷ xs) lt = elim (Bool-cases (q x)) [
  | inl e ↦ elim (Bool-cases (p x)) [
    | inl n ↦ let (a, m, q', p') = count-lt p q xs (ground arith) in (a, ground (arith, m), q', p')
    | inr n ↦ (x, ground (arith, str_eq_refl x), e, n)
  ]
  | inr e ↦ let (a, m, q', p') = count-lt p q xs (ground arith) in (a, ground (arith, m), q', p')
]

count-cons :
    (b : Str) (ps xs : List Str)
    → contains ps b ≡ false
    → count (contains ps) xs + (if contains xs b then 1 else 0) ≤ count (contains (b ∷ ps)) xs
unfolding contains
count-cons b ps [] h = ground arith
count-cons b ps (x ∷ xs) h = ground (arith, count-cons b ps xs h, str_eq_iff x b, str_eq_iff b x)

-- Each of distinct names that stands in the other list is met there.
pub count-contains :
    (ps xs : List Str) → Distinct ps → count (contains xs) ps ≤ count (contains ps) xs
unfolding contains
count-contains [] xs d = omega arith
count-contains (b ∷ ps) xs d = ground (arith, count-contains ps xs, count-cons b ps xs)

pub count-le-length : (p : Str → Bool) (xs : List Str) → count p xs ≤ length xs
count-le-length p [] = omega arith
count-le-length p (x ∷ xs) = ground (arith, count-le-length p xs)

pub count_all :
    (p : Str → Bool) (xs : List Str)
    → ((a : Str) → contains xs a ≡ true → p a ≡ true)
    → count p xs ≡ length xs
unfolding contains
count_all p [] h = refl
count_all p (x ∷ xs) h =
    let later = count_all p xs (λ a m. h a (ground (arith, m))) in
    ground (arith, h x, str_eq_refl x, later)

length-le-count :
    (p : Str → Bool) (xs : List Str)
    → length xs ≤ count p xs
    → (a : Str) → contains xs a ≡ true
    → p a ≡ true
unfolding contains
length-le-count p [] le a m = ground arith
length-le-count p (x ∷ xs) le a m = elim (Bool-cases (str_eq x a)) [
  | inl same ↦ ground (arith, count-le-length p xs, (str_eq_iff x a).0 same)
  | inr other ↦
      length-le-count p xs (ground (arith, count-le-length p xs)) a (ground (arith, m, other))
]

-- Distinct names of a list are no more than it has.
pub length-le_of_Distinct :
    (ps xs : List Str)
    → Distinct ps
    → ((a : Str) → contains ps a ≡ true → contains xs a ≡ true)
    → length ps ≤ length xs
length-le_of_Distinct ps xs d h =
    omega (
      arith,
      count_all (contains xs) ps h,
      count-contains ps xs d,
      count-le-length (contains ps) xs,
    )

-- As many distinct names of a list as it has are all of them.
pub contains_of_length :
    (ps xs : List Str)
    → Distinct ps
    → ((a : Str) → contains ps a ≡ true → contains xs a ≡ true)
    → length ps ≡ length xs
    → (a : Str) → contains xs a ≡ true
    → contains ps a ≡ true
contains_of_length ps xs d h e =
    length-le-count (contains ps) xs
      (omega (arith, count_all (contains xs) ps h, count-contains ps xs d))

pub count-append :
    (p : Str → Bool) (xs ys : List Str) → count p (xs ++ ys) ≡ count p xs + count p ys
count-append p [] ys = omega arith
count-append p (x ∷ xs) ys = ground (arith, count-append p xs ys)
