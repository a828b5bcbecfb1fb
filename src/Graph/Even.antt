-- ===== src/Graph/Even.antt =====
-- How often a node lists another (internal/dependency/graph.go): the in-degrees count each time.
use supavisor.Prelude.{
  Option, none, some, ℕ, ◌+◌, ◌≤◌, ◌≡◌, refl, inl, inr, true, false, List, [], ◌∷◌, Str, str_eq,
  str_eq_iff, str_eq_refl, contains, Distinct, lookup, has, arith, Bool-cases,
}
use supavisor.Graph.{Graph, Node, deps_of}
use supavisor.Graph.Counting.{count}
use supavisor.Graph.Updates.{deps_at}

-- How often the name stands in the list.
abbrev pub times : List Str → Str → ℕ
times xs n = count (str_eq n) xs

abbrev total : List Str → List Str → ℕ
total xs [] = 0
total xs (n ∷ ns) = times xs n + total xs ns

-- No node lists a node twice.
abbrev pub IsEven : Graph → Type 0
IsEven g = (a n : Str) → has (lookup n g) ≡ true → times (deps_at g a) n ≤ 1

times-absent : (xs : List Str) (n : Str) → contains xs n ≡ false → times xs n ≡ 0
unfolding contains
times-absent [] n h = refl
times-absent (x ∷ xs) n h = ground (arith, times-absent xs n, str_eq_iff x n, str_eq_iff n x)

times-present : (xs : List Str) (n : Str) → contains xs n ≡ true → 1 ≤ times xs n
unfolding contains
times-present [] n h = cc
times-present (x ∷ xs) n h = ground (arith, times-present xs n, str_eq_iff x n, str_eq_iff n x)

pub times-Distinct : (xs : List Str) (n : Str) → Distinct xs → times xs n ≤ 1
times-Distinct [] n d = omega arith
times-Distinct (x ∷ xs) n d = ground (arith, times-Distinct xs n, times-absent xs n, str_eq_iff n x)

count-cons_split :
    (n : Str) (ns xs : List Str)
    → contains ns n ≡ false
    → count (contains (n ∷ ns)) xs ≡ times xs n + count (contains ns) xs
unfolding contains
count-cons_split n ns [] h = refl
count-cons_split n ns (x ∷ xs) h = ground (arith, count-cons_split n ns xs h, str_eq_iff n x)

-- Each time that one of distinct names stands in the list.
pub count-total : (ns xs : List Str) → Distinct ns → count (contains ns) xs ≡ total xs ns
unfolding contains
count-total [] xs d = count_none xs
  where
    count_none : (xs : List Str) → count (contains []) xs ≡ 0
    count_none [] = refl
    count_none (x ∷ xs) = count_none xs
count-total (n ∷ ns) xs d = omega (arith, count-cons_split n ns xs d.0, count-total ns xs d.1)

count-le-total : (xs ns : List Str) → count (contains xs) ns ≤ total xs ns
count-le-total xs [] = omega arith
count-le-total xs (n ∷ ns) = ground (arith, count-le-total xs ns, times-present xs n)

-- If that is no more often than there are such names, none stands there twice.
pub times-le_of_total :
    (xs ns : List Str)
    → total xs ns ≤ count (contains xs) ns
    → (n : Str) → contains ns n ≡ true
    → times xs n ≤ 1
unfolding contains
times-le_of_total xs [] h n m = cc
times-le_of_total xs (x ∷ ns) h n m = elim (Bool-cases (str_eq x n)) [
  | inl same ↦ ground (arith, count-le-total xs ns, times-present xs x, (str_eq_iff x n).0 same)
  | inr other ↦
      times-le_of_total xs ns (ground (arith, times-present xs x)) n (ground (arith, m, other))
]

total-le-count :
    (xs ns : List Str)
    → ((n : Str) → contains ns n ≡ true → times xs n ≤ 1)
    → total xs ns ≤ count (contains xs) ns
unfolding contains
total-le-count xs [] h = omega arith
total-le-count xs (n ∷ ns) h =
    let later = total-le-count xs ns (λ k m. h k (ground (arith, m))) in
    ground (arith, later, h n, str_eq_refl n, times-absent xs n)

-- Distinct nodes that stand in the dependencies of a node are met there no more than once each.
pub IsEven-count :
    (g : Graph) (a : Str) (ns : List Str)
    → IsEven g
    → Distinct ns
    → ((n : Str) → contains ns n ≡ true → has (lookup n g) ≡ true)
    → count (contains ns) (deps_at g a) ≤ count (contains (deps_at g a)) ns
IsEven-count g a ns even d within = omega (
  arith,
  count-total ns (deps_at g a) d,
  total-le-count (deps_at g a) ns (λ n m. even a n (within n m)),
)

pub deps_at-absent : (g : Graph) (a : Str) → has (lookup a g) ≡ false → Distinct (deps_at g a)
deps_at-absent g a h = by_node (lookup a g) h
  where
    by_node : (o : Option Node) → has o ≡ false → Distinct (deps_of o)
    by_node none e = tt
    by_node (some node) e = cc
