-- ===== src/Graph/Tiers.antt =====
-- What `Tiers` of internal/dependency/graph.go returns.
use supavisor.Prelude.{
  ℕ, zero, suc, ◌+◌, ◌≤◌, ◌≡◌, ◌≢◌, ◌↔◌, refl, sym, ap, subst, ◌∙◌, true, ◌||◌, some, List, [], ◌∷◌,
  ◌++◌, length, Str, contains, contains-append, Distinct, insert_sorted, sort, contains-sort,
  sort-Distinct, Dict, lookup, has, arith, append_assoc, append-nil, length-append, subst,
}
use supavisor.Prelude.Int.{ℤ}
use supavisor.Graph.{
  Ordered, Graph, in_degrees, sources, release, in_order, circular, no_fuel, release_all, concat,
  stack_tiers, check_placed, tiers, topological_sort,
}
use supavisor.Graph.Updates.{dependents_at}
use supavisor.Graph.Built.{IsLinked}
use supavisor.Graph.Kahn.{Inv, Inv-closed, Inv-queue, Inv-room}
use supavisor.Graph.Degrees.{Inv-start}
use supavisor.Graph.Even.{IsEven}
use supavisor.Graph.Orders.{
  Inv-IsEven, topological_sort-IsOrder, topological_sort-in_order_iff, core_or_full, Inv-all,
  topological_sort-circular_iff,
}
use supavisor.Graph.Cores.{IsMet, HasCore, met-placed}

-- The dependencies of the names of a tier stand in earlier tiers.
abbrev pub IsTiered : Graph → List Str → List (List Str) → Type 0
IsTiered g seen [] = Unit
IsTiered g seen (tier ∷ later) =
    ((a : Str) → contains tier a ≡ true → IsMet g seen a) × IsTiered g (seen ++ tier) later

nil-eq-concat : [] ≡ concat []
unfolding concat
nil-eq-concat = refl

concat-append_last :
    (ts : List (List Str)) (tier : List Str) → concat (ts ++ tier ∷ []) ≡ concat ts ++ tier
unfolding concat
concat-append_last [] tier = append-nil tier
concat-append_last (t ∷ ts) tier =
    ap (λ x. t ++ x) (concat-append_last ts tier) ∙ sym (append_assoc t (concat ts) tier)

IsTiered-append_last :
    (g : Graph) (seen : List Str) (ts : List (List Str)) (tier : List Str)
    → IsTiered g seen ts
    → ((a : Str) → contains tier a ≡ true → IsMet g (seen ++ concat ts) a)
    → IsTiered g seen (ts ++ tier ∷ [])
unfolding concat
IsTiered-append_last g seen [] tier h m =
    (λ a x. subst (λ s. IsMet g s a) (append-nil seen) (m a x), tt)
IsTiered-append_last g seen (t ∷ ts) tier h m = (
  h.0,
  IsTiered-append_last g (seen ++ t) ts tier h.1
      (λ a x. subst (λ s. IsMet g s a) (sym (append_assoc seen t (concat ts))) (m a x)),
)

length-insert_sorted : (x : Str) (xs : List Str) → length (insert_sorted x xs) ≡ suc (length xs)
unfolding insert_sorted
length-insert_sorted x [] = refl
length-insert_sorted x (y ∷ ys) = ground (arith, length-insert_sorted x ys)

length-sort : (xs : List Str) → length (sort xs) ≡ length xs
unfolding sort
length-sort [] = refl
length-sort (x ∷ xs) = omega (arith, length-insert_sorted x (sort xs), length-sort xs)

module _ (g : Graph) (l : IsLinked g) where
  Inv-reorder :
      (placed waiting waiting' : List Str) (degrees : Dict ℤ)
      → Inv g l placed waiting degrees
      → Distinct waiting'
      → ((a : Str) → contains waiting' a ≡ contains waiting a)
      → Inv g l placed waiting' degrees
  Inv-reorder placed waiting waiting' degrees inv once same = record {
    placed_once = inv.placed_once;
    waiting_once = once;
    apart = λ a m. same a ∙ inv.apart a m;
    inside = λ a m. inv.inside a (ground (arith, same a, m));
    counted = inv.counted;
    ready = λ a h. ground (arith, same a, inv.ready a h);
  }

  -- A tier is placed, and what it sets free waits.
  release_all-Inv :
      (names acc placed : List Str) (degrees : Dict ℤ)
      → Inv g l placed (names ++ acc) degrees
      → let out = release_all g names degrees in Inv g l (placed ++ names) (acc ++ out.1) out.0
  unfolding release_all
  release_all-Inv [] acc placed degrees inv =
      subst (λ p. Inv g l p (acc ++ []) degrees) (sym (append-nil placed))
        (subst (λ w. Inv g l placed w degrees) (sym (append-nil acc)) inv)
  release_all-Inv (c ∷ names) acc placed degrees inv =
      let out = release (dependents_at g c) degrees in
      let last = release_all g names out.0 in
      let step = Inv-queue g l placed c (names ++ acc) degrees inv in
      let later =
        release_all-Inv names (acc ++ out.1) (placed ++ c ∷ []) out.0
          (subst (λ w. Inv g l (placed ++ c ∷ []) w out.0) (append_assoc names acc out.1) step) in
      subst (λ p. Inv g l p (acc ++ (out.1 ++ last.1)) last.0) (append_assoc placed (c ∷ []) names)
        (subst (λ w. Inv g l ((placed ++ c ∷ []) ++ names) w last.0) (append_assoc acc out.1 last.1)
          later)

  contains-either :
      (placed waiting : List Str) (a : Str)
      → contains waiting a ≡ true
      → contains placed a || contains waiting a ≡ true
  contains-either placed waiting a m = ground (arith, m)

  stack_tiers-ends :
      (fuel : ℕ) (degrees : Dict ℤ) (waiting : List Str) (ts : List (List Str))
      → Inv g l (concat ts) waiting degrees
      → IsTiered g [] ts
      → length g ≤ length (concat ts) + fuel
      → (all : List (List Str)) × (last : Dict ℤ) × (stack_tiers fuel g degrees waiting ts
          ≡ some all)
        × Inv g l (concat all) [] last
        × IsTiered g [] all
  unfolding stack_tiers
  stack_tiers-ends fuel degrees [] ts inv t h = (ts, degrees, refl, inv, t)
  stack_tiers-ends zero degrees (c ∷ names) ts inv t h =
      absurd (omega (arith, Inv-room g l (concat ts) c names degrees inv))
  stack_tiers-ends (suc fuel) degrees (c ∷ names) ts inv t h =
      let current = sort (c ∷ names) in
      let out = release_all g current degrees in
      let sorted =
        Inv-reorder (concat ts) (c ∷ names) current degrees inv
          (sort-Distinct (c ∷ names) inv.waiting_once) (contains-sort (c ∷ names)) in
      let next =
        release_all-Inv current [] (concat ts) degrees
          (subst (λ w. Inv g l (concat ts) w degrees) (sym (append-nil current)) sorted) in
      stack_tiers-ends fuel out.0 out.1 (ts ++ current ∷ [])
        (subst (λ p. Inv g l p out.1 out.0) (sym (concat-append_last ts current)) next)
        (IsTiered-append_last g [] ts current t (λ a m.
          Inv-closed g l (concat ts) current degrees sorted a
            (contains-either (concat ts) current a m)))
        (omega (
          arith,
          ap length (concat-append_last ts current),
          length-append (concat ts) current,
          length-sort (c ∷ names),
        ))

  tiers-drains :
      (all : List (List Str)) × (last : Dict ℤ) × (tiers g ≡ check_placed g (some all))
      × Inv g l (concat all) [] last
      × IsTiered g [] all
  unfolding tiers
  tiers-drains =
      let (all, last, e, inv, t) =
        stack_tiers-ends (length g) (in_degrees g g) (sources (in_degrees g g)) [] (start_empty) tt
          (omega arith) in
      (all, last, ap (check_placed g) e, inv, t)
    where
      start_empty : Inv g l (concat []) (sources (in_degrees g g)) (in_degrees g g)
      start_empty =
          subst (λ p. Inv g l p (sources (in_degrees g g)) (in_degrees g g)) nil-eq-concat
            (Inv-start g l)

check_placed-in_order :
    (g : Graph) (all all' : List (List Str))
    → check_placed g (some all) ≡ in_order all'
    → (all ≡ all') × (length (concat all) ≡ length g)
check_placed-in_order g all all' h = ground arith

check_placed-circular :
    (g : Graph) (all : List (List Str))
    → (check_placed g (some all) ≡ circular) ↔ (length (concat all) ≢ length g)
check_placed-circular g all = ground arith

check_placed-no_fuel : (g : Graph) (all : List (List Str)) → check_placed g (some all) ≢ no_fuel
check_placed-no_fuel g all = ground arith

-- Tiers of all the nodes, each node once, and in a later tier than its dependencies.
pub record IsTiering (g : Graph) (all : List (List Str)) : Type 0 where
  pub once : Distinct (concat all)
  pub every : (a : Str) → contains (concat all) a ≡ has (lookup a g)
  pub tiered : IsTiered g [] all

Inv-IsTiering :
    (g : Graph) (l : IsLinked g) (all : List (List Str)) (last : Dict ℤ)
    → Inv g l (concat all) [] last
    → IsTiered g [] all
    → length (concat all) ≡ length g
    → IsTiering g all
Inv-IsTiering g l all last inv t full = record {
  once = inv.placed_once;
  every = Inv-all g l (concat all) last inv full;
  tiered = t;
}

-- The computation of the tiers ends. Tiers that it returns hold each node once, and each node in a
-- later tier than the dependencies of it that the graph has.
pub tiers-IsTiering :
    (g : Graph)
    → IsLinked g
    → (tiers g ≢ no_fuel) × ((all : List (List Str)) → tiers g ≡ in_order all → IsTiering g all)
tiers-IsTiering g l =
    let (all, last, e, inv, t) = tiers-drains g l in
    (
      λ h. check_placed-no_fuel g all (sym e ∙ h),
      λ all' h.
          let (same, full) = check_placed-in_order g all all' (sym e ∙ h) in
          subst (IsTiering g) same (Inv-IsTiering g l all last inv t full),
    )

tiered-core :
    (g : Graph) (placed seen : List Str) (ts : List (List Str))
    → HasCore g placed
    → ((a : Str) → contains seen a ≡ true → contains placed a ≡ true)
    → ((a : Str) → contains (concat ts) a ≡ true → has (lookup a g) ≡ true)
    → IsTiered g seen ts
    → (a : Str) → contains (concat ts) a ≡ true
    → contains placed a ≡ true
unfolding concat contains
tiered-core g placed seen [] core old inside t a m = ground arith
tiered-core g placed seen (tier ∷ ts) core old inside t a m =
    let split = λ (x : Str). contains-append tier (concat ts) x in
    let here : (x : Str) → contains tier x ≡ true → contains placed x ≡ true = λ x mx.
      met-placed g placed seen core old x (inside x (ground (arith, split x, mx))) (t.0 x mx) in
    let old' : (x : Str) → contains (seen ++ tier) x ≡ true → contains placed x ≡ true =
      λ x mx. ground (arith, contains-append seen tier x, old x, here x, mx) in
    let later =
      tiered-core g placed (seen ++ tier) ts core old'
        (λ x mx. inside x (ground (arith, split x, mx))) t.1 a in
    ground (arith, split a, here a, later, m)

IsTiering-coreless :
    (g : Graph) (all : List (List Str)) (placed : List Str) → IsTiering g all → ¬ HasCore g placed
unfolding contains
IsTiering-coreless g all placed o core = cc (
    sym core.start_out
    ∙ tiered-core g placed [] all core (λ a m. cc) (λ a m. sym (o.every a) ∙ m) o.tiered core.start
        (o.every core.start ∙ core.start_in))

-- The two sorts agree: there are no tiers exactly when there is no order.
pub tiers-circular_iff :
    (g : Graph) → IsLinked g → (tiers g ≡ circular) ↔ (topological_sort g ≡ circular)
tiers-circular_iff g l =
    let (all, last, e, inv, t) = tiers-drains g l in
    let iff = check_placed-circular g all in
    (
      λ h.
          by_order (λ even. core_or_full g l (concat all) last inv even (iff.0 (sym e ∙ h)))
            (topological_sort g) refl,
      λ h.
          e
          ∙ iff.1 (λ full.
            let (placed, core) =
              (topological_sort-circular_iff g l (Inv-IsEven g l (concat all) last inv full)).0 h in
            IsTiering-coreless g all placed (Inv-IsTiering g l all last inv t full) core),
    )
  where
    by_order :
        {placed : List Str}
        → (IsEven g → HasCore g placed)
        → (o : Ordered (List Str)) → topological_sort g ≡ o
        → topological_sort g ≡ circular
    by_order core circular e = e
    by_order core no_fuel e = absurd ((topological_sort-IsOrder g l).0 e)
    by_order {placed} core (in_order names) e =
        let (even, coreless) = (topological_sort-in_order_iff g l).0 (names, e) in
        absurd (coreless placed (core even))
