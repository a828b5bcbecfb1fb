-- ===== src/Graph/Orders.antt =====
-- What the two sorts of internal/dependency/graph.go return.
use supavisor.Prelude.{
  Bool, ℕ, zero, suc, ◌+◌, ◌≤◌, ◌<◌, ◌≡◌, ◌≢◌, ◌↔◌, refl, sym, ap, subst, ◌∙◌, true, false, ◌||◌,
  some, List, [], ◌∷◌, ◌++◌, length, Str, str_eq_refl, contains, Dict, lookup, keys, contains-keys,
  keys-Distinct, has, arith,
}
use supavisor.Prelude.Int.{ℤ, pos, negsuc, pos_part, neg_part}
use supavisor.Graph.{
  Ordered, Graph, in_degrees, sources, release, drain, in_order, circular, no_fuel, check_all,
  topological_sort,
}
use supavisor.Graph.Updates.{dependents_at, deps_at}
use supavisor.Graph.Even.{
  IsEven, IsEven-count, deps_at-absent, times, times-Distinct, times-le_of_total, count-total,
}
use supavisor.Graph.Built.{IsLinked}
use supavisor.Graph.Counting.{
  count-le, count, count-lt, count-le_on, count-contains, contains_of_length, length-le_of_Distinct,
  count-le-length, count_all,
}
use supavisor.Graph.Kahn.{
  free-pos_part, Inv, Inv-closed, Inv-queue, Inv-room, length-append_last, length-keys,
}
use supavisor.Graph.Release.{degree, is_free}
use supavisor.Graph.Degrees.{Inv-start}
use supavisor.Graph.Cores.{IsBehind, IsOrder, HasCore, IsBehind-append_last, IsOrder-coreless}

waits :
    (placed : List Str) (c : Str) (waiting : List Str)
    → contains placed c || contains (c ∷ waiting) c ≡ true
unfolding contains
waits placed c waiting = ground (arith, str_eq_refl c)

unfree-parts : (z : ℤ) → is_free z ≡ false → (1 ≤ pos_part z) × (neg_part z ≡ 0)
unfree-parts (pos zero) h = cc
unfree-parts (pos (suc n)) h = omega arith
unfree-parts (negsuc n) h = cc

module _ (g : Graph) (l : IsLinked g) where
  -- With fuel for the nodes that are left, the queue runs empty.
  drain-ends :
      (fuel : ℕ) (degrees : Dict ℤ) (queue result : List Str)
      → Inv g l result queue degrees
      → IsBehind g [] result
      → length g ≤ length result + fuel
      → (names : List Str) × (last : Dict ℤ) × (drain fuel g degrees queue result ≡ some names)
        × Inv g l names [] last
        × IsBehind g [] names
  unfolding drain
  drain-ends fuel degrees [] result inv b h = (result, degrees, refl, inv, b)
  drain-ends zero degrees (c ∷ queue) result inv b h =
      absurd (omega (arith, Inv-room g l result c queue degrees inv))
  drain-ends (suc fuel) degrees (c ∷ queue) result inv b h =
      let out = release (dependents_at g c) degrees in
      let met = Inv-closed g l result (c ∷ queue) degrees inv c (waits result c queue) in
      drain-ends fuel out.0 (queue ++ out.1) (result ++ c ∷ [])
        (Inv-queue g l result c queue degrees inv) (IsBehind-append_last g [] result c b met)
        (omega (arith, length-append_last result c))

  -- When the queue is empty, a node that is not placed has a dependency that is not.
  Inv-core :
      (placed : List Str) (degrees : Dict ℤ)
      → Inv g l placed [] degrees
      → IsEven g
      → (a : Str) → has (lookup a g) ≡ true
      → contains placed a ≡ false
      → (d : Str) × (contains (deps_at g a) d ≡ true)
        × (has (lookup d g) ≡ true)
        × (contains placed d ≡ false)
  unfolding contains
  Inv-core placed degrees inv once a h out =
      let lower =
        IsEven-count g a placed once inv.placed_once (λ n m. inv.inside n (ground (arith, m))) in
      let met =
        count-le_on (contains (deps_at g a)) (λ b. contains (dependents_at g b) a) placed
          (λ b m e. l.mutual_links b a (inv.inside b (ground (arith, m))) ∙ e) in
      let z = degree (lookup a degrees) in
      let left = unfree-parts z (sym (inv.ready a h) ∙ ground (arith, out)) in
      count-lt (contains placed) (λ d. has (lookup d g)) (deps_at g a)
        (omega (arith, lower, met, left, inv.counted a h))

  -- All are placed if as many are as there are nodes.
  pub Inv-all :
      (names : List Str) (degrees : Dict ℤ)
      → Inv g l names [] degrees
      → length names ≡ length g
      → (a : Str) → contains names a ≡ has (lookup a g)
  unfolding contains
  Inv-all names degrees inv e a =
      let within = λ (a : Str) (m : contains names a ≡ true).
        contains-keys g a ∙ inv.inside a (ground (arith, m)) in
      let full =
        contains_of_length names (keys g) inv.placed_once within (e ∙ sym (length-keys g)) in
      ground (arith, contains-keys g a, within a, full a)

  Inv-IsOrder :
      (names : List Str) (degrees : Dict ℤ)
      → Inv g l names [] degrees
      → IsBehind g [] names
      → length names ≡ length g
      → IsOrder g names
  Inv-IsOrder names degrees inv b e = record {
    once = inv.placed_once;
    all = Inv-all names degrees inv e;
    behind = b;
  }

  -- Unless every node is placed, a core is left.
  pub core_or_full :
      (names : List Str) (degrees : Dict ℤ)
      → Inv g l names [] degrees
      → IsEven g
      → length names ≢ length g
      → HasCore g names
  core_or_full names degrees inv once differ =
      let within = λ (a : Str) (m : contains names a ≡ true).
        contains-keys g a ∙ inv.inside a (in_either a m) in
      let few : count (contains names) (keys g) < count (λ a. true) (keys g) = omega (
        arith,
        length-le_of_Distinct names (keys g) inv.placed_once within,
        length-keys g,
        count-contains (keys g) names (keys-Distinct g l.unique),
        count-le-length (contains (keys g)) names,
        count_all (λ a. true) (keys g) (λ a m. refl),
      ) in
      let (a, m, e, out) = count-lt (contains names) (λ a. true) (keys g) few in
      record {
        start = a;
        start_in = sym (contains-keys g a) ∙ m;
        start_out = out;
        next = Inv-core names degrees inv once;
      }
    where
      in_either : (a : Str) → contains names a ≡ true → contains names a || contains [] a ≡ true
      in_either a m = ground (arith, m)

  -- Once all are placed, each node listed each other once: every time counts in its in-degree.
  pub Inv-IsEven :
      (names : List Str) (degrees : Dict ℤ)
      → Inv g l names [] degrees
      → length names ≡ length g
      → IsEven g
  unfolding contains
  Inv-IsEven names degrees inv e a n in_g = by_node (has (lookup a g)) refl
    where
      within : (b : Str) → contains names b ≡ true → has (lookup b g) ≡ true
      within b m = inv.inside b (ground (arith, m))

      by_node : (t : Bool) → has (lookup a g) ≡ t → times (deps_at g a) n ≤ 1
      by_node false h = times-Distinct (deps_at g a) n (deps_at-absent g a h)
      by_node true h =
          let z = degree (lookup a degrees) in
          let placed = Inv-all names degrees inv e a in
          let free = free-pos_part g l z (sym (inv.ready a h) ∙ ground (arith, placed, h)) in
          let met =
            count-le_on (λ b. contains (dependents_at g b) a) (contains (deps_at g a)) names
              (λ b m d. sym (l.mutual_links b a (within b m)) ∙ d) in
          let inner = count-le (contains names) (λ d. has (lookup d g)) (deps_at g a) within in
          times-le_of_total (deps_at g a) names
            (omega (
              arith,
              inv.counted a h,
              free,
              met,
              inner,
              count-total names (deps_at g a) inv.placed_once,
            ))
            n (Inv-all names degrees inv e n ∙ in_g)

  topological_sort-drains :
      (names : List Str) × (last : Dict ℤ) × (topological_sort g ≡ check_all g (some names))
      × Inv g l names [] last
      × IsBehind g [] names
  unfolding topological_sort
  topological_sort-drains =
      let (names, last, e, inv, b) =
        drain-ends (length g) (in_degrees g g) (sources (in_degrees g g)) [] (Inv-start g l) tt
          (omega arith) in
      (names, last, ap (check_all g) e, inv, b)

check_all-in_order :
    (g : Graph) (names names' : List Str)
    → check_all g (some names) ≡ in_order names'
    → (names ≡ names') × (length names ≡ length g)
check_all-in_order g names names' h = ground arith

check_all-circular :
    (g : Graph) (names : List Str)
    → (check_all g (some names) ≡ circular) ↔ (length names ≢ length g)
check_all-circular g names = ground arith

check_all-no_fuel : (g : Graph) (names : List Str) → check_all g (some names) ≢ no_fuel
check_all-no_fuel g names = ground arith

-- The sort ends. An order that it returns has each node once and behind its dependencies.
pub topological_sort-IsOrder :
    (g : Graph)
    → IsLinked g
    → (topological_sort g ≢ no_fuel)
      × ((names : List Str) → topological_sort g ≡ in_order names → IsOrder g names)
topological_sort-IsOrder g l =
    let (names, last, e, inv, b) = topological_sort-drains g l in
    (
      λ h. check_all-no_fuel g names (sym e ∙ h),
      λ names' h.
          let (same, full) = check_all-in_order g names names' (sym e ∙ h) in
          subst (IsOrder g) same (Inv-IsOrder g l names last inv b full),
    )

-- Where no node lists a node twice, the sort reports a circular dependency exactly when some nodes
-- each depend on another of them.
pub topological_sort-circular_iff :
    (g : Graph)
    → IsLinked g
    → IsEven g
    → (topological_sort g ≡ circular) ↔ ((placed : List Str) × HasCore g placed)
topological_sort-circular_iff g l once =
    let (names, last, e, inv, b) = topological_sort-drains g l in
    let iff = check_all-circular g names in
    (
      λ h. (names, core_or_full g l names last inv once (iff.0 (sym e ∙ h))),
      λ (placed, core).
          e
          ∙ iff.1 (λ full.
            IsOrder-coreless g names placed (Inv-IsOrder g l names last inv b full) core),
    )

topological_sort-IsEven :
    (g : Graph) (names : List Str) → IsLinked g → topological_sort g ≡ in_order names → IsEven g
topological_sort-IsEven g names l h =
    let (placed, last, e, inv, b) = topological_sort-drains g l in
    Inv-IsEven g l placed last inv (check_all-in_order g placed names (sym e ∙ h)).1

-- The sort returns an order exactly when no node lists a node of the graph twice and there are no
-- nodes that each depend on another of them.
pub topological_sort-in_order_iff :
    (g : Graph)
    → IsLinked g
    → ((names : List Str) × (topological_sort g ≡ in_order names))
      ↔ (IsEven g × ((placed : List Str) → ¬ HasCore g placed))
topological_sort-in_order_iff g l = (
  λ (names, h). (
    topological_sort-IsEven g names l h,
    λ placed. IsOrder-coreless g names placed ((topological_sort-IsOrder g l).1 names h),
  ),
  λ (even, coreless). by_answer even coreless (topological_sort g) refl,
)
  where
    by_answer :
        IsEven g
        → ((placed : List Str) → ¬ HasCore g placed)
        → (o : Ordered (List Str)) → topological_sort g ≡ o
        → (names : List Str) × (topological_sort g ≡ in_order names)
    by_answer even coreless (in_order names) e = (names, e)
    by_answer even coreless circular e =
        let (placed, core) = (topological_sort-circular_iff g l even).0 e in
        absurd (coreless placed core)
    by_answer even coreless no_fuel e = absurd ((topological_sort-IsOrder g l).0 e)
