-- ===== src/Graph/Links.antt =====
-- What the loops of `AddNode` in internal/dependency/graph.go do to the dependents of a node.
use supavisor.Prelude.{
  ◌≡◌, refl, ◌∙◌, inl, inr, Bool, true, false, not, ◌||◌, ◌&&◌, List, [], ◌∷◌, if◌then◌else◌, Str,
  str_eq, str_eq_iff, contains, Distinct, lookup, IsMap, has, arith, Bool-cases,
}
use supavisor.Graph.{
  Node, Graph, update, drop_dependent, add_dependent, unlink, link, adopt, adopt_all,
}
use supavisor.Graph.Updates.{
  dependents_at, deps_at, KeepsDeps, KeepsDeps-refl, KeepsDeps-trans, drop-KeepsDeps, add-KeepsDeps,
  drop-dependents, contains-add_dependent, add_dependent-Distinct, add-dependents, AllDistinct,
  drop-AllDistinct, add-AllDistinct,
}

pub unlink-KeepsDeps : (name : Str) (deps : List Str) (g : Graph) → KeepsDeps g (unlink name deps g)
unfolding unlink
unlink-KeepsDeps name [] g = KeepsDeps-refl g
unlink-KeepsDeps name (dep ∷ deps) g =
    let g' = update dep (drop_dependent name) g in
    KeepsDeps-trans g g' (unlink name deps g') (drop-KeepsDeps name dep g)
      (unlink-KeepsDeps name deps g')

pub link-KeepsDeps : (name : Str) (deps : List Str) (g : Graph) → KeepsDeps g (link name deps g)
unfolding link
link-KeepsDeps name [] g = KeepsDeps-refl g
link-KeepsDeps name (dep ∷ deps) g =
    let g' = update dep (add_dependent name) g in
    KeepsDeps-trans g g' (link name deps g') (add-KeepsDeps name dep g)
      (link-KeepsDeps name deps g')

pub unlink-AllDistinct :
    (name : Str) (deps : List Str) (g : Graph) → AllDistinct g → AllDistinct (unlink name deps g)
unfolding unlink
unlink-AllDistinct name [] g d = d
unlink-AllDistinct name (dep ∷ deps) g d =
    unlink-AllDistinct name deps (update dep (drop_dependent name) g)
      (drop-AllDistinct name dep g d)

pub link-AllDistinct :
    (name : Str) (deps : List Str) (g : Graph) → AllDistinct g → AllDistinct (link name deps g)
unfolding link
link-AllDistinct name [] g d = d
link-AllDistinct name (dep ∷ deps) g d =
    link-AllDistinct name deps (update dep (add_dependent name) g) (add-AllDistinct name dep g d)

pub unlink-dependents :
    (name : Str) (deps : List Str) (g : Graph) (b a : Str)
    → contains (dependents_at (unlink name deps g) b) a
      ≡ (contains (dependents_at g b) a && not (contains deps b && str_eq name a))
unfolding unlink contains
unlink-dependents name [] g b a = ground arith
unlink-dependents name (dep ∷ deps) g b a = ground (
  arith,
  unlink-dependents name deps (update dep (drop_dependent name) g) b a,
  drop-dependents name dep b a g,
)

pub link-dependents :
    (name : Str) (deps : List Str) (g : Graph) (b a : Str)
    → contains (dependents_at (link name deps g) b) a
      ≡ (contains (dependents_at g b) a || (has (lookup b g) && (contains deps b && str_eq name a)))
unfolding link contains
link-dependents name [] g b a = ground arith
link-dependents name (dep ∷ deps) g b a = ground (
  arith,
  link-dependents name deps (update dep (add_dependent name) g) b a,
  add-dependents name dep b a g,
  (add-KeepsDeps name dep g).present b,
)

adopt-dependents :
    (name other : Str) (deps : List Str) (node : Node) (a : Str)
    → contains (adopt name other deps node).dependents a
      ≡ (contains node.dependents a || (contains deps name && str_eq other a))
unfolding adopt contains
adopt-dependents name other [] node a = ground arith
adopt-dependents name other (dep ∷ deps) node a = elim (Bool-cases (str_eq dep name)) [
  | inl same ↦ rw same (
      ground (
        arith,
        adopt-dependents name other deps (add_dependent other node) a,
        contains-add_dependent other node a,
      ))
  | inr differs ↦ rw differs (ground (arith, adopt-dependents name other deps node a))
]

-- One round of each loop.
abbrev adopt_one : Str → Str → Str → Node → Node
adopt_one name other dep node = if str_eq dep name then add_dependent other node else node

abbrev adopt_from : Str → Str → Node → Node → Node
adopt_from name other n node =
    if str_eq other name then node else adopt name other n.dependencies node

-- A change that keeps the dependencies, and the dependents distinct.
abbrev IsTidy : (Node → Node) → Type 0
IsTidy f =
    (node : Node)
    → Distinct node.dependents
    → Distinct (f node).dependents × ((f node).dependencies ≡ node.dependencies)

IsTidy-twice : (f h : Node → Node) → IsTidy f → IsTidy h → IsTidy (λ node. h (f node))
IsTidy-twice f h tf th node d =
    let (d', e) = tf node d in let (d'', e') = th (f node) d' in (d'', e' ∙ e)

IsTidy-if : (t : Bool) (f : Node → Node) → IsTidy f → IsTidy (λ node. if t then f node else node)
IsTidy-if true f h node d = h node d
IsTidy-if false f h node d = (d, refl)

add_dependent-IsTidy : (name : Str) → IsTidy (add_dependent name)
add_dependent-IsTidy name node d = (add_dependent-Distinct name node d, refl)

IsTidy-unless :
    (t : Bool) (f : Node → Node) → IsTidy f → IsTidy (λ node. if t then node else f node)
IsTidy-unless true f h node d = (d, refl)
IsTidy-unless false f h node d = h node d

adopt-IsTidy : (name other : Str) (deps : List Str) → IsTidy (adopt name other deps)
unfolding adopt
adopt-IsTidy name other [] = λ node d. (d, refl)
adopt-IsTidy name other (dep ∷ deps) =
    IsTidy-twice (adopt_one name other dep) (adopt name other deps)
      (IsTidy-if (str_eq dep name) (add_dependent other) (add_dependent-IsTidy other))
      (adopt-IsTidy name other deps)

pub adopt_all-IsTidy : (name : Str) (g : Graph) → IsTidy (adopt_all name g)
unfolding adopt_all
adopt_all-IsTidy name [] = λ node d. (d, refl)
adopt_all-IsTidy name ((other, n) ∷ g) =
    IsTidy-twice (adopt_from name other n) (adopt_all name g)
      (IsTidy-unless (str_eq other name) (adopt name other n.dependencies)
        (adopt-IsTidy name other n.dependencies))
      (adopt_all-IsTidy name g)

adopt_from-dependents :
    (name other : Str) (n node : Node) (a : Str)
    → contains (adopt_from name other n node).dependents a ≡ (
        contains node.dependents a
        || (not (str_eq other name) && (contains n.dependencies name && str_eq other a)))
adopt_from-dependents name other n node a =
    ground (arith, adopt-dependents name other n.dependencies node a)

pub adopt_all-dependents :
    (name : Str) (g : Graph) (node : Node) (a : Str)
    → IsMap g
    → contains (adopt_all name g node).dependents a
      ≡ (contains node.dependents a || (not (str_eq a name) && contains (deps_at g a) name))
unfolding adopt_all contains lookup
adopt_all-dependents name [] node a m = ground arith
adopt_all-dependents name ((other, n) ∷ g) node a m = ground (
  arith,
  adopt_all-dependents name g (adopt_from name other n node) a m.1,
  adopt_from-dependents name other n node a,
  str_eq_iff other a,
  str_eq_iff a name,
  str_eq_iff other name,
)
