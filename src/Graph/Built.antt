-- ===== src/Graph/Built.antt =====
-- The two directions of internal/dependency/graph.go agree: the dependents of a node are the nodes
-- that list it as a dependency, in whatever order the nodes are added.
use supavisor.Prelude.{
  ◌≡◌, refl, ◌∙◌, true, false, not, ◌||◌, ◌&&◌, Option, none, some, List, [], ◌∷◌, if◌then◌else◌,
  Str, str_eq, str_eq_iff, contains, Distinct, lookup, lookup-insert, IsMap, insert-IsMap, has,
  arith,
}
use supavisor.Graph.{
  Node, Graph, update_found, update, drop_dependent, add_dependent, unlink, link, adopt_all,
  set_node, add_node, dependents_of, deps_of,
}
use supavisor.Graph.Updates.{
  change, lookup-update, dependents_at, deps_at, KeepsDeps, AllDistinct, update-AllDistinct,
}
use supavisor.Graph.Links.{
  unlink-KeepsDeps, link-KeepsDeps, unlink-AllDistinct, link-AllDistinct, unlink-dependents,
  link-dependents, adopt_all-IsTidy, adopt_all-dependents,
}

-- Each name stands once, and the dependents of each node are the nodes that depend on it, each once.
pub record IsLinked (g : Graph) : Type 0 where
  pub unique : IsMap g
  pub mutual_links :
      (b a : Str)
      → has (lookup b g) ≡ true
      → contains (dependents_at g b) a ≡ contains (deps_at g a) b
  pub distinct : AllDistinct g

update-IsMap : (name : Str) (f : Node → Node) (g : Graph) → IsMap g → IsMap (update name f g)
unfolding update
update-IsMap name f g m = by_node (lookup name g)
  where
    by_node : (o : Option Node) → IsMap (update_found name f o g)
    by_node none = m
    by_node (some node) = insert-IsMap name (f node) g m

unlink-IsMap : (name : Str) (deps : List Str) (g : Graph) → IsMap g → IsMap (unlink name deps g)
unfolding unlink
unlink-IsMap name [] g m = m
unlink-IsMap name (dep ∷ deps) g m =
    unlink-IsMap name deps (update dep (drop_dependent name) g)
      (update-IsMap dep (drop_dependent name) g m)

link-IsMap : (name : Str) (deps : List Str) (g : Graph) → IsMap g → IsMap (link name deps g)
unfolding link
link-IsMap name [] g m = m
link-IsMap name (dep ∷ deps) g m =
    link-IsMap name deps (update dep (add_dependent name) g)
      (update-IsMap dep (add_dependent name) g m)

-- The graph once the node has its new dependencies and no other node has it as a dependent.
record IsRenewed (name : Str) (deps : List Str) (g h : Graph) : Type 0 where
  unique : IsMap h
  depends : (a : Str) → deps_at h a ≡ (if str_eq name a then deps else deps_at g a)
  present : (a : Str) → has (lookup a h) ≡ (str_eq name a || has (lookup a g))
  dependents :
      (b a : Str)
      → contains (dependents_at h b) a ≡ (contains (dependents_at g b) a && not (str_eq name a))
  distinct : AllDistinct h

set_new-IsRenewed :
    (name : Str) (deps : List Str) (g : Graph)
    → IsLinked g
    → lookup name g ≡ none
    → IsRenewed name deps g (set_node name deps none g)
unfolding contains
set_new-IsRenewed name deps g l e =
    let node : Node = record { name = name; dependencies = deps; dependents = [] } in
    let at = λ (a : Str). lookup-insert name a node g in
    record {
      unique = insert-IsMap name node g l.unique;
      depends = λ a. ground (arith, at a);
      present = λ a. ground (arith, at a);
      dependents =
          λ b a. ground (arith, at b, str_eq_iff name a, str_eq_iff name b, l.mutual_links b a);
      distinct = λ b. ground (arith, at b, l.distinct b);
    }

-- The dependencies of a node that the graph has.
set_old-IsRenewed :
    (name : Str) (deps : List Str) (g : Graph) (old : Node)
    → IsLinked g
    → lookup name g ≡ some old
    → IsRenewed name deps g (set_node name deps (some old) g)
unfolding contains
set_old-IsRenewed name deps g old l e =
    let f = λ (node : Node). record node { dependencies = deps } in
    let h = unlink name old.dependencies g in
    let at = λ (a : Str). lookup-update name a f h in
    let kept = unlink-KeepsDeps name old.dependencies g in
    record {
      unique = update-IsMap name f h (unlink-IsMap name old.dependencies g l.unique);
      depends = λ a. ground (arith, at a, kept.deps a, kept.present a, str_eq_iff name a);
      present = λ a. ground (arith, at a, kept.present a, str_eq_iff name a);
      dependents = λ b a. ground (
        arith,
        at b,
        unlink-dependents name old.dependencies g b a,
        l.mutual_links b a,
        str_eq_iff name a,
      );
      distinct =
          update-AllDistinct name f h (λ node d. d)
            (unlink-AllDistinct name old.dependencies g l.distinct);
    }

set_node-IsRenewed :
    (name : Str) (deps : List Str) (g : Graph) (o : Option Node)
    → IsLinked g
    → lookup name g ≡ o
    → IsRenewed name deps g (set_node name deps o g)
set_node-IsRenewed name deps g none l e = set_new-IsRenewed name deps g l e
set_node-IsRenewed name deps g (some old) l e = set_old-IsRenewed name deps g old l e

adopt_all-at :
    (name : Str) (h : Graph) (b a : Str)
    → IsMap h
    → contains (dependents_at (update name (adopt_all name h) h) b) a ≡ (
        contains (dependents_at h b) a
        || (str_eq name b
            && (has (lookup b h) && (not (str_eq a name) && contains (deps_at h a) name))))
unfolding contains
adopt_all-at name h b a m = by_node (lookup b h) (lookup-update name b (adopt_all name h) h)
  where
    by_node :
        (o : Option Node)
        → lookup b (update name (adopt_all name h) h)
          ≡ (if str_eq name b then change (adopt_all name h) o else o)
        → contains (dependents_at (update name (adopt_all name h) h) b) a ≡ (
            contains (dependents_of o) a
            || (str_eq name b && (has o && (not (str_eq a name) && contains (deps_at h a) name))))
    by_node none e = ground arith
    by_node (some node) e = ground (arith, adopt_all-dependents name h node a m)

adopt_all-KeepsDeps :
    (name : Str) (h : Graph) → AllDistinct h → KeepsDeps h (update name (adopt_all name h) h)
adopt_all-KeepsDeps name h d = record {
  deps = λ a. by_node a (lookup a h) (lookup-update name a (adopt_all name h) h) (d a);
  present = λ a. ground (arith, lookup-update name a (adopt_all name h) h);
}
  where
    by_node :
        (a : Str) (o : Option Node)
        → lookup a (update name (adopt_all name h) h)
          ≡ (if str_eq name a then change (adopt_all name h) o else o)
        → Distinct (dependents_of o)
        → deps_at (update name (adopt_all name h) h) a ≡ deps_of o
    by_node a none e d' = ground arith
    by_node a (some node) e d' = ground (arith, (adopt_all-IsTidy name h node d').1)

absent-dependents :
    (g : Graph) (b a : Str) → has (lookup b g) ≡ false → contains (dependents_at g b) a ≡ false
unfolding contains
absent-dependents g b a h = ground arith

-- Adding a node, new or again, keeps the two directions in agreement.
pub add_node-IsLinked :
    (name : Str) (deps : List Str) (g : Graph) → IsLinked g → IsLinked (add_node name deps g)
unfolding add_node
add_node-IsLinked name deps g l =
    let s = set_node-IsRenewed name deps g (lookup name g) l refl in
    let g1 = set_node name deps (lookup name g) g in
    let g2 = link name deps g1 in
    let d2 = link-AllDistinct name deps g1 s.distinct in
    let m2 = link-IsMap name deps g1 s.unique in
    let k2 = link-KeepsDeps name deps g1 in
    let k3 = adopt_all-KeepsDeps name g2 d2 in
    record {
      unique = update-IsMap name (adopt_all name g2) g2 m2;
      mutual_links = λ b a h.
          adopt_all-at name g2 b a m2
          ∙ ground (
            arith,
            link-dependents name deps g1 b a,
            s.dependents b a,
            s.present b,
            s.depends a,
            k2.deps a,
            k2.present b,
            k3.deps a,
            k3.present b,
            l.mutual_links b a,
            absent-dependents g b a,
            str_eq_iff name a,
            str_eq_iff name b,
            str_eq_iff a name,
          );
      distinct =
          update-AllDistinct name (adopt_all name g2) g2
            (λ node d. (adopt_all-IsTidy name g2 node d).0) d2;
    }

-- A node that is added has its new dependencies, and no other node changes its own.
pub add_node-deps :
    (name : Str) (deps : List Str) (g : Graph) (a : Str)
    → IsLinked g
    → deps_at (add_node name deps g) a ≡ (if str_eq name a then deps else deps_at g a)
unfolding add_node
add_node-deps name deps g a l =
    let s = set_node-IsRenewed name deps g (lookup name g) l refl in
    let g1 = set_node name deps (lookup name g) g in
    let d2 = link-AllDistinct name deps g1 s.distinct in
    (adopt_all-KeepsDeps name (link name deps g1) d2).deps a
    ∙ ((link-KeepsDeps name deps g1).deps a ∙ s.depends a)

pub add_node-has :
    (name : Str) (deps : List Str) (g : Graph) (a : Str)
    → IsLinked g
    → has (lookup a (add_node name deps g)) ≡ (str_eq name a || has (lookup a g))
unfolding add_node
add_node-has name deps g a l =
    let s = set_node-IsRenewed name deps g (lookup name g) l refl in
    let g1 = set_node name deps (lookup name g) g in
    let d2 = link-AllDistinct name deps g1 s.distinct in
    (adopt_all-KeepsDeps name (link name deps g1) d2).present a
    ∙ ((link-KeepsDeps name deps g1).present a ∙ s.present a)
