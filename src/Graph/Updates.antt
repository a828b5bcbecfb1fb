-- ===== src/Graph/Updates.antt =====
-- What an assignment through a node's pointer changes in the graph of internal/dependency/graph.go.
use supavisor.Prelude.{
  ◌≡◌, refl, ◌∙◌, inl, inr, Bool, true, false, not, ◌||◌, ◌&&◌, Option, none, some, List, [], ◌∷◌,
  ◌++◌, if◌then◌else◌, Str, str_eq, str_eq_iff, contains, contains-append, Distinct, lookup,
  lookup-insert, has, arith, Bool-cases,
}
use supavisor.Graph.{
  Node, Graph, update_found, update, without, drop_dependent, add_dependent, dependents_of, deps_of,
}

abbrev pub change : (Node → Node) → Option Node → Option Node
change f none = none
change f (some node) = some (f node)

update_found-lookup :
    (name a : Str) (f : Node → Node) (g : Graph) (o : Option Node)
    → lookup name g ≡ o
    → lookup a (update_found name f o g)
      ≡ (if str_eq name a then change f (lookup a g) else lookup a g)
update_found-lookup name a f g none e = elim (Bool-cases (str_eq name a)) [
  | inl same ↦ rw same (missing ((str_eq_iff name a).0 same))
  | inr other ↦ rw other refl
]
  where
    missing : name ≡ a → lookup a g ≡ change f (lookup a g)
    missing s = let e' : lookup a g ≡ none = rw (← s) e in rw e' refl
update_found-lookup name a f g (some node) e = elim (Bool-cases (str_eq name a)) [
  | inl same ↦ lookup-insert name a (f node) g ∙ rw same (found ((str_eq_iff name a).0 same))
  | inr other ↦ lookup-insert name a (f node) g ∙ rw other refl
]
  where
    found : name ≡ a → some (f node) ≡ change f (lookup a g)
    found s = let e' : lookup a g ≡ some node = rw (← s) e in rw e' refl

pub lookup-update :
    (name a : Str) (f : Node → Node) (g : Graph)
    → lookup a (update name f g) ≡ (if str_eq name a then change f (lookup a g) else lookup a g)
unfolding update
lookup-update name a f g = update_found-lookup name a f g (lookup name g) refl

-- What a graph holds at a name.
abbrev pub dependents_at : Graph → Str → List Str
dependents_at g a = dependents_of (lookup a g)

abbrev pub deps_at : Graph → Str → List Str
deps_at g a = deps_of (lookup a g)

-- A change of one node's dependents.
abbrev redirect : Bool → (List Str → List Str) → Option Node → List Str
redirect false f o = dependents_of o
redirect true f none = []
redirect true f (some node) = f node.dependents

-- A stage of `AddNode` that changes no dependency and no name.
pub record KeepsDeps (g g' : Graph) : Type 0 where
  pub deps : (a : Str) → deps_at g' a ≡ deps_at g a
  pub present : (a : Str) → has (lookup a g') ≡ has (lookup a g)

pub KeepsDeps-refl : (g : Graph) → KeepsDeps g g
KeepsDeps-refl g = record { deps = λ a. refl; present = λ a. refl }

pub KeepsDeps-trans : (f g h : Graph) → KeepsDeps f g → KeepsDeps g h → KeepsDeps f h
KeepsDeps-trans f g h a b = record {
  deps = λ x. b.deps x ∙ a.deps x;
  present = λ x. b.present x ∙ a.present x;
}

contains-without :
    (name : Str) (ds : List Str) (a : Str)
    → contains (without name ds) a ≡ (contains ds a && not (str_eq name a))
unfolding without contains
contains-without name [] a = refl
contains-without name (d ∷ ds) a =
    ground (arith, contains-without name ds a, str_eq_iff d name, str_eq_iff d a, str_eq_iff name a)

without-Distinct : (name : Str) (ds : List Str) → Distinct ds → Distinct (without name ds)
unfolding without
without-Distinct name [] h = tt
without-Distinct name (d ∷ ds) h =
    ground (arith, without-Distinct name ds h.1, contains-without name ds d, h.0)

pub append_last-Distinct :
    (ds : List Str) (a : Str) → contains ds a ≡ false → Distinct ds → Distinct (ds ++ a ∷ [])
unfolding contains
append_last-Distinct [] a h d = (refl, tt)
append_last-Distinct (x ∷ ds) a h d = ground (
  arith,
  append_last-Distinct ds a,
  contains-append ds (a ∷ []) x,
  str_eq_iff x a,
  str_eq_iff a x,
)

pub drop-KeepsDeps : (name dep : Str) (g : Graph) → KeepsDeps g (update dep (drop_dependent name) g)
drop-KeepsDeps name dep g = record {
  deps = λ a. ground (arith, lookup-update dep a (drop_dependent name) g);
  present = λ a. ground (arith, lookup-update dep a (drop_dependent name) g);
}

pub add-KeepsDeps : (name dep : Str) (g : Graph) → KeepsDeps g (update dep (add_dependent name) g)
add-KeepsDeps name dep g = record {
  deps = λ a. ground (arith, lookup-update dep a (add_dependent name) g);
  present = λ a. ground (arith, lookup-update dep a (add_dependent name) g);
}

pub drop-dependents :
    (name dep b a : Str) (g : Graph)
    → contains (dependents_at (update dep (drop_dependent name) g) b) a
      ≡ (contains (dependents_at g b) a && not (str_eq dep b && str_eq name a))
unfolding contains
drop-dependents name dep b a g = by_node (lookup b g) (lookup-update dep b (drop_dependent name) g)
  where
    by_node :
        (o : Option Node)
        → lookup b (update dep (drop_dependent name) g)
          ≡ (if str_eq dep b then change (drop_dependent name) o else o)
        → contains (dependents_at (update dep (drop_dependent name) g) b) a
          ≡ (contains (dependents_of o) a && not (str_eq dep b && str_eq name a))
    by_node none e = ground arith
    by_node (some node) e = ground (arith, contains-without name node.dependents a)

pub contains-append_last :
    (ds : List Str) (x a : Str) → contains (ds ++ x ∷ []) a ≡ (contains ds a || str_eq x a)
unfolding contains
contains-append_last [] x a = ground arith
contains-append_last (d ∷ ds) x a = ground (arith, contains-append_last ds x a)

pub contains-add_dependent :
    (name : Str) (node : Node) (a : Str)
    → contains (add_dependent name node).dependents a
      ≡ (contains node.dependents a || str_eq name a)
contains-add_dependent name node a =
    ground (arith, contains-append_last node.dependents name a, str_eq_iff name a)

pub add_dependent-Distinct :
    (name : Str) (node : Node)
    → Distinct node.dependents
    → Distinct (add_dependent name node).dependents
add_dependent-Distinct name node d = ground (arith, append_last-Distinct node.dependents name)

pub add-dependents :
    (name dep b a : Str) (g : Graph)
    → contains (dependents_at (update dep (add_dependent name) g) b) a
      ≡ (contains (dependents_at g b) a || (has (lookup b g) && (str_eq dep b && str_eq name a)))
add-dependents name dep b a g = by_node (lookup b g) (lookup-update dep b (add_dependent name) g)
  where
    by_node :
        (o : Option Node)
        → lookup b (update dep (add_dependent name) g)
          ≡ (if str_eq dep b then change (add_dependent name) o else o)
        → contains (dependents_at (update dep (add_dependent name) g) b) a
          ≡ (contains (dependents_of o) a || (has o && (str_eq dep b && str_eq name a)))
    by_node none e = ground arith
    by_node (some node) e = ground (arith, contains-add_dependent name node a)

-- Every list of dependents has each name once.
abbrev pub AllDistinct : Graph → Type 0
AllDistinct g = (b : Str) → Distinct (dependents_at g b)

pub update-AllDistinct :
    (name : Str) (f : Node → Node) (g : Graph)
    → ((node : Node) → Distinct node.dependents → Distinct (f node).dependents)
    → AllDistinct g
    → AllDistinct (update name f g)
update-AllDistinct name f g keep d b = by_node (lookup b g) (lookup-update name b f g) (d b)
  where
    by_node :
        (o : Option Node)
        → lookup b (update name f g) ≡ (if str_eq name b then change f o else o)
        → Distinct (dependents_of o)
        → Distinct (dependents_at (update name f g) b)
    by_node none e d' = ground arith
    by_node (some node) e d' = ground (arith, keep node)

pub drop-AllDistinct :
    (name dep : Str) (g : Graph) → AllDistinct g → AllDistinct (update dep (drop_dependent name) g)
drop-AllDistinct name dep g =
    update-AllDistinct dep (drop_dependent name) g (λ node. without-Distinct name node.dependents)

pub add-AllDistinct :
    (name dep : Str) (g : Graph) → AllDistinct g → AllDistinct (update dep (add_dependent name) g)
add-AllDistinct name dep g =
    update-AllDistinct dep (add_dependent name) g (add_dependent-Distinct name)
