-- ===== src/Server/Reconcile/Decisions.antt =====
-- What one pass of the reconciler launches (internal/server/reconcile.go, `reconcile`).
use supavisor.Prelude.{
  Distinct, has, ◌≡◌, ◌≢◌, ◌↔◌, inl, inr, sym, subst, ◌∙◌, true, Option, none, some, List, [], ◌∷◌,
  map, Str, str_eq, str_eq_iff, contains, IsMap, lookup, In, Any-append_left, Any-append_right,
  Any-append_split, arith, Bool-cases,
}
use supavisor.Server.{Server}
use supavisor.Server.Names.{program_names}
use supavisor.Server.Names.Order.{IsOrdered, program_names_lem}
use supavisor.Server.Reconcile.{
  ActionKind, Launched, Visit, reconcile_one, reconcile_all, reconcile,
}
use supavisor.Server.Reconcile.Visits.{
  Owes, visit_shape, visit-Owes, visit-name, Frame, reconcile_one-Frame, reconcile_one-marks,
}

-- The first list is the second with some names left out.
pub data IsPartOf : List Str → List Str → Type 0 where
  ends : IsPartOf [] []
  keeps : {xs ys : List Str} (x : Str) → IsPartOf xs ys → IsPartOf (x ∷ xs) (x ∷ ys)
  skips : {xs ys : List Str} (y : Str) → IsPartOf xs ys → IsPartOf xs (y ∷ ys)

abbrev pub programs_of : Launched → List Str
programs_of launched = map (λ x. x.0) launched

reconcile_all-IsPartOf :
    (visits : Str → Visit) (names : List Str)
    → IsPartOf (programs_of (reconcile_all visits names)) names
unfolding reconcile_all
reconcile_all-IsPartOf visits [] = ends
reconcile_all-IsPartOf visits (name ∷ names) =
    let later = reconcile_all-IsPartOf visits names in
    elim (visit_shape name (visits name)) [
      | inl e ↦ rw e (skips name later)
      | inr (inl e) ↦ rw e (keeps name later)
      | inr (inr e) ↦ rw e (keeps name later)
    ]

-- What is launched for a program is launched by its visit.
reconcile_all-In :
    (visits : Str → Visit) (names : List Str) (name : Str) (kind : ActionKind)
    → In (name, kind) (reconcile_all visits names)
    → (contains names name ≡ true) × In (name, kind) (reconcile_one name (visits name)).1
unfolding reconcile_all contains
reconcile_all-In visits [] name kind h = absurd h
reconcile_all-In visits (n ∷ names) name kind h =
    elim (Any-append_split (λ y. (name, kind) ≡ y) (reconcile_one n (visits n)).1
      (reconcile_all visits names) h) [
        | inl m ↦
            let same = visit-name n name kind (visits n) m in
            (
              ground (arith, str_eq_iff n name, same),
              subst (λ a. In (name, kind) (reconcile_one a (visits a)).1) same m,
            )
        | inr m ↦
            let (listed, by_visit) = reconcile_all-In visits names name kind m in
            (ground (arith, listed), by_visit)
      ]

In-reconcile_all :
    (visits : Str → Visit) (names : List Str) (name : Str) (kind : ActionKind)
    → contains names name ≡ true
    → In (name, kind) (reconcile_one name (visits name)).1
    → In (name, kind) (reconcile_all visits names)
unfolding reconcile_all contains
In-reconcile_all visits [] name kind h m = cc
In-reconcile_all visits (n ∷ names) name kind h m = elim (Bool-cases (str_eq n name)) [
  | inl same ↦
      Any-append_left (λ y. (name, kind) ≡ y) (reconcile_one n (visits n)).1
        (reconcile_all visits names)
        (subst (λ a. In (name, kind) (reconcile_one a (visits a)).1)
          (sym ((str_eq_iff n name).0 same)) m)
  | inr other ↦
      Any-append_right (λ y. (name, kind) ≡ y) (reconcile_one n (visits n)).1
        (reconcile_all visits names)
        (In-reconcile_all visits names name kind (ground (arith, h, other)) m)
]

lookup-ne-none : {V : Type 0} (o : Option V) → has o ≡ true → o ≢ none
lookup-ne-none o h = ground arith

ne-none-has : {V : Type 0} (o : Option V) → o ≢ none → has o ≡ true
ne-none-has o h = ground arith

-- For a server that has each program once, whatever the visits of a pass that begins there find: the
-- pass launches a start for a program exactly when it is managed at the beginning and its visit
-- finds it managed and wanted, with no action in flight, STOPPED, and each of its dependencies managed
-- and running, healthy or completed as its condition says. It launches a stop exactly when the
-- visit finds the program managed and unwanted, with no action in flight, and neither STOPPED nor
-- STOPPING. It launches at most one action for each program, in an order of the priorities with names
-- breaking ties, and marks each as in flight. No visit changes a process, a desired state or a setting.
pub reconcile_lem :
    (visits : Str → Visit) (s : Server)
    → IsMap s.processes
    → ((name : Str) (kind : ActionKind)
        → (In (name, kind) (reconcile visits s))
          ↔ ((lookup name s.processes ≢ none) × Owes kind name (visits name)))
      × ((names : List Str) × IsPartOf (programs_of (reconcile visits s)) names
          × Distinct names
          × IsOrdered s.config.programs names)
      × ((name : Str) (kind : ActionKind)
          → In (name, kind) (reconcile visits s)
          → lookup name (reconcile_one name (visits name)).0.inflight ≡ some true)
      × ((name : Str) → Frame name (visits name).acted (reconcile_one name (visits name)).0)
unfolding reconcile
reconcile_lem visits s unique =
    let names = program_names s in
    let (distinct, ordered, managed) = program_names_lem s unique in
    (
      λ name kind. (
        λ m.
            let (listed, by_visit) = reconcile_all-In visits names name kind m in
            (
              lookup-ne-none (lookup name s.processes) (sym (managed name) ∙ listed),
              (visit-Owes kind name (visits name)).0 by_visit,
            ),
        λ (known, owed).
            In-reconcile_all visits names name kind
              (managed name ∙ ne-none-has (lookup name s.processes) known)
              ((visit-Owes kind name (visits name)).1 owed),
      ),
      (names, reconcile_all-IsPartOf visits names, distinct, ordered),
      λ name kind m.
          reconcile_one-marks kind name (visits name) (reconcile_all-In visits names name kind m).1,
      λ name. reconcile_one-Frame name (visits name),
    )
