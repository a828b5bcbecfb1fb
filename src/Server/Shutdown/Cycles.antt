-- ===== src/Server/Shutdown/Cycles.antt =====
-- The search for circular dependencies of internal/config/config.go, `checkCircularDependency`,
-- against the graph of the configuration.
use supavisor.Prelude.{
  ℕ, zero, suc, ◌+◌, ◌≤◌, ◌≡◌, refl, sym, ap, ◌∙◌, inl, inr, true, false, not, ◌||◌, ◌&&◌, Option,
  none, some, List, [], ◌∷◌, ◌++◌, Str, str_eq, str_eq_iff, str_eq_refl, contains, Dict, lookup,
  has, arith, Bool-cases, unseen, unseen-lt, unseen-le, if◌then◌else◌,
}
use supavisor.Config.{ProgramConfig, dependency_names}
use supavisor.Config.Result.{ok, err}
use supavisor.Config.Circular.{
  Search, Checked, and_then, visit_all, drop_name, enter, leave, check_circular_dependency,
}
use supavisor.Graph.{Graph}
use supavisor.Graph.Updates.{contains-append_last}
use supavisor.Graph.Cores.{IsMet, IsBehind, IsBehind-append_last}
use supavisor.Server.Shutdown.Built.{names_of, Represents}

contains-drop_name :
    (name : Str) (names : List Str) (a : Str)
    → contains (drop_name name names) a ≡ (contains names a && not (str_eq name a))
unfolding drop_name contains
contains-drop_name name [] a = refl
contains-drop_name name (n ∷ names) a =
    ground
      (arith, contains-drop_name name names a, str_eq_iff n name, str_eq_iff n a, str_eq_iff name a)

module _ (programs : Dict ProgramConfig) (g : Graph) (r : Represents programs g) where
  -- The names that the search is done with, each behind its dependencies; the others that it has
  -- visited are on the stack.
  pub record Explored (done : List Str) (s : Search) : Type 0 where
    pub visits : (a : Str) → contains s.visited a ≡ (contains done a || contains s.stack a)
    pub inside : (a : Str) → contains done a ≡ true → has (lookup a g) ≡ true
    pub behind : IsBehind g [] done

  -- What a part of the search does: it leaves no further program on the stack.
  pub record Grows (done : List Str) (s : Search) (done' : List Str) (s' : Search) : Type 0 where
    pub explored : Explored done' s'
    pub kept : (a : Str) → contains done a ≡ true → contains done' a ≡ true
    pub known : (a : Str) → contains s.visited a ≡ true → contains s'.visited a ≡ true
    pub stacked :
        (a : Str) → has (lookup a g) ≡ true → contains s'.stack a ≡ true → contains s.stack a ≡ true
    pub room : unseen programs s'.visited ≤ unseen programs s.visited

  pub Grows-refl : (done : List Str) (s : Search) → Explored done s → Grows done s done s
  Grows-refl done s e = record {
    explored = e;
    kept = λ a m. m;
    known = λ a m. m;
    stacked = λ a h m. m;
    room = omega arith;
  }

  -- The part does not run out of fuel, and where it reports nothing `P` holds of the names done.
  abbrev pub Ends : (List Str → Type 0) → List Str → Search → Checked → Type 0
  Ends P done s none = ⊥
  Ends P done s (some (err e)) = Unit
  Ends P done s (some (ok s')) = (done' : List Str) × Grows done s done' s' × P done'

  Ends-grown :
      (P : List Str → Type 0) (done done' : List Str) (s s' : Search) (x : Checked)
      → Grows done s done' s'
      → Ends P done' s' x
      → Ends P done s x
  Ends-grown P done done' s s' none l h = h
  Ends-grown P done done' s s' (some (err e)) l h = tt
  Ends-grown P done done' s s' (some (ok t)) l (last, m, p) = (
    last,
    record {
      explored = m.explored;
      kept = λ a h. m.kept a (l.kept a h);
      known = λ a h. m.known a (l.known a h);
      stacked = λ a h x. l.stacked a h (m.stacked a h x);
      room = omega (arith, l.room, m.room);
    },
    p,
  )

  pub and_then-Ends :
      (P Q : List Str → Type 0) (done : List Str) (s : Search) (x : Checked)
      (later : Search → Checked)
      → Ends P done s x
      → ((done' : List Str) (s' : Search)
          → Grows done s done' s'
          → P done'
          → Ends Q done' s' (later s'))
      → Ends Q done s (and_then x later)
  and_then-Ends P Q done s none later h next = h
  and_then-Ends P Q done s (some (err e)) later h next = tt
  and_then-Ends P Q done s (some (ok t)) later (done', l, p) next =
      Ends-grown Q done done' s t (later t) l (next done' t l p)

  -- The programs among the names are done with.
  abbrev pub AreDone : List Str → List Str → Type 0
  AreDone names done =
      (a : Str) → contains names a ≡ true → has (lookup a g) ≡ true → contains done a ≡ true

  abbrev pub IsDone : Str → List Str → Type 0
  IsDone name done = has (lookup name g) ≡ true → contains done name ≡ true

  -- What a call of the recursion does, with the fuel for the programs that have not been visited.
  abbrev Searches : ℕ → (Str → Search → Checked) → Type 0
  Searches fuel deeper =
      (name : Str) (done : List Str) (s : Search)
      → Explored done s
      → contains s.visited name ≡ false
      → 1 + unseen programs s.visited ≤ fuel
      → Ends (IsDone name) done s (deeper name s)

  pub Ends-map :
      (P Q : List Str → Type 0) (done : List Str) (s : Search) (x : Checked)
      → Ends P done s x
      → ((done' : List Str) (s' : Search) → Grows done s done' s' → P done' → Q done')
      → Ends Q done s x
  Ends-map P Q done s none h f = h
  Ends-map P Q done s (some (err e)) h f = tt
  Ends-map P Q done s (some (ok t)) (done', l, p) f = (done', l, f done' t l p)

  visit_one-Ends :
      (fuel : ℕ) (deeper : Str → Search → Checked) (error : Checked) (dep : Str) (done : List Str)
      (s : Search)
      → Searches fuel deeper
      → Explored done s
      → 1 + unseen programs s.visited ≤ fuel
      → Ends (IsDone dep) done s error
      → Ends (IsDone dep) done s (
          if contains s.visited dep
          then if contains s.stack dep then error else some (ok s)
          else deeper dep s)
  visit_one-Ends fuel deeper error dep done s rec e h bad =
      elim (Bool-cases (contains s.visited dep)) [
        | inr fresh ↦ rw fresh (rec dep done s e fresh h)
        | inl known ↦ elim (Bool-cases (contains s.stack dep)) [
          | inl on ↦ rw (known, on) bad
          | inr off ↦
              rw (known, off)
                (done, Grows-refl done s e, λ x. ground (arith, e.visits dep, known, off))
        ]
      ]

  visit_all-Ends :
      (fuel : ℕ) (deeper : Str → Search → Checked) (name : Str) (deps : List Str) (done : List Str)
      (s : Search)
      → Searches fuel deeper
      → Explored done s
      → 1 + unseen programs s.visited ≤ fuel
      → Ends (AreDone deps) done s (visit_all deeper name deps s)
  unfolding visit_all contains
  visit_all-Ends fuel deeper name [] done s rec e h =
      (done, Grows-refl done s e, λ a m x. ground arith)
  visit_all-Ends fuel deeper name (dep ∷ deps) done s rec e h =
      and_then-Ends (IsDone dep) (AreDone (dep ∷ deps)) done s _ (visit_all deeper name deps)
        (visit_one-Ends fuel deeper _ dep done s rec e h tt)
        (λ done' s' l d.
          Ends-map (AreDone deps) (AreDone (dep ∷ deps)) done' s' (visit_all deeper name deps s')
            (visit_all-Ends fuel deeper name deps done' s' rec l.explored (omega (arith, l.room)))
            (λ last t m all a x in_g.
              ground (arith, str_eq_iff dep a, all a, m.kept a, d, in_g, x)))

  enter-Explored :
      (name : Str) (done : List Str) (s : Search) → Explored done s → Explored done (enter name s)
  unfolding contains
  enter-Explored name done s e = record {
    visits = λ a. ground (arith, e.visits a);
    inside = e.inside;
    behind = e.behind;
  }

  leave-Explored :
      (name : Str) (done : List Str) (s : Search)
      → Explored done s
      → has (lookup name g) ≡ true
      → IsMet g done name
      → contains s.visited name ≡ true
      → Explored (done ++ name ∷ []) (record s { stack = drop_name name s.stack })
  leave-Explored name done s e h met known = record {
    visits = λ a. ground (
      arith,
      e.visits a,
      e.visits name,
      contains-append_last done name a,
      contains-drop_name name s.stack a,
      str_eq_iff name a,
    );
    inside = λ a m.
        ground (arith, e.inside a, m, h, contains-append_last done name a, str_eq_iff name a);
    behind = IsBehind-append_last g [] done name e.behind met;
  }

  -- A name that is no program stays on the stack.
  enter-missing :
      (name : Str) (done : List Str) (s : Search)
      → Explored done s
      → has (lookup name g) ≡ false
      → Ends (IsDone name) done s (some (ok (enter name s)))
  unfolding contains
  enter-missing name done s e h = (
    done,
    record {
      explored = enter-Explored name done s e;
      kept = λ a m. m;
      known = λ a m. ground arith;
      stacked = λ a in_g m. ground (arith, m, in_g, h, str_eq_iff name a);
      room = unseen-le programs name s.visited;
    },
    λ in_g. cc,
  )

  leave-program :
      (name : Str) (done : List Str) (s : Search) (x : Checked)
      → (prog : ProgramConfig) → lookup name programs ≡ some prog
      → Ends (AreDone (dependency_names prog)) done (enter name s) x
      → Ends (IsDone name) done s (and_then x (leave name))
  unfolding contains
  leave-program name done s none prog found h = h
  leave-program name done s (some (err w)) prog found h = tt
  leave-program name done s (some (ok t)) prog found (done', l, all) = (
    done' ++ name ∷ [],
    record {
      explored =
          leave-Explored name done' t l.explored (r.nodes name ∙ ap has found)
            (λ d m. all d (ap (λ ds. contains ds d) (sym (r.depends name ∙ ap names_of found)) ∙ m))
            (l.known name (ground (arith, str_eq_refl name)));
      kept = λ a m. ground (arith, contains-append_last done' name a, l.kept a m);
      known = λ a m. l.known a (ground (arith, m));
      stacked = λ a in_g m. ground (arith, l.stacked a in_g, contains-drop_name name t.stack a, m);
      room = omega (arith, l.room, unseen-le programs name s.visited);
    },
    λ in_g. contains-append_last done' name name ∙ ground (arith, str_eq_refl name),
  )

  search-Ends :
      (fuel : ℕ)
      → Searches fuel (check_circular_dependency fuel programs)
      → Searches (suc fuel) (check_circular_dependency (suc fuel) programs)
  unfolding check_circular_dependency
  search-Ends fuel rec name done s e fresh h = by_program (lookup name programs) refl
    where
      by_program :
          (o : Option ProgramConfig)
          → lookup name programs ≡ o
          → Ends (IsDone name) done s (elim o [
            | none ↦ some (ok (enter name s))
            | some prog ↦
                and_then
                  (visit_all
                    (check_circular_dependency fuel programs)
                    name
                    (dependency_names prog)
                    (enter name s))
                  (leave name)
          ])
      by_program none found = enter-missing name done s e (r.nodes name ∙ ap has found)
      by_program (some prog) found = leave-program name done s _ prog found (
          visit_all-Ends fuel (check_circular_dependency fuel programs) name (dependency_names prog)
            done (enter name s) rec (enter-Explored name done s e)
            (omega (arith, unseen-lt programs name s.visited prog found fresh)))

  pub check_circular_dependency-Ends :
      (fuel : ℕ) → Searches fuel (check_circular_dependency fuel programs)
  check_circular_dependency-Ends zero = λ name done s e fresh h. absurd (omega (arith, h))
  check_circular_dependency-Ends (suc fuel) = search-Ends fuel (check_circular_dependency-Ends fuel)
