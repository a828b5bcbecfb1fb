-- ===== src/Config/Circular.antt =====
-- The search for circular dependencies of internal/config/config.go: `checkCircularDependency` and the
-- loop of `Validate` that starts it. The recursion has fuel; the two maps are the lists of the names
-- that they hold as true.
use supavisor.Prelude.{
  zero, suc, contains, ℕ, ◌+◌, Option, none, some, List, [], ◌∷◌, length, if◌then◌else◌, Str,
  str_eq, Dict, lookup, keys,
}
use supavisor.Config.{dependency_names, Config, ProgramConfig}
use supavisor.Config.Result.{ok, err, Result, circular_dependency}

-- `visited` and `recStack`
pub record Search : Type 0 where
  pub visited : List Str
  pub stack : List Str

-- `none` is that the fuel ran out.
abbrev pub Checked : Type 0
Checked = Option (Result Search)

abbrev pub and_then : Checked → (Search → Checked) → Checked
and_then none later = none
and_then (some (err e)) later = some (err e)
and_then (some (ok s)) later = later s

-- The loop over the dependencies of a program; `deeper` is the recursive call.
unfoldable pub visit_all : (Str → Search → Checked) → Str → List Str → Search → Checked
visit_all deeper name [] s = some (ok s)
visit_all deeper name (dep ∷ deps) s =
    and_then
      (if contains s.visited dep
        then if contains s.stack dep then some (err (circular_dependency name dep)) else some (ok s)
        else deeper dep s)
      (visit_all deeper name deps)

unfoldable pub drop_name : Str → List Str → List Str
drop_name name [] = []
drop_name name (n ∷ names) =
    let rest = drop_name name names in if str_eq n name then rest else n ∷ rest

abbrev pub leave : Str → Search → Checked
leave name s = some (ok (record s { stack = drop_name name s.stack }))

abbrev pub enter : Str → Search → Search
enter name s = record { visited = name ∷ s.visited; stack = name ∷ s.stack }

-- A name that is no program stays on the stack.
unfoldable pub check_circular_dependency : ℕ → Dict ProgramConfig → Str → Search → Checked
check_circular_dependency zero programs name s = none
check_circular_dependency (suc fuel) programs name s = elim (lookup name programs) [
  | none ↦ some (ok (enter name s))
  | some prog ↦
      and_then
        (visit_all (check_circular_dependency fuel programs) name (dependency_names prog)
          (enter name s))
        (leave name)
]

unfoldable pub check_all_circular : Dict ProgramConfig → List Str → Search → Checked
check_all_circular programs [] s = some (ok s)
check_all_circular programs (name ∷ names) s =
    and_then
      (if contains s.visited name
        then some (ok s)
        else check_circular_dependency (2 + length programs) programs name s)
      (check_all_circular programs names)

unfoldable pub validate_circular : Config → Checked
validate_circular cfg =
    check_all_circular cfg.programs (keys cfg.programs) (record { visited = []; stack = [] })
