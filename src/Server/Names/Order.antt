-- ===== src/Server/Names/Order.antt =====
-- The visit order of a pass (internal/server/reconcile.go, `programNames`).
use supavisor.Prelude.{
  has, Distinct, contains-keys, keys-Distinct, ◌≡◌, refl, ◌∙◌, true, false, ◌||◌, List, [], ◌∷◌,
  Str, str_eq, str_eq_iff, str_le_total, contains, Dict, IsMap, keys, lookup, arith,
}
use supavisor.Config.{ProgramConfig}
use supavisor.Server.{Server}
use supavisor.Server.Names.{precedes, insert_name, sort_names, program_names}

-- Each name may stand before the one behind it.
abbrev pub IsOrdered : Dict ProgramConfig → List Str → Type 0
IsOrdered programs [] = Unit
IsOrdered programs (x ∷ []) = Unit
IsOrdered programs (x ∷ y ∷ ys) = (precedes programs x y ≡ true) × IsOrdered programs (y ∷ ys)

module _ (programs : Dict ProgramConfig) where
  contains-insert_name :
      (x : Str) (xs : List Str) (a : Str)
      → contains (insert_name programs x xs) a ≡ (str_eq x a || contains xs a)
  unfolding insert_name contains
  contains-insert_name x [] a = refl
  contains-insert_name x (y ∷ ys) a = ground (arith, contains-insert_name x ys a)

  contains-sort_names :
      (xs : List Str) (a : Str) → contains (sort_names programs xs) a ≡ contains xs a
  unfolding sort_names contains
  contains-sort_names [] a = refl
  contains-sort_names (x ∷ xs) a =
      ground (arith, contains-insert_name x (sort_names programs xs) a, contains-sort_names xs a)

  insert_name-Distinct :
      (x : Str) (xs : List Str)
      → contains xs x ≡ false
      → Distinct xs
      → Distinct (insert_name programs x xs)
  unfolding insert_name contains
  insert_name-Distinct x [] h d = (refl, tt)
  insert_name-Distinct x (y ∷ ys) h d = ground (
    arith,
    insert_name-Distinct x ys,
    contains-insert_name x ys y,
    str_eq_iff x y,
    str_eq_iff y x,
  )

  sort_names-Distinct : (xs : List Str) → Distinct xs → Distinct (sort_names programs xs)
  unfolding sort_names
  sort_names-Distinct [] h = tt
  sort_names-Distinct (x ∷ xs) h =
      insert_name-Distinct x (sort_names programs xs) (contains-sort_names xs x ∙ h.0)
        (sort_names-Distinct xs h.1)

  -- Of two programs one may stand before the other.
  precedes_total : (x y : Str) → precedes programs x y ≡ false → precedes programs y x ≡ true
  unfolding precedes
  precedes_total x y h = ground (arith, str_le_total x y)

  insert_name-IsOrdered :
      (x : Str) (xs : List Str)
      → IsOrdered programs xs
      → IsOrdered programs (insert_name programs x xs)
  unfolding insert_name
  insert_name-IsOrdered x [] h = tt
  insert_name-IsOrdered x (y ∷ []) h = ground (arith, precedes_total x y)
  insert_name-IsOrdered x (y ∷ z ∷ zs) h =
      ground (arith, precedes_total x y, insert_name-IsOrdered x (z ∷ zs), precedes_total x z)

  sort_names-IsOrdered : (xs : List Str) → IsOrdered programs (sort_names programs xs)
  unfolding sort_names
  sort_names-IsOrdered [] = tt
  sort_names-IsOrdered (x ∷ xs) =
      insert_name-IsOrdered x (sort_names programs xs) (sort_names-IsOrdered xs)

-- In a server that has each program once, a pass visits the managed programs and no other, each
-- once, in the order of priority with names breaking ties: no name may have stood only behind the
-- one before it.
pub program_names_lem :
    (s : Server)
    → IsMap s.processes
    → Distinct (program_names s)
      × IsOrdered s.config.programs (program_names s)
      × ((a : Str) → contains (program_names s) a ≡ has (lookup a s.processes))
unfolding program_names
program_names_lem s h = (
  sort_names-Distinct s.config.programs (keys s.processes) (keys-Distinct s.processes h),
  sort_names-IsOrdered s.config.programs (keys s.processes),
  λ a. contains-sort_names s.config.programs (keys s.processes) a ∙ contains-keys s.processes a,
)
