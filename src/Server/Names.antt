-- ===== src/Server/Names.antt =====
-- The order in which a pass visits the programs: `programNames` of internal/server/reconcile.go,
-- with the sort as an insertion sort by its comparison.
pub mod Order
use supavisor.Prelude.{
  ◌≡◌, refl, Bool, true, false, not, Option, none, some, List, [], ◌∷◌, if◌then◌else◌, Str, str_le,
  keys, lookup, Dict, arith,
}
use supavisor.Prelude.Int.{ℤ, ltb_ℤ}
use supavisor.Config.{ProgramConfig}
use supavisor.Server.{Server}

-- Whether the first may stand before the second: lower priority first, names among equals.
unfoldable in_order : Option ProgramConfig → Option ProgramConfig → Str → Str → Bool
in_order (some a) (some b) x y =
    if ltb_ℤ a.priority b.priority
    then true
    else if ltb_ℤ b.priority a.priority
    then false
    else str_le x y
in_order _ _ x y = str_le x y

unfoldable pub precedes : Dict ProgramConfig → Str → Str → Bool
unfolding in_order
precedes programs x y = in_order (lookup x programs) (lookup y programs) x y

unfoldable pub insert_name : Dict ProgramConfig → Str → List Str → List Str
insert_name programs x [] = x ∷ []
insert_name programs x (y ∷ ys) =
    let rest = insert_name programs x ys in if precedes programs x y then x ∷ y ∷ ys else y ∷ rest

unfoldable pub sort_names : Dict ProgramConfig → List Str → List Str
sort_names programs [] = []
sort_names programs (x ∷ xs) = insert_name programs x (sort_names programs xs)

unfoldable pub program_names : Server → List Str
program_names s = sort_names s.config.programs (keys s.processes)
