-- ===== src/Prelude/Dicts.antt =====
-- A Go map with string keys: an association list. The order of the list is the order in which
-- one `range` over the map visits it, so a statement for every list is one for every order.
use mathlib.Core.Path.{◌≡◌, refl, ap, ◌∙◌}
use mathlib.Core.Bool.{Bool, true, false}
use mathlib.Core.List.{List, [], ◌∷◌}
use mathlib.Core.Option.{Option, none, some}
use native.Mathlib.Omega.{arith}
use supavisor.Prelude.Tests.{if◌then◌else◌}
use supavisor.Prelude.Strings.{Str, str_eq, str_eq_iff, contains}
use supavisor.Prelude.Sorting.{Distinct}

abbrev pub Dict : Type 0 → Type 0
Dict V = List (Str × V)

module _ {V : Type 0} where
  unfoldable pub lookup : Str → Dict V → Option V
  lookup k [] = none
  lookup k ((j, v) ∷ m) = if str_eq j k then some v else lookup k m

  unfoldable pub insert : Str → V → Dict V → Dict V
  insert k v [] = (k, v) ∷ []
  insert k v ((j, w) ∷ m) = if str_eq j k then (j, v) ∷ m else (j, w) ∷ insert k v m

  unfoldable pub delete : Str → Dict V → Dict V
  delete k [] = []
  delete k ((j, w) ∷ m) = let rest = delete k m in if str_eq j k then rest else (j, w) ∷ rest

  -- The keys in the order of the visit.
  unfoldable pub keys : Dict V → List Str
  keys [] = []
  keys ((k, v) ∷ m) = k ∷ keys m

  pub lookup-insert :
      (k j : Str) (v : V) (m : Dict V)
      → lookup j (insert k v m) ≡ (if str_eq k j then some v else lookup j m)
  unfolding lookup insert
  lookup-insert k j v [] = refl
  lookup-insert k j v ((i, w) ∷ m) =
      ground (arith, str_eq_iff k j, str_eq_iff i k, str_eq_iff i j, lookup-insert k j v m)

  pub lookup-delete :
      (k j : Str) (m : Dict V) → lookup j (delete k m) ≡ (if str_eq k j then none else lookup j m)
  unfolding lookup delete
  lookup-delete k j [] = ground arith
  lookup-delete k j ((i, w) ∷ m) =
      ground (arith, str_eq_iff k j, str_eq_iff i k, str_eq_iff i j, lookup-delete k j m)

  -- No key stands twice.
  abbrev pub IsMap : Dict V → Type 0
  IsMap [] = Unit
  IsMap ((k, v) ∷ m) = (lookup k m ≡ none) × IsMap m

  pub insert-IsMap : (k : Str) (v : V) (m : Dict V) → IsMap m → IsMap (insert k v m)
  unfolding insert lookup
  insert-IsMap k v [] h = (refl, tt)
  insert-IsMap k v ((i, w) ∷ m) h =
      ground (arith, insert-IsMap k v m, lookup-insert k i v m, str_eq_iff i k, str_eq_iff k i)

-- `_, exists := m[k]`
abbrev pub has : {V : Type 0} → Option V → Bool
has none = false
has (some v) = true

pub contains-keys : {V : Type 0} (m : Dict V) (a : Str) → contains (keys m) a ≡ has (lookup a m)
unfolding contains keys lookup
contains-keys [] a = refl
contains-keys ((k, v) ∷ m) a = ground (arith, contains-keys m a)

pub keys-Distinct : {V : Type 0} (m : Dict V) → IsMap m → Distinct (keys m)
unfolding keys
keys-Distinct [] h = tt
keys-Distinct ((k, v) ∷ m) h = (contains-keys m k ∙ ap has h.0, keys-Distinct m h.1)

pub delete-IsMap : {V : Type 0} (k : Str) (m : Dict V) → IsMap m → IsMap (delete k m)
unfolding delete
delete-IsMap k [] h = tt
delete-IsMap k ((j, w) ∷ m) h = ground (arith, delete-IsMap k m h.1, lookup-delete k j m, h.0)
