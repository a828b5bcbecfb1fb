-- ===== src/Prelude/Unseen.antt =====
-- A measure for searches that enter each key of a map once.
use Prim.Native.Nat.{ℕ, suc, ◌≤◌}
use mathlib.Core.Path.{◌≡◌}
use mathlib.Core.Bool.{false}
use mathlib.Core.List.{List, [], ◌∷◌}
use mathlib.Core.Option.{some}
use native.Mathlib.Omega.{arith}
use supavisor.Prelude.Tests.{if◌then◌else◌}
use supavisor.Prelude.Lists.{length}
use supavisor.Prelude.Strings.{Str, str_eq_iff, contains}
use supavisor.Prelude.Dicts.{Dict, lookup}

module _ {V : Type 0} where
  -- How many keys have not been seen.
  abbrev pub unseen : Dict V → List Str → ℕ
  unseen [] seen = 0
  unseen ((name, p) ∷ m) seen =
      let rest = unseen m seen in if contains seen name then rest else suc rest

  pub unseen-le : (m : Dict V) (a : Str) (seen : List Str) → unseen m (a ∷ seen) ≤ unseen m seen
  unfolding contains
  unseen-le [] a seen = omega arith
  unseen-le ((name, p) ∷ m) a seen = ground (arith, unseen-le m a seen)

  pub unseen-lt :
      (m : Dict V) (a : Str) (seen : List Str) (q : V)
      → lookup a m ≡ some q
      → contains seen a ≡ false
      → suc (unseen m (a ∷ seen)) ≤ unseen m seen
  unfolding contains lookup
  unseen-lt [] a seen q h fresh = ground arith
  unseen-lt ((name, p) ∷ m) a seen q h fresh =
      ground (arith, unseen-lt m a seen q, unseen-le m a seen, str_eq_iff name a, str_eq_iff a name)

  pub unseen-le-length : (m : Dict V) (seen : List Str) → unseen m seen ≤ length m
  unseen-le-length [] seen = omega arith
  unseen-le-length ((name, p) ∷ m) seen = ground (arith, unseen-le-length m seen)
