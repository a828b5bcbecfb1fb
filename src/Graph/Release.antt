-- ===== src/Graph/Release.antt =====
-- The in-degrees that both sorts of internal/dependency/graph.go lower, and the names that this sets free.
use supavisor.Prelude.{
  zero, suc, ◌≡◌, refl, ap, ◌∙◌, Bool, true, false, ◌||◌, ◌&&◌, Option, none, some, List, [], ◌∷◌,
  if◌then◌else◌, Str, str_eq, str_eq_iff, contains, Distinct, Dict, lookup, insert, lookup-insert,
  arith,
}
use supavisor.Prelude.Int.{ℤ, pos, negsuc}
use supavisor.Graph.{one_less, if_zero, release}

-- A missing entry of a Go map reads as 0.
abbrev pub degree : Option ℤ → ℤ
degree none = pos 0
degree (some z) = z

abbrev pub is_free : ℤ → Bool
is_free (pos zero) = true
is_free (pos (suc n)) = false
is_free (negsuc n) = true

abbrev pub is_one : ℤ → Bool
is_one (pos zero) = false
is_one (pos (suc zero)) = true
is_one (pos (suc (suc n))) = false
is_one (negsuc n) = false

abbrev pub minus_one : ℤ → ℤ
minus_one z = one_less (some z)

one_less-degree : (o : Option ℤ) → one_less o ≡ minus_one (degree o)
one_less-degree none = refl
one_less-degree (some z) = refl

contains-if_zero :
    (z : ℤ) (name : Str) (names : List Str) (a : Str)
    → contains (if_zero (minus_one z) name names) a
      ≡ ((is_one z && str_eq name a) || contains names a)
unfolding contains
contains-if_zero (pos zero) name names a = refl
contains-if_zero (pos (suc zero)) name names a = refl
contains-if_zero (pos (suc (suc n))) name names a = refl
contains-if_zero (negsuc n) name names a = refl

if_zero-Distinct :
    (z : ℤ) (name : Str) (names : List Str)
    → contains names name ≡ false
    → Distinct names
    → Distinct (if_zero z name names)
if_zero-Distinct (pos zero) name names h d = (h, d)
if_zero-Distinct (pos (suc n)) name names h d = d
if_zero-Distinct (negsuc n) name names h d = d

-- What the inner loop does to the in-degree of each name, and which names it sets free.
pub record Releases (names : List Str) (degrees : Dict ℤ) (out : Dict ℤ × List Str) : Type 0 where
  pub lowered :
      (a : Str)
      → degree (lookup a out.0) ≡ (
          if contains names a
          then minus_one (degree (lookup a degrees))
          else degree (lookup a degrees))
  pub freed :
      (a : Str) → contains out.1 a ≡ (contains names a && is_one (degree (lookup a degrees)))
  pub once : Distinct out.1

degree-insert :
    (k a : Str) (z : ℤ) (m : Dict ℤ)
    → degree (lookup a (insert k z m)) ≡ (if str_eq k a then z else degree (lookup a m))
degree-insert k a z m = ground (arith, lookup-insert k a z m)

pub release-Releases :
    (names : List Str) (degrees : Dict ℤ)
    → Distinct names
    → Releases names degrees (release names degrees)
unfolding release contains
release-Releases [] degrees d = record { lowered = λ a. refl; freed = λ a. refl; once = tt }
release-Releases (name ∷ names) degrees d =
    let z = one_less (lookup name degrees) in
    let next = insert name z degrees in
    let r = release-Releases names next d.1 in
    let at = λ (a : Str). degree-insert name a z degrees in
    let z' = one_less-degree (lookup name degrees) in
    record {
      lowered = λ a. ground (arith, r.lowered a, at a, z', str_eq_iff name a);
      freed = λ a.
          ap (λ x. contains (if_zero x name (release names next).1) a) z'
          ∙ (contains-if_zero (degree (lookup name degrees)) name (release names next).1 a
              ∙ ground (arith, r.freed a, at a, z', str_eq_iff name a));
      once =
          if_zero-Distinct z name (release names next).1 (ground (arith, r.freed name, d.0)) r.once;
    }
