-- ===== src/Graph/Kahn.antt =====
-- The state that both sorts of internal/dependency/graph.go keep: the names that are placed, the
-- names that wait, and the in-degrees.
use supavisor.Prelude.{
  Distinct-append, ℕ, zero, suc, ◌+◌, ◌≤◌, ◌≡◌, refl, sym, ◌∙◌, true, false, ◌||◌, List, [], ◌∷◌,
  ◌++◌, length, if◌then◌else◌, Str, str_eq_iff, str_eq_refl, contains, contains-append, Distinct,
  Dict, lookup, keys, contains-keys, has, arith,
}
use supavisor.Prelude.Int.{ℤ, pos, negsuc, pos_part, neg_part}
use supavisor.Graph.{Graph, release}
use supavisor.Graph.Updates.{dependents_at, deps_at, append_last-Distinct, contains-append_last}
use supavisor.Graph.Built.{IsLinked}
use supavisor.Graph.Counting.{
  count, count-le, count-le-back, count-contains, count-append, length-le_of_Distinct,
}
use supavisor.Graph.Release.{degree, is_free, is_one, minus_one, release-Releases}

pub length-keys : (g : Graph) → length (keys g) ≡ length g
unfolding keys
length-keys [] = refl
length-keys ((name, node) ∷ g) = omega (arith, length-keys g)

pub length-append_last : (xs : List Str) (a : Str) → length (xs ++ a ∷ []) ≡ suc (length xs)
length-append_last [] a = refl
length-append_last (x ∷ xs) a = omega (arith, length-append_last xs a)

module _ (g : Graph) (l : IsLinked g) where
  -- How often a node lists a dependency that is in the graph, and how many placed names count it
  -- among their dependents.
  abbrev listed : Str → ℕ
  listed a = count (λ d. has (lookup d g)) (deps_at g a)

  abbrev lifted : List Str → Str → ℕ
  lifted placed a = count (λ b. contains (dependents_at g b) a) placed

  pub record Inv (placed waiting : List Str) (degrees : Dict ℤ) : Type 0 where
    pub placed_once : Distinct placed
    pub waiting_once : Distinct waiting
    pub apart : (a : Str) → contains placed a ≡ true → contains waiting a ≡ false
    pub inside :
        (a : Str) → contains placed a || contains waiting a ≡ true → has (lookup a g) ≡ true
    pub counted :
        (a : Str)
        → has (lookup a g) ≡ true
        → let z = degree (lookup a degrees) in pos_part z + lifted placed a ≡ listed a + neg_part z
    pub ready :
        (a : Str)
        → has (lookup a g) ≡ true
        → (contains placed a || contains waiting a) ≡ is_free (degree (lookup a degrees))

  pub free-pos_part : (z : ℤ) → is_free z ≡ true → pos_part z ≡ 0
  free-pos_part (pos zero) h = refl
  free-pos_part (pos (suc n)) h = cc
  free-pos_part (negsuc n) h = refl

  dependent-lists :
      (a b : Str) → contains (dependents_at g b) a ≡ true → contains (deps_at g a) b ≡ true
  unfolding contains
  dependent-lists a b m = ground (arith, l.mutual_links b a, m)

  -- The dependencies in the graph of a placed or waiting name are placed.
  pub Inv-closed :
      (placed waiting : List Str) (degrees : Dict ℤ)
      → Inv placed waiting degrees
      → (a : Str) → contains placed a || contains waiting a ≡ true
      → (d : Str) → contains (deps_at g a) d ≡ true
      → has (lookup d g) ≡ true
      → contains placed d ≡ true
  Inv-closed placed waiting degrees inv a m =
      let in_g = inv.inside a m in
      let z = degree (lookup a degrees) in
      let zero_left = free-pos_part z (sym (inv.ready a in_g) ∙ m) in
      let up =
        count-le (λ b. contains (dependents_at g b) a) (contains (deps_at g a)) placed
          (dependent-lists a) in
      let met = count-contains placed (deps_at g a) inv.placed_once in
      count-le-back (contains placed) (λ d. has (lookup d g)) (deps_at g a)
        (λ d p. inv.inside d (ground (arith, p)))
        (omega (arith, inv.counted a in_g, zero_left, up, met))

  lifted-append_last :
      (placed : List Str) (c a : Str)
      → lifted (placed ++ c ∷ []) a
        ≡ lifted placed a + (if contains (dependents_at g c) a then 1 else 0)
  lifted-append_last placed c a =
      ground (arith, count-append (λ b. contains (dependents_at g b) a) placed (c ∷ []))

  dependent-has :
      (c a : Str)
      → has (lookup c g) ≡ true
      → contains (dependents_at g c) a ≡ true
      → has (lookup a g) ≡ true
  unfolding contains
  dependent-has c a h m = ground (arith, l.mutual_links c a h, m)

  minus_one_parts :
      (z : ℤ) → pos_part (minus_one z) + neg_part z + 1 ≡ pos_part z + neg_part (minus_one z)
  minus_one_parts (pos zero) = omega arith
  minus_one_parts (pos (suc n)) = omega arith
  minus_one_parts (negsuc n) = omega arith

  minus_one-free : (z : ℤ) → is_free (minus_one z) ≡ (is_free z || is_one z)
  minus_one-free (pos zero) = refl
  minus_one-free (pos (suc zero)) = refl
  minus_one-free (pos (suc (suc n))) = refl
  minus_one-free (negsuc n) = refl

  one-free : (z : ℤ) → is_one z ≡ true → is_free z ≡ false
  one-free (pos zero) h = cc
  one-free (pos (suc n)) h = refl
  one-free (negsuc n) h = cc

  -- One name is placed; those that it sets free wait with the others, in any order.
  Inv-place :
      (placed : List Str) (c : Str) (waiting waiting' : List Str) (degrees : Dict ℤ)
      → Inv placed (c ∷ waiting) degrees
      → let out = release (dependents_at g c) degrees in
        Distinct waiting'
        → ((a : Str) → contains waiting' a ≡ (contains waiting a || contains out.1 a))
        → Inv (placed ++ c ∷ []) waiting' out.0
  unfolding contains
  Inv-place placed c waiting waiting' degrees inv once same =
      let r = release-Releases (dependents_at g c) degrees (l.distinct c) in
      let here = λ (a : Str). contains-append_last placed c a in
      let in_g : has (lookup c g) ≡ true = inv.inside c (ground (arith, str_eq_refl c)) in
      record {
        placed_once =
            append_last-Distinct placed c (ground (arith, inv.apart c, str_eq_refl c))
              inv.placed_once;
        waiting_once = once;
        apart = λ a m. ground (
          arith,
          here a,
          same a,
          inv.apart a,
          inv.apart c,
          inv.waiting_once,
          inv.inside a,
          inv.ready a,
          r.freed a,
          one-free (degree (lookup a degrees)),
          str_eq_iff c a,
          m,
        );
        inside =
            λ a m. ground (arith, inv.inside a, here a, same a, r.freed a, dependent-has c a in_g);
        counted = λ a h. ground (
          arith,
          inv.counted a h,
          lifted-append_last placed c a,
          r.lowered a,
          minus_one_parts (degree (lookup a degrees)),
        );
        ready = λ a h. ground (
          arith,
          inv.ready a h,
          here a,
          same a,
          r.freed a,
          r.lowered a,
          minus_one-free (degree (lookup a degrees)),
        );
      }

  -- What is set free was not waiting.
  freed-waiting :
      (placed : List Str) (c : Str) (waiting : List Str) (degrees : Dict ℤ)
      → Inv placed (c ∷ waiting) degrees
      → (a : Str) → contains waiting a ≡ true
      → contains (release (dependents_at g c) degrees).1 a ≡ false
  unfolding contains
  freed-waiting placed c waiting degrees inv a m =
      let r = release-Releases (dependents_at g c) degrees (l.distinct c) in
      ground (arith, r.freed a, inv.inside a, inv.ready a, one-free (degree (lookup a degrees)), m)

  -- Placing in the order of a queue.
  pub Inv-queue :
      (placed : List Str) (c : Str) (waiting : List Str) (degrees : Dict ℤ)
      → Inv placed (c ∷ waiting) degrees
      → let out = release (dependents_at g c) degrees in
        Inv (placed ++ c ∷ []) (waiting ++ out.1) out.0
  Inv-queue placed c waiting degrees inv =
      let out = release (dependents_at g c) degrees in
      Inv-place placed c waiting (waiting ++ out.1) degrees inv
        (Distinct-append waiting out.1 inv.waiting_once.1
          (release-Releases (dependents_at g c) degrees (l.distinct c)).once
          (freed-waiting placed c waiting degrees inv))
        (contains-append waiting out.1)

  -- There is room for one more.
  pub Inv-room :
      (placed : List Str) (c : Str) (waiting : List Str) (degrees : Dict ℤ)
      → Inv placed (c ∷ waiting) degrees
      → suc (length placed) ≤ length g
  unfolding contains
  Inv-room placed c waiting degrees inv = omega (
    arith,
    length-le_of_Distinct (placed ++ c ∷ []) (keys g)
        (append_last-Distinct placed c (ground (arith, inv.apart c, str_eq_refl c)) inv.placed_once)
        (λ a m.
          contains-keys g a ∙ inv.inside a (ground (arith, contains-append_last placed c a, m))),
    length-keys g,
    length-append_last placed c,
  )
