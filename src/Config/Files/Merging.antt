-- ===== src/Config/Files/Merging.antt =====
-- What merging the entries of files does (internal/config/config.go, `mergePrograms`).
use supavisor.Prelude.{
  ◌||◌, subst, Distinct-append, ◌≡◌, refl, sym, ap, ◌∙◌, ◌⊎◌, inl, inr, true, false, Option, none,
  some, List, [], ◌∷◌, ◌++◌, Str, str_eq, str_eq_iff, contains, contains-append, Distinct, lookup,
  lookup-insert, insert-IsMap, has, In, Any-append_left, Any-append_right, arith, Bool-cases,
}
use supavisor.Config.{ProgramConfig}
use supavisor.Config.Result.{Result, ok, err, ◌>>=◌, >>=-eq-ok, ok-injective, duplicate_program}
use supavisor.Config.Health.{Parsers}
use supavisor.Config.Program.{ProgramFile, Setting, convert_program}
use supavisor.Config.Files.{named, Merge, add_converted, merge_program, merge_programs}
use supavisor.Config.Files.Entries.{
  Entries, defined, defined-append, some-injective, IsTracked, In-append,
}

module _ (go : Parsers) (visit : List Setting) where
  -- The entry of the program, and what it is converted to.
  abbrev pub IsFrom : Entries → Str → ProgramConfig → Type 0
  IsFrom entries a prog =
      (raw : ProgramFile) × In (a, some raw) entries × (convert_program go visit a raw ≡ ok prog)

  -- What merging entries does to the programs so far.
  pub record Merges (entries : Entries) (m m' : Merge) : Type 0 where
    pub tracked : IsTracked m'
    pub once : Distinct (defined entries)
    pub fresh : (a : Str) → contains (defined entries) a ≡ true → has (lookup a m.programs) ≡ false
    pub present :
        (a : Str) → contains (defined entries) a ≡ true → has (lookup a m'.programs) ≡ true
    pub kept :
        (a : Str) (prog : ProgramConfig)
        → lookup a m.programs ≡ some prog
        → lookup a m'.programs ≡ some prog
    pub taken :
        (a : Str) (raw : ProgramFile)
        → In (a, some raw) entries
        → (prog : ProgramConfig) × (convert_program go visit a raw ≡ ok prog)
          × (lookup a m'.programs ≡ some prog)
    pub only :
        (a : Str) (prog : ProgramConfig)
        → lookup a m'.programs ≡ some prog
        → (lookup a m.programs ≡ some prog) ⊎ IsFrom entries a prog

  pub Merges-nothing : (m : Merge) → IsTracked m → Merges [] m m
  unfolding contains
  Merges-nothing m t = record {
    tracked = t;
    once = tt;
    fresh = λ a h. cc;
    present = λ a h. cc;
    kept = λ a prog h. h;
    taken = λ a raw h. absurd h;
    only = λ a prog h. inl h;
  }

  kept-has :
      (m m' : Merge) (a : Str)
      → ((prog : ProgramConfig)
          → lookup a m.programs ≡ some prog
          → lookup a m'.programs ≡ some prog)
      → has (lookup a m.programs) ≡ true
      → has (lookup a m'.programs) ≡ true
  kept-has m m' a kept h = by_program (lookup a m.programs) refl h
    where
      by_program :
          (o : Option ProgramConfig)
          → lookup a m.programs ≡ o
          → has o ≡ true
          → has (lookup a m'.programs) ≡ true
      by_program none e x = cc
      by_program (some prog) e x = ap has (kept prog e)

  pub Merges-append :
      (xs ys : Entries) (m m1 m2 : Merge)
      → Merges xs m m1
      → Merges ys m1 m2
      → Merges (xs ++ ys) m m2
  Merges-append xs ys m m1 m2 f h = record {
    tracked = h.tracked;
    once = ap_Distinct (defined-append xs ys) (
        Distinct-append (defined xs) (defined ys) f.once h.once
          (λ a e. ground (arith, h.fresh a, f.present a e)));
    fresh = λ a e.
        ground (arith, f.fresh a, h.fresh a, kept-has m m1 a (f.kept a), sym (in_either a) ∙ e);
    present = λ a e.
        ground
          (arith, f.present a, h.present a, kept-has m1 m2 a (h.kept a), sym (in_either a) ∙ e);
    kept = λ a prog e. h.kept a prog (f.kept a prog e);
    taken = λ a raw e. elim (In-append xs ys (a, some raw) e) [
      | inl l ↦ let (prog, c, found) = f.taken a raw l in (prog, c, h.kept a prog found)
      | inr r ↦ h.taken a raw r
    ];
    only = λ a prog e. elim (h.only a prog e) [
      | inr (raw, i, c) ↦ inr (raw, Any-append_right _ xs ys i, c)
      | inl e1 ↦ elim (f.only a prog e1) [
        | inl e0 ↦ inl e0
        | inr (raw, i, c) ↦ inr (raw, Any-append_left _ xs ys i, c)
      ]
    ];
  }
    where
      in_either :
          (a : Str)
          → contains (defined (xs ++ ys)) a ≡ (contains (defined xs) a || contains (defined ys) a)
      in_either a =
          ap (λ l. contains l a) (defined-append xs ys)
          ∙ contains-append (defined xs) (defined ys) a

      ap_Distinct : {l k : List Str} → l ≡ k → Distinct k → Distinct l
      ap_Distinct e d = subst Distinct (sym e) d

  null-Merges : (name : Str) (m : Merge) → IsTracked m → Merges ((name, none) ∷ []) m m
  unfolding contains
  null-Merges name m t = record {
    tracked = t;
    once = tt;
    fresh = λ a h. cc;
    present = λ a h. cc;
    kept = λ a prog h. h;
    taken = λ a raw h. elim h [ inl e ↦ cc | inr b ↦ absurd b ];
    only = λ a prog h. inl h;
  }

  added-Merges :
      (path name : Str) (raw : ProgramFile) (m : Merge) (prog : ProgramConfig)
      → IsTracked m
      → lookup name m.origins ≡ none
      → convert_program go visit name raw ≡ ok prog
      → Merges ((name, some raw) ∷ []) m (add_converted go visit path name m prog)
  unfolding contains
  added-Merges path name raw m prog t none_yet c = record {
    tracked = (
      insert-IsMap name prog m.programs t.0,
      λ a.
          ground (
            arith,
            lookup-insert name a prog m.programs,
            lookup-insert name a path m.origins,
            t.1 a,
          ),
    );
    once = (refl, tt);
    fresh = λ a e. ground (arith, str_eq_iff name a, e, none_yet, t.1 name);
    present = λ a e. ground (arith, lookup-insert name a prog m.programs, e);
    kept = λ a old e.
        lookup-insert name a prog m.programs
        ∙ ground (arith, str_eq_iff name a, none_yet, t.1 name, e);
    taken = λ a raw' i. elim i [
      | inr b ↦ absurd b
      | inl e ↦
          let same : a ≡ name = ap (λ (x : Str × Option ProgramFile). x.0) e in
          let settings : raw' ≡ raw =
            some-injective (ap (λ (x : Str × Option ProgramFile). x.1) e) in
          (
            prog,
            subst (λ n. convert_program go visit n raw' ≡ ok prog) (sym same)
                (subst (λ r. convert_program go visit name r ≡ ok prog) (sym settings) c),
            lookup-insert name a prog m.programs ∙ rw ((str_eq_iff name a).1 (sym same)) refl,
          )
    ];
    only = λ a found e. elim (Bool-cases (str_eq name a)) [
      | inl same ↦
          inr
            let here = (str_eq_iff name a).0 same in
              (
                raw,
                inl (ap (λ n. (n, some raw)) (sym here)),
                subst (λ n. convert_program go visit n raw ≡ ok found) here
                    (c
                      ∙ ap ok (
                          some-injective
                            (sym (lookup-insert name a prog m.programs ∙ rw same refl) ∙ e))),
              )
      | inr other ↦ inl (sym (lookup-insert name a prog m.programs ∙ rw other refl) ∙ e)
    ];
  }

  merge_program-Merges :
      (path name : Str) (raw : Option ProgramFile) (m m' : Merge)
      → IsTracked m
      → merge_program go visit path name raw m ≡ ok m'
      → Merges ((name, raw) ∷ []) m m'
  merge_program-Merges path name none m m' t e =
      subst (Merges ((name, none) ∷ []) m) (ok-injective e) (null-Merges name m t)
  merge_program-Merges path name (some raw) m m' t e =
      by_origin (lookup name m.origins) refl (convert_program go visit name raw) refl e
    where
      by_origin :
          (o : Option Str)
          → lookup name m.origins ≡ o
          → (r : Result ProgramConfig) → convert_program go visit name raw ≡ r
          → (elim o [
            | some other ↦ err (duplicate_program name other path)
            | none ↦ named name path r >>= λ prog. ok (add_converted go visit path name m prog)
          ])
            ≡ ok m'
          → Merges ((name, some raw) ∷ []) m m'
      by_origin (some other) f r c h = cc
      by_origin none f (err w) c h = cc
      by_origin none f (ok prog) c h =
          subst (Merges ((name, some raw) ∷ []) m) (ok-injective h)
            (added-Merges path name raw m prog t f c)

  pub merge_programs-Merges :
      (path : Str) (entries : Entries) (m m' : Merge)
      → IsTracked m
      → merge_programs go visit path entries m ≡ ok m'
      → Merges entries m m'
  unfolding merge_programs
  merge_programs-Merges path [] m m' t e = subst (Merges [] m) (ok-injective e) (Merges-nothing m t)
  merge_programs-Merges path ((name, raw) ∷ entries) m m' t e =
      let (m1, e1, e2) = >>=-eq-ok (merge_program go visit path name raw m) _ e in
      let f = merge_program-Merges path name raw m m1 t e1 in
      Merges-append ((name, raw) ∷ []) entries m m1 m' f
        (merge_programs-Merges path entries m1 m' f.tracked e2)
