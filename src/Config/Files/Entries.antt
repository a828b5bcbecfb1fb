-- ===== src/Config/Files/Entries.antt =====
-- The entries of configuration files, and the programs that they define (internal/config/config.go).
use supavisor.Prelude.{
  ◌≡◌, refl, ap, ◌⊎◌, inl, inr, Option, none, some, List, [], ◌∷◌, ◌++◌, Str, Dict, lookup, IsMap,
  has, In,
}
use supavisor.Config.Result.{Result, ok, err}
use supavisor.Config.Program.{ProgramFile}
use supavisor.Config.Files.{ConfigFile, Merge}

abbrev pub Entries : Type 0
Entries = Dict (Option ProgramFile)

-- The names with settings.
abbrev pub defined : Entries → List Str
defined [] = []
defined ((name, none) ∷ entries) = defined entries
defined ((name, some raw) ∷ entries) = name ∷ defined entries

pub defined-append : (xs ys : Entries) → defined (xs ++ ys) ≡ defined xs ++ defined ys
defined-append [] ys = refl
defined-append ((name, none) ∷ xs) ys = defined-append xs ys
defined-append ((name, some raw) ∷ xs) ys = ap (λ l. name ∷ l) (defined-append xs ys)

pub some-injective : {A : Type 0} {x y : A} → some x ≡ some y → x ≡ y
some-injective h = cc

abbrev pub programs_in : Result ConfigFile → Entries
programs_in (err e) = []
programs_in (ok file) = file.programs

-- Each program has a file.
abbrev pub IsTracked : Merge → Type 0
IsTracked m = IsMap m.programs × ((a : Str) → has (lookup a m.origins) ≡ has (lookup a m.programs))

pub In-append :
    (xs ys : Entries) (e : Str × Option ProgramFile) → In e (xs ++ ys) → In e xs ⊎ In e ys
In-append [] ys e m = inr m
In-append (x ∷ xs) ys e (inl h) = inl (inl h)
In-append (x ∷ xs) ys e (inr m) = elim (In-append xs ys e m) [ inl l ↦ inl (inr l) | inr r ↦ inr r ]
