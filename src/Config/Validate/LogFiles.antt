-- ===== src/Config/Validate/LogFiles.antt =====
-- No two programs log to one file (internal/config/config.go, `validateLogPaths`).
use supavisor.Prelude.{
  ◌≡◌, refl, sym, subst, ◌∙◌, ◌⊎◌, inl, inr, true, false, Option, none, some, List, [], ◌∷◌, Str,
  str_eq, str_eq_iff, str_eq_refl, is_empty, contains, Dict, lookup, insert, lookup-insert, arith,
  Bool-cases,
}
use supavisor.Config.{Config, ProgramConfig}
use supavisor.Config.Result.{ok, >>=-eq-ok}
use supavisor.Config.Validate.{
  sorted_program_names, claim_owned, claim_path, claim_paths, claim_all, validate_log_paths,
}
use supavisor.Config.Validate.Accepted.{sorted_program_names-contains}

-- What has an owner keeps it.
abbrev Keeps : Dict Str → Dict Str → Type 0
Keeps owners owners' =
    (path owner : Str) → lookup path owners ≡ some owner → lookup path owners' ≡ some owner

-- The program owns the path, unless that is empty.
abbrev Owns : Str → Str → Dict Str → Type 0
Owns name path owners = is_empty path ≡ false → lookup path owners ≡ some name

insert-Keeps :
    (path name : Str) (owners : Dict Str)
    → (lookup path owners ≡ none) ⊎ (lookup path owners ≡ some name)
    → Keeps owners (insert path name owners)
insert-Keeps path name owners free p owner h = elim (Bool-cases (str_eq path p)) [
  | inl same ↦
      let e = subst (λ x. lookup x owners ≡ some owner) (sym ((str_eq_iff path p).0 same)) h in
      lookup-insert path p name owners ∙ rw same (taken e free)
  | inr other ↦ lookup-insert path p name owners ∙ rw other h
]
  where
    taken :
        lookup path owners ≡ some owner
        → (lookup path owners ≡ none) ⊎ (lookup path owners ≡ some name)
        → some name ≡ some owner
    taken e (inl k) = cc
    taken e (inr k) = cc

lookup-insert_self :
    (path name : Str) (owners : Dict Str) → lookup path (insert path name owners) ≡ some name
lookup-insert_self path name owners =
    lookup-insert path path name owners ∙ rw (str_eq_refl path) refl

claim_owned_lem :
    (name path : Str) (owners owners' : Dict Str) (o : Option Str)
    → lookup path owners ≡ o
    → claim_owned name path owners o ≡ ok owners'
    → (owners' ≡ insert path name owners) × ((o ≡ none) ⊎ (o ≡ some name))
claim_owned_lem name path owners owners' none e h = (cc, inl refl)
claim_owned_lem name path owners owners' (some owner) e h = ground (arith, str_eq_iff owner name)

claim_path-empty :
    (name path : Str) (owners owners' : Dict Str)
    → is_empty path ≡ true
    → claim_path name path owners ≡ ok owners'
    → owners ≡ owners'
unfolding claim_path
claim_path-empty name path owners owners' empty h = ground arith

claim_path-full :
    (name path : Str) (owners : Dict Str)
    → is_empty path ≡ false
    → claim_path name path owners ≡ claim_owned name path owners (lookup path owners)
unfolding claim_path
claim_path-full name path owners full = rw full refl

-- A path that is claimed is owned by the program from then on, and no owner changes.
claim_path_lem :
    (name path : Str) (owners owners' : Dict Str)
    → claim_path name path owners ≡ ok owners'
    → Keeps owners owners' × Owns name path owners'
claim_path_lem name path owners owners' h = elim (Bool-cases (is_empty path)) [
  | inl empty ↦
      let e = claim_path-empty name path owners owners' empty h in
      (λ p owner m. subst (λ x. lookup p x ≡ some owner) e m, λ full. ground (arith, empty, full))
  | inr full ↦
      let (e, free) =
        claim_owned_lem name path owners owners' (lookup path owners) refl
          (sym (claim_path-full name path owners full) ∙ h) in
      (
        subst (Keeps owners) (sym e) (insert-Keeps path name owners free),
        λ full'.
            subst (λ x. lookup path x ≡ some name) (sym e) (lookup-insert_self path name owners),
      )
]

-- The program owns both of its log files.
abbrev OwnsLogs : Str → Option ProgramConfig → Dict Str → Type 0
OwnsLogs name none owners = Unit
OwnsLogs name (some prog) owners =
    Owns name prog.stdout_logfile owners × Owns name prog.stderr_logfile owners

OwnsLogs-Keeps :
    (name : Str) (o : Option ProgramConfig) (owners owners' : Dict Str)
    → Keeps owners owners'
    → OwnsLogs name o owners
    → OwnsLogs name o owners'
OwnsLogs-Keeps name none owners owners' k h = tt
OwnsLogs-Keeps name (some prog) owners owners' k h =
    (λ full. k _ name (h.0 full), λ full. k _ name (h.1 full))

claim_paths_lem :
    (name : Str) (o : Option ProgramConfig) (owners owners' : Dict Str)
    → claim_paths name o owners ≡ ok owners'
    → Keeps owners owners' × OwnsLogs name o owners'
claim_paths_lem name none owners owners' h =
    (λ p owner m. subst (λ x. lookup p x ≡ some owner) (same h) m, tt)
  where
    same : claim_paths name none owners ≡ ok owners' → owners ≡ owners'
    same h = cc
claim_paths_lem name (some prog) owners owners' h =
    let (mid, first, second) =
      >>=-eq-ok (claim_path name prog.stdout_logfile owners) (claim_path name prog.stderr_logfile)
        h in
    let (k, own) = claim_path_lem name prog.stdout_logfile owners mid first in
    let (k', own') = claim_path_lem name prog.stderr_logfile mid owners' second in
    (λ p owner m. k' p owner (k p owner m), (λ full. k' _ name (own full), own'))

claim_all_lem :
    (programs : Dict ProgramConfig) (names : List Str) (owners owners' : Dict Str)
    → claim_all programs names owners ≡ ok owners'
    → Keeps owners owners'
      × ((name : Str) → contains names name ≡ true → OwnsLogs name (lookup name programs) owners')
unfolding claim_all contains
claim_all_lem programs [] owners owners' h =
    (λ p owner m. subst (λ x. lookup p x ≡ some owner) (same h) m, λ name m. ground arith)
  where
    same : ok owners ≡ ok owners' → owners ≡ owners'
    same h = cc
claim_all_lem programs (n ∷ names) owners owners' h =
    let (mid, first, rest) =
      >>=-eq-ok (claim_paths n (lookup n programs) owners) (claim_all programs names) h in
    let (k, own) = claim_paths_lem n (lookup n programs) owners mid first in
    let (k', owned) = claim_all_lem programs names mid owners' rest in
    (
      λ p owner m. k' p owner (k p owner m),
      λ name m. elim (Bool-cases (str_eq n name)) [
        | inl same ↦
            subst (λ x. OwnsLogs x (lookup x programs) owners') ((str_eq_iff n name).0 same)
              (OwnsLogs-Keeps n (lookup n programs) mid owners' k' own)
        | inr other ↦ owned name (ground (arith, m, other))
      ],
    )

-- The program writes one of its streams to the file.
abbrev LogsTo : ProgramConfig → Str → Type 0
LogsTo prog path = (path ≡ prog.stdout_logfile) ⊎ (path ≡ prog.stderr_logfile)

OwnsLogs-Owns :
    (name : Str) (prog : ProgramConfig) (owners : Dict Str) (path : Str)
    → OwnsLogs name (some prog) owners
    → LogsTo prog path
    → Owns name path owners
OwnsLogs-Owns name prog owners path h (inl e) = subst (λ x. Owns name x owners) (sym e) h.0
OwnsLogs-Owns name prog owners path h (inr e) = subst (λ x. Owns name x owners) (sym e) h.1

-- Two programs of a configuration that passes, if both log to a file of the same path and that path
-- is not empty, are the same program.
pub validate_log_paths-disjoint :
    (cfg : Config) (a b : Str) (p q : ProgramConfig) (path : Str)
    → validate_log_paths cfg ≡ ok tt
    → lookup a cfg.programs ≡ some p
    → lookup b cfg.programs ≡ some q
    → is_empty path ≡ false
    → LogsTo p path
    → LogsTo q path
    → a ≡ b
unfolding validate_log_paths
validate_log_paths-disjoint cfg a b p q path h in_a in_b full at_a at_b =
    let names = sorted_program_names cfg.programs in
    let (owners, claimed, done) = >>=-eq-ok (claim_all cfg.programs names []) _ h in
    let owned = (claim_all_lem cfg.programs names [] owners claimed).1 in
    same
      (OwnsLogs-Owns a p owners path
        (subst (λ o. OwnsLogs a o owners) in_a
          (owned a (sorted_program_names-contains cfg.programs a p in_a)))
        at_a full)
      (OwnsLogs-Owns b q owners path
        (subst (λ o. OwnsLogs b o owners) in_b
          (owned b (sorted_program_names-contains cfg.programs b q in_b)))
        at_b full)
  where
    same : {o : Option Str} → o ≡ some a → o ≡ some b → a ≡ b
    same e f = cc
