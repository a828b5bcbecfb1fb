-- ===== src/Config/Files/Merged.antt =====
-- Which programs a configuration has (internal/config/config.go, `ParseConfig`).
use supavisor.Prelude.{
  subst, ◌≡◌, refl, sym, ap, ◌∙◌, inl, inr, ◌↔◌, some, List, [], ◌∷◌, ◌++◌, Str, Distinct, Dict,
  lookup, lookup-insert, IsMap, has, arith,
}
use supavisor.Config.{Config, ProgramConfig}
use supavisor.Config.Result.{ok, >>=-eq-ok, ok-injective, guard}
use supavisor.Config.Health.{Parsers}
use supavisor.Config.Program.{Setting}
use supavisor.Config.Files.{
  Disk, parse_config_file_raw, is_supavisor_section_empty, fragment_dir, list_fragment_files, Merge,
  merge_programs, origins_of, parse_config_file, merge_fragment, merge_fragments, parse_config,
}
use supavisor.Config.Files.Entries.{Entries, defined, programs_in, IsTracked}
use supavisor.Config.Files.Merging.{
  IsFrom, Merges, Merges-nothing, Merges-append, merge_programs-Merges,
}

module _ (go : Parsers) (visit : List Setting) where
  -- The entries of the files, one after the other; a file that cannot be read has none.
  abbrev pub entries_of : Disk → List Str → Entries
  entries_of disk [] = []
  entries_of disk (path ∷ paths) =
      programs_in (parse_config_file_raw disk path) ++ entries_of disk paths

  merge_fragment-Merges :
      (disk : Disk) (path : Str) (m m' : Merge)
      → IsTracked m
      → merge_fragment go visit disk path m ≡ ok m'
      → Merges go visit (programs_in (parse_config_file_raw disk path)) m m'
  unfolding merge_fragment
  merge_fragment-Merges disk path m m' t e =
      let (file, e1, e2) = >>=-eq-ok (parse_config_file_raw disk path) _ e in
      let (u, e3, e4) = >>=-eq-ok (guard (is_supavisor_section_empty file.supavisor) _) _ e2 in
      subst (λ r. Merges go visit (programs_in r) m m') (sym e1)
        (merge_programs-Merges go visit path file.programs m m' t e4)

  merge_fragments-Merges :
      (disk : Disk) (paths : List Str) (m m' : Merge)
      → IsTracked m
      → merge_fragments go visit disk paths m ≡ ok m'
      → Merges go visit (entries_of disk paths) m m'
  unfolding merge_fragments
  merge_fragments-Merges disk [] m m' t e =
      subst (Merges go visit [] m) (ok-injective e) (Merges-nothing go visit m t)
  merge_fragments-Merges disk (path ∷ paths) m m' t e =
      let (m1, e1, e2) = >>=-eq-ok (merge_fragment go visit disk path m) _ e in
      let f = merge_fragment-Merges disk path m m1 t e1 in
      Merges-append go visit (programs_in (parse_config_file_raw disk path)) (entries_of disk paths)
        m m1 m' f (merge_fragments-Merges disk paths m1 m' f.tracked e2)

  origins_of-lookup :
      (path : Str) (programs : Dict ProgramConfig) (a : Str)
      → has (lookup a (origins_of go visit path programs)) ≡ has (lookup a programs)
  unfolding origins_of lookup
  origins_of-lookup path [] a = refl
  origins_of-lookup path ((name, prog) ∷ programs) a = ground (
    arith,
    lookup-insert name a path (origins_of go visit path programs),
    origins_of-lookup path programs a,
  )

  abbrev none_yet : Merge
  none_yet = record { programs = []; origins = [] }

  abbrev from_main : Str → Config → Merge
  from_main path cfg = record {
    programs = cfg.programs;
    origins = origins_of go visit path cfg.programs;
  }

  none_yet-IsTracked : IsTracked none_yet
  unfolding lookup
  none_yet-IsTracked = (tt, λ a. refl)

  main-Merges :
      (path : Str) (entries : Entries) (m : Merge)
      → Merges go visit entries none_yet m
      → Merges go visit entries none_yet
          (record { programs = m.programs; origins = origins_of go visit path m.programs })
  main-Merges path entries m f = record {
    tracked = (f.tracked.0, origins_of-lookup path m.programs);
    once = f.once;
    fresh = f.fresh;
    present = f.present;
    kept = f.kept;
    taken = f.taken;
    only = f.only;
  }

  parse_config_file-Merges :
      (disk : Disk) (path : Str) (cfg : Config)
      → parse_config_file go visit disk path ≡ ok cfg
      → Merges go visit
          (programs_in (parse_config_file_raw disk path))
          none_yet
          (from_main path cfg)
        × (cfg.source_path ≡ path)
  unfolding parse_config_file
  parse_config_file-Merges disk path cfg e =
      let (file, e1, e2) = >>=-eq-ok (parse_config_file_raw disk path) _ e in
      let (m, e3, e4) = >>=-eq-ok (merge_programs go visit path file.programs none_yet) _ e2 in
      let f =
        main-Merges path file.programs m
          (merge_programs-Merges go visit path file.programs none_yet m none_yet-IsTracked e3) in
      let same = ok-injective e4 in
      (
        subst (λ r. Merges go visit (programs_in r) none_yet (from_main path cfg)) (sym e1)
            (subst (λ c. Merges go visit file.programs none_yet (from_main path c)) same f),
        sym (ap (λ (c : Config). c.source_path) same),
      )

  Merges-iff :
      (entries : Entries) (m : Merge)
      → Merges go visit entries none_yet m
      → (a : Str) (prog : ProgramConfig)
      → (lookup a m.programs ≡ some prog) ↔ IsFrom go visit entries a prog
  unfolding lookup
  Merges-iff entries m h a prog = (
    λ e. elim (h.only a prog e) [ inl x ↦ cc | inr from ↦ from ],
    λ (raw, i, c).
        let (prog', c', found) = h.taken a raw i in found ∙ ap some (ok-injective (sym c' ∙ c)),
  )

  -- A configuration that is read from its file and the fragments beside it has exactly the programs
  -- that those files define, each with the settings that its own entry is converted to. No two of
  -- the files define the same program, and the configuration names the main file as its source.
  pub parse_config_lem :
      (disk : Disk) (path : Str) (cfg : Config)
      → parse_config go visit disk path ≡ ok cfg
      → (paths : List Str) × (list_fragment_files disk (fragment_dir path) ≡ ok paths)
        × IsMap cfg.programs
        × Distinct (defined (entries_of disk (path ∷ paths)))
        × ((a : Str) (prog : ProgramConfig)
            → (lookup a cfg.programs ≡ some prog)
              ↔ IsFrom go visit (entries_of disk (path ∷ paths)) a prog)
        × (cfg.source_path ≡ path)
  unfolding parse_config
  parse_config_lem disk path cfg e =
      let (main, e1, e2) = >>=-eq-ok (parse_config_file go visit disk path) _ e in
      let (paths, e3, e4) = >>=-eq-ok (list_fragment_files disk (fragment_dir path)) _ e2 in
      let (m, e5, e6) =
        >>=-eq-ok (merge_fragments go visit disk paths (from_main path main)) _ e4 in
      let (f, source) = parse_config_file-Merges disk path main e1 in
      let h =
        Merges-append go visit (programs_in (parse_config_file_raw disk path))
          (entries_of disk paths) none_yet (from_main path main) m f
          (merge_fragments-Merges disk paths (from_main path main) m f.tracked e5) in
      let same = ok-injective e6 in
      let programs = ap (λ (c : Config). c.programs) same in
      (
        paths,
        e3,
        subst IsMap programs h.tracked.0,
        h.once,
        λ a prog.
            subst
              (λ ps.
                (lookup a ps ≡ some prog) ↔ IsFrom go visit (entries_of disk (path ∷ paths)) a prog)
              programs (Merges-iff (entries_of disk (path ∷ paths)) m h a prog),
        sym (ap (λ (c : Config). c.source_path) same) ∙ source,
      )
