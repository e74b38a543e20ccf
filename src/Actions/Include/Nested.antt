-- ===== src/Actions/Include/Nested.antt =====
-- A file that includes others is read to its end, and none of those is read twice.
use flexi_config_reader.Common.{
  ℕ, zero, suc, ◌≤◌, ◌<◌, Text, text_dec, List, [], ◌∷◌, ◌++◌, none, some, Bool, true, false, ◌≡◌,
  refl, arith, has, length, distinct, distinct-append_new, Option-cases, Bool-cases, inl, inr, ◌∙◌,
}
use flexi_config_reader.Result.{
  Result, ok, throw, Run, Settles, Settles-bind, Settles-some, Ensures, Ensures-choice, Ensures-map,
  Ensures-any, parse_error,
}
use flexi_config_reader.Lookup.Unseen.{unseen, unseen_less, unseen-le-length}
use flexi_config_reader.Utils.{substitute_env_vars}
use flexi_config_reader.Utils.Env.{dollars, IsPlain, substitute_env_vars_total}
use flexi_config_reader.Actions.{ActionData, IncludeData}
use flexi_config_reader.Actions.Values.{Conversions}
use flexi_config_reader.Actions.Rules.{act}
use flexi_config_reader.Actions.Keeps.{Keeps, act-Keeps}
use flexi_config_reader.Actions.Include.{
  Event, rule, include_end, mismatch, Files, catch_system_error, rounds, include_path, read_nested,
  include_found, include_file, on_include_end, read_events, read_file,
}

dollars-le-length : (s : Text) → dollars s ≤ length s
unfolding dollars
dollars-le-length [] = omega arith
dollars-le-length (c ∷ s) = ground (arith, dollars-le-length s)

Settles-catch :
    (P : ActionData → Type 0) (r : Run ActionData) → Settles P r → Settles P (catch_system_error r)
unfolding catch_system_error
Settles-catch P none p = p
Settles-catch P (some (throw exception)) p = tt
Settles-catch P (some (ok out)) p = p

Ensures-self : {A : Type 0} (r : Result A) → Ensures (λ x. r ≡ ok x) r
Ensures-self (throw exception) = tt
Ensures-self (ok x) = refl

-- the list has every file that there is
abbrev pub Covers : Files → List Text → Type 0
Covers files universe = (p : Text) → files.exists p ≡ ok true → has text_dec p universe ≡ true

module _ (library : Conversions) (files : Files) (plain : IsPlain (files.getenv)) where
  substitute-Settles :
      (s : Text) → Settles (λ _. Unit) (substitute_env_vars (files.getenv) (rounds s) s)
  substitute-Settles s =
      let (r, settled, closed) =
        substitute_env_vars_total (files.getenv) plain (rounds s) s
          (omega (arith, dollars-le-length s)) in
      rw (settled, Settles) (Ensures-any r)

  include_path-Settles :
      (source : Text) (out : ActionData) (incl : IncludeData)
      → Settles (λ _. Unit) (include_path library files source out incl)
  unfolding include_path
  include_path-Settles source out incl =
      Settles-bind (λ _. Unit) (λ _. Unit)
        (substitute_env_vars (files.getenv) (rounds incl.file) incl.file) _
        (substitute-Settles incl.file) (λ file _. Ensures-any (files.absolute _))

  module _ (universe : List Text) (covers : Covers files universe) where
    -- At most `n` files are left to read, the base directory is this one, and no file is recorded twice.
    abbrev pub Reads : ℕ → Text → ActionData → Type 0
    Reads n base out =
        (unseen out.all_files universe ≤ n)
        × (out.base_dir ≡ base)
        × (distinct text_dec out.all_files ≡ true)

    -- what the recursive calls promise
    abbrev Resumes : (Text → List Event → ActionData → Run ActionData) → ℕ → Type 0
    Resumes resume fuel =
        (source : Text) (events : List Event) (out : ActionData) (n : ℕ) (base : Text)
        → n < fuel
        → Reads n base out
        → Settles (Reads n base) (resume source events out)

    Reads-Keeps :
        (n : ℕ) (base : Text) (out o : ActionData) → Reads n base out → Keeps out o → Reads n base o
    Reads-Keeps n base out o (few, at_base, once) (same_files, same_base) =
        (rw same_files few, same_base ∙ at_base, rw same_files once)

    module _ (resume : Text → List Event → ActionData → Run ActionData) (fuel : ℕ)
        (resumes : Resumes resume fuel) where
      read_nested-Reads :
          (cfg_file : Text) (events : List Event) (incl : IncludeData) (out : ActionData) (n : ℕ)
          (base : Text)
          → n < suc fuel
          → files.exists cfg_file ≡ ok true
          → has text_dec cfg_file out.all_files ≡ false
          → Reads n base out
          → Settles (Reads n base) (read_nested library files resume cfg_file events incl out)
      unfolding read_nested
      read_nested-Reads cfg_file events incl out n base le there new (few, at_base, once) =
          let fewer = unseen_less cfg_file out.all_files universe (covers cfg_file there) new in
          let added = distinct-append_new text_dec cfg_file out.all_files once new in
          elim (Bool-cases incl.is_relative) [
            | inl relative ↦
                rw (relative, read_nested, Settles)
                  (Settles-bind
                    (Reads (unseen (out.all_files ++ cfg_file ∷ []) universe)
                      (files.parent_path cfg_file))
                    (Reads n base) _ _
                    (resumes cfg_file events _ (unseen (out.all_files ++ cfg_file ∷ []) universe)
                      (files.parent_path cfg_file) (omega (arith, fewer, few, le))
                      (omega arith, refl, added))
                    (λ o (o_few, o_base, o_once).
                      (omega (arith, o_few, fewer, few), at_base, o_once)))
            | inr absolute ↦
                rw (absolute, read_nested, Settles)
                  (Settles-bind (Reads (unseen (out.all_files ++ cfg_file ∷ []) universe) base)
                    (Reads n base) _ _
                    (resumes cfg_file events _ (unseen (out.all_files ++ cfg_file ∷ []) universe)
                      base (omega (arith, fewer, few, le)) (omega arith, at_base, added))
                    (λ o (o_few, o_base, o_once).
                      (omega (arith, o_few, fewer, few), o_base, o_once)))
          ]

      include_found-Reads :
          (cfg_file : Text) (incl : IncludeData) (out : ActionData) (n : ℕ) (base : Text)
          (found : Bool)
          → n < suc fuel
          → files.exists cfg_file ≡ ok found
          → Reads n base out
          → Settles (Reads n base) (include_found library files resume cfg_file incl out found)
      unfolding include_found
      include_found-Reads cfg_file incl out n base false le there reads =
          Ensures-choice (Reads n base) incl.is_optional (ok out) (throw parse_error) reads tt
      include_found-Reads cfg_file incl out n base true le there reads =
          Settles-bind (λ _. Unit) (Reads n base) (some (files.events_of cfg_file)) _
            (Ensures-any (files.events_of cfg_file))
            (λ events _. elim (Bool-cases (has text_dec cfg_file out.all_files)) [
              | inl again ↦
                  rw (again, Settles)
                    (Ensures-choice (Reads n base) incl.is_once (ok out) (throw parse_error) reads
                      tt)
              | inr new ↦
                  rw (new, Settles)
                    (read_nested-Reads cfg_file events incl out n base le there new reads)
            ])

      on_include_end-Reads :
          (source : Text) (out : ActionData) (n : ℕ) (base : Text)
          → n < suc fuel
          → Reads n base out
          → Settles (Reads n base) (on_include_end library files resume source out)
      unfolding on_include_end include_file
      on_include_end-Reads source out n base le reads = elim (Option-cases out.include_pending) [
        | inl absent ↦ rw (absent, Settles, on_include_end) tt
        | inr (incl, pending) ↦
            rw (pending, Settles, on_include_end)
              (Settles-catch (Reads n base) _ (
                Settles-bind (λ _. Unit) (Reads n base) (include_path library files source out incl)
                  _ (include_path-Settles source out incl)
                  (λ cfg_file _.
                    Settles-bind (λ found. files.exists cfg_file ≡ ok found) (Reads n base)
                      (some (files.exists cfg_file)) _ (Ensures-self (files.exists cfg_file))
                      (λ found there.
                        include_found-Reads cfg_file incl
                          (record out { include_pending = some (record incl { file = [] }) }) n base
                          found le there reads))))
      ]

      read_events-Reads :
          (source : Text) (events : List Event) (out : ActionData) (n : ℕ) (base : Text)
          → n < suc fuel
          → Reads n base out
          → Settles (Reads n base) (read_events library files resume source events out)
      unfolding read_events
      read_events-Reads source [] out n base le reads = reads
      read_events-Reads source (rule r ∷ events) out n base le reads =
          Settles-bind (Reads n base) (Reads n base) (some (act library r out)) _
            (Ensures-map (Keeps out) (Reads n base) (act library r out)
              (λ o kept. Reads-Keeps n base out o reads kept) (act-Keeps library r out))
            (λ o o_reads. read_events-Reads source events o n base le o_reads)
      read_events-Reads source (include_end ∷ events) out n base le reads =
          Settles-bind (Reads n base) (Reads n base)
            (on_include_end library files resume source out) _
            (on_include_end-Reads source out n base le reads)
            (λ o o_reads. read_events-Reads source events o n base le o_reads)
      read_events-Reads source (mismatch ∷ events) out n base le reads = tt

    read_file-Resumes : (fuel : ℕ) → Resumes (read_file library files fuel) fuel
    unfolding read_file
    read_file-Resumes zero source events out n base le reads = absurd (omega arith)
    read_file-Resumes (suc fuel) source events out n base le reads =
        read_events-Reads (read_file library files fuel) fuel (read_file-Resumes fuel) source events
          out n base le reads

    -- Where there are finitely many files, and the values of the environment hold no dollar sign, reading
    -- a file with those that it includes ends: as many nested files as there are files is enough, also
    -- where files include one another in a cycle. If no error is met, the record of included files has
    -- none twice, so that none was read as an include twice (the file that is read first is not in the
    -- record), and the base directory is what it was before, also after relative includes.
    pub read_file_total :
        (fuel : ℕ) (source : Text) (events : List Event) (out : ActionData)
        → length universe < fuel
        → distinct text_dec out.all_files ≡ true
        → (r : Result ActionData) × (read_file library files fuel source events out ≡ some r)
          × ((o : ActionData)
              → r ≡ ok o
              → (o.base_dir ≡ out.base_dir) × (distinct text_dec o.all_files ≡ true))
    read_file_total fuel source events out enough once =
        let run = read_file library files fuel source events out in
        let (r, settled, reads) = Settles-some (Reads (length universe) out.base_dir) run (
          read_file-Resumes fuel source events out (length universe) out.base_dir enough
            (unseen-le-length out.all_files universe, refl, once)) in
        (r, settled, λ o e. ((reads o e).1, (reads o e).2))
