-- ===== src/Actions/Include/Cycle.antt =====
-- A file that begins with an include of itself.
use flexi_config_reader.Common.{
  ℕ, suc, Text, text_dec, codes, List, [], ◌∷◌, ◌++◌, none, some, Bool, true, false, ◌≡◌, refl,
  arith, has, has-append, Bool-cases, inl, inr, ◌∙◌, ap,
}
use flexi_config_reader.Result.{ok, throw, Run, ◌>>>=◌, parse_error}
use flexi_config_reader.Utils.{substitute_env_vars, find_text}
use flexi_config_reader.Actions.{ActionData, IncludeData}
use flexi_config_reader.Actions.Values.{Conversions, on_include, on_filename, on_optional, pending}
use flexi_config_reader.Actions.Rules.{act, include_mark, optional_mark, filename}
use flexi_config_reader.Actions.Include.{
  Event, rule, include_end, Files, catch_system_error, include_path, read_nested, include_found,
  include_file, on_include_end, read_events, read_file,
}

abbrev attribute : Bool → List Event → List Event
attribute true rest = rule optional_mark ∷ rest
attribute false rest = rest

-- `include p`, or `include [optional] p`, and what follows
abbrev pub include_events : Text → Bool → List Event → List Event
include_events p optional rest =
    rule (include_mark false) ∷ attribute optional (rule (filename p) ∷ include_end ∷ rest)

module _ (library : Conversions) (files : Files) (p : Text) (optional : Bool) (rest : List Event)
    (no_var : find_text (codes "${") p ≡ none) (is_absolute : files.is_absolute p ≡ true)
    (absolute : files.absolute p ≡ ok p) (there : files.exists p ≡ ok true)
    (content : files.events_of p ≡ ok (include_events p optional rest)) where
  abbrev include_data : IncludeData
  include_data = record { file = p; is_optional = optional; is_once = false; is_relative = false }

  include_path-absolute :
      (source : Text) (out : ActionData)
      → include_path library files source out include_data ≡ some (ok p)
  unfolding include_path substitute_env_vars
  include_path-absolute source out =
      rw (no_var, substitute_env_vars, include_path) (rw (is_absolute, absolute) refl)

  abbrev waiting : ActionData → ActionData
  waiting out = record out { include_pending = some include_data }

  abbrev taken : ActionData → ActionData
  taken out = record out { include_pending = some (record include_data { file = [] }) }

  include_end-found :
      (resume : Text → List Event → ActionData → Run ActionData) (source : Text) (out : ActionData)
      → on_include_end library files resume source (waiting out)
        ≡ catch_system_error (include_found library files resume p include_data (taken out) true)
  unfolding on_include_end include_file
  include_end-found resume source out =
      rw (include_path-absolute source (waiting out), on_include_end, catch_system_error)
        (rw there refl)

  found-again :
      (resume : Text → List Event → ActionData → Run ActionData) (out : ActionData)
      → has text_dec p out.all_files ≡ true
      → include_found library files resume p include_data (taken out) true
        ≡ some (throw parse_error)
  unfolding include_found
  found-again resume out again = rw (content, again, include_found) refl

  include_end-again :
      (resume : Text → List Event → ActionData → Run ActionData) (source : Text) (out : ActionData)
      → has text_dec p out.all_files ≡ true
      → on_include_end library files resume source (waiting out) ≡ some (throw parse_error)
  unfolding catch_system_error
  include_end-again resume source out again =
      include_end-found resume source out ∙ ap catch_system_error (found-again resume out again)

  -- the events before the end of the include
  read_start :
      (resume : Text → List Event → ActionData → Run ActionData) (source : Text) (out : ActionData)
      → read_events library files resume source (include_events p optional rest) out
        ≡ read_events library files resume source (include_end ∷ rest) (waiting out)
  unfolding read_events act on_include on_filename on_optional pending
  read_start resume source out = start optional
    where
      start :
          (b : Bool)
          → read_events library files resume source (include_events p b rest) out
            ≡ read_events library files resume source (include_end ∷ rest) (record out {
              include_pending =
                  some (record { file = p; is_optional = b; is_once = false; is_relative = false });
            })
      start true = refl
      start false = refl

  events-again :
      (resume : Text → List Event → ActionData → Run ActionData) (source : Text) (out : ActionData)
      → has text_dec p out.all_files ≡ true
      → read_events library files resume source (include_events p optional rest) out
        ≡ some (throw parse_error)
  unfolding read_events
  events-again resume source out again =
      read_start resume source out
      ∙ ap (λ r. r >>>= λ o. read_events library files resume source rest o)
          (include_end-again resume source out again)

  has-last : (qs : List Text) → has text_dec p (qs ++ p ∷ []) ≡ true
  unfolding has
  has-last qs = ground (arith, has-append text_dec p qs (p ∷ []))

  -- the first time, the file is read, and its own include is the second time
  found-new :
      (fuel : ℕ) (out : ActionData)
      → has text_dec p out.all_files ≡ false
      → include_found library files
          (read_file library files (suc fuel))
          p
          include_data
          (taken out)
          true
        ≡ some (throw parse_error)
  unfolding include_found read_nested read_file
  found-new fuel out new =
      rw (content, new, include_found)
        (ap (λ r. r >>>= λ o. some (ok o))
          (events-again (read_file library files fuel) p
            (record (taken out) { all_files = out.all_files ++ p ∷ [] }) (has-last out.all_files)))

  -- A file that begins with an include of itself, by its absolute path, without a variable and
  -- without `[once]`, is met by a parse error, from whatever state it is read: where it is recorded as
  -- included, at its include, and where it is not, at the include of the second reading. What follows
  -- the include is not read.
  pub read_file_cycle :
      (fuel : ℕ) (source : Text) (out : ActionData)
      → read_file library files (suc (suc fuel)) source (include_events p optional rest) out
        ≡ some (throw parse_error)
  unfolding read_file read_events catch_system_error
  read_file_cycle fuel source out = elim (Bool-cases (has text_dec p out.all_files)) [
    | inl again ↦ events-again (read_file library files (suc fuel)) source out again
    | inr new ↦
        read_start (read_file library files (suc fuel)) source out
        ∙ ap
            (λ r. r >>>= λ o.
              read_events library files (read_file library files (suc fuel)) source rest o)
            (include_end-found (read_file library files (suc fuel)) source out
              ∙ ap catch_system_error (found-new fuel out new))
  ]
