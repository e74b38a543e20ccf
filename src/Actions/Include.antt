-- ===== src/Actions/Include.antt =====
-- The actions `INCLUDE` and `INCLUDE_RELATIVE` of include/flexi_cfg/config/actions.h, which read a file
-- within a file.
pub mod Nested
pub mod Cycle
use flexi_config_reader.Common.{
  ℕ, zero, suc, Text, text_dec, List, [], ◌∷◌, ◌++◌, Option, none, some, Bool, true, false, ◌&&◌,
  not, has, length, if◌then◌else◌,
}
use flexi_config_reader.Result.{
  Exception, Result, ok, throw, Run, ◌>>>=◌, system_error, parse_error, undefined,
}
use flexi_config_reader.Utils.{substitute_env_vars}
use flexi_config_reader.Actions.{ActionData, IncludeData}
use flexi_config_reader.Actions.Values.{Conversions}
use flexi_config_reader.Actions.Rules.{Rule, act}

-- What PEGTL does as it reads a file: it runs the action of a rule, or it meets an error. An include is
-- a rule too, whose action reads another file.
pub data Event : Type 0 where
  rule : Rule → Event
  include_end : Event
  mismatch : Event

-- What the code calls that stands elsewhere: the environment, `std::filesystem`, whose functions may
-- throw, and PEGTL, which opens a file and reads it.
pub record Files : Type 0 where
  pub getenv : Text → Option Text
  pub is_absolute : Text → Bool
  pub has_parent_path : Text → Bool
  pub parent_path : Text → Text
  pub append : Text → Text → Text
  pub absolute : Text → Result Text
  pub exists : Text → Result Bool
  pub events_of : Text → Result (List Event)

-- the `catch` clause
abbrev caught : Exception → Exception
caught system_error = parse_error
caught exception = exception

unfoldable pub catch_system_error : Run ActionData → Run ActionData
catch_system_error none = none
catch_system_error (some (throw exception)) = some (throw (caught exception))
catch_system_error (some (ok out)) = some (ok out)

-- Fuel for the substitution: its loop takes one round for a `${`, where the environment adds none.
abbrev pub rounds : Text → ℕ
rounds s = suc (length s)

module _ (library : Conversions) (files : Files) where
  open files use {
    getenv, is_absolute, has_parent_path, parent_path, append, absolute, exists, events_of,
  }

  -- `path_base`, for the source of the current file
  unfoldable pub path_base : Text → ActionData → IncludeData → Text
  path_base source out incl =
      if incl.is_relative && (not (is_empty source) && has_parent_path source)
      then parent_path source
      else out.base_dir
    where
      is_empty : Text → Bool
      is_empty [] = true
      is_empty (c ∷ s) = false

  -- `cfg_file`
  unfoldable pub include_path : Text → ActionData → IncludeData → Run Text
  unfolding substitute_env_vars path_base
  include_path source out incl =
      substitute_env_vars getenv (rounds incl.file) incl.file >>>= λ file.
      some (absolute (if is_absolute file then file else append (path_base source out incl) file))

  -- The nested parse, of the events of a new file. `ScopedOverride` sets the base directory back.
  unfoldable pub read_nested :
      (Text → List Event → ActionData → Run ActionData)
      → Text
      → List Event
      → IncludeData
      → ActionData
      → Run ActionData
  read_nested resume cfg_file events incl out =
      resume cfg_file events (record out {
        all_files = out.all_files ++ cfg_file ∷ [];
        base_dir = if incl.is_relative then parent_path cfg_file else out.base_dir;
      })
      >>>= λ out'.
          some (ok (if incl.is_relative then record out' { base_dir = out.base_dir } else out'))

  -- the rest of the `try` block, for a file that is found or missing
  unfoldable pub include_found :
      (Text → List Event → ActionData → Run ActionData)
      → Text
      → IncludeData
      → ActionData
      → Bool
      → Run ActionData
  unfolding read_nested has text_dec
  include_found resume cfg_file incl out false =
      some (if incl.is_optional then ok out else throw parse_error)
  include_found resume cfg_file incl out true = some (events_of cfg_file) >>>= λ events.
      elim (has text_dec cfg_file out.all_files) [
        | true ↦ some (if incl.is_once then ok out else throw parse_error)
        | false ↦ read_nested resume cfg_file events incl out
      ]

  unfoldable pub include_file :
      (Text → List Event → ActionData → Run ActionData)
      → Text
      → IncludeData
      → ActionData
      → Run ActionData
  unfolding include_found
  include_file resume cfg_file incl out =
      some (exists cfg_file) >>>= include_found resume cfg_file incl out

  -- The file name is moved from, and the attributes stay.
  unfoldable pub on_include_end :
      (Text → List Event → ActionData → Run ActionData) → Text → ActionData → Run ActionData
  unfolding include_path include_file catch_system_error
  on_include_end resume source out = elim out.include_pending [
    | none ↦ some (throw undefined)
    | some incl ↦ catch_system_error (
        include_path source out incl >>>= λ cfg_file.
        include_file resume cfg_file incl
          (record out { include_pending = some (record incl { file = [] }) }))
  ]

  unfoldable pub read_events :
      (Text → List Event → ActionData → Run ActionData)
      → Text
      → List Event
      → ActionData
      → Run ActionData
  unfolding on_include_end act
  read_events resume source [] out = some (ok out)
  read_events resume source (rule r ∷ events) out =
      some (act library r out) >>>= λ out'. read_events resume source events out'
  read_events resume source (include_end ∷ events) out =
      on_include_end resume source out >>>= λ out'. read_events resume source events out'
  read_events resume source (mismatch ∷ events) out = some (throw parse_error)

  -- A file and those that it includes, on fuel, which each file within a file takes one of.
  unfoldable pub read_file : ℕ → Text → List Event → ActionData → Run ActionData
  unfolding read_events
  read_file zero source events out = none
  read_file (suc fuel) source events out = read_events (read_file fuel) source events out
