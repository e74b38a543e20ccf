-- ===== src/Tests/Includes.antt =====
-- The includes of a file that includes itself.
use flexi_config_reader.Common.{
  Text, codes, List, [], ◌∷◌, none, some, true, false, ◌≡◌, ◌≢◌, refl, arith, text_dec, ite, has,
  distinct,
}
use flexi_config_reader.Result.{Result, ok, throw, parse_error}
use flexi_config_reader.Utils.{find_text}
use flexi_config_reader.Utils.Env.{IsPlain}
use flexi_config_reader.Actions.{ActionData, initial}
use flexi_config_reader.Actions.Values.{Conversions}
use flexi_config_reader.Actions.Include.{Event, rule, Files, read_file}
use flexi_config_reader.Actions.Rules.{key, integer, pair}
use flexi_config_reader.Parser.Sources.{parse_common, Parsed, parse_common_total}
use flexi_config_reader.Actions.Include.Nested.{Covers, read_file_total}
use flexi_config_reader.Actions.Include.Cycle.{include_events, read_file_cycle}

abbrev library : Conversions
library = record { stoull = λ s. ok tt; stod = λ s. ok tt; stoi = λ s. ok tt }

abbrev name : Text
name = codes "/a"

-- one file, `/a`, of the line `include [optional] /a`
abbrev files : Files
files = record {
  getenv = λ s. none;
  is_absolute = λ s. true;
  has_parent_path = λ s. false;
  parent_path = λ s. [];
  append = λ s t. t;
  absolute = λ s. ok s;
  exists = λ s. ok (ite (text_dec s name) true false);
  events_of = λ s. ok (include_events name true []);
}

files-Covers : Covers files (name ∷ [])
unfolding has
files-Covers p e = ground (arith, e)

read_file_cycle_example :
    read_file library files 2 [] (include_events name true []) (initial [])
    ≡ some (throw parse_error)
unfolding find_text text_dec
read_file_cycle_example =
    read_file_cycle library files name true [] refl refl refl refl refl 0 [] (initial [])

files-IsPlain : IsPlain (files.getenv)
files-IsPlain k v e = cc

read_file_total_example :
    (r : Result ActionData) × (read_file library files 2 []
        (include_events name true [])
        (initial [])
      ≡ some r)
    × ((o : ActionData) → r ≡ ok o → (o.base_dir ≡ []) × (distinct text_dec o.all_files ≡ true))
unfolding distinct
read_file_total_example =
    read_file_total library files files-IsPlain (name ∷ []) files-Covers 2 []
      (include_events name true []) (initial []) (omega arith) refl

-- `a = 1`
abbrev plain_events : List Event
plain_events = rule (key (codes "a")) ∷ rule (integer (codes "1")) ∷ rule pair ∷ []

parse_common_total_example :
    (r : Result ActionData) × (parse_common library files 2 [] plain_events (initial []) ≡ some r)
    × (r ≢ throw parse_error)
    × ((o : ActionData) → r ≡ ok o → Parsed library files o)
unfolding distinct
parse_common_total_example =
    parse_common_total library files (name ∷ []) 2 [] plain_events (initial []) files-IsPlain
      files-Covers (omega arith) refl
