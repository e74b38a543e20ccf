-- ===== src/Parser/Sources.antt =====
-- `parseCommon` and `Parser::parse` of src/config_parser.cpp, up to `resolveConfig`: a file is read, and
-- the maps are there that its blocks made.
use flexi_config_reader.Common.{
  ℕ, Text, text_dec, List, [], ◌∷◌, Option, none, some, Bool, true, false, ◌&&◌, not, is_some,
  if◌then◌else◌, ◌<◌, length, ◌≡◌, ◌≢◌, refl, arith, distinct, Bool-cases, inl, inr, subst,
}
use flexi_config_reader.Result.{
  Exception, parse_error, invalid_config, Result, ok, throw, Run, ◌>>>=◌, ◌>>=◌, >>=-eq-ok,
}
use flexi_config_reader.Types.{Fields}
use flexi_config_reader.Types.Map.{is_empty}
use flexi_config_reader.Utils.Env.{IsPlain}
use flexi_config_reader.Actions.{ActionData, initial}
use flexi_config_reader.Actions.Values.{Conversions}
use flexi_config_reader.Actions.Include.{Event, Files, read_file}
use flexi_config_reader.Actions.Include.Nested.{Covers, read_file_total}

-- `empty()` of a vector
unfoldable pub no_more {ℓ} : {A : Type ℓ} → List A → Bool
no_more [] = true
no_more (a ∷ as') = false

-- the tests on `output` that make `success`; PEGTL's `must` returns true, or throws
unfoldable pub is_consumed : ActionData → Bool
unfolding no_more
is_consumed out =
    no_more out.keys
    && (no_more out.flat_keys && (no_more out.objects && not (is_some out.obj_res)))

-- `remove_if`
unfoldable pub remove_empty : List Fields → List Fields
unfolding is_empty
remove_empty [] = []
remove_empty (f ∷ fs) = let rest = remove_empty fs in if is_empty f then rest else f ∷ rest

-- the `catch` clause
abbrev caught_error : Exception → Exception
caught_error parse_error = invalid_config
caught_error exception = exception

unfoldable pub catch_parse_error : Result ActionData → Result ActionData
catch_parse_error (throw exception) = throw (caught_error exception)
catch_parse_error (ok out) = ok out

-- the statements after `parseCore`
unfoldable pub finish_parse : ActionData → Result ActionData
unfolding is_consumed remove_empty
finish_parse out =
    if is_consumed out
    then ok (record out { cfg_res = remove_empty out.cfg_res })
    else throw invalid_config

module _ (library : Conversions) (files : Files) where
  open files use {parent_path, append, events_of}

  -- on fuel for the files within the file
  unfoldable pub parse_common : ℕ → Text → List Event → ActionData → Run ActionData
  unfolding read_file finish_parse catch_parse_error
  parse_common fuel source events output =
      elim (read_file library files fuel source events output) [
        | none ↦ none
        | some r ↦ some (catch_parse_error (r >>= finish_parse))
      ]

  -- `input_file` and `base_dir`
  unfoldable pub locate : Text → Option Text → Text × Text
  locate cfg_filename none = (cfg_filename, parent_path cfg_filename)
  locate cfg_filename (some root_dir) = (append root_dir cfg_filename, root_dir)

  unfoldable pub parse : ℕ → Text → Option Text → Run ActionData
  unfolding locate parse_common
  parse fuel cfg_filename root_dir =
      let (input_file, base_dir) = locate cfg_filename root_dir in
      some (events_of input_file) >>>= λ events.
      parse_common fuel input_file events (initial base_dir)

  -- every map has an entry
  abbrev pub NoneEmpty : List Fields → Type 0
  NoneEmpty [] = Unit
  NoneEmpty (f ∷ fs) = (is_empty f ≡ false) × NoneEmpty fs

  remove_empty-NoneEmpty : (fs : List Fields) → NoneEmpty (remove_empty fs)
  unfolding remove_empty
  remove_empty-NoneEmpty [] = tt
  remove_empty-NoneEmpty (f ∷ fs) = elim (Bool-cases (is_empty f)) [
    | inl none_there ↦ rw none_there (remove_empty-NoneEmpty fs)
    | inr there ↦ rw there (there, remove_empty-NoneEmpty fs)
  ]

  -- what `success` says of the state
  abbrev pub Parsed : ActionData → Type 0
  Parsed out =
      (out.keys ≡ [])
      × (out.flat_keys ≡ [])
      × (out.objects ≡ [])
      × (out.obj_res ≡ none)
      × NoneEmpty out.cfg_res

  no_more-nil : {A : Type 0} (xs : List A) → no_more xs ≡ true → xs ≡ []
  unfolding no_more
  no_more-nil [] e = refl
  no_more-nil (x ∷ xs) e = cc

  finish_parse-Parsed : (out o : ActionData) → finish_parse out ≡ ok o → Parsed o
  unfolding finish_parse is_consumed
  finish_parse-Parsed out o e = elim (Bool-cases (is_consumed out)) [
    | inl consumed ↦
        let same : record out { cfg_res = remove_empty out.cfg_res } ≡ o =
          ground (arith, e, consumed) in
        subst Parsed same (
          no_more-nil out.keys (ground (arith, consumed)),
          no_more-nil out.flat_keys (ground (arith, consumed)),
          no_more-nil out.objects (ground (arith, consumed)),
          ground (arith, consumed),
          remove_empty-NoneEmpty out.cfg_res,
        )
    | inr other ↦ absurd (ground (arith, e, other))
  ]

  catch_parse_error_lem :
      (r : Result ActionData)
      → (catch_parse_error r ≢ throw parse_error)
        × ((o : ActionData) → catch_parse_error r ≡ ok o → r ≡ ok o)
  unfolding catch_parse_error
  catch_parse_error_lem (ok out) = (λ e. cc, λ o e. e)
  catch_parse_error_lem (throw parse_error) = (λ e. cc, λ o e. cc)
  catch_parse_error_lem (throw exception) = (λ e. cc, λ o e. cc)

  -- Where there are finitely many files, and the values of the environment hold no dollar sign,
  -- `parseCommon` ends. It throws no parse error of PEGTL, and where it throws nothing, all keys and
  -- objects have been stored, and every map of the results has an entry.
  pub parse_common_total :
      (universe : List Text) (fuel : ℕ) (source : Text) (events : List Event) (output : ActionData)
      → IsPlain (files.getenv)
      → Covers files universe
      → length universe < fuel
      → distinct text_dec output.all_files ≡ true
      → (r : Result ActionData) × (parse_common fuel source events output ≡ some r)
        × (r ≢ throw parse_error)
        × ((o : ActionData) → r ≡ ok o → Parsed o)
  unfolding parse_common
  parse_common_total universe fuel source events output plain covers enough once =
      let (r, read, good) =
        read_file_total library files plain universe covers fuel source events output enough once in
      let (caught, returned) = catch_parse_error_lem (r >>= finish_parse) in
      (
        catch_parse_error (r >>= finish_parse),
        rw (read, parse_common) refl,
        caught,
        λ o e.
            let (out, first, last) = >>=-eq-ok r finish_parse (returned o e) in
            finish_parse-Parsed out o last,
      )
