-- ===== src/Resolution/Final.antt =====
-- What `resolveConfig` returns.
use flexi_config_reader.Common.{
  sym, ◌∙◌, ◌≤◌, ℕ, suc, Text, text_dec, List, [], ◌∷◌, some, ◌≡◌, refl, arith, Option-cases, inl,
  inr,
}
use flexi_config_reader.Result.{
  Result, ok, throw, undefined, ◌>>=◌, Ensures, Ensures-bind, Ensures-self, Ensures-ok,
}
use flexi_config_reader.Types.{
  Config, config_value, config_list, config_expression, config_value_lookup, config_var,
  config_struct, config_proto, config_reference, Fields, end, field, data_of,
}
use flexi_config_reader.Types.Map.{erase}
use flexi_config_reader.Clean.{to_erase, erase_keys, clean_walk, clean_entry, cleanup_config}
use flexi_config_reader.Clean.Emptiness.{NoEmptyStruct, cleanup_config-NoEmptyStruct}
use flexi_config_reader.Math.{Arithmetic}
use flexi_config_reader.Expressions.{Reading, evaluate_expressions}
use flexi_config_reader.Expressions.Evaluated.{
  NoExpressions, NoExpressionEntry, evaluate_expressions-NoExpressions,
}
use flexi_config_reader.Store.{Cells}
use flexi_config_reader.Store.Load.{unload}
use flexi_config_reader.Store.Load.Taller.{unload-more}
use flexi_config_reader.Resolution.{finish}

erase-NoExpressions : (k : Text) (f : Fields) → NoExpressions f → NoExpressions (erase k f)
unfolding NoExpressions erase
erase-NoExpressions k end h = tt
erase-NoExpressions k (field j v f) h = elim (text_dec k j) [
  | yes p ↦
      let gone : erase k (field j v f) ≡ erase k f = ground (arith, p) in
      rw gone (erase-NoExpressions k f h.1)
  | no n ↦
      let kept : erase k (field j v f) ≡ field j v (erase k f) = ground (arith, n) in
      rw kept (h.0, erase-NoExpressions k f h.1)
]

erase_keys-NoExpressions :
    (ks : List Text) (f : Fields) → NoExpressions f → NoExpressions (erase_keys ks f)
unfolding erase_keys
erase_keys-NoExpressions [] f h = h
erase_keys-NoExpressions (k ∷ ks) f h =
    erase_keys-NoExpressions ks (erase k f) (erase-NoExpressions k f h)

mutual
  unfolding clean_walk NoExpressions

  clean_walk-NoExpressions :
      (depth : ℕ) (f : Fields) → NoExpressions f → NoExpressions (clean_walk depth f)
  clean_walk-NoExpressions depth end h = tt
  clean_walk-NoExpressions depth (field k v f) h =
      (clean_entry-NoExpressionEntry depth v h.0, clean_walk-NoExpressions depth f h.1)

  clean_entry-NoExpressionEntry :
      (depth : ℕ) (v : Config) → NoExpressionEntry v → NoExpressionEntry (clean_entry depth v)
  clean_entry-NoExpressionEntry depth (config_struct t n d f) h =
      erase_keys-NoExpressions (to_erase (clean_walk (suc depth) f)) (clean_walk (suc depth) f)
        (clean_walk-NoExpressions (suc depth) f h)
  clean_entry-NoExpressionEntry depth (config_value _ _) h = h
  clean_entry-NoExpressionEntry depth (config_list _ _) h = h
  clean_entry-NoExpressionEntry depth (config_expression _ _) h = h
  clean_entry-NoExpressionEntry depth (config_value_lookup _) h = h
  clean_entry-NoExpressionEntry depth (config_var _) h = h
  clean_entry-NoExpressionEntry depth (config_proto _ _ _) h = h
  clean_entry-NoExpressionEntry depth (config_reference _ _ _ _ _) h = h

cleanup_config-NoExpressions :
    (f : Fields) (depth : ℕ) → NoExpressions f → NoExpressions (cleanup_config f depth)
unfolding cleanup_config
cleanup_config-NoExpressions f depth h =
    erase_keys-NoExpressions (to_erase (clean_walk depth f)) (clean_walk depth f)
      (clean_walk-NoExpressions depth f h)

-- no expression and no empty struct
abbrev pub IsFinal : Fields → Type 0
IsFinal f = NoExpressions f × NoEmptyStruct f

module _ (arithmetic : Arithmetic) (reading : Reading arithmetic) where
  -- the two passes on a tree
  evaluated-IsFinal :
      (cfg_data : Fields)
      → Ensures IsFinal
          (evaluate_expressions arithmetic reading cfg_data [] >>= λ f. ok (cleanup_config f 0))
  evaluated-IsFinal cfg_data =
      Ensures-bind (λ f. evaluate_expressions arithmetic reading cfg_data [] ≡ ok f) IsFinal
        (evaluate_expressions arithmetic reading cfg_data []) _
        (Ensures-self (evaluate_expressions arithmetic reading cfg_data []))
        (λ f e. (
          cleanup_config-NoExpressions f 0
              (evaluate_expressions-NoExpressions arithmetic reading cfg_data f [] e).0,
          cleanup_config-NoEmptyStruct f 0,
        ))

  -- the passes after `resolveVarRefs` return where there is a tree below the root
  pub finish-IsFinal :
      (height : ℕ) (cells : Cells) (root : ℕ) (tree : Config)
      → unload height cells root ≡ some tree
      → (r : Result Fields) × (finish arithmetic reading height (cells, root) ≡ some r)
        × ((f : Fields) → r ≡ ok f → IsFinal f)
  unfolding finish
  finish-IsFinal height cells root tree there = elim (Option-cases (data_of tree)) [
    | inl plain ↦
        (throw undefined, rw (there, finish) (rw plain refl), λ f e. absurd (ground (arith, e)))
    | inr (cfg_data, d) ↦ (
      evaluate_expressions arithmetic reading cfg_data [] >>= λ f. ok (cleanup_config f 0),
      rw (there, finish) (rw d refl),
      λ f e. Ensures-ok IsFinal e (evaluated-IsFinal cfg_data),
    )
  ]

  -- a greater height changes nothing
  pub finish-more :
      (tall height : ℕ) (cells : Cells) (root : ℕ) (tree : Config) (r : Result Fields)
      → unload tall cells root ≡ some tree
      → tall ≤ height
      → finish arithmetic reading tall (cells, root) ≡ some r
      → finish arithmetic reading height (cells, root) ≡ some r
  unfolding finish
  finish-more tall height cells root tree r there le done =
      let same : unload height cells root ≡ unload tall cells root =
        unload-more tall height cells root tree le there ∙ sym there in
      rw (same, finish) done
