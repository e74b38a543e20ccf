-- ===== src/Resolution/Total.antt =====
-- `resolveConfig` returns.
use flexi_config_reader.Common.{
  ℕ, suc, ◌+◌, ◌*◌, ◌<◌, List, [], ◌∷◌, none, some, ◌≡◌, refl, arith, length, inl, inr, ◌≤◌, ap,
  ◌∙◌,
}
use flexi_config_reader.Result.{
  Result, Run, ok, throw, Ensures-any, Settles, Settles-bind, Result-cases, Settles-some,
}
use flexi_config_reader.Types.{Config, Fields, end}
use flexi_config_reader.Types.Map.{keys}
use flexi_config_reader.Vars.{Services}
use flexi_config_reader.Vars.Replaced.{ParsesExpressions}
use flexi_config_reader.References.{resolve_references}
use flexi_config_reader.References.Low.{Low}
use flexi_config_reader.References.Resolved.{resolve_references_total}
use flexi_config_reader.Math.{Arithmetic}
use flexi_config_reader.Expressions.{Reading}
use flexi_config_reader.Clean.Emptiness.{NoEmptyStruct}
use flexi_config_reader.Expressions.Evaluated.{NoExpressions}
use flexi_config_reader.Store.{Cells}
use flexi_config_reader.Store.Load.{unload}
use flexi_config_reader.Store.Resolve.Returns.{resolve_root_total}
use flexi_config_reader.Resolution.{
  find_protos, flat_keys, resolve_documents, merge_documents, prepare_merged, prepare,
  resolve_store, resolve_config,
}
use flexi_config_reader.Resolution.Protos.{AllLow, find_protos-Low}
use flexi_config_reader.Resolution.Unflattened.{unflatten_all_total}
use flexi_config_reader.Resolution.Final.{finish-IsFinal, finish-more}

Settles-eq :
    {X : Type 0} (run : Run X) {result : Result X} → run ≡ some result → Settles (λ _. Unit) run
Settles-eq none e = cc
Settles-eq (some result) e = Ensures-any result

prepare_merged_total :
    (protos override_values : Fields) (cfg_res : List Fields)
    → Settles (λ _. Unit) (prepare_merged protos override_values cfg_res)
unfolding prepare_merged
prepare_merged_total protos override_values cfg_res =
    Settles-bind (λ _. Unit) (λ _. Unit) (some (merge_documents protos override_values cfg_res)) _
      (Ensures-any (merge_documents protos override_values cfg_res))
      (λ cfg_data _. unflatten_all_total (flat_keys (keys cfg_data)) cfg_data)

-- The nodes that are reached from the root, if any are returned, make a tree of at most this height.
unfoldable pub IsFinite : ℕ → Run (Cells × ℕ) → Type 0
unfolding unload
IsFinite tall (some (ok (cells, root))) = (tree : Config) × (unload tall cells root ≡ some tree)
IsFinite tall run = Unit

IsFinite-eq :
    (tall : ℕ) (run : Run (Cells × ℕ)) (cells : Cells) (root : ℕ)
    → run ≡ some (ok (cells, root))
    → IsFinite tall run
    → (tree : Config) × (unload tall cells root ≡ some tree)
unfolding IsFinite
IsFinite-eq tall (some (ok (cells', root'))) cells root e (tree, there) =
    (tree, ground (arith, e, there))
IsFinite-eq tall none cells root e finite = absurd (ground (arith, e))
IsFinite-eq tall (some (throw x)) cells root e finite = absurd (ground (arith, e))

module _ (services : Services) (parses : ParsesExpressions services) (arithmetic : Arithmetic)
    (reading : Reading arithmetic) where
  resolve_documents_total :
      (protos : Fields) (depth fuel : ℕ) (cfg_res : List Fields)
      → Low (suc depth) protos
      → AllLow depth cfg_res
      → (length (keys protos) + 1) * (depth + 1) < fuel
      → Settles (λ _. Unit) (resolve_documents services protos fuel cfg_res)
  unfolding resolve_documents
  resolve_documents_total protos depth fuel [] low h enough = tt
  resolve_documents_total protos depth fuel (e ∷ cfg_res) low h enough =
      let (r, returned, after) =
        resolve_references_total services parses protos depth low fuel e h.0 enough in
      Settles-bind (λ _. Unit) (λ _. Unit) (resolve_references services protos fuel [] end [] e) _
        (Settles-eq _ returned)
        (λ e' _.
          Settles-bind (λ _. Unit) (λ _. Unit) (resolve_documents services protos fuel cfg_res) _
            (resolve_documents_total protos depth fuel cfg_res low h.1 enough) (λ docs _. tt))

  resolve_store_total :
      (depth fuel : ℕ) (override_values : Fields) (cfg_res : List Fields)
      → AllLow depth cfg_res
      → (length (keys (find_protos cfg_res)) + 1) * (depth + 1) < fuel
      → Settles (λ _. Unit) (resolve_store services arithmetic reading fuel override_values cfg_res)
  unfolding resolve_store prepare
  resolve_store_total depth fuel override_values cfg_res h enough =
      let protos = find_protos cfg_res in
      Settles-bind (λ _. Unit) (λ _. Unit) (prepare services fuel override_values cfg_res) _
        (Settles-bind (λ _. Unit) (λ _. Unit) (resolve_documents services protos fuel cfg_res) _
          (resolve_documents_total protos depth fuel cfg_res (find_protos-Low depth cfg_res h) h
            enough)
          (λ docs _. prepare_merged_total protos override_values docs))
        (λ cfg_data _. resolve_root_total arithmetic reading cfg_data)

  -- For files whose structs stand at most `depth` deep, and whose references define their variables by
  -- values, and where an expression that is read again is an expression, `resolveConfig` returns,
  -- provided that the nodes that `resolveVarRefs` leaves make a finite tree (no struct has become its
  -- own descendant): fuel above the number of protos, plus one, times the depth, plus one, is enough,
  -- and so is any height from that of the tree on, with the same result. A map that it returns holds no
  -- expression as an entry or as an element of a list that is an entry, and no empty struct.
  pub resolve_config_total :
      (depth fuel tall height : ℕ) (override_values : Fields) (cfg_res : List Fields)
      → AllLow depth cfg_res
      → (length (keys (find_protos cfg_res)) + 1) * (depth + 1) < fuel
      → IsFinite tall (resolve_store services arithmetic reading fuel override_values cfg_res)
      → tall ≤ height
      → (r : Result Fields) × (resolve_config services arithmetic reading fuel height
            override_values cfg_res
          ≡ some r)
        × (resolve_config services arithmetic reading fuel tall override_values cfg_res ≡ some r)
        × ((f : Fields) → r ≡ ok f → NoExpressions f × NoEmptyStruct f)
  unfolding resolve_config
  resolve_config_total depth fuel tall height override_values cfg_res h enough finite le =
      let (store, returned, _) =
        Settles-some (λ _. Unit)
          (resolve_store services arithmetic reading fuel override_values cfg_res)
          (resolve_store_total depth fuel override_values cfg_res h enough) in
      elim (Result-cases store) [
        | inl (x, thrown) ↦ (
          throw x,
          rw (returned, resolve_config) (rw thrown refl),
          rw (returned, resolve_config) (rw thrown refl),
          λ f e. absurd (ground (arith, e)),
        )
        | inr ((cells, root), resolved) ↦
            let is_some = returned ∙ ap some resolved in
            let (tree, there) = IsFinite-eq tall _ cells root is_some finite in
            let (r, done, final) = finish-IsFinal arithmetic reading tall cells root tree there in
            (
              r,
              rw (returned, resolve_config)
                  (rw resolved
                    (finish-more arithmetic reading tall height cells root tree r there le done)),
              rw (returned, resolve_config) (rw resolved done),
              final,
            )
      ]
