-- ===== src/Store/Resolve/Returns.antt =====
-- `resolveVarRefs` returns on every tree and store.
use flexi_config_reader.Common.{ℕ, Text, [], some}
use flexi_config_reader.Result.{
  throw, undefined, Run, Ensures-any, Settles, Settles-bind, Settles-map,
}
use flexi_config_reader.Utils.{make_name}
use flexi_config_reader.Types.{
  Config, config_value, config_list, config_expression, config_value_lookup, config_var,
  config_struct, config_proto, config_reference, Fields, end, field,
}
use flexi_config_reader.Math.{Arithmetic}
use flexi_config_reader.Expressions.{Reading}
use flexi_config_reader.Store.{Cells}
use flexi_config_reader.Store.Kept.{IsKept, IsKept-refl, IsKept-trans}
use flexi_config_reader.Store.Standing.{IsCleared}
use flexi_config_reader.Store.Load.{load_root}
use flexi_config_reader.Store.Resolve.{resolve_at, resolve_tree, resolve_entry, resolve_root}
use flexi_config_reader.Store.Resolve.Turn.{resolve_at-IsKept}

module _ (arithmetic : Arithmetic) (reading : Reading arithmetic) where
  -- the step into a struct or past another node, given what the step inside keeps
  at-IsKept :
      (root : ℕ) (inside : ℕ → Cells → Run Cells) (s : ℕ) (k src_key : Text) (cells : Cells)
      → ((a : ℕ) (c : Cells) → Settles (IsKept c) (inside a c))
      → Settles (IsKept cells) (resolve_at arithmetic reading root inside s k src_key cells)
  at-IsKept root inside s k src_key cells step =
      Settles-map (λ after. IsKept cells after × IsCleared after s k) (IsKept cells)
        (resolve_at arithmetic reading root inside s k src_key cells) (λ after p. p.0)
        (resolve_at-IsKept arithmetic reading root inside s k src_key cells step)

  mutual
    unfolding resolve_tree

    resolve_tree-IsKept :
        (root : ℕ) (f : Fields) (s : ℕ) (parent_key : Text) (cells : Cells)
        → Settles (IsKept cells) (resolve_tree arithmetic reading root f s parent_key cells)
    resolve_tree-IsKept root end s parent_key cells = IsKept-refl cells
    resolve_tree-IsKept root (field k v f) s parent_key cells =
        Settles-bind (λ _. Unit) (IsKept cells) (some (make_name parent_key k)) _
          (Ensures-any (make_name parent_key k))
          (λ src_key _.
            Settles-bind (IsKept cells) (IsKept cells)
              (resolve_entry arithmetic reading root v s k src_key cells) _
              (resolve_entry-IsKept root v s k src_key cells)
              (λ next kept.
                Settles-map (IsKept next) (IsKept cells)
                  (resolve_tree arithmetic reading root f s parent_key next)
                  (λ after more. IsKept-trans kept more)
                  (resolve_tree-IsKept root f s parent_key next)))

    resolve_entry-IsKept :
        (root : ℕ) (v : Config) (s : ℕ) (k src_key : Text) (cells : Cells)
        → Settles (IsKept cells) (resolve_entry arithmetic reading root v s k src_key cells)
    resolve_entry-IsKept root (config_struct t n d f) s k src_key cells =
        at-IsKept root (λ a c. resolve_tree arithmetic reading root f a src_key c) s k src_key cells
          (λ a c. resolve_tree-IsKept root f a src_key c)
    resolve_entry-IsKept root (config_proto n d f) s k src_key cells =
        at-IsKept root (λ a c. resolve_tree arithmetic reading root f a src_key c) s k src_key cells
          (λ a c. resolve_tree-IsKept root f a src_key c)
    resolve_entry-IsKept root (config_reference n p d r f) s k src_key cells =
        at-IsKept root (λ a c. resolve_tree arithmetic reading root f a src_key c) s k src_key cells
          (λ a c. resolve_tree-IsKept root f a src_key c)
    resolve_entry-IsKept root (config_value text t) s k src_key cells =
        at-IsKept root (λ a c. some (throw undefined)) s k src_key cells (λ a c. tt)
    resolve_entry-IsKept root (config_list t es) s k src_key cells =
        at-IsKept root (λ a c. some (throw undefined)) s k src_key cells (λ a c. tt)
    resolve_entry-IsKept root (config_expression text lookups) s k src_key cells =
        at-IsKept root (λ a c. some (throw undefined)) s k src_key cells (λ a c. tt)
    resolve_entry-IsKept root (config_value_lookup keys) s k src_key cells =
        at-IsKept root (λ a c. some (throw undefined)) s k src_key cells (λ a c. tt)
    resolve_entry-IsKept root (config_var name) s k src_key cells =
        at-IsKept root (λ a c. some (throw undefined)) s k src_key cells (λ a c. tt)

  pub resolve_root_total :
      (cfg : Fields) → Settles (λ _. Unit) (resolve_root arithmetic reading cfg)
  unfolding resolve_root
  resolve_root_total cfg =
      let (cells, root) = load_root cfg in
      Settles-bind (IsKept cells) (λ _. Unit)
        (resolve_tree arithmetic reading root cfg root [] cells) _
        (resolve_tree-IsKept root cfg root [] cells) (λ after p. tt)
