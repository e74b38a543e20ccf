-- ===== src/Store/Resolve/Cleared.antt =====
-- What `resolveVarRefs` leaves: no entry is a lookup.
use flexi_config_reader.Common.{ℕ, Text, [], some, ◌∙◌}
use flexi_config_reader.Result.{Ensures-any, Settles, Settles-bind, Settles-map}
use flexi_config_reader.Utils.{make_name}
use flexi_config_reader.Types.{
  Config, config_value, config_list, config_expression, config_value_lookup, config_var,
  config_struct, config_proto, config_reference, Fields, end, field,
}
use flexi_config_reader.Math.{Arithmetic}
use flexi_config_reader.Expressions.{Reading}
use flexi_config_reader.Store.{Cells}
use flexi_config_reader.Store.Kept.{IsKept, IsKept-refl, IsKept-trans}
use flexi_config_reader.Store.Standing.{
  AreCleared, IsClearedEntry, Stands, StandsEntry, StandsStruct, IsClearedStruct,
  IsClearedEntry-IsKept, Stands-IsKept, keys_at-is_struct_at,
}
use flexi_config_reader.Store.Load.{load_root}
use flexi_config_reader.Store.Load.Placed.{HaveDistinctKeys, load_root-Stands}
use flexi_config_reader.Store.Resolve.{resolve_root, resolve_at, resolve_tree, resolve_entry}
use flexi_config_reader.Store.Resolve.Turn.{resolve_at-IsCleared, resolve_at-struct}

module _ (arithmetic : Arithmetic) (reading : Reading arithmetic) where
  -- what a step into the struct at a key leaves
  resolve_struct :
      (root : ℕ) (f : Fields) (s : ℕ) (k src_key : Text) (cells : Cells)
      → ((a : ℕ)
          → Stands cells a f
          → Settles
              (λ after. IsKept cells after × AreCleared after a f)
              (resolve_tree arithmetic reading root f a src_key cells))
      → StandsStruct (λ a. Stands cells a f) cells s k
      → Settles
          (λ after. IsKept cells after × IsClearedStruct (λ a. AreCleared after a f) after s k)
          (resolve_at arithmetic reading root
            (λ a c. resolve_tree arithmetic reading root f a src_key c)
            s
            k
            src_key
            cells)
  resolve_struct root f s k src_key cells below (a, held, struct, stands) =
      let value = keys_at-is_struct_at cells a struct in
      rw
        (resolve_at-struct arithmetic reading root
          (λ a c. resolve_tree arithmetic reading root f a src_key c) s k src_key cells a held
          struct)
        (Settles-map (λ after. IsKept cells after × AreCleared after a f)
          (λ after. IsKept cells after × IsClearedStruct (λ a. AreCleared after a f) after s k)
          (resolve_tree arithmetic reading root f a src_key cells)
          (λ after p.
            (p.0, (a, p.0.same_entries s k a held value, p.0.same_lookups a ∙ value, p.1)))
          (below a stands))

  mutual
    unfolding resolve_tree AreCleared Stands

    resolve_tree-AreCleared :
        (root : ℕ) (f : Fields) (s : ℕ) (parent_key : Text) (cells : Cells)
        → Stands cells s f
        → Settles
            (λ after. IsKept cells after × AreCleared after s f)
            (resolve_tree arithmetic reading root f s parent_key cells)
    resolve_tree-AreCleared root end s parent_key cells h = (IsKept-refl cells, tt)
    resolve_tree-AreCleared root (field k v f) s parent_key cells h =
        Settles-bind (λ _. Unit) (λ after. IsKept cells after × AreCleared after s (field k v f))
          (some (make_name parent_key k)) _ (Ensures-any (make_name parent_key k))
          (λ src_key _.
            Settles-bind (λ next. IsKept cells next × IsClearedEntry next s k v)
              (λ after. IsKept cells after × AreCleared after s (field k v f))
              (resolve_entry arithmetic reading root v s k src_key cells) _
              (resolve_entry-IsClearedEntry root v s k src_key cells h.0)
              (λ next p.
                Settles-map (λ after. IsKept next after × AreCleared after s f)
                  (λ after. IsKept cells after × AreCleared after s (field k v f))
                  (resolve_tree arithmetic reading root f s parent_key next)
                  (λ after q. (IsKept-trans p.0 q.0, (IsClearedEntry-IsKept s k v q.0 p.1, q.1)))
                  (resolve_tree-AreCleared root f s parent_key next (Stands-IsKept s f p.0 h.1))))

    resolve_entry-IsClearedEntry :
        (root : ℕ) (v : Config) (s : ℕ) (k src_key : Text) (cells : Cells)
        → StandsEntry cells s k v
        → Settles
            (λ after. IsKept cells after × IsClearedEntry after s k v)
            (resolve_entry arithmetic reading root v s k src_key cells)
    resolve_entry-IsClearedEntry root (config_struct t n d f) s k src_key cells h =
        resolve_struct root f s k src_key cells
          (λ a. resolve_tree-AreCleared root f a src_key cells) h
    resolve_entry-IsClearedEntry root (config_proto n d f) s k src_key cells h =
        resolve_struct root f s k src_key cells
          (λ a. resolve_tree-AreCleared root f a src_key cells) h
    resolve_entry-IsClearedEntry root (config_reference n p d r f) s k src_key cells h =
        resolve_struct root f s k src_key cells
          (λ a. resolve_tree-AreCleared root f a src_key cells) h
    resolve_entry-IsClearedEntry root (config_value text t) s k src_key cells h =
        resolve_at-IsCleared arithmetic reading root s k src_key cells
    resolve_entry-IsClearedEntry root (config_list t es) s k src_key cells h =
        resolve_at-IsCleared arithmetic reading root s k src_key cells
    resolve_entry-IsClearedEntry root (config_expression text lookups) s k src_key cells h =
        resolve_at-IsCleared arithmetic reading root s k src_key cells
    resolve_entry-IsClearedEntry root (config_value_lookup keys) s k src_key cells h =
        resolve_at-IsCleared arithmetic reading root s k src_key cells
    resolve_entry-IsClearedEntry root (config_var name) s k src_key cells h =
        resolve_at-IsCleared arithmetic reading root s k src_key cells

  -- Resolving the lookups of a tree without a key twice in one map always ends, cycles of lookups
  -- included. Where no exception is thrown, every entry of the tree's maps leads to a node that is no
  -- lookup, and every struct of the tree still stands at its key.
  pub resolve_root-AreCleared :
      (cfg : Fields)
      → HaveDistinctKeys cfg
      → Settles (λ r. AreCleared r.0 r.1 cfg) (resolve_root arithmetic reading cfg)
  unfolding resolve_root
  resolve_root-AreCleared cfg distinct =
      let (cells, root) = load_root cfg in
      Settles-bind (λ after. IsKept cells after × AreCleared after root cfg)
        (λ r. AreCleared r.0 r.1 cfg) (resolve_tree arithmetic reading root cfg root [] cells) _
        (resolve_tree-AreCleared root cfg root [] cells (load_root-Stands cfg distinct))
        (λ after p. p.1)
