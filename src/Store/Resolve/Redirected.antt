-- ===== src/Store/Resolve/Redirected.antt =====
-- Where the entries lead after `resolveVarRefs`.
use flexi_config_reader.Common.{
  ℕ, ◌+◌, length, Text, List, [], ◌∷◌, none, some, ◌≡◌, ◌∙◌, ◌⊎◌, inl, inr, refl, arith,
  Option-cases,
}
use flexi_config_reader.Result.{
  Run, ok, throw, undefined, Ensures-any, Settles, Settles-bind, Settles-map, Settles-both,
  Settles-self,
}
use flexi_config_reader.Utils.{make_name}
use flexi_config_reader.Types.{
  Config, config_value, config_list, config_expression, config_value_lookup, config_var,
  config_struct, config_proto, config_reference, Fields, end, field,
}
use flexi_config_reader.Math.{Arithmetic}
use flexi_config_reader.Expressions.{Reading}
use flexi_config_reader.Store.{
  Cell, cell_value, cell_list, cell_expression, cell_lookup, cell_var, cell_struct, Cells, cell_at,
  entry_at,
}
use flexi_config_reader.Store.Load.{load_root}
use flexi_config_reader.Store.Load.Placed.{HaveDistinctKeys}
use flexi_config_reader.Store.Standing.{AreCleared}
use flexi_config_reader.Store.Visited.{Visits, AreCleared-Visits}
use flexi_config_reader.Store.Kept.{IsStill}
use flexi_config_reader.Store.Follow.{keys_of, keys_at, follow}
use flexi_config_reader.Store.Follow.Ends.{follow-Settles}
use flexi_config_reader.Store.Follow.Moved.{Redirects}
use flexi_config_reader.Store.Follow.Redirected.{Redirects-refl, Redirects-still, Redirects-relink}
use flexi_config_reader.Store.Resolve.{
  resolve_expression, resolve_list, resolve_node, resolve_at, resolve_tree, resolve_entry,
  resolve_root,
}
use flexi_config_reader.Store.Resolve.Keeps.{
  IsPlain-cell_at, resolve_expression-IsStill, resolve_list-IsStill,
}
use flexi_config_reader.Store.Resolve.Cleared.{resolve_root-AreCleared}

module _ (arithmetic : Arithmetic) (reading : Reading arithmetic) (root : ℕ) (first : Cells) where
  -- what is asked of the step into a struct-like
  abbrev Inside : (ℕ → Cells → Run Cells) → Type 0
  Inside inside =
      (a : ℕ) (cells : Cells)
      → Redirects root first cells
      → Settles (Redirects root first) (inside a cells)

  resolve_node-Redirects :
      (inside : ℕ → Cells → Run Cells) (s : ℕ) (k src_key : Text) (cells : Cells) (a : ℕ) (c : Cell)
      → Inside inside
      → Redirects root first cells
      → entry_at cells s k ≡ some a
      → cell_at cells a ≡ some c
      → Settles
          (Redirects root first)
          (resolve_node arithmetic reading root inside s k src_key cells a c)
  unfolding resolve_node keys_of keys_at
  resolve_node-Redirects inside s k src_key cells a (cell_lookup keys) step so_far held there =
      Settles-bind (λ b. (keys_at cells b ≡ none) × (follow cells root src_key keys ≡ some (ok b)))
        (Redirects root first) (follow cells root src_key keys) _
        (Settles-self (λ b. keys_at cells b ≡ none) (follow cells root src_key keys)
          (follow-Settles cells root src_key keys))
        (λ b p.
          Redirects-relink root first cells so_far s k src_key a b keys held
            (rw (there, keys_at) refl) p.0 p.1)
  resolve_node-Redirects inside s k src_key cells a (cell_expression text links) step so_far held
        there =
      Settles-map (IsStill cells) (Redirects root first)
        (resolve_expression arithmetic reading root src_key a links cells)
        (λ after still. Redirects-still root so_far still)
        (resolve_expression-IsStill arithmetic reading root src_key a links cells
          (IsPlain-cell_at cells a (cell_expression text links) there refl refl))
  resolve_node-Redirects inside s k src_key cells a (cell_list t elements) step so_far held there =
      Settles-map (IsStill cells) (Redirects root first)
        (resolve_list arithmetic reading root src_key t elements a cells)
        (λ after still. Redirects-still root so_far still)
        (resolve_list-IsStill arithmetic reading root src_key t elements a cells there)
  resolve_node-Redirects inside s k src_key cells a (cell_struct kind name depth links) step so_far
        held there =
      step a cells so_far
  resolve_node-Redirects inside s k src_key cells a (cell_value text t) step so_far held there =
      so_far
  resolve_node-Redirects inside s k src_key cells a (cell_var name) step so_far held there = so_far

  resolve_at-Redirects :
      (inside : ℕ → Cells → Run Cells) (s : ℕ) (k src_key : Text) (cells : Cells)
      → Inside inside
      → Redirects root first cells
      → Settles (Redirects root first) (resolve_at arithmetic reading root inside s k src_key cells)
  unfolding resolve_at
  resolve_at-Redirects inside s k src_key cells step so_far =
      elim (Option-cases (entry_at cells s k)) [
        | inl absent ↦ rw (absent, resolve_at) tt
        | inr (a, held) ↦ elim (Option-cases (cell_at cells a)) [
          | inl absent ↦ rw (held, resolve_at) (rw absent tt)
          | inr (c, there) ↦
              rw (held, resolve_at)
                (rw there
                  (resolve_node-Redirects inside s k src_key cells a c step so_far held there))
        ]
      ]

  mutual
    unfolding resolve_tree

    resolve_tree-Redirects :
        (f : Fields) (s : ℕ) (parent_key : Text) (cells : Cells)
        → Redirects root first cells
        → Settles (Redirects root first) (resolve_tree arithmetic reading root f s parent_key cells)
    resolve_tree-Redirects end s parent_key cells so_far = so_far
    resolve_tree-Redirects (field k v f) s parent_key cells so_far =
        Settles-bind (λ _. Unit) (Redirects root first) (some (make_name parent_key k)) _
          (Ensures-any (make_name parent_key k))
          (λ src_key _.
            Settles-bind (Redirects root first) (Redirects root first)
              (resolve_entry arithmetic reading root v s k src_key cells) _
              (resolve_entry-Redirects v s k src_key cells so_far)
              (λ next more. resolve_tree-Redirects f s parent_key next more))

    resolve_entry-Redirects :
        (v : Config) (s : ℕ) (k src_key : Text) (cells : Cells)
        → Redirects root first cells
        → Settles (Redirects root first) (resolve_entry arithmetic reading root v s k src_key cells)
    resolve_entry-Redirects (config_struct t n d f) s k src_key cells so_far =
        resolve_at-Redirects (λ a c. resolve_tree arithmetic reading root f a src_key c) s k src_key
          cells (λ a c. resolve_tree-Redirects f a src_key c) so_far
    resolve_entry-Redirects (config_proto n d f) s k src_key cells so_far =
        resolve_at-Redirects (λ a c. resolve_tree arithmetic reading root f a src_key c) s k src_key
          cells (λ a c. resolve_tree-Redirects f a src_key c) so_far
    resolve_entry-Redirects (config_reference n p d r f) s k src_key cells so_far =
        resolve_at-Redirects (λ a c. resolve_tree arithmetic reading root f a src_key c) s k src_key
          cells (λ a c. resolve_tree-Redirects f a src_key c) so_far
    resolve_entry-Redirects (config_value text t) s k src_key cells so_far =
        resolve_at-Redirects (λ a c. some (throw undefined)) s k src_key cells (λ a c x. tt) so_far
    resolve_entry-Redirects (config_list t es) s k src_key cells so_far =
        resolve_at-Redirects (λ a c. some (throw undefined)) s k src_key cells (λ a c x. tt) so_far
    resolve_entry-Redirects (config_expression text lookups) s k src_key cells so_far =
        resolve_at-Redirects (λ a c. some (throw undefined)) s k src_key cells (λ a c x. tt) so_far
    resolve_entry-Redirects (config_value_lookup keys) s k src_key cells so_far =
        resolve_at-Redirects (λ a c. some (throw undefined)) s k src_key cells (λ a c x. tt) so_far
    resolve_entry-Redirects (config_var name) s k src_key cells so_far =
        resolve_at-Redirects (λ a c. some (throw undefined)) s k src_key cells (λ a c x. tt) so_far

module _ (arithmetic : Arithmetic) (reading : Reading arithmetic) where
  resolve_root-Redirects :
      (cfg : Fields)
      → Settles
          (λ r. Redirects (load_root cfg).1 (load_root cfg).0 r.0)
          (resolve_root arithmetic reading cfg)
  unfolding resolve_root
  resolve_root-Redirects cfg =
      let (cells, root) = load_root cfg in
      Settles-bind (Redirects root cells) (λ r. Redirects root cells r.0)
        (resolve_tree arithmetic reading root cfg root [] cells) _
        (resolve_tree-Redirects arithmetic reading root cells cfg root [] cells
          (Redirects-refl root cells))
        (λ after p. p)

  -- Let an entry of a map in the store of a tree be a lookup, at the address `a`, that leads to the
  -- address `b` in this store, along the chain of the lookups that it meets. After the lookups of the
  -- whole tree are resolved, in their order, every entry of the tree's maps is no lookup, the node at
  -- `a` is the lookup that it was, and the entry holds `b`, unless it is none of the entries of the
  -- tree's maps, as they then stand, and holds `a`. So a chain ends at the same node, whichever of its
  -- lookups were resolved before.
  pub resolve_root-follow :
      (cfg : Fields) (s : ℕ) (k src_key : Text) (a b : ℕ) (keys : List Text)
      → HaveDistinctKeys cfg
      → entry_at (load_root cfg).0 s k ≡ some a
      → keys_at (load_root cfg).0 a ≡ some keys
      → follow (load_root cfg).0 (load_root cfg).1 src_key keys ≡ some (ok b)
      → Settles
          (λ r.
            AreCleared r.0 r.1 cfg
            × (keys_at r.0 a ≡ some keys)
            × ((entry_at r.0 s k ≡ some b)
                ⊎ ((entry_at r.0 s k ≡ some a) × ¬ Visits r.0 r.1 cfg s k)))
          (resolve_root arithmetic reading cfg)
  unfolding follow
  resolve_root-follow cfg s k src_key a b keys distinct held is_lookup followed =
      let cells = (load_root cfg).0 in
      let root = (load_root cfg).1 in
      Settles-map (λ r. AreCleared r.0 r.1 cfg × Redirects root cells r.0)
        (λ r.
          AreCleared r.0 r.1 cfg
          × (keys_at r.0 a ≡ some keys)
          × ((entry_at r.0 s k ≡ some b)
              ⊎ ((entry_at r.0 s k ≡ some a) × ¬ Visits r.0 r.1 cfg s k)))
        (resolve_root arithmetic reading cfg)
        (λ r (cleared, redirects).
          let lookup_there : keys_at r.0 a ≡ some keys =
            redirects.kept.same_lookups a ∙ is_lookup in
          (
            cleared,
            lookup_there,
            elim (redirects.moved s k a held) [
              | inl stays ↦ inr (
                stays,
                λ visited.
                    let (c, there, value) = AreCleared-Visits r.0 r.1 cfg s k cleared visited in
                    let same : a ≡ c = ground (arith, stays, there) in
                    absurd (ground (arith, lookup_there, same, value)),
              )
              | inr (y, moved, (ks, lookup, value, ends)) ↦
                  let same : keys ≡ ks = ground (arith, is_lookup, lookup) in
                  let end : y ≡ b =
                    ends (length cells + 2) (src_key ∷ []) b (rw (← same) followed) in
                  inl (rw (← end) moved)
            ],
          ))
        (Settles-both (λ r. AreCleared r.0 r.1 cfg) (λ r. Redirects root cells r.0)
          (resolve_root arithmetic reading cfg)
          (resolve_root-AreCleared arithmetic reading cfg distinct) (resolve_root-Redirects cfg))
