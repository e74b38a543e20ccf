-- ===== src/Store/Resolve/Turn.antt =====
-- One turn of the loop of `resolveVarRefs`: the entry at a key.
use flexi_config_reader.Common.{
  ℕ, Text, none, some, true, ◌≡◌, refl, arith, is_some, Option-cases, inl, inr, ◌∙◌,
}
use flexi_config_reader.Result.{Run, throw, undefined, Settles, Settles-bind, Settles-map}
use flexi_config_reader.Math.{Arithmetic}
use flexi_config_reader.Expressions.{Reading}
use flexi_config_reader.Store.{
  Cell, cell_value, cell_list, cell_expression, cell_lookup, cell_var, cell_struct, Cells, cell_at,
  links_of, content_at, entry_at,
}
use flexi_config_reader.Store.Follow.{keys_of, keys_at, follow}
use flexi_config_reader.Store.Follow.Ends.{follow-Settles}
use flexi_config_reader.Store.Written.{entry_at-relink}
use flexi_config_reader.Store.Kept.{
  IsKept, IsKept-refl, IsKept-relink, IsStill, IsStill-IsKept, is_struct_at,
}
use flexi_config_reader.Store.Standing.{IsCleared, IsCleared-IsKept}
use flexi_config_reader.Store.Resolve.{resolve_expression, resolve_list, resolve_node, resolve_at}
use flexi_config_reader.Store.Resolve.Keeps.{
  IsPlain-cell_at, resolve_expression-IsStill, resolve_list-IsStill,
}

module _ (arithmetic : Arithmetic) (reading : Reading arithmetic) where
  -- what is asked of the step into a struct-like
  abbrev Inside : (ℕ → Cells → Run Cells) → Type 0
  Inside inside = (a : ℕ) (cells : Cells) → Settles (IsKept cells) (inside a cells)

  resolve_node-IsKept :
      (root : ℕ) (inside : ℕ → Cells → Run Cells) (s : ℕ) (k src_key : Text) (cells : Cells) (a : ℕ)
      (c : Cell)
      → Inside inside
      → entry_at cells s k ≡ some a
      → cell_at cells a ≡ some c
      → Settles
          (λ after. IsKept cells after × IsCleared after s k)
          (resolve_node arithmetic reading root inside s k src_key cells a c)
  unfolding resolve_node keys_of links_of keys_at
  resolve_node-IsKept root inside s k src_key cells a (cell_lookup keys) step held there =
      Settles-bind (λ b. keys_at cells b ≡ none) (λ after. IsKept cells after × IsCleared after s k)
        (follow cells root src_key keys) _ (follow-Settles cells root src_key keys)
        (λ b value.
          let kept = IsKept-relink cells s k b a keys held (rw (there, keys_at) refl) in
          (kept, (b, entry_at-relink cells s k b a held, kept.same_lookups b ∙ value)))
  resolve_node-IsKept root inside s k src_key cells a (cell_expression text links) step held there =
      let p = IsPlain-cell_at cells a (cell_expression text links) there refl refl in
      Settles-map (IsStill cells) (λ after. IsKept cells after × IsCleared after s k)
        (resolve_expression arithmetic reading root src_key a links cells)
        (λ after still.
          let kept = IsStill-IsKept still in (kept, IsCleared-IsKept s k kept (a, held, p.0)))
        (resolve_expression-IsStill arithmetic reading root src_key a links cells p)
  resolve_node-IsKept root inside s k src_key cells a (cell_list t elements) step held there =
      Settles-map (IsStill cells) (λ after. IsKept cells after × IsCleared after s k)
        (resolve_list arithmetic reading root src_key t elements a cells)
        (λ after still.
          let kept = IsStill-IsKept still in
          (kept, IsCleared-IsKept s k kept (a, held, rw (there, keys_at) refl)))
        (resolve_list-IsStill arithmetic reading root src_key t elements a cells there)
  resolve_node-IsKept root inside s k src_key cells a (cell_struct kind name depth links) step held
        there =
      Settles-map (IsKept cells) (λ after. IsKept cells after × IsCleared after s k)
        (inside a cells)
        (λ after kept. (kept, IsCleared-IsKept s k kept (a, held, rw (there, keys_at) refl)))
        (step a cells)
  resolve_node-IsKept root inside s k src_key cells a (cell_value text t) step held there =
      (IsKept-refl cells, (a, held, rw (there, keys_at) refl))
  resolve_node-IsKept root inside s k src_key cells a (cell_var name) step held there =
      (IsKept-refl cells, (a, held, rw (there, keys_at) refl))

  resolve_node-struct :
      (root : ℕ) (inside : ℕ → Cells → Run Cells) (s : ℕ) (k src_key : Text) (cells : Cells) (a : ℕ)
      (c : Cell)
      → is_some (links_of c) ≡ true
      → resolve_node arithmetic reading root inside s k src_key cells a c ≡ inside a cells
  unfolding resolve_node links_of
  resolve_node-struct root inside s k src_key cells a (cell_struct kind name depth links) h = refl
  resolve_node-struct root inside s k src_key cells a c h = absurd (ground arith)

  pub resolve_at-IsKept :
      (root : ℕ) (inside : ℕ → Cells → Run Cells) (s : ℕ) (k src_key : Text) (cells : Cells)
      → Inside inside
      → Settles
          (λ after. IsKept cells after × IsCleared after s k)
          (resolve_at arithmetic reading root inside s k src_key cells)
  unfolding resolve_at
  resolve_at-IsKept root inside s k src_key cells step = elim (Option-cases (entry_at cells s k)) [
    | inl absent ↦ rw (absent, resolve_at) tt
    | inr (a, held) ↦ elim (Option-cases (cell_at cells a)) [
      | inl absent ↦ rw (held, resolve_at) (rw absent tt)
      | inr (c, there) ↦
          rw (held, resolve_at)
            (rw there (resolve_node-IsKept root inside s k src_key cells a c step held there))
    ]
  ]

  -- an entry that the tree has no struct for
  pub resolve_at-IsCleared :
      (root : ℕ) (s : ℕ) (k src_key : Text) (cells : Cells)
      → Settles
          (λ after. IsKept cells after × IsCleared after s k)
          (resolve_at arithmetic reading root (λ a c. some (throw undefined)) s k src_key cells)
  resolve_at-IsCleared root s k src_key cells =
      resolve_at-IsKept root (λ a c. some (throw undefined)) s k src_key cells (λ a c. tt)

  pub resolve_at-struct :
      (root : ℕ) (inside : ℕ → Cells → Run Cells) (s : ℕ) (k src_key : Text) (cells : Cells) (a : ℕ)
      → entry_at cells s k ≡ some a
      → is_struct_at cells a ≡ true
      → resolve_at arithmetic reading root inside s k src_key cells ≡ inside a cells
  unfolding resolve_at is_struct_at content_at
  resolve_at-struct root inside s k src_key cells a held struct =
      elim (Option-cases (cell_at cells a)) [
        | inl absent ↦ absurd (ground (arith, struct, absent))
        | inr (c, there) ↦
            rw (held, resolve_at)
              (rw there (
                resolve_node-struct root inside s k src_key cells a c
                  (ground (arith, struct, there))))
      ]
