-- ===== src/Store/Resolve/Keeps.antt =====
-- The loops over an expression's variables and over a list's elements return, and keep the rest of the
-- store.
use flexi_config_reader.Common.{
  ℕ, Text, List, [], ◌∷◌, none, some, ◌≡◌, refl, Option-cases, Bool-cases, inl, inr, ◌∙◌,
}
use flexi_config_reader.Result.{
  Ensures, Ensures-bind, Ensures-after, Ensures-any, Ensures-choice, Ensures-option, Settles,
  Settles-bind, Settles-map,
}
use flexi_config_reader.Types.{Config, config_value, ConfigType, k_number, type_of}
use flexi_config_reader.Elements.{list_element_valid, is_type}
use flexi_config_reader.Math.{Arithmetic}
use flexi_config_reader.Expressions.{Reading, evaluate_expression}
use flexi_config_reader.Store.{
  Links, Cell, cell_list, cell_expression, cell_lookup, Cells, cell_at, links_of, content_at,
}
use flexi_config_reader.Store.Follow.{keys_of, keys_at, follow}
use flexi_config_reader.Store.Follow.Ends.{follow-Settles}
use flexi_config_reader.Store.Kept.{
  IsStill, IsStill-refl, IsStill-trans, IsStill-append, IsStill-variable, IsStill-write,
}
use flexi_config_reader.Store.Resolve.{
  surface_at, surfaces, value_cell, number_cell, number_at, assign, resolve_variable,
  resolve_expression, resolve_element, resolve_elements, resolve_list,
}

-- the node at an address is no lookup and no struct-like
abbrev pub IsPlain : Cells → ℕ → Type 0
IsPlain cells a = (keys_at cells a ≡ none) × (content_at cells a ≡ none)

pub IsPlain-kept :
    {before after : Cells} (a : ℕ) → IsStill before after → IsPlain before a → IsPlain after a
IsPlain-kept a kept p = (kept.same_lookups a ∙ p.0, kept.no_struct a p.1)

pub IsPlain-cell_at :
    (cells : Cells) (a : ℕ) (c : Cell)
    → cell_at cells a ≡ some c
    → keys_of c ≡ none
    → links_of c ≡ none
    → IsPlain cells a
unfolding keys_at content_at
IsPlain-cell_at cells a c h k l = (rw (h, keys_at) k, rw (h, content_at) l)

value_cell-keys_of :
    (v : Config) → Ensures (λ c. (keys_of c ≡ none) × (links_of c ≡ none)) (value_cell v)
unfolding value_cell keys_of links_of
value_cell-keys_of (config_value text t) = (refl, refl)
value_cell-keys_of v = tt

module _ (arithmetic : Arithmetic) (reading : Reading arithmetic) where
  number_cell-IsStill :
      (cells : Cells) (a : ℕ) (c : Cell)
      → Ensures (λ r. IsStill cells r.0) (number_cell arithmetic reading cells a c)
  unfolding number_cell
  number_cell-IsStill cells a (cell_expression text links) =
      Ensures-after (λ r. IsStill cells r.0) (surfaces cells links) _
        (λ lookups.
          Ensures-after (λ r. IsStill cells r.0)
            (evaluate_expression arithmetic reading text lookups) _
            (λ v.
              Ensures-bind (λ c. (keys_of c ≡ none) × (links_of c ≡ none)) (λ r. IsStill cells r.0)
                (value_cell v) _ (value_cell-keys_of v) (λ c p. IsStill-append cells c p.0 p.1)))
  number_cell-IsStill cells a c = IsStill-refl cells

  number_at-IsStill :
      (cells : Cells) (a : ℕ)
      → Ensures (λ r. IsStill cells r.0) (number_at arithmetic reading cells a)
  unfolding number_at
  number_at-IsStill cells a =
      Ensures-option (λ r. IsStill cells r.0) (cell_at cells a) _ _ tt (number_cell-IsStill cells a)

  assign-IsStill :
      (before cells : Cells) (e : ℕ) (k : Text) (a : ℕ)
      → IsStill before cells
      → IsPlain before e
      → Ensures (IsStill before) (assign arithmetic reading e k cells a)
  unfolding assign
  assign-IsStill before cells e k a kept p =
      Ensures-after (IsStill before) (surface_at cells a) _ (λ v.
        Ensures-choice (IsStill before) (is_type (type_of v) k_number) _ _
          (let now = IsPlain-kept e kept p in
            IsStill-trans kept (IsStill-variable cells e k a now.0 now.1))
          tt)

  resolve_variable-IsStill :
      (root : ℕ) (src_key : Text) (e : ℕ) (k : Text) (a : ℕ) (cells : Cells)
      → IsPlain cells e
      → Settles (IsStill cells) (resolve_variable arithmetic reading root src_key e k a cells)
  unfolding resolve_variable
  resolve_variable-IsStill root src_key e k a cells p =
      Settles-bind (λ _. Unit) (IsStill cells) (some (surface_at cells a)) _
        (Ensures-any (surface_at cells a))
        (λ v _. elim (Bool-cases (is_type (type_of v) k_number)) [
          | inl number ↦ rw number (IsStill-refl cells)
          | inr other ↦ rw other (elim (Option-cases (keys_at cells a)) [
            | inl value ↦ rw value tt
            | inr (keys, is_lookup) ↦ rw is_lookup (
                Settles-bind (λ b. keys_at cells b ≡ none) (IsStill cells)
                  (follow cells root src_key keys) _ (follow-Settles cells root src_key keys)
                  (λ b _.
                    Ensures-bind (λ r. IsStill cells r.0) (IsStill cells)
                      (number_at arithmetic reading cells b) _ (number_at-IsStill cells b)
                      (λ r kept. assign-IsStill cells r.0 e k r.1 kept p)))
          ])
        ])

  pub resolve_expression-IsStill :
      (root : ℕ) (src_key : Text) (e : ℕ) (links : Links) (cells : Cells)
      → IsPlain cells e
      → Settles (IsStill cells) (resolve_expression arithmetic reading root src_key e links cells)
  unfolding resolve_expression
  resolve_expression-IsStill root src_key e [] cells p = IsStill-refl cells
  resolve_expression-IsStill root src_key e ((k, a) ∷ links) cells p =
      Settles-bind (IsStill cells) (IsStill cells)
        (resolve_variable arithmetic reading root src_key e k a cells) _
        (resolve_variable-IsStill root src_key e k a cells p)
        (λ next kept.
          Settles-map (IsStill next) (IsStill cells)
            (resolve_expression arithmetic reading root src_key e links next)
            (λ after more. IsStill-trans kept more)
            (resolve_expression-IsStill root src_key e links next (IsPlain-kept e kept p)))

  resolve_element-IsStill :
      (root : ℕ) (src_key : Text) (t : ConfigType) (a : ℕ) (cells : Cells) (c : Cell)
      → cell_at cells a ≡ some c
      → Settles
          (λ r. IsStill cells r.0)
          (resolve_element arithmetic reading root src_key t a cells c)
  unfolding resolve_element keys_of links_of
  resolve_element-IsStill root src_key t a cells (cell_lookup keys) there =
      Settles-bind (λ _. Unit) (λ r. IsStill cells r.0) (follow cells root src_key keys) _
        (Settles-map (λ b. keys_at cells b ≡ none) (λ _. Unit) (follow cells root src_key keys)
          (λ _ _. tt) (follow-Settles cells root src_key keys))
        (λ b _.
          Ensures-after (λ r. IsStill cells r.0) (surface_at cells b) _
            (λ v.
              Ensures-choice (λ r. IsStill cells r.0) (list_element_valid t (type_of v)).0 _ _
                (IsStill-refl cells) tt))
  resolve_element-IsStill root src_key t a cells (cell_expression text links) there =
      Settles-bind (IsStill cells) (λ r. IsStill cells r.0)
        (resolve_expression arithmetic reading root src_key a links cells) _
        (resolve_expression-IsStill root src_key a links cells
          (IsPlain-cell_at cells a (cell_expression text links) there refl refl))
        (λ next kept. kept)
  resolve_element-IsStill root src_key t a cells c there = IsStill-refl cells

  pub resolve_elements-IsStill :
      (root : ℕ) (src_key : Text) (t : ConfigType) (elements : List ℕ) (cells : Cells)
      → Settles
          (λ r. IsStill cells r.0)
          (resolve_elements arithmetic reading root src_key t elements cells)
  unfolding resolve_elements
  resolve_elements-IsStill root src_key t [] cells = IsStill-refl cells
  resolve_elements-IsStill root src_key t (a ∷ elements) cells =
      elim (Option-cases (cell_at cells a)) [
        | inl absent ↦ rw (absent, resolve_elements) tt
        | inr (c, there) ↦
            rw (there, resolve_elements)
              (Settles-bind (λ r. IsStill cells r.0) (λ r. IsStill cells r.0)
                (resolve_element arithmetic reading root src_key t a cells c) _
                (resolve_element-IsStill root src_key t a cells c there)
                (λ r kept.
                  Settles-bind (λ q. IsStill r.0 q.0) (λ q. IsStill cells q.0)
                    (resolve_elements arithmetic reading root src_key r.1 elements r.0) _
                    (resolve_elements-IsStill root src_key r.1 elements r.0)
                    (λ q more. IsStill-trans kept more)))
      ]

  pub resolve_list-IsStill :
      (root : ℕ) (src_key : Text) (t : ConfigType) (elements : List ℕ) (a : ℕ) (cells : Cells)
      → cell_at cells a ≡ some (cell_list t elements)
      → Settles (IsStill cells) (resolve_list arithmetic reading root src_key t elements a cells)
  unfolding resolve_list keys_of links_of
  resolve_list-IsStill root src_key t elements a cells there =
      Settles-bind (λ r. IsStill cells r.0) (IsStill cells)
        (resolve_elements arithmetic reading root src_key t elements cells) _
        (resolve_elements-IsStill root src_key t elements cells)
        (λ r still.
          let now =
            IsPlain-kept a still (IsPlain-cell_at cells a (cell_list t elements) there refl refl) in
          IsStill-trans still (IsStill-write r.0 a (cell_list r.1 r.2) now.0 now.1 refl refl))
