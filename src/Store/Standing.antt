-- ===== src/Store/Standing.antt =====
-- The entries of a map that lead to no lookup, and the structs that a tree has, in a store.
use flexi_config_reader.Common.{
  ℕ, Text, none, some, true, ◌≡◌, refl, arith, is_some, Option-cases, inl, inr, ◌∙◌,
}
use flexi_config_reader.Types.{
  Config, config_value, config_list, config_expression, config_value_lookup, config_var,
  config_struct, config_proto, config_reference, Fields, end, field,
}
use flexi_config_reader.Store.{Cell, cell_struct, Cells, cell_at, links_of, content_at, entry_at}
use flexi_config_reader.Store.Follow.{keys_of, keys_at}
use flexi_config_reader.Store.Kept.{IsKept, is_struct_at}

-- The entry leads to a node, and the node is no lookup.
abbrev pub IsCleared : Cells → ℕ → Text → Type 0
IsCleared cells s k = (a : ℕ) × (entry_at cells s k ≡ some a) × (keys_at cells a ≡ none)

pub IsCleared-IsKept :
    {before after : Cells} (s : ℕ) (k : Text)
    → IsKept before after
    → IsCleared before s k
    → IsCleared after s k
IsCleared-IsKept s k kept (a, held, value) =
    (a, kept.same_entries s k a held value, kept.same_lookups a ∙ value)

-- A struct stands at the key, below which something holds.
abbrev pub IsClearedStruct : (ℕ → Type 0) → Cells → ℕ → Text → Type 0
IsClearedStruct Below cells s k =
    (a : ℕ) × (entry_at cells s k ≡ some a) × (keys_at cells a ≡ none) × Below a

abbrev pub StandsStruct : (ℕ → Type 0) → Cells → ℕ → Text → Type 0
StandsStruct Below cells s k =
    (a : ℕ) × (entry_at cells s k ≡ some a) × (is_struct_at cells a ≡ true) × Below a

-- Every entry of the map at `s` that the tree has is cleared, and so are those below the structs that
-- the tree has.
unfoldable mutual
  pub AreCleared : Cells → ℕ → Fields → Type 0
  AreCleared cells s end = Unit
  AreCleared cells s (field k v f) = IsClearedEntry cells s k v × AreCleared cells s f

  pub IsClearedEntry : Cells → ℕ → Text → Config → Type 0
  IsClearedEntry cells s k (config_struct t n d f) =
      IsClearedStruct (λ a. AreCleared cells a f) cells s k
  IsClearedEntry cells s k (config_proto n d f) =
      IsClearedStruct (λ a. AreCleared cells a f) cells s k
  IsClearedEntry cells s k (config_reference n p d r f) =
      IsClearedStruct (λ a. AreCleared cells a f) cells s k
  IsClearedEntry cells s k (config_value text t) = IsCleared cells s k
  IsClearedEntry cells s k (config_list t es) = IsCleared cells s k
  IsClearedEntry cells s k (config_expression text lookups) = IsCleared cells s k
  IsClearedEntry cells s k (config_value_lookup keys) = IsCleared cells s k
  IsClearedEntry cells s k (config_var name) = IsCleared cells s k

-- The structs of a tree stand at their keys, in the map at `s` and below.
unfoldable mutual
  pub Stands : Cells → ℕ → Fields → Type 0
  Stands cells s end = Unit
  Stands cells s (field k v f) = StandsEntry cells s k v × Stands cells s f

  pub StandsEntry : Cells → ℕ → Text → Config → Type 0
  StandsEntry cells s k (config_struct t n d f) = StandsStruct (λ a. Stands cells a f) cells s k
  StandsEntry cells s k (config_proto n d f) = StandsStruct (λ a. Stands cells a f) cells s k
  StandsEntry cells s k (config_reference n p d r f) =
      StandsStruct (λ a. Stands cells a f) cells s k
  StandsEntry cells s k (config_value text t) = Unit
  StandsEntry cells s k (config_list t es) = Unit
  StandsEntry cells s k (config_expression text lookups) = Unit
  StandsEntry cells s k (config_value_lookup keys) = Unit
  StandsEntry cells s k (config_var name) = Unit

keys_of-links_of : (c : Cell) → is_some (links_of c) ≡ true → keys_of c ≡ none
unfolding keys_of links_of
keys_of-links_of (cell_struct kind name depth links) h = refl
keys_of-links_of c h = absurd (ground arith)

pub keys_at-is_struct_at :
    (cells : Cells) (a : ℕ) → is_struct_at cells a ≡ true → keys_at cells a ≡ none
unfolding is_struct_at content_at keys_at
keys_at-is_struct_at cells a h = elim (Option-cases (cell_at cells a)) [
  | inl absent ↦ rw (absent, keys_at) refl
  | inr (c, there) ↦ rw (there, keys_at) (keys_of-links_of c (ground (arith, h, there)))
]

IsClearedStruct-IsKept :
    {before after : Cells} {P Q : ℕ → Type 0} (s : ℕ) (k : Text)
    → IsKept before after
    → ((a : ℕ) → P a → Q a)
    → IsClearedStruct P before s k
    → IsClearedStruct Q after s k
IsClearedStruct-IsKept s k kept step (a, held, value, below) =
    (a, kept.same_entries s k a held value, kept.same_lookups a ∙ value, step a below)

StandsStruct-IsKept :
    {before after : Cells} {P Q : ℕ → Type 0} (s : ℕ) (k : Text)
    → IsKept before after
    → ((a : ℕ) → P a → Q a)
    → StandsStruct P before s k
    → StandsStruct Q after s k
StandsStruct-IsKept {before} s k kept step (a, held, struct, below) = (
  a,
  kept.same_entries s k a held (keys_at-is_struct_at before a struct),
  kept.structs a struct,
  step a below,
)

mutual
  unfolding AreCleared

  AreCleared-IsKept :
      {before after : Cells} (s : ℕ) (f : Fields)
      → IsKept before after
      → AreCleared before s f
      → AreCleared after s f
  AreCleared-IsKept s end kept h = tt
  AreCleared-IsKept s (field k v f) kept h =
      (IsClearedEntry-IsKept s k v kept h.0, AreCleared-IsKept s f kept h.1)

  pub IsClearedEntry-IsKept :
      {before after : Cells} (s : ℕ) (k : Text) (v : Config)
      → IsKept before after
      → IsClearedEntry before s k v
      → IsClearedEntry after s k v
  IsClearedEntry-IsKept s k (config_struct t n d f) kept h =
      IsClearedStruct-IsKept s k kept (λ a. AreCleared-IsKept a f kept) h
  IsClearedEntry-IsKept s k (config_proto n d f) kept h =
      IsClearedStruct-IsKept s k kept (λ a. AreCleared-IsKept a f kept) h
  IsClearedEntry-IsKept s k (config_reference n p d r f) kept h =
      IsClearedStruct-IsKept s k kept (λ a. AreCleared-IsKept a f kept) h
  IsClearedEntry-IsKept s k (config_value text t) kept h = IsCleared-IsKept s k kept h
  IsClearedEntry-IsKept s k (config_list t es) kept h = IsCleared-IsKept s k kept h
  IsClearedEntry-IsKept s k (config_expression text lookups) kept h = IsCleared-IsKept s k kept h
  IsClearedEntry-IsKept s k (config_value_lookup keys) kept h = IsCleared-IsKept s k kept h
  IsClearedEntry-IsKept s k (config_var name) kept h = IsCleared-IsKept s k kept h

mutual
  unfolding Stands

  pub Stands-IsKept :
      {before after : Cells} (s : ℕ) (f : Fields)
      → IsKept before after
      → Stands before s f
      → Stands after s f
  Stands-IsKept s end kept h = tt
  Stands-IsKept s (field k v f) kept h =
      (StandsEntry-IsKept s k v kept h.0, Stands-IsKept s f kept h.1)

  StandsEntry-IsKept :
      {before after : Cells} (s : ℕ) (k : Text) (v : Config)
      → IsKept before after
      → StandsEntry before s k v
      → StandsEntry after s k v
  StandsEntry-IsKept s k (config_struct t n d f) kept h =
      StandsStruct-IsKept s k kept (λ a. Stands-IsKept a f kept) h
  StandsEntry-IsKept s k (config_proto n d f) kept h =
      StandsStruct-IsKept s k kept (λ a. Stands-IsKept a f kept) h
  StandsEntry-IsKept s k (config_reference n p d r f) kept h =
      StandsStruct-IsKept s k kept (λ a. Stands-IsKept a f kept) h
  StandsEntry-IsKept s k (config_value text t) kept h = tt
  StandsEntry-IsKept s k (config_list t es) kept h = tt
  StandsEntry-IsKept s k (config_expression text lookups) kept h = tt
  StandsEntry-IsKept s k (config_value_lookup keys) kept h = tt
  StandsEntry-IsKept s k (config_var name) kept h = tt
