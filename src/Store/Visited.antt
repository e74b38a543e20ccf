-- ===== src/Store/Visited.antt =====
-- The entries that `resolveVarRefs` of src/config_helpers.cpp visits.
use flexi_config_reader.Common.{ℕ, Text, some, ◌≡◌, ◌⊎◌, inl, inr, arith}
use flexi_config_reader.Types.{
  Config, config_value, config_list, config_expression, config_value_lookup, config_var,
  config_struct, config_proto, config_reference, Fields, end, field,
}
use flexi_config_reader.Store.{Cells, entry_at}
use flexi_config_reader.Store.Standing.{AreCleared, IsClearedEntry, IsCleared, IsClearedStruct}

-- The map at `t` has `k` as an entry of the tree, which stands at `s`: as an entry of the map at `s`, or
-- below a struct of it.
unfoldable mutual
  pub Visits : Cells → ℕ → Fields → ℕ → Text → Type 0
  Visits cells s end t k = ⊥
  Visits cells s (field j v f) t k =
      ((t ≡ s) × (k ≡ j)) ⊎ (VisitsBelow cells s j v t k ⊎ Visits cells s f t k)

  pub VisitsBelow : Cells → ℕ → Text → Config → ℕ → Text → Type 0
  VisitsBelow cells s j (config_struct kind n d f) t k =
      (a : ℕ) × (entry_at cells s j ≡ some a) × Visits cells a f t k
  VisitsBelow cells s j (config_proto n d f) t k =
      (a : ℕ) × (entry_at cells s j ≡ some a) × Visits cells a f t k
  VisitsBelow cells s j (config_reference n p d r f) t k =
      (a : ℕ) × (entry_at cells s j ≡ some a) × Visits cells a f t k
  VisitsBelow cells s j v t k = ⊥

IsClearedEntry-IsCleared :
    (cells : Cells) (s : ℕ) (k : Text) (v : Config)
    → IsClearedEntry cells s k v
    → IsCleared cells s k
unfolding IsClearedEntry
IsClearedEntry-IsCleared cells s k (config_struct t n d f) (a, held, value, below) =
    (a, held, value)
IsClearedEntry-IsCleared cells s k (config_proto n d f) (a, held, value, below) = (a, held, value)
IsClearedEntry-IsCleared cells s k (config_reference n p d r f) (a, held, value, below) =
    (a, held, value)
IsClearedEntry-IsCleared cells s k (config_value text t) h = h
IsClearedEntry-IsCleared cells s k (config_list t es) h = h
IsClearedEntry-IsCleared cells s k (config_expression text lookups) h = h
IsClearedEntry-IsCleared cells s k (config_value_lookup keys) h = h
IsClearedEntry-IsCleared cells s k (config_var name) h = h

-- the struct that an entry leads to, and what holds below it
below_at :
    (P : ℕ → Type 0) (cells : Cells) (s : ℕ) (j : Text) (a : ℕ)
    → IsClearedStruct P cells s j
    → entry_at cells s j ≡ some a
    → P a
below_at P cells s j a (b, held, value, below) there =
    let same : b ≡ a = ground (arith, held, there) in rw (← same) below

mutual
  unfolding AreCleared Visits

  pub AreCleared-Visits :
      (cells : Cells) (s : ℕ) (f : Fields) (t : ℕ) (k : Text)
      → AreCleared cells s f
      → Visits cells s f t k
      → IsCleared cells t k
  AreCleared-Visits cells s end t k h v = absurd v
  AreCleared-Visits cells s (field j v f) t k h (inl (p, q)) =
      rw (p, q) (IsClearedEntry-IsCleared cells s j v h.0)
  AreCleared-Visits cells s (field j v f) t k h (inr (inl below)) =
      IsClearedEntry-Visits cells s j v t k h.0 below
  AreCleared-Visits cells s (field j v f) t k h (inr (inr later)) =
      AreCleared-Visits cells s f t k h.1 later

  IsClearedEntry-Visits :
      (cells : Cells) (s : ℕ) (j : Text) (v : Config) (t : ℕ) (k : Text)
      → IsClearedEntry cells s j v
      → VisitsBelow cells s j v t k
      → IsCleared cells t k
  IsClearedEntry-Visits cells s j (config_struct kind n d f) t k h (a, there, below) =
      AreCleared-Visits cells a f t k (below_at (λ b. AreCleared cells b f) cells s j a h there)
        below
  IsClearedEntry-Visits cells s j (config_proto n d f) t k h (a, there, below) =
      AreCleared-Visits cells a f t k (below_at (λ b. AreCleared cells b f) cells s j a h there)
        below
  IsClearedEntry-Visits cells s j (config_reference n p d r f) t k h (a, there, below) =
      AreCleared-Visits cells a f t k (below_at (λ b. AreCleared cells b f) cells s j a h there)
        below
  IsClearedEntry-Visits cells s j (config_value text kind) t k h v = absurd v
  IsClearedEntry-Visits cells s j (config_list kind es) t k h v = absurd v
  IsClearedEntry-Visits cells s j (config_expression text lookups) t k h v = absurd v
  IsClearedEntry-Visits cells s j (config_value_lookup keys) t k h v = absurd v
  IsClearedEntry-Visits cells s j (config_var name) t k h v = absurd v
