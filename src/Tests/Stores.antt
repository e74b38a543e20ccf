-- ===== src/Tests/Stores.antt =====
-- Lookups resolved in a store.
use flexi_config_reader.Common.{
  ℕ, Text, text_dec, codes, [], ◌∷◌, Option, none, some, ◌≡◌, ◌⊎◌, refl,
}
use flexi_config_reader.Result.{Run, ok, throw, Settles, cyclic_reference}
use flexi_config_reader.Types.{
  Config, config_value, config_value_lookup, config_struct, of_number, of_struct, Fields, end,
  field,
}
use flexi_config_reader.Store.{Cells, entry_at}
use flexi_config_reader.Store.Load.{unload, load_root}
use flexi_config_reader.Types.Map.{at}
use flexi_config_reader.Store.Load.Placed.{HaveDistinctKeys}
use flexi_config_reader.Store.Standing.{AreCleared}
use flexi_config_reader.Store.Visited.{Visits}
use flexi_config_reader.Store.Resolve.{resolve_root}
use flexi_config_reader.Store.Follow.{keys_at, follow}
use flexi_config_reader.Store.Resolve.Redirected.{resolve_root-follow}
use flexi_config_reader.Store.Resolve.Cleared.{resolve_root-AreCleared}
use flexi_config_reader.Tests.Passes.{naturals, reading}

abbrev one : Config
one = config_value (codes "1") of_number

-- `b = $(s.c); s { c = $(a) } a = 1`
abbrev chained : Fields
chained = field (codes "b") (config_value_lookup (codes "s" ∷ codes "c" ∷ [])) (
    field (codes "s")
      (config_struct of_struct (codes "s") 0
        (field (codes "c") (config_value_lookup (codes "a" ∷ [])) end))
      (field (codes "a") one end))

-- the tree that a store holds at its root, if there is one
abbrev tree_of : Run (Cells × ℕ) → Option Config
tree_of (some (ok (cells, root))) = unload 5 cells root
tree_of run = none

chained_resolved :
    tree_of (resolve_root naturals reading chained)
    ≡ some (
        config_struct of_struct [] 0 (
          field (codes "b") one (
            field
              (codes "s")
              (config_struct of_struct (codes "s") 0 (field (codes "c") one end))
              (field (codes "a") one end))))
unfolding resolve_root unload
chained_resolved = refl

resolve_root_example :
    Settles (λ r. AreCleared r.0 r.1 chained) (resolve_root naturals reading chained)
unfolding HaveDistinctKeys at text_dec
resolve_root_example =
    resolve_root-AreCleared naturals reading chained
      (refl, tt, (refl, (refl, tt, tt), (refl, tt, tt)))

-- `b` is at the address 0, and leads past `s.c` to `a`, at 3
resolve_root-follow_example :
    Settles
      (λ r.
        AreCleared r.0 r.1 chained
        × (keys_at r.0 0 ≡ some (codes "s" ∷ codes "c" ∷ []))
        × ((entry_at r.0 4 (codes "b") ≡ some 3)
            ⊎ ((entry_at r.0 4 (codes "b") ≡ some 0) × ¬ Visits r.0 r.1 chained 4 (codes "b"))))
      (resolve_root naturals reading chained)
unfolding HaveDistinctKeys at text_dec load_root entry_at keys_at follow
resolve_root-follow_example =
    resolve_root-follow naturals reading chained 4 (codes "b") (codes "b") 0 3
      (codes "s" ∷ codes "c" ∷ []) (refl, tt, (refl, (refl, tt, tt), (refl, tt, tt))) refl refl refl

-- `a = $(b); b = $(a)`
abbrev cycle : Fields
cycle =
    field (codes "a") (config_value_lookup (codes "b" ∷ []))
      (field (codes "b") (config_value_lookup (codes "a" ∷ [])) end)

cycle_thrown : resolve_root naturals reading cycle ≡ some (throw cyclic_reference)
unfolding resolve_root
cycle_thrown = refl

-- `s { b = $(s) }`
abbrev looped : Fields
looped =
    field (codes "s")
      (config_struct of_struct (codes "s") 0
        (field (codes "b") (config_value_lookup (codes "s" ∷ [])) end))
      end

abbrev entry_after : ℕ → Text → Run (Cells × ℕ) → Option ℕ
entry_after s k (some (ok (cells, root))) = entry_at cells s k
entry_after s k run = none

-- the entry of the struct leads to the struct
looped_resolved : entry_after 1 (codes "b") (resolve_root naturals reading looped) ≡ some 1
unfolding resolve_root entry_at
looped_resolved = refl
