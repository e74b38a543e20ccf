-- ===== src/Parser/Overrides.antt =====
-- What an override does to the configuration.
use flexi_config_reader.Common.{
  Text, List, [], ◌∷◌, Option, none, some, false, if◌then◌else◌, ◌≡◌, refl, ap, sym, arith, inl,
  inr, ◌∙◌, Option-cases, Bool-cases,
}
use flexi_config_reader.Result.{Result, ok, throw, ◌>>=◌, invalid_override, undefined, invalid_key}
use flexi_config_reader.Utils.{split}
use flexi_config_reader.Types.{
  Config, config_struct, config_proto, config_reference, Fields, type_of, data_of, with_data,
}
use flexi_config_reader.Types.Map.{at, set, at-set}
use flexi_config_reader.Lookup.{back, drop_last, get_nested_config, content_of, get_config_value}
use flexi_config_reader.Lookup.Paths.{walk, finish, AreNonempty, get_config_value-walk}
use flexi_config_reader.Parser.{update_at, apply_override, catch_invalid_key, types_clash}

data_of-with_data :
    (v : Config) (f d : Fields) → data_of v ≡ some f → data_of (with_data d v) ≡ some d
unfolding data_of with_data
data_of-with_data (config_struct t n k x) f d h = refl
data_of-with_data (config_proto n k x) f d h = refl
data_of-with_data (config_reference n p k r x) f d h = refl
data_of-with_data v f d h = ground (arith, h)

at-set_same : (k : Text) (v : Config) (f : Fields) → at k (set k v f) ≡ some v
at-set_same k v f = ground (arith, at-set k k v f)

walk-update_at :
    (keys : List Text) (k : Text) (cfg : Fields) (v w : Config)
    → back keys ≡ some k
    → walk cfg keys ≡ ok w
    → walk (update_at (drop_last keys) (set k v) cfg) keys ≡ ok v
unfolding walk update_at drop_last back
walk-update_at [] k cfg v w b h = cc
walk-update_at (j ∷ []) k cfg v w b h =
    let same : k ≡ j = cc in rw same (rw (at-set_same j v cfg, walk) refl)
walk-update_at (j ∷ i ∷ ks) k cfg v w b h = elim (Option-cases (at j cfg)) [
  | inl absent ↦ absurd (ground (arith, h, absent))
  | inr (x, there) ↦ elim (Option-cases (data_of x)) [
    | inl plain ↦ absurd (ground (arith, h, there, plain))
    | inr (d, inner) ↦
        let deeper : walk d (i ∷ ks) ≡ ok w = ground (arith, h, there, inner) in
        let d' : Fields = update_at (drop_last (i ∷ ks)) (set k v) d in
        rw (there, update_at)
          (rw (inner, update_at)
            (rw (at-set_same j (with_data d' x) cfg, walk)
              (rw (data_of-with_data x d d' inner, walk)
                (walk-update_at (i ∷ ks) k d v w b deeper))))
  ]
]

-- `apply_override` with the result of `getNestedConfig`
applied : List Text → Config → Fields → Result (Option Config) → Result Fields
unfolding catch_invalid_key
applied parts value cfg_map m = catch_invalid_key (
    m >>= λ struct_like. elim (back parts) [
      | none ↦ throw undefined
      | some k ↦ elim (at k (content_of cfg_map struct_like)) [
        | none ↦ throw invalid_override
        | some default ↦
            if types_clash (type_of default) (type_of value)
            then throw invalid_override
            else ok (update_at (drop_last parts) (set k value) cfg_map)
      ]
    ])

applied_lem :
    (parts : List Text) (value : Config) (cfg_map cfg : Fields) (m : Result (Option Config))
    → applied parts value cfg_map m ≡ ok cfg
    → (k : Text) × (w : Config) × (back parts ≡ some k)
      × (finish parts cfg_map m ≡ ok w)
      × (types_clash (type_of w) (type_of value) ≡ false)
      × (cfg ≡ update_at (drop_last parts) (set k value) cfg_map)
unfolding applied finish
applied_lem parts value cfg_map cfg (throw invalid_key) h = cc
applied_lem parts value cfg_map cfg (throw e) h = cc
applied_lem parts value cfg_map cfg (ok found) h = elim (Option-cases (back parts)) [
  | inl nothing ↦ absurd (ground (arith, h, nothing))
  | inr (k, last) ↦ elim (Option-cases (at k (content_of cfg_map found))) [
    | inl absent ↦ absurd (ground (arith, h, last, absent))
    | inr (w, there) ↦ elim (Bool-cases (types_clash (type_of w) (type_of value))) [
      | inl clash ↦ absurd (ground (arith, h, last, there, clash))
      | inr fine ↦
          let result : update_at (drop_last parts) (set k value) cfg_map ≡ cfg =
            ground (arith, h, last, there, fine) in
          let got : finish parts cfg_map (ok found) ≡ ok w = ground (arith, last, there) in
          (k, w, last, got, fine, sym result)
    ]
  ]
]

-- An override that succeeds, of a key of non-empty parts, had a value for this key that its type does
-- not clash with, and afterwards `getConfigValue` returns the override for the key.
pub apply_override-get_config_value :
    (key : Text) (value : Config) (cfg_map cfg : Fields)
    → AreNonempty (split key b'.')
    → apply_override key value cfg_map ≡ ok cfg
    → ((w : Config) × (get_config_value cfg_map (split key b'.') ≡ ok w)
        × (types_clash (type_of w) (type_of value) ≡ false))
      × (get_config_value cfg (split key b'.') ≡ ok value)
unfolding apply_override applied get_config_value finish
apply_override-get_config_value key value cfg_map cfg n h =
    let parts : List Text = split key b'.' in
    let (k, w, last, there, fine, result) =
      applied_lem parts value cfg_map cfg (get_nested_config cfg_map parts) h in
    let before : walk cfg_map parts ≡ ok w = sym (get_config_value-walk cfg_map parts n) ∙ there in
    (
      (w, there, fine),
      get_config_value-walk cfg parts n
          ∙ ap (λ c. walk c parts) result
          ∙ walk-update_at parts k cfg_map value w last before,
    )
