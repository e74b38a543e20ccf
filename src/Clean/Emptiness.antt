-- ===== src/Clean/Emptiness.antt =====
-- What is cleaned has no empty struct.
use flexi_config_reader.Common.{
  ℕ, suc, Text, text_dec, List, [], ◌∷◌, true, false, has, ◌≡◌, sym, subst, arith, Bool-cases, inl,
  inr,
}
use flexi_config_reader.Types.{
  Config, config_value, config_list, config_expression, config_value_lookup, config_var,
  config_struct, config_proto, config_reference, Fields, end, field,
}
use flexi_config_reader.Types.Map.{erase}
use flexi_config_reader.Clean.{
  is_empty_struct, to_erase, erase_keys, clean_walk, clean_entry, cleanup_config,
}

-- The structs that are reached through structs all have entries.
mutual
  pub NoEmptyStruct : Fields → Type 0
  NoEmptyStruct end = Unit
  NoEmptyStruct (field k v f) = (is_empty_struct v ≡ false) × NoEmptyInside v × NoEmptyStruct f

  pub NoEmptyInside : Config → Type 0
  NoEmptyInside (config_struct t n d f) = NoEmptyStruct f
  NoEmptyInside (config_value _ _) = Unit
  NoEmptyInside (config_list _ _) = Unit
  NoEmptyInside (config_expression _ _) = Unit
  NoEmptyInside (config_value_lookup _) = Unit
  NoEmptyInside (config_var _) = Unit
  NoEmptyInside (config_proto _ _ _) = Unit
  NoEmptyInside (config_reference _ _ _ _ _) = Unit

-- no entry has an empty struct below it, and an entry that is one has its key in the list
abbrev Covered : List Text → Fields → Type 0
Covered ks end = Unit
Covered ks (field k v f) =
    (is_empty_struct v ≡ true → has text_dec k ks ≡ true) × NoEmptyInside v × Covered ks f

Covered-more : (k : Text) (ks : List Text) (f : Fields) → Covered ks f → Covered (k ∷ ks) f
unfolding has
Covered-more k ks end c = tt
Covered-more k ks (field j v f) c = (λ e. ground (arith, c.0 e), c.1, Covered-more k ks f c.2)

Covered-erase :
    (k : Text) (ks : List Text) (f : Fields) → Covered (k ∷ ks) f → Covered ks (erase k f)
unfolding has erase
Covered-erase k ks end c = tt
Covered-erase k ks (field j v f) c = elim (text_dec k j) [
  | yes p ↦
      let gone : erase k (field j v f) ≡ erase k f = ground (arith, p) in
      subst (Covered ks) (sym gone) (Covered-erase k ks f c.2)
  | no n ↦
      let kept : erase k (field j v f) ≡ field j v (erase k f) = ground (arith, n) in
      subst (Covered ks) (sym kept) (λ e. ground (arith, c.0 e, n), c.1, Covered-erase k ks f c.2)
]

Covered-none : (f : Fields) → Covered [] f → NoEmptyStruct f
unfolding NoEmptyStruct has
Covered-none end c = tt
Covered-none (field k v f) c = elim (Bool-cases (is_empty_struct v)) [
  | inl h ↦ absurd (ground (arith, c.0 h))
  | inr h ↦ (h, c.1, Covered-none f c.2)
]

erase_keys-NoEmptyStruct :
    (ks : List Text) (f : Fields) → Covered ks f → NoEmptyStruct (erase_keys ks f)
unfolding erase_keys
erase_keys-NoEmptyStruct [] f c = Covered-none f c
erase_keys-NoEmptyStruct (k ∷ ks) f c =
    erase_keys-NoEmptyStruct ks (erase k f) (Covered-erase k ks f c)

Covered-first :
    (k : Text) (v : Config) (f : Fields)
    → NoEmptyInside v
    → Covered (to_erase f) f
    → Covered (to_erase (field k v f)) (field k v f)
unfolding to_erase has
Covered-first k v f n c = elim (Bool-cases (is_empty_struct v)) [
  | inl h ↦
      let first : to_erase (field k v f) ≡ k ∷ to_erase f = ground (arith, h) in
      subst (λ ks. Covered ks (field k v f)) (sym first)
        (λ e. ground arith, n, Covered-more k (to_erase f) f c)
  | inr h ↦
      let first : to_erase (field k v f) ≡ to_erase f = ground (arith, h) in
      subst (λ ks. Covered ks (field k v f)) (sym first) (λ e. ground (arith, h, e), n, c)
]

mutual
  unfolding clean_walk to_erase has NoEmptyStruct

  clean_walk-Covered :
      (depth : ℕ) (f : Fields) → Covered (to_erase (clean_walk depth f)) (clean_walk depth f)
  clean_walk-Covered depth end = tt
  clean_walk-Covered depth (field k v f) =
      Covered-first k (clean_entry depth v) (clean_walk depth f) (clean_entry-NoEmptyInside depth v)
        (clean_walk-Covered depth f)

  clean_entry-NoEmptyInside : (depth : ℕ) (v : Config) → NoEmptyInside (clean_entry depth v)
  clean_entry-NoEmptyInside depth (config_struct t n d f) =
      erase_keys-NoEmptyStruct (to_erase (clean_walk (suc depth) f)) (clean_walk (suc depth) f)
        (clean_walk-Covered (suc depth) f)
  clean_entry-NoEmptyInside depth (config_value _ _) = tt
  clean_entry-NoEmptyInside depth (config_list _ _) = tt
  clean_entry-NoEmptyInside depth (config_expression _ _) = tt
  clean_entry-NoEmptyInside depth (config_value_lookup _) = tt
  clean_entry-NoEmptyInside depth (config_var _) = tt
  clean_entry-NoEmptyInside depth (config_proto _ _ _) = tt
  clean_entry-NoEmptyInside depth (config_reference _ _ _ _ _) = tt

-- After `cleanupConfig`, every struct at the top level or in a struct that is reached from there has
-- at least one entry.
pub cleanup_config-NoEmptyStruct :
    (cfg : Fields) (depth : ℕ) → NoEmptyStruct (cleanup_config cfg depth)
unfolding cleanup_config
cleanup_config-NoEmptyStruct cfg depth =
    erase_keys-NoEmptyStruct (to_erase (clean_walk depth cfg)) (clean_walk depth cfg)
      (clean_walk-Covered depth cfg)
