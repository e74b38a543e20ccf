-- ===== src/Reader/Existence.antt =====
-- `exists` against `getConfigValue`.
use flexi_config_reader.Common.{
  Text, List, [], ◌∷◌, Option, none, some, Bool, true, false, ◌≡◌, ◌≢◌, refl, ap, arith, inl, inr,
  ◌⊎◌, sym, ◌∙◌, Option-cases,
}
use flexi_config_reader.Result.{
  Result, ok, throw, Exception, ◌>>=◌, invalid_key, invalid_type, undefined,
}
use flexi_config_reader.Utils.{split}
use flexi_config_reader.Types.{Config, Fields, data_of}
use flexi_config_reader.Types.Map.{at, contains}
use flexi_config_reader.Lookup.{back, get_nested_config, content_of, get_config_value}
use flexi_config_reader.Lookup.Paths.{finish, walk, AreNonempty, get_config_value-walk}
use flexi_config_reader.Reader.{Reader, reader_nested_config, catch_missing, exists}

pub is_ok : {A : Type 0} → Result A → Bool
is_ok (ok a) = true
is_ok (throw e) = false

walk_throws :
    (cfg : Fields) (keys : List Text) (e : Exception)
    → keys ≢ []
    → walk cfg keys ≡ throw e
    → (e ≡ invalid_key) ⊎ (e ≡ invalid_type)
unfolding walk
walk_throws cfg [] e n h = absurd (n refl)
walk_throws cfg (k ∷ []) e n h = ground (arith, h)
walk_throws cfg (k ∷ j ∷ ks) e n h = elim (Option-cases (at k cfg)) [
  | inl absent ↦ ground (arith, h, absent)
  | inr (v, there) ↦ elim (Option-cases (data_of v)) [
    | inl plain ↦ ground (arith, h, there, plain)
    | inr (d, inner) ↦
        let deeper : walk d (j ∷ ks) ≡ throw e = ground (arith, h, there, inner) in
        walk_throws d (j ∷ ks) e (λ q. cc) deeper
  ]
]

back-some : (keys : List Text) → keys ≢ [] → (k : Text) × (back keys ≡ some k)
unfolding back
back-some [] n = absurd (n refl)
back-some (k ∷ []) n = (k, refl)
back-some (k ∷ j ∷ ks) n = back-some (j ∷ ks) (λ q. cc)

-- `exists` with the result of `getNestedConfig`
checked : Fields → List Text → Result (Option Config) → Result Bool
unfolding catch_missing
checked cfg keys m =
    let found : Result (Text × Fields) = m >>= λ struct_like. elim (back keys) [
      | none ↦ throw undefined
      | some k ↦ ok (k, content_of cfg struct_like)
    ] in
    catch_missing (found >>= λ f. ok (contains f.0 f.1))

checked_lem :
    (cfg : Fields) (keys : List Text) (k : Text) (m : Result (Option Config))
    → back keys ≡ some k
    → ((e : Exception) → m ≡ throw e → (e ≡ invalid_key) ⊎ (e ≡ invalid_type))
    → checked cfg keys m ≡ ok (is_ok (finish keys cfg m))
unfolding checked finish is_ok
checked_lem cfg keys k (throw e) last only = elim (only e refl) [
  | inl q ↦ rw q refl
  | inr q ↦ rw q refl
]
checked_lem cfg keys k (ok found) last only = elim (Option-cases (at k (content_of cfg found))) [
  | inl absent ↦ rw last (rw (absent, is_ok) refl)
  | inr (v, there) ↦ rw last (rw (there, is_ok) refl)
]

-- For a key of non-empty parts, `exists` does not throw, and is true just where `getConfigValue` finds
-- a value for these parts.
pub exists_lem :
    (reader : Reader) (key : Text)
    → split key b'.' ≢ []
    → AreNonempty (split key b'.')
    → exists reader key ≡ ok (is_ok (get_config_value reader.cfg_data (split key b'.')))
unfolding exists reader_nested_config checked get_config_value finish
exists_lem reader key n h =
    let keys : List Text = split key b'.' in
    let (k, last) = back-some keys n in
    checked_lem reader.cfg_data keys k (get_nested_config reader.cfg_data keys) last (λ e thrown.
      let through : get_config_value reader.cfg_data keys ≡ throw e =
        ap (finish keys reader.cfg_data) thrown in
      walk_throws reader.cfg_data keys e n
        (sym (get_config_value-walk reader.cfg_data keys h) ∙ through))
