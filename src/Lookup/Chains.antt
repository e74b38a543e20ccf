-- ===== src/Lookup/Chains.antt =====
-- The chain of lookups that `resolveVarRefs` follows ends.
use flexi_config_reader.Common.{
  ℕ, zero, suc, ◌+◌, ◌<◌, Text, text_dec, List, [], ◌∷◌, ◌++◌, Option, none, some, true, false, has,
  has-append, length, if◌then◌else◌, ◌≡◌, refl, arith, Option-cases, Bool-cases, inl, inr, ap, sym,
  subst,
}
use flexi_config_reader.Result.{Result, ok, throw, cyclic_reference, Result-cases, >>=-eq-ok}
use flexi_config_reader.Utils.{make_name}
use flexi_config_reader.Types.{
  Config, config_value_lookup, config_struct, config_proto, config_reference, Fields, end, field,
  data_of,
}
use flexi_config_reader.Types.Map.{at}
use flexi_config_reader.Lookup.Unseen.{unseen, unseen_mono, unseen_less, unseen-le-length}
use flexi_config_reader.Lookup.{
  back, drop_last, nested_loop, get_nested_config, content_of, get_config_value, var_of,
  lookup_keys, resolve_loop, resolve_var_refs,
}

-- the `var()` of every lookup that stands in the tree as a value
unfoldable mutual
  pub vars : Fields → List Text
  vars end = []
  vars (field k v f) = vars_in v ++ vars f

  pub vars_in : Config → List Text
  vars_in (config_value_lookup keys) = var_of keys ∷ []
  vars_in (config_struct t n d f) = vars f
  vars_in (config_proto n d f) = vars f
  vars_in (config_reference n p d r f) = vars f
  vars_in _ = []

has_left :
    (q : Text) (xs ys : List Text) → has text_dec q xs ≡ true → has text_dec q (xs ++ ys) ≡ true
has_left q xs ys h = ground (arith, has-append text_dec q xs ys)

has_right :
    (q : Text) (xs ys : List Text) → has text_dec q ys ≡ true → has text_dec q (xs ++ ys) ≡ true
has_right q xs ys h = ground (arith, has-append text_dec q xs ys)

-- a lookup below an entry is one of the map
has-vars-at :
    (q k : Text) (v : Config) (f : Fields)
    → at k f ≡ some v
    → has text_dec q (vars_in v) ≡ true
    → has text_dec q (vars f) ≡ true
unfolding at vars
has-vars-at q k v end e h = absurd (ground arith)
has-vars-at q k v (field j w f) e h = elim (text_dec k j) [
  | yes p ↦ has_left q (vars_in w) (vars f) (let same : w ≡ v = ground arith in rw same h)
  | no n ↦ has_right q (vars_in w) (vars f) (has-vars-at q k v f (ground arith) h)
]

vars_in-data_of : (v : Config) (d : Fields) → data_of v ≡ some d → vars_in v ≡ vars d
unfolding data_of vars
vars_in-data_of (config_struct t n d f) x h = let same : f ≡ x = ground arith in ap vars same
vars_in-data_of (config_proto n d f) x h = let same : f ≡ x = ground arith in ap vars same
vars_in-data_of (config_reference n p d r f) x h = let same : f ≡ x = ground arith in ap vars same
vars_in-data_of v x h = absurd (ground arith)

-- every lookup below `a` is below `b`
abbrev IsWithin : Fields → Fields → Type 0
IsWithin a b = (q : Text) → has text_dec q (vars a) ≡ true → has text_dec q (vars b) ≡ true

nested_loop-IsWithin :
    (keys : List Text) (rejoined : Text) (root content : Fields) (found s : Option Config)
    → content_of root found ≡ content
    → IsWithin content root
    → nested_loop keys rejoined content found ≡ ok s
    → IsWithin (content_of root s) root
unfolding nested_loop content_of
nested_loop-IsWithin [] rejoined root content found s c w e =
    let same : found ≡ s = ground arith in
    subst (λ x. IsWithin (content_of root x) root) same (subst (λ x. IsWithin x root) (sym c) w)
nested_loop-IsWithin (k ∷ keys) rejoined root content found s c w e =
    elim (Option-cases (at k content)) [
      | inl absent ↦ absurd (ground arith)
      | inr (v, there) ↦ elim (Result-cases (make_name rejoined k)) [
        | inl (x, bad) ↦ absurd (ground arith)
        | inr (n, named) ↦ elim (Option-cases (data_of v)) [
          | inl plain ↦ absurd (ground arith)
          | inr (d, inner) ↦
              nested_loop-IsWithin keys n root d (some v) s (rw (inner, content_of) refl)
                (λ q h. w q (has-vars-at q k v content there (rw (vars_in-data_of v d inner) h)))
                (ground arith)
        ]
      ]
    ]

-- a value that `getConfigValue` returns holds only lookups of the tree
vars-get_config_value :
    (root : Fields) (keys : List Text) (v : Config) (q : Text)
    → get_config_value root keys ≡ ok v
    → has text_dec q (vars_in v) ≡ true
    → has text_dec q (vars root) ≡ true
unfolding get_config_value get_nested_config
vars-get_config_value root keys v q e h =
    let (s, found, last) = >>=-eq-ok (nested_loop (drop_last keys) [] root none) _ e in
    let within = nested_loop-IsWithin (drop_last keys) [] root root none s refl (λ _ x. x) found in
    elim (Option-cases (back keys)) [
      | inl n ↦ absurd (ground arith)
      | inr (key, b) ↦ elim (Option-cases (at key (content_of root s))) [
        | inl n ↦ absurd (ground arith)
        | inr (x, there) ↦
            let same : x ≡ v = ground arith in
            within q (has-vars-at q key x (content_of root s) there (rw same h))
      ]
    ]

-- what is left to visit, the lookup itself included if the tree does not hold it
left : Fields → List Text → List Text → ℕ
left root refs keys =
    unseen refs (vars root) + (if has text_dec (var_of keys) (vars root) then 0 else 1)

left_less :
    (root : Fields) (refs keys keys' : List Text)
    → has text_dec (var_of keys) refs ≡ false
    → has text_dec (var_of keys') (vars root) ≡ true
    → left root (refs ++ var_of keys ∷ []) keys' < left root refs keys
unfolding left
left_less root refs keys keys' n h = elim (Bool-cases (has text_dec (var_of keys) (vars root))) [
  | inl inside ↦ ground (arith, unseen_less (var_of keys) refs (vars root) inside n)
  | inr outside ↦ ground (arith, unseen_mono (var_of keys) refs (vars root))
]

left-bound :
    (root : Fields) (refs keys : List Text) (fuel : ℕ)
    → length (vars root) + 1 < fuel
    → left root refs keys < fuel
unfolding left
left-bound root refs keys fuel h = ground (arith, unseen-le-length refs (vars root))

vars_in-lookup_keys :
    (v : Config) (keys : List Text)
    → lookup_keys v ≡ some keys
    → has text_dec (var_of keys) (vars_in v) ≡ true
unfolding lookup_keys vars has
vars_in-lookup_keys (config_value_lookup ks) keys h =
    let same : ks ≡ keys = ground arith in rw same (ground arith)
vars_in-lookup_keys v keys h = absurd (ground arith)

resolve_loop_total :
    (root : Fields) (fuel : ℕ) (refs keys : List Text)
    → left root refs keys < fuel
    → (r : Result Config) × (resolve_loop root fuel refs keys ≡ some r)
      × ((v : Config) → r ≡ ok v → lookup_keys v ≡ none)
unfolding resolve_loop
resolve_loop_total root zero refs keys h = absurd (omega arith)
resolve_loop_total root (suc fuel) refs keys h =
    elim (Bool-cases (has text_dec (var_of keys) refs)) [
      | inl cycle ↦ (throw cyclic_reference, rw (cycle, resolve_loop) refl, λ v e. cc)
      | inr new ↦ elim (Result-cases (get_config_value root keys)) [
        | inl (x, bad) ↦ (throw x, rw (new, resolve_loop) (rw bad refl), λ v e. cc)
        | inr (v, found) ↦ elim (Option-cases (lookup_keys v)) [
          | inl value ↦ (ok v, rw (new, resolve_loop) (rw (found, value) refl), λ w e. ground arith)
          | inr (keys', again) ↦
              let inside =
                vars-get_config_value root keys v (var_of keys') found
                  (vars_in-lookup_keys v keys' again) in
              let (r, p, done) =
                resolve_loop_total root fuel (refs ++ var_of keys ∷ []) keys'
                  (omega (arith, left_less root refs keys keys' new inside)) in
              (r, rw (new, resolve_loop) (rw (found, again) p), done)
        ]
      ]
    ]

-- Following lookups always ends, in a value or in an exception: with more fuel than the tree has
-- lookups, plus one, the loop returns, and a value that it returns is no lookup. So a cycle of
-- references is always met by an exception.
pub resolve_var_refs_total :
    (root : Fields) (fuel : ℕ) (src_key : Text) (keys : List Text)
    → length (vars root) + 1 < fuel
    → (r : Result Config) × (resolve_var_refs root fuel src_key keys ≡ some r)
      × ((v : Config) → r ≡ ok v → lookup_keys v ≡ none)
unfolding resolve_var_refs
resolve_var_refs_total root fuel src_key keys h =
    resolve_loop_total root fuel (src_key ∷ []) keys (left-bound root (src_key ∷ []) keys fuel h)
