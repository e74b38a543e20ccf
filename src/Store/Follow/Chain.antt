-- ===== src/Store/Follow/Chain.antt =====
-- The `do … while` of a lookup, turn by turn.
use flexi_config_reader.Common.{
  ℕ, zero, suc, Text, text_dec, List, [], ◌∷◌, ◌++◌, none, some, false, has, ◌≡◌, arith, ◌∙◌, ◌⊎◌,
  inl, inr, sym, Option-cases, Bool-cases,
}
use flexi_config_reader.Result.{ok, Result-cases}
use flexi_config_reader.Lookup.{var_of}
use flexi_config_reader.Store.{Cells}
use flexi_config_reader.Store.Follow.{find, keys_at, follow_loop}

-- what a chain that ends has done first
pub follow_step :
    (cells : Cells) (root fuel : ℕ) (refs keys : List Text) (b : ℕ)
    → follow_loop cells root (suc fuel) refs keys ≡ some (ok b)
    → (has text_dec (var_of keys) refs ≡ false)
      × (a : ℕ) × (find cells root keys ≡ ok a)
      × (((keys_at cells a ≡ none) × (a ≡ b))
          ⊎ ((keys' : List Text) × (keys_at cells a ≡ some keys')
              × (follow_loop cells root fuel (refs ++ var_of keys ∷ []) keys' ≡ some (ok b))))
unfolding follow_loop
follow_step cells root fuel refs keys b e = elim (Bool-cases (has text_dec (var_of keys) refs)) [
  | inl cycle ↦ absurd (ground arith)
  | inr new ↦ elim (Result-cases (find cells root keys)) [
    | inl (x, bad) ↦ absurd (ground arith)
    | inr (a, found) ↦ elim (Option-cases (keys_at cells a)) [
      | inl value ↦ (new, a, found, inl (value, ground arith))
      | inr (keys', again) ↦ (new, a, found, inr (keys', again, ground arith))
    ]
  ]
]

pub follow_loop-end :
    (cells : Cells) (root fuel : ℕ) (refs keys : List Text) (a : ℕ)
    → has text_dec (var_of keys) refs ≡ false
    → find cells root keys ≡ ok a
    → keys_at cells a ≡ none
    → follow_loop cells root (suc fuel) refs keys ≡ some (ok a)
unfolding follow_loop
follow_loop-end cells root fuel refs keys a new found value =
    rw (new, follow_loop) (rw found (ground (arith, value)))

pub follow_loop-more :
    (cells : Cells) (root fuel : ℕ) (refs keys : List Text) (a b : ℕ) (keys' : List Text)
    → has text_dec (var_of keys) refs ≡ false
    → find cells root keys ≡ ok a
    → keys_at cells a ≡ some keys'
    → follow_loop cells root fuel (refs ++ var_of keys ∷ []) keys' ≡ some (ok b)
    → follow_loop cells root (suc fuel) refs keys ≡ some (ok b)
unfolding follow_loop
follow_loop-more cells root fuel refs keys a b keys' new found again rest =
    rw (new, follow_loop) (rw found (ground (arith, again, rest)))

-- two chains from the same keys that end have the same end
pub follow_loop-same :
    (cells : Cells) (root fuel fuel' : ℕ) (refs refs' keys : List Text) (b b' : ℕ)
    → follow_loop cells root fuel refs keys ≡ some (ok b)
    → follow_loop cells root fuel' refs' keys ≡ some (ok b')
    → b ≡ b'
unfolding follow_loop
follow_loop-same cells root zero fuel' refs refs' keys b b' e e' = absurd (ground arith)
follow_loop-same cells root (suc fuel) zero refs refs' keys b b' e e' = absurd (ground arith)
follow_loop-same cells root (suc fuel) (suc fuel') refs refs' keys b b' e e' =
    let (new, a, found, next) = follow_step cells root fuel refs keys b e in
    let (new', a', found', next') = follow_step cells root fuel' refs' keys b' e' in
    let same : a ≡ a' = ground (arith, found, found') in
    elim next [
      | inl (value, end) ↦ elim next' [
        | inl (value', end') ↦ sym end ∙ (same ∙ end')
        | inr (ks, again, rest) ↦ absurd (ground (arith, same, value, again))
      ]
      | inr (ks, again, rest) ↦ elim next' [
        | inl (value', end') ↦ absurd (ground (arith, same, value', again))
        | inr (ks', again', rest') ↦
            let same_keys : ks ≡ ks' = ground (arith, same, again, again') in
            follow_loop-same cells root fuel fuel' (refs ++ var_of keys ∷ [])
              (refs' ++ var_of keys ∷ []) ks b b' rest (rw same_keys rest')
      ]
    ]
