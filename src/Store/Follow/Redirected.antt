-- ===== src/Store/Follow/Redirected.antt =====
-- The steps of `resolveVarRefs` move an entry to where its lookup leads.
use native.Mathlib.Decide.{ℕ_discrete}
use flexi_config_reader.Common.{
  ℕ, ◌+◌, Text, text_dec, List, [], ◌∷◌, none, some, ◌≡◌, ◌≢◌, arith, ◌∙◌, ◌⊎◌, inl, inr, sym,
  length,
}
use flexi_config_reader.Result.{ok}
use flexi_config_reader.Store.{Cells, entry_at, relink}
use flexi_config_reader.Store.Written.{entry_at-relink, entry_at-relink_other}
use flexi_config_reader.Store.Kept.{
  IsKept-refl, IsKept-trans, IsKept-relink, IsStill, IsStill-IsKept,
}
use flexi_config_reader.Store.Follow.{keys_at, follow_loop, follow}
use flexi_config_reader.Store.Follow.Chain.{follow_loop-same}
use flexi_config_reader.Store.Follow.Moved.{Leads, Redirects, follow_loop-moved}

pub Redirects-refl : (root : ℕ) (cells : Cells) → Redirects root cells cells
Redirects-refl root cells = record { kept = IsKept-refl cells; moved = λ s k a h. inl h }

pub Redirects-still :
    {first cells after : Cells} (root : ℕ)
    → Redirects root first cells
    → IsStill cells after
    → Redirects root first after
Redirects-still root redirects still = record {
  kept = IsKept-trans redirects.kept (IsStill-IsKept still);
  moved = λ s k a h. elim (redirects.moved s k a h) [
    | inl stays ↦ inl (still.all_entries s k a stays)
    | inr (b, moved, leads) ↦ inr (b, still.all_entries s k b moved, leads)
  ];
}

module _ (root : ℕ) (first cells : Cells) (redirects : Redirects root first cells) (s : ℕ)
    (k : Text) (src_key : Text) (a b : ℕ) (keys : List Text) (held : entry_at cells s k ≡ some a)
    (is_lookup : keys_at cells a ≡ some keys) (value : keys_at cells b ≡ none)
    (followed : follow cells root src_key keys ≡ some (ok b)) where
  same_end :
      (fuel : ℕ) (refs : List Text) (c : ℕ)
      → follow_loop first root fuel refs keys ≡ some (ok c)
      → b ≡ c
  unfolding follow
  same_end fuel refs c e =
      follow_loop-same cells root (length cells + 2) fuel (src_key ∷ []) refs keys b c followed
        (follow_loop-moved root first cells redirects fuel refs keys c e)

  moved_here :
      (t : ℕ) (j : Text) (c : ℕ)
      → t ≡ s
      → j ≡ k
      → entry_at first t j ≡ some c
      → Leads first root c b
  moved_here t j c p q h = elim (redirects.moved t j c h) [
    | inl still ↦
        let same : c ≡ a = ground (arith, p, q, still, held) in
        (
          keys,
          rw same (sym (redirects.kept.same_lookups a) ∙ is_lookup),
          sym (redirects.kept.same_lookups b) ∙ value,
          same_end,
        )
    | inr (y, moved, (ks, lookup, end, ends)) ↦
        let same : y ≡ a = ground (arith, p, q, moved, held) in
        absurd (ground (arith, same, redirects.kept.same_lookups y, end, is_lookup))
  ]

  elsewhere :
      (t : ℕ) (j : Text) (c : ℕ)
      → (t ≢ s) ⊎ (j ≢ k)
      → entry_at first t j ≡ some c
      → (entry_at (relink s k b cells) t j ≡ some c)
        ⊎ ((y : ℕ) × (entry_at (relink s k b cells) t j ≡ some y) × Leads first root c y)
  elsewhere t j c other h =
      let same = entry_at-relink_other cells s t j k b other in
      elim (redirects.moved t j c h) [
        | inl still ↦ inl (same ∙ still)
        | inr (y, moved, leads) ↦ inr (y, same ∙ moved, leads)
      ]

  -- the entry comes to hold the end of its chain
  pub Redirects-relink : Redirects root first (relink s k b cells)
  Redirects-relink = record {
    kept = IsKept-trans redirects.kept (IsKept-relink cells s k b a keys held is_lookup);
    moved = λ t j c h. elim (ℕ_discrete t s) [
      | no n ↦ elsewhere t j c (inl n) h
      | yes p ↦ elim (text_dec j k) [
        | no n ↦ elsewhere t j c (inr n) h
        | yes q ↦
            let now = entry_at-relink cells s k b a held in
            inr (b, ground (arith, p, q, now), moved_here t j c p q h)
      ]
    ];
  }
