-- ===== src/Store/Follow/Ends.antt =====
-- Following lookups through a store ends, whatever the addresses lead to.
use flexi_config_reader.Common.{
  ℕ, zero, suc, ◌+◌, ◌<◌, ◌≤◌, Text, text_dec, List, [], ◌∷◌, ◌++◌, none, some, true, false, has,
  length, if◌then◌else◌, ◌≡◌, arith, Option-cases, Bool-cases, inl, inr,
}
use flexi_config_reader.Result.{Settles, Settles-bind, Ensures-any}
use flexi_config_reader.Lookup.{var_of}
use flexi_config_reader.Lookup.Unseen.{unseen, unseen_mono, unseen_less, unseen-le-length}
use flexi_config_reader.Store.{cell_lookup, Cells}
use flexi_config_reader.Store.Follow.{find, keys_of, keys_at, follow_loop, follow}

-- the `var()` of every lookup in the store
store_vars : Cells → List Text
store_vars [] = []
store_vars (cell_lookup keys ∷ cells) = var_of keys ∷ store_vars cells
store_vars (c ∷ cells) = store_vars cells

length-store_vars : (cells : Cells) → length (store_vars cells) ≤ length cells
unfolding store_vars
length-store_vars [] = omega arith
length-store_vars (cell_lookup keys ∷ cells) = omega (arith, length-store_vars cells)
length-store_vars (c ∷ cells) = omega (arith, length-store_vars cells)

has-store_vars :
    (cells : Cells) (a : ℕ) (keys : List Text)
    → keys_at cells a ≡ some keys
    → has text_dec (var_of keys) (store_vars cells) ≡ true
unfolding keys_at keys_of store_vars has
has-store_vars [] a keys h = absurd (ground arith)
has-store_vars (cell_lookup ks ∷ cells) zero keys h =
    let same : ks ≡ keys = ground arith in rw same (ground arith)
has-store_vars (c ∷ cells) zero keys h = absurd (ground arith)
has-store_vars (cell_lookup ks ∷ cells) (suc a) keys h =
    ground (arith, has-store_vars cells a keys h)
has-store_vars (c ∷ cells) (suc a) keys h = has-store_vars cells a keys h

-- what is left to visit, the lookup itself included if the store does not hold it
left : Cells → List Text → List Text → ℕ
left cells refs keys =
    unseen refs (store_vars cells)
    + (if has text_dec (var_of keys) (store_vars cells) then 0 else 1)

left_less :
    (cells : Cells) (refs keys keys' : List Text)
    → has text_dec (var_of keys) refs ≡ false
    → has text_dec (var_of keys') (store_vars cells) ≡ true
    → left cells (refs ++ var_of keys ∷ []) keys' < left cells refs keys
unfolding left
left_less cells refs keys keys' n h =
    elim (Bool-cases (has text_dec (var_of keys) (store_vars cells))) [
      | inl inside ↦ ground (arith, unseen_less (var_of keys) refs (store_vars cells) inside n)
      | inr outside ↦ ground (arith, unseen_mono (var_of keys) refs (store_vars cells))
    ]

left-bound : (cells : Cells) (refs keys : List Text) → left cells refs keys < length cells + 2
unfolding left
left-bound cells refs keys =
    ground (arith, unseen-le-length refs (store_vars cells), length-store_vars cells)

abbrev pub IsEnd : Cells → ℕ → Type 0
IsEnd cells a = keys_at cells a ≡ none

follow_loop-Settles :
    (cells : Cells) (root fuel : ℕ) (refs keys : List Text)
    → left cells refs keys < fuel
    → Settles (IsEnd cells) (follow_loop cells root fuel refs keys)
unfolding follow_loop
follow_loop-Settles cells root zero refs keys h = absurd (omega arith)
follow_loop-Settles cells root (suc fuel) refs keys h =
    elim (Bool-cases (has text_dec (var_of keys) refs)) [
      | inl cycle ↦ rw (cycle, follow_loop) tt
      | inr new ↦
          rw (new, follow_loop)
            (Settles-bind (λ _. Unit) (IsEnd cells) (some (find cells root keys)) _
              (Ensures-any (find cells root keys))
              (λ a found. elim (Option-cases (keys_at cells a)) [
                | inl value ↦ rw value value
                | inr (keys', again) ↦ rw again (
                    follow_loop-Settles cells root fuel (refs ++ var_of keys ∷ []) keys' (
                      omega (
                        arith,
                        left_less cells refs keys keys' new (has-store_vars cells a keys' again),
                      )))
              ]))
    ]

-- Following the lookup of an entry ends whatever the addresses of the store lead to, cycles among them
-- included: in an exception, or at the address of a node that is no lookup.
pub follow-Settles :
    (cells : Cells) (root : ℕ) (src_key : Text) (keys : List Text)
    → Settles (λ a. keys_at cells a ≡ none) (follow cells root src_key keys)
unfolding follow
follow-Settles cells root src_key keys =
    follow_loop-Settles cells root (length cells + 2) (src_key ∷ []) keys
      (left-bound cells (src_key ∷ []) keys)
