-- ===== src/Resolution/Unflattened.antt =====
-- Unflattening the flat keys ends.
use flexi_config_reader.Common.{
  ℕ, zero, suc, ◌+◌, ◌<◌, Text, List, [], ◌∷◌, some, ◌≡◌, arith, length, length-append, inl, inr,
}
use flexi_config_reader.Result.{
  throw, invalid_type, undefined, Settles, Settles-bind, Settles-option, Settles-list,
}
use flexi_config_reader.Utils.{split_head}
use flexi_config_reader.Utils.Split.{split_head_lem}
use flexi_config_reader.Types.{Fields, data_of}
use flexi_config_reader.Types.Map.{at, set}
use flexi_config_reader.Flat.{unflatten, head_node}
use flexi_config_reader.Resolution.{unflatten_all}

-- the tail that `splitHead` leaves is shorter
split_head-shorter :
    (s : Text) (c : ℕ) (tail : Text)
    → (split_head s b'.').1 ≡ c ∷ tail
    → length (c ∷ tail) < length s
split_head-shorter s c tail h = elim (split_head_lem b'.' s) [
  | inl (whole, none_left, lacks) ↦ absurd (ground (arith, h, none_left))
  | inr (p, lacks, parts) ↦
      let sizes = length-append (split_head s b'.').0 (b'.' ∷ (split_head s b'.').1) in
      rw p (ground (arith, sizes, h))
]

unflatten_total :
    (fuel : ℕ) (flat_key : Text) (cfg : Fields) (depth : ℕ)
    → length flat_key < fuel
    → Settles (λ _. Unit) (unflatten fuel flat_key cfg depth)
unfolding unflatten
unflatten_total zero flat_key cfg depth h = absurd (omega arith)
unflatten_total (suc fuel) flat_key cfg depth h =
    Settles-list (λ _. Unit) (split_head flat_key b'.').1 _ _ tt
      (λ c tail cut.
        Settles-option {Y = Fields} (λ _. Unit)
          (data_of (head_node (split_head flat_key b'.').0 depth cfg)) (some (throw invalid_type)) _
          tt
          (λ next.
            Settles-option (λ _. Unit) (at flat_key cfg) (some (throw undefined)) _ tt
              (λ value.
                Settles-bind (λ _. Unit) (λ _. Unit)
                  (unflatten fuel (c ∷ tail) (set (c ∷ tail) value next) (depth + 1)) _
                  (unflatten_total fuel (c ∷ tail) (set (c ∷ tail) value next) (depth + 1)
                    (omega (arith, split_head-shorter flat_key c tail cut)))
                  (λ next' _. tt))))

pub unflatten_all_total :
    (ks : List Text) (cfg_data : Fields) → Settles (λ _. Unit) (unflatten_all ks cfg_data)
unfolding unflatten_all
unflatten_all_total [] cfg_data = tt
unflatten_all_total (key ∷ ks) cfg_data =
    Settles-bind (λ _. Unit) (λ _. Unit) (unflatten (length key + 1) key cfg_data 0) _
      (unflatten_total (length key + 1) key cfg_data 0 (omega arith))
      (λ cfg _. unflatten_all_total ks cfg)
