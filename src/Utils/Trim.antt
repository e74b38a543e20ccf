-- ===== src/Utils/Trim.antt =====
-- `trim` and `removeSubStr` of include/flexi_cfg/utils.h.
use native.Mathlib.Decide.{ℕ_discrete}
use flexi_config_reader.Common.{
  Text, [], ◌∷◌, ◌++◌, Bool, true, not, ◌≡◌, refl, ap, ◌∙◌, arith, has, inl, inr, Bool-cases,
}
use flexi_config_reader.Utils.{trim_left, trim_right, trim}

module _ (chars : Text) where
  abbrev pub IsTrimmed : Text → Type 0
  IsTrimmed [] = Unit
  IsTrimmed (c ∷ s) = (has ℕ_discrete c chars ≡ true) × IsTrimmed s

  -- the last byte is none of the characters
  unfoldable pub ends_clean : Text → Bool
  ends_clean [] = true
  ends_clean (c ∷ []) = not (has ℕ_discrete c chars)
  ends_clean (c ∷ e ∷ s) = ends_clean (e ∷ s)

  unfoldable pub starts_clean : Text → Bool
  starts_clean [] = true
  starts_clean (c ∷ s) = not (has ℕ_discrete c chars)

  trim_left_lem :
      (s : Text)
      → (a : Text) × (s ≡ a ++ trim_left chars s)
        × IsTrimmed a
        × (starts_clean (trim_left chars s) ≡ true)
  unfolding trim_left starts_clean
  trim_left_lem [] = ([], refl, tt, refl)
  trim_left_lem (c ∷ s) = elim (Bool-cases (has ℕ_discrete c chars)) [
    | inl yes' ↦
        let (a, p, t, n) = trim_left_lem s in
        (c ∷ a, rw (yes', trim_left) (ap (◌∷◌ c) p), (yes', t), rw (yes', trim_left) n)
    | inr no' ↦ ([], rw (no', trim_left) refl, tt, rw (no', trim_left, starts_clean) (rw no' refl))
  ]

  trim_right_lem :
      (s : Text)
      → (b : Text) × (s ≡ trim_right chars s ++ b)
        × IsTrimmed b
        × (ends_clean (trim_right chars s) ≡ true)
        × (starts_clean s ≡ true → starts_clean (trim_right chars s) ≡ true)
  unfolding trim_right ends_clean starts_clean
  trim_right_lem [] = ([], refl, tt, refl, λ h. refl)
  trim_right_lem (c ∷ s) = step (trim_right chars s) refl (trim_right_lem s)
    where
      step :
          (t : Text)
          → trim_right chars s ≡ t
          → ((b : Text) × (s ≡ trim_right chars s ++ b)
              × IsTrimmed b
              × (ends_clean (trim_right chars s) ≡ true)
              × (starts_clean s ≡ true → starts_clean (trim_right chars s) ≡ true))
          → (b : Text) × (c ∷ s ≡ trim_right chars (c ∷ s) ++ b)
            × IsTrimmed b
            × (ends_clean (trim_right chars (c ∷ s)) ≡ true)
            × (starts_clean (c ∷ s) ≡ true → starts_clean (trim_right chars (c ∷ s)) ≡ true)
      step [] e (b, p, t, n, k) = elim (Bool-cases (has ℕ_discrete c chars)) [
        | inl yes' ↦ (c ∷ b, ground arith, (yes', t), ground arith, ground arith)
        | inr no' ↦ (b, ground arith, t, ground arith, ground arith)
      ]
      step (x ∷ y) e (b, p, t, n, k) = (b, ground arith, t, ground arith, ground arith)

  trim_left_clean : (s : Text) → starts_clean s ≡ true → trim_left chars s ≡ s
  unfolding trim_left starts_clean
  trim_left_clean [] h = refl
  trim_left_clean (c ∷ s) h = ground arith

  trim_right_clean : (s : Text) → ends_clean s ≡ true → trim_right chars s ≡ s
  unfolding trim_right ends_clean
  trim_right_clean [] h = refl
  trim_right_clean (c ∷ []) h = ground arith
  trim_right_clean (c ∷ e ∷ s) h = rw (trim_right_clean (e ∷ s) h, trim_right) refl

  -- `trim` cuts characters of the set from both ends and nothing else: what it cuts at the left and
  -- at the right are only such characters, what stays neither begins nor ends with one, and to trim
  -- again changes nothing.
  pub trim_lem :
      (s : Text)
      → (a : Text) × (b : Text) × (s ≡ a ++ (trim s chars ++ b))
        × IsTrimmed a
        × IsTrimmed b
        × (starts_clean (trim s chars) ≡ true)
        × (ends_clean (trim s chars) ≡ true)
        × (trim (trim s chars) chars ≡ trim s chars)
  unfolding trim
  trim_lem s =
      let l = trim_left chars s in
      let (a, p, ta, first) = trim_left_lem s in
      let (b, q, tb, last, keep) = trim_right_lem l in
      let begins = keep first in
      (
        a,
        b,
        p ∙ ap (λ x. a ++ x) q,
        ta,
        tb,
        begins,
        last,
        ap (trim_right chars) (trim_left_clean _ begins) ∙ trim_right_clean _ last,
      )
