-- ===== src/Utils/Split.antt =====
-- `split`, `join`, `splitHead`, `splitTail`, `getParent` and `makeName` of include/flexi_cfg/utils.h.
use mathlib.Core.List.{foldl, concat-ne-nil}
use flexi_config_reader.Common.{
  ℕ, Text, List, [], ◌∷◌, ◌++◌, append-nil, append_assoc, none, some, Bool, true, false, ◌≡◌, ◌≢◌,
  refl, sym, ap, ◌∙◌, arith, ◌==◌, ◌⊎◌, inl, inr, Bool-cases,
}
use flexi_config_reader.Result.{ok, throw, runtime_error}
use flexi_config_reader.Utils.{
  split_from, split, join_step, join, find_char, rfind_char, split_head, split_tail, get_parent,
  make_name, dot,
}

drop_one : Text → Text
drop_one [] = []
drop_one (c ∷ s) = s

-- the non-empty ones of two parts, joined
pub join_parts : Text → Text → Text
join_parts a [] = join (a ∷ []) dot
join_parts a (d ∷ b) = join (a ∷ (d ∷ b) ∷ []) dot

module _ (d : ℕ) where
  -- no byte of the text is the delimiter
  abbrev pub Lacks : Text → Type 0
  Lacks [] = Unit
  Lacks (c ∷ s) = (c ≢ d) × Lacks s

  -- every part of a key is non-empty and lacks the delimiter
  abbrev pub AreParts : List Text → Type 0
  AreParts [] = Unit
  AreParts (p ∷ ps) = (p ≢ []) × Lacks p × AreParts ps

  -- the parts with a delimiter before each
  glue : List Text → Text
  glue [] = []
  glue (p ∷ ps) = d ∷ p ++ glue ps

  -- the text ends in the delimiter
  unfoldable pub ends_with : Text → Bool
  ends_with [] = false
  ends_with (c ∷ []) = c == d
  ends_with (c ∷ e ∷ s) = ends_with (e ∷ s)

  unfoldable pub starts_with : Text → Bool
  starts_with [] = false
  starts_with (c ∷ s) = c == d

  split_from-append :
      (cur p s : Text) → Lacks p → split_from d cur (p ++ s) ≡ split_from d (cur ++ p) s
  unfolding split_from
  split_from-append cur [] s h = ap (λ x. split_from d x s) (sym (append-nil cur))
  split_from-append cur (c ∷ p) s h =
      ground (arith, split_from-append (cur ++ c ∷ []) p s h.1, append_assoc cur (c ∷ []) p)

  split_from_last : (p : Text) → p ≢ [] → split_from d p [] ≡ p ∷ []
  unfolding split_from
  split_from_last [] h = absurd (h refl)
  split_from_last (c ∷ p) h = refl

  split_from_stop : (cur s : Text) → split_from d cur (d ∷ s) ≡ cur ∷ split_from d [] s
  unfolding split_from
  split_from_stop [] s = ground arith
  split_from_stop (c ∷ cur) s = ground arith

  split_from-glue :
      (p : Text) (ps : List Text)
      → p ≢ []
      → Lacks p
      → AreParts ps
      → split_from d [] (p ++ glue ps) ≡ p ∷ ps
  unfolding glue
  split_from-glue p [] ne lacks h = split_from-append [] p [] lacks ∙ split_from_last p ne
  split_from-glue p (q ∷ ps) ne lacks h =
      split_from-append [] p (d ∷ q ++ glue ps) lacks
      ∙ split_from_stop p (q ++ glue ps)
      ∙ ap (◌∷◌ p) (split_from-glue q ps h.0 h.1 h.2)

  foldl-glue : (p : Text) (ps : List Text) → p ≢ [] → foldl (join_step (d ∷ [])) p ps ≡ p ++ glue ps
  unfolding glue join_step
  foldl-glue [] ps h = absurd (h refl)
  foldl-glue (c ∷ p) [] h = sym (append-nil (c ∷ p))
  foldl-glue (c ∷ p) (q ∷ ps) h =
      foldl-glue ((c ∷ p) ++ d ∷ q) ps (λ e. cc) ∙ append_assoc (c ∷ p) (d ∷ q) (glue ps)

  -- Keys that are joined with the delimiter are found again by `split`, where every key is non-empty
  -- and does not hold the delimiter.
  pub split-join : (keys : List Text) → AreParts keys → split (join keys (d ∷ [])) d ≡ keys
  unfolding split join join_step split_from
  split-join [] h = refl
  split-join (p ∷ ps) h =
      ap (split_from d []) (foldl-glue p ps h.0) ∙ split_from-glue p ps h.0 h.1 h.2

  ends_with_tail : (c : ℕ) (s : Text) → ends_with (c ∷ s) ≡ false → ends_with s ≡ false
  unfolding ends_with
  ends_with_tail c [] h = refl
  ends_with_tail c (e ∷ s) h = h

  not_last : (c : ℕ) (s : Text) → ends_with (c ∷ s) ≡ false → (c == d) ≡ true → s ≢ []
  unfolding ends_with
  not_last c [] h e = absurd (ground arith)
  not_last c (x ∷ s) h e = λ p. cc

  glue-split_from :
      (cur s : Text)
      → (cur ≢ []) ⊎ (s ≢ [])
      → ends_with s ≡ false
      → glue (split_from d cur s) ≡ d ∷ cur ++ s
  unfolding split_from glue
  glue-split_from [] [] ne h = absurd (ground arith)
  glue-split_from (c ∷ cur) [] ne h = refl
  glue-split_from cur (c ∷ s) ne h = elim (Bool-cases (c == d)) [
    | inl stop ↦
        let same : d ≡ c = ground arith in
        rw
          (
            stop,
            split_from,
            glue-split_from [] s (inr (not_last c s h stop)) (ends_with_tail c s h),
          )
          (ap (λ (x : ℕ). d ∷ cur ++ x ∷ s) same)
    | inr go ↦
        rw (go, split_from)
          (glue-split_from (cur ++ c ∷ []) s (inl (concat-ne-nil c cur)) (ends_with_tail c s h)
            ∙ ap (◌∷◌ d) (append_assoc cur (c ∷ []) s))
  ]

  -- what the fold makes of the parts of a text: the first part is not empty
  join-split_from :
      (c : ℕ) (cur s : Text)
      → foldl (join_step (d ∷ [])) [] (split_from d (c ∷ cur) s)
        ≡ drop_one (glue (split_from d (c ∷ cur) s))
  unfolding split_from glue join_step drop_one
  join-split_from c cur [] = ap (◌∷◌ c) (sym (append-nil cur))
  join-split_from c cur (x ∷ s) = elim (Bool-cases (x == d)) [
    | inl stop ↦ rw (stop, split_from) (foldl-glue (c ∷ cur) (split_from d [] s) (λ e. cc))
    | inr go ↦ rw (go, split_from) (join-split_from c (cur ++ x ∷ []) s)
  ]

  -- A text is put together again by `join` from its parts, unless it begins or ends in the delimiter.
  pub join-split :
      (s : Text) → starts_with s ≡ false → ends_with s ≡ false → join (split s d) (d ∷ []) ≡ s
  unfolding split join split_from drop_one starts_with
  join-split [] a b = refl
  join-split (c ∷ s) a b =
      rw (a, split_from)
        (join-split_from c [] s
          ∙ ap drop_one (glue-split_from (c ∷ []) s (inl (λ e. cc)) (ends_with_tail c s b)))

  -- what the two searches find
  pub find_char_cases :
      (s : Text)
      → ((find_char d s ≡ none) × Lacks s)
        ⊎ ((a : Text) × (b : Text) × (find_char d s ≡ some (a, b)) × (s ≡ a ++ d ∷ b) × Lacks a)
  unfolding find_char
  find_char_cases [] = inl (refl, tt)
  find_char_cases (c ∷ s) = elim (Bool-cases (c == d)) [
    | inl stop ↦ inr ([], s, ground arith, ground arith, tt)
    | inr go ↦ elim (find_char_cases s) [
      | inl (e, l) ↦ inl (ground arith, (ground arith, l))
      | inr (a, b, e, p, l) ↦ inr (c ∷ a, b, ground arith, ap (◌∷◌ c) p, (ground arith, l))
    ]
  ]

  pub rfind_char_cases :
      (s : Text)
      → ((rfind_char d s ≡ none) × Lacks s)
        ⊎ ((a : Text) × (b : Text) × (rfind_char d s ≡ some (a, b)) × (s ≡ a ++ d ∷ b) × Lacks b)
  unfolding rfind_char
  rfind_char_cases [] = inl (refl, tt)
  rfind_char_cases (c ∷ s) = elim (rfind_char_cases s) [
    | inr (a, b, e, p, l) ↦ inr (c ∷ a, b, ground arith, ap (◌∷◌ c) p, l)
    | inl (e, l) ↦ elim (Bool-cases (c == d)) [
      | inl stop ↦ inr ([], s, ground arith, ground arith, l)
      | inr go ↦ inl (ground arith, (ground arith, l))
    ]
  ]

  -- `splitHead` cuts at the first delimiter: the head is the first part that `split` finds, and the
  -- tail holds the others. A text with no delimiter is its own head, and its tail is empty.
  pub split_head_lem :
      (s : Text)
      → (((split_head s d).0 ≡ s) × ((split_head s d).1 ≡ []) × Lacks s)
        ⊎ ((s ≡ (split_head s d).0 ++ d ∷ (split_head s d).1)
            × Lacks (split_head s d).0
            × (split s d ≡ (split_head s d).0 ∷ split (split_head s d).1 d))
  unfolding split_head split
  split_head_lem s = elim (find_char_cases s) [
    | inl (e, l) ↦ inl (rw (e, split_head) refl, rw (e, split_head) refl, l)
    | inr (a, b, e, p, l) ↦ inr (
      rw (e, split_head) p,
      rw (e, split_head) l,
      rw (e, split_head)
          (ap (split_from d []) p ∙ split_from-append [] a (d ∷ b) l ∙ split_from_stop a b),
    )
  ]

  -- `splitTail` cuts at the last delimiter, and `getParent` is the part before it. With no delimiter
  -- the whole text is the tail, the head is empty, and `getParent` is the whole text too.
  pub split_tail_lem :
      (s : Text)
      → (((split_tail s d).0 ≡ []) × ((split_tail s d).1 ≡ s) × (get_parent s d ≡ s) × Lacks s)
        ⊎ ((s ≡ (split_tail s d).0 ++ d ∷ (split_tail s d).1)
            × Lacks (split_tail s d).1
            × (get_parent s d ≡ (split_tail s d).0))
  unfolding split_tail get_parent
  split_tail_lem s = elim (rfind_char_cases s) [
    | inl (e, l) ↦
        inl (rw (e, split_tail) refl, rw (e, split_tail) refl, rw (e, get_parent) refl, l)
    | inr (a, b, e, p, l) ↦
        inr (rw (e, split_tail) p, rw (e, split_tail) l, rw (e, split_tail, get_parent) refl)
  ]

-- `makeName` is `join` of its two parts with a dot, and throws exactly where both are empty.
pub make_name-join :
    (a b : Text)
    → (((a ≢ []) ⊎ (b ≢ [])) → make_name a b ≡ ok (join_parts a b))
      × (make_name [] [] ≡ throw runtime_error)
unfolding make_name join join_step join_parts
make_name-join [] [] = ((λ h. absurd (ground arith)), refl)
make_name-join [] (d ∷ b) = ((λ h. refl), refl)
make_name-join (c ∷ a) [] = ((λ h. refl), refl)
make_name-join (c ∷ a) (d ∷ b) = ((λ h. refl), refl)
