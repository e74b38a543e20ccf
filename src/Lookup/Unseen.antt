-- ===== src/Lookup/Unseen.antt =====
-- The measure of the passes that follow names until one comes up again.
use flexi_config_reader.Common.{
  ℕ, suc, ◌≤◌, ◌<◌, Text, text_dec, List, [], ◌∷◌, ◌++◌, true, false, has, has-append, length,
  if◌then◌else◌, ◌≡◌, arith,
}

-- how many of the texts are not yet among the references
unfoldable pub unseen : List Text → List Text → ℕ
unseen refs [] = 0
unseen refs (q ∷ qs) = if has text_dec q refs then unseen refs qs else suc (unseen refs qs)

pub unseen_mono : (q : Text) (refs qs : List Text) → unseen (refs ++ q ∷ []) qs ≤ unseen refs qs
unfolding unseen has
unseen_mono q refs [] = omega arith
unseen_mono q refs (p ∷ qs) =
    ground (arith, unseen_mono q refs qs, has-append text_dec p refs (q ∷ []))

pub unseen_less :
    (q : Text) (refs qs : List Text)
    → has text_dec q qs ≡ true
    → has text_dec q refs ≡ false
    → unseen (refs ++ q ∷ []) qs < unseen refs qs
unfolding unseen has
unseen_less q refs [] h n = absurd (ground arith)
unseen_less q refs (p ∷ qs) h n = elim (text_dec q p) [
  | yes e ↦
      let n' : has text_dec p refs ≡ false = rw e at n in
      ground (arith, has-append text_dec p refs (q ∷ []), unseen_mono q refs qs)
  | no d ↦ ground (arith, has-append text_dec p refs (q ∷ []), unseen_less q refs qs)
]

pub unseen-le-length : (refs qs : List Text) → unseen refs qs ≤ length qs
unfolding unseen
unseen-le-length refs [] = omega arith
unseen-le-length refs (q ∷ qs) = ground (arith, unseen-le-length refs qs)
