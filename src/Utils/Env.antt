-- ===== src/Utils/Env.antt =====
-- `substituteEnvVars` of include/flexi_cfg/utils.h, over any environment.
use flexi_config_reader.Common.{
  ℕ, zero, suc, ◌<◌, ◌+◌, Text, codes, [], ◌∷◌, ◌++◌, append_assoc, ◌∙◌, Option, none, some, ◌≡◌,
  refl, ap, arith, ◌==◌, if◌then◌else◌, inl, inr, Option-cases,
}
use flexi_config_reader.Result.{Result, ok, throw, runtime_error}
use flexi_config_reader.Utils.{find_char, find_text, strip_prefix, substitute_env_vars}
use flexi_config_reader.Utils.Split.{find_char_cases}

abbrev dollar : ℕ
dollar = b'$'

-- how many dollar signs a text holds
unfoldable pub dollars : Text → ℕ
dollars [] = 0
dollars (c ∷ s) = if c == dollar then suc (dollars s) else dollars s

dollars-append : (s t : Text) → dollars (s ++ t) ≡ dollars s + dollars t
unfolding dollars
dollars-append [] t = omega arith
dollars-append (c ∷ s) t = ground (arith, dollars-append s t)

strip_open : (s r : Text) → strip_prefix (codes "${") s ≡ some r → s ≡ b'$' ∷ b'{' ∷ r
unfolding strip_prefix
strip_open [] r h = absurd (ground arith)
strip_open (c ∷ []) r h = absurd (ground arith)
strip_open (c ∷ d ∷ s) r h = ground arith

find_open : (s a b : Text) → find_text (codes "${") s ≡ some (a, b) → s ≡ a ++ b'$' ∷ b'{' ∷ b
unfolding find_text
find_open [] a b h = absurd (ground (arith, strip_open [] b))
find_open (c ∷ s) a b h = elim (Option-cases (strip_prefix (codes "${") (c ∷ s))) [
  | inr (r, e) ↦
      let x : a ≡ [] = ground arith in
      let y : b ≡ r = ground arith in rw (x, y) (strip_open (c ∷ s) r e)
  | inl e ↦ elim (Option-cases (find_text (codes "${") s)) [
    | inl n ↦ absurd (ground arith)
    | inr ((a', b'), found) ↦
        let x : a ≡ c ∷ a' = ground arith in
        let y : b ≡ b' = ground arith in rw (x, y) (ap (◌∷◌ c) (find_open s a' b' found))
  ]
]

module _ (getenv : Text → Option Text) where
  -- the values of the environment hold no dollar sign
  abbrev pub IsPlain : Type 0
  IsPlain = (name value : Text) → getenv name ≡ some value → dollars value ≡ 0

  value_of : Text → Text
  value_of name = elim (getenv name) [ none ↦ [] | some value ↦ value ]

  dollars-value_of : IsPlain → (name : Text) → dollars (value_of name) ≡ 0
  unfolding value_of dollars
  dollars-value_of plain name = elim (Option-cases (getenv name)) [
    | inl unset ↦ rw (unset, value_of) refl
    | inr (value, set) ↦ rw (set, value_of) (plain name value set)
  ]

  dollars-replaced :
      IsPlain
      → (s before rest name behind : Text) → s ≡ before ++ b'$' ∷ b'{' ∷ rest
      → rest ≡ name ++ b'}' ∷ behind
      → dollars (before ++ (value_of name ++ behind)) < dollars s
  unfolding dollars
  dollars-replaced plain s before rest name behind p q =
      rw (p, q)
        (omega (
          arith,
          dollars-append before (value_of name ++ behind),
          dollars-append (value_of name) behind,
          dollars-value_of plain name,
          dollars-append before (b'$' ∷ b'{' ∷ (name ++ b'}' ∷ behind)),
          dollars-append name (b'}' ∷ behind),
        ))

  -- Where no value of the environment holds a dollar sign, the loop ends: with more fuel than the
  -- text has dollar signs it returns or throws, and a text that it returns has no `${` left.
  pub substitute_env_vars_total :
      IsPlain
      → (fuel : ℕ) (s : Text) → dollars s < fuel
      → (r : Result Text) × (substitute_env_vars getenv fuel s ≡ some r)
        × ((t : Text) → r ≡ ok t → find_text (codes "${") t ≡ none)
  unfolding substitute_env_vars value_of
  substitute_env_vars_total plain zero s h = absurd (omega arith)
  substitute_env_vars_total plain (suc fuel) s h = elim (Option-cases (find_text (codes "${") s)) [
    | inl closed ↦ (ok s, rw (closed, substitute_env_vars) refl, λ t e. ground arith)
    | inr ((before, rest), opened) ↦ elim (find_char_cases b'}' rest) [
      | inl (e, l) ↦ (
        throw runtime_error,
        rw (opened, substitute_env_vars) (rw (e, substitute_env_vars) refl),
        λ t e. cc,
      )
      | inr (name, behind, e, q, l) ↦
          let (r, p, done) =
            substitute_env_vars_total plain fuel (before ++ (value_of name ++ behind)) (
              omega (
                arith,
                dollars-replaced plain s before rest name behind (find_open s before rest opened) q,
              )) in
          (r, rw (opened, substitute_env_vars) (rw (e, substitute_env_vars) p), done)
    ]
  ]

find_text-open :
    (lead r : Text)
    → dollars lead ≡ 0
    → find_text (codes "${") (lead ++ b'$' ∷ b'{' ∷ r) ≡ some (lead, r)
unfolding find_text strip_prefix dollars
find_text-open [] r h = refl
find_text-open (c ∷ lead) r h = ground (arith, h, find_text-open lead r)

find_char-behind :
    (name tail : Text)
    → find_char b'}' name ≡ none
    → find_char b'}' (name ++ b'}' ∷ tail) ≡ some (name, tail)
unfolding find_char
find_char-behind [] tail h = refl
find_char-behind (c ∷ name) tail h = ground (arith, h, find_char-behind name tail)

append_once : (a b c d : Text) → a ++ ((b ++ c) ++ d) ≡ (a ++ b) ++ (c ++ d)
append_once a b c d = simp append_assoc

-- The loop has no guard against a variable whose value names the variable again, with or without text
-- around the name: it never ends on a text whose first variable is this one. The name holds no closing
-- brace, and no dollar sign stands before it, in the value or in the text.
pub substitute_env_vars_diverges :
    (getenv : Text → Option Text) (name before behind : Text)
    → find_char b'}' name ≡ none
    → dollars before ≡ 0
    → getenv name ≡ some (before ++ b'$' ∷ b'{' ∷ (name ++ b'}' ∷ behind))
    → (fuel : ℕ) (lead tail : Text) → dollars lead ≡ 0
    → substitute_env_vars getenv fuel (lead ++ b'$' ∷ b'{' ∷ (name ++ b'}' ∷ tail)) ≡ none
unfolding substitute_env_vars
substitute_env_vars_diverges getenv name before behind plain clean set zero lead tail h = refl
substitute_env_vars_diverges getenv name before behind plain clean set (suc fuel) lead tail h =
    let opened = find_text-open lead (name ++ b'}' ∷ tail) h in
    let closed = find_char-behind name tail plain in
    let once : lead ++ ((before ++ b'$' ∷ b'{' ∷ (name ++ b'}' ∷ behind)) ++ tail)
        ≡ (lead ++ before) ++ b'$' ∷ b'{' ∷ (name ++ b'}' ∷ (behind ++ tail)) =
      append_once lead before (b'$' ∷ b'{' ∷ (name ++ b'}' ∷ behind)) tail
      ∙ ap (λ t. (lead ++ before) ++ b'$' ∷ b'{' ∷ t) (append_assoc name (b'}' ∷ behind) tail) in
    rw (opened, substitute_env_vars)
      (rw (closed, set)
        (rw once (
          substitute_env_vars_diverges getenv name before behind plain clean set fuel
            (lead ++ before) (behind ++ tail)
            (omega (arith, h, clean, dollars-append lead before)))))
