-- ===== src/Store/Follow/Moved.antt =====
-- Where lookups lead in a store in which some entries are resolved already.
use flexi_config_reader.Common.{
  ℕ, zero, suc, Text, List, [], ◌∷◌, ◌++◌, none, some, true, ◌≡◌, refl, arith, ◌∙◌, ◌⊎◌, inl, inr,
  sym, Option-cases,
}
use flexi_config_reader.Result.{ok, Result-cases, >>=-eq-ok}
use flexi_config_reader.Utils.{make_name}
use flexi_config_reader.Lookup.{back, drop_last, var_of}
use flexi_config_reader.Store.{
  Links, Cells, cell_at, link_at, links_of, content_at, entry_of, entry_at,
}
use flexi_config_reader.Store.Kept.{IsKept, is_struct_at}
use flexi_config_reader.Store.Standing.{keys_at-is_struct_at}
use flexi_config_reader.Store.Follow.Chain.{follow_step, follow_loop-end, follow_loop-more}
use flexi_config_reader.Store.Follow.{find_content, find_from, find, keys_at, follow_loop}

-- At `a` there is a lookup, at `b` there is none, and `b` is where every chain that starts with the keys
-- of the lookup ends, if it ends.
abbrev pub Leads : Cells → ℕ → ℕ → ℕ → Type 0
Leads cells root a b =
    (keys : List Text) × (keys_at cells a ≡ some keys)
    × (keys_at cells b ≡ none)
    × ((fuel : ℕ) (refs : List Text) (c : ℕ)
        → follow_loop cells root fuel refs keys ≡ some (ok c)
        → b ≡ c)

-- The entries of the first store stand in the second one, or have moved to where they led.
pub record Redirects (root : ℕ) (first after : Cells) : Type 0 where
  pub kept : IsKept first after
  pub moved :
      (s : ℕ) (k : Text) (a : ℕ)
      → entry_at first s k ≡ some a
      → (entry_at after s k ≡ some a)
        ⊎ ((b : ℕ) × (entry_at after s k ≡ some b) × Leads first root a b)

entry_at-content :
    (cells : Cells) (s : ℕ) (k : Text) (links : Links)
    → content_at cells s ≡ some links
    → entry_at cells s k ≡ link_at k links
unfolding content_at entry_at entry_of
entry_at-content cells s k links h = elim (Option-cases (cell_at cells s)) [
  | inl absent ↦ absurd (ground (arith, h, absent))
  | inr (c, there) ↦
      let l : links_of c ≡ some links = ground (arith, h, there) in
      rw (there, entry_at) (rw (l, entry_of) refl)
]

is_some-content :
    (cells : Cells) (a : ℕ)
    → is_struct_at cells a ≡ true
    → (links : Links) × (content_at cells a ≡ some links)
unfolding is_struct_at
is_some-content cells a h = elim (Option-cases (content_at cells a)) [
  | inl absent ↦ absurd (ground (arith, h, absent))
  | inr there ↦ there
]

is_struct_at-content :
    (cells : Cells) (a : ℕ) (links : Links)
    → content_at cells a ≡ some links
    → is_struct_at cells a ≡ true
unfolding is_struct_at
is_struct_at-content cells a links h = rw (h, is_struct_at) refl

find_from-held :
    (cells : Cells) (links : Links) (keys : List Text) (content : Links) (key : Text) (a : ℕ)
    → find_content cells (drop_last keys) [] links ≡ ok content
    → back keys ≡ some key
    → link_at key content ≡ some a
    → find_from cells links keys ≡ ok a
unfolding find_from
find_from-held cells links keys content key a found b linked =
    rw (found, find_from) (rw b (ground (arith, linked)))

module _ (root : ℕ) (first after : Cells) (redirects : Redirects root first after) where
  kept : IsKept first after
  kept = redirects.kept

  find_content-moved :
      (keys : List Text) (rejoined : Text) (c : ℕ) (links links' content : Links)
      → content_at first c ≡ some links
      → content_at after c ≡ some links'
      → find_content first keys rejoined links ≡ ok content
      → (d : ℕ) × (content' : Links) × (content_at first d ≡ some content)
        × (content_at after d ≡ some content')
        × (find_content after keys rejoined links' ≡ ok content')
  unfolding find_content
  find_content-moved [] rejoined c links links' content h h' e =
      (c, links', h ∙ (ground (arith, e)), h', refl)
  find_content-moved (key ∷ keys) rejoined c links links' content h h' e =
      elim (Option-cases (link_at key links)) [
        | inl absent ↦ absurd (ground arith)
        | inr (a, there) ↦ elim (Result-cases (make_name rejoined key)) [
          | inl (x, bad) ↦ absurd (ground arith)
          | inr (n, named) ↦ elim (Option-cases (content_at first a)) [
            | inl plain ↦ absurd (ground arith)
            | inr (d, inner) ↦
                let struct = is_struct_at-content first a d inner in
                let held =
                  kept.same_entries c key a (entry_at-content first c key links h ∙ there)
                    (keys_at-is_struct_at first a struct) in
                let linked = sym (entry_at-content after c key links' h') ∙ held in
                let (d', inner') = is_some-content after a (kept.structs a struct) in
                let (x, y, p, q, found) =
                  find_content-moved keys n a d d' content inner inner' (ground arith) in
                (x, y, p, q, rw (linked, find_content) (rw (named, inner') found))
          ]
        ]
      ]

  find_from-moved :
      (keys : List Text) (links links' : Links) (a : ℕ)
      → content_at first root ≡ some links
      → content_at after root ≡ some links'
      → find_from first links keys ≡ ok a
      → (b : ℕ) × (find_from after links' keys ≡ ok b) × ((b ≡ a) ⊎ Leads first root a b)
  unfolding find_from
  find_from-moved keys links links' a top top' e =
      let (content, walked, last) = >>=-eq-ok (find_content first (drop_last keys) [] links) _ e in
      let (d, content', p, q, found) =
        find_content-moved (drop_last keys) [] root links links' content top top' walked in
      elim (Option-cases (back keys)) [
        | inl n ↦ absurd (ground arith)
        | inr (key, b) ↦ elim (Option-cases (link_at key content)) [
          | inl n ↦ absurd (ground arith)
          | inr (x, there) ↦
              let same : x ≡ a = ground arith in
              elim (redirects.moved d key x (entry_at-content first d key content p ∙ there)) [
                | inl still ↦
                    let linked = sym (entry_at-content after d key content' q) ∙ still in
                    (x, find_from-held after links' keys content' key _ found b linked, inl same)
                | inr (y, moved, leads) ↦
                    let linked = sym (entry_at-content after d key content' q) ∙ moved in
                    (
                      y,
                      find_from-held after links' keys content' key _ found b linked,
                      inr (rw (← same) leads),
                    )
              ]
        ]
      ]

  -- an address that a lookup leads to, or the one that its entry has moved to
  find-moved :
      (keys : List Text) (a : ℕ)
      → find first root keys ≡ ok a
      → (b : ℕ) × (find after root keys ≡ ok b) × ((b ≡ a) ⊎ Leads first root a b)
  unfolding find
  find-moved keys a e = elim (Option-cases (content_at first root)) [
    | inl absent ↦ absurd (ground (arith, e, absent))
    | inr (links, top) ↦
        let (links', top') =
          is_some-content after root
            (kept.structs root (is_struct_at-content first root links top)) in
        let (b, found, led) =
          find_from-moved keys links links' a top top' (ground (arith, e, top)) in
        (b, rw (top', find) found, led)
  ]

  -- a chain that ends in the first store ends in the second one, at the same address
  pub follow_loop-moved :
      (fuel : ℕ) (refs keys : List Text) (b : ℕ)
      → follow_loop first root fuel refs keys ≡ some (ok b)
      → follow_loop after root fuel refs keys ≡ some (ok b)
  unfolding follow_loop
  follow_loop-moved zero refs keys b e = absurd (ground arith)
  follow_loop-moved (suc fuel) refs keys b e =
      let (new, a, found, next) = follow_step first root fuel refs keys b e in
      let (a', found', led) = find-moved keys a found in
      elim next [
        | inl (value, end) ↦ elim led [
          | inl still ↦ rw (← (still ∙ end)) (
              follow_loop-end after root fuel refs keys a' new found'
                (kept.same_lookups a' ∙ rw still value))
          | inr (ks, lookup, value', ends) ↦ absurd (ground (arith, value, lookup))
        ]
        | inr (keys', again, rest) ↦ elim led [
          | inl still ↦
              follow_loop-more after root fuel refs keys a' b keys' new found'
                (kept.same_lookups a' ∙ rw still again)
                (follow_loop-moved fuel (refs ++ var_of keys ∷ []) keys' b rest)
          | inr (ks, lookup, value', ends) ↦
              let same_keys : keys' ≡ ks = ground (arith, again, lookup) in
              let end = ends fuel (refs ++ var_of keys ∷ []) b (rw (← same_keys) rest) in
              rw (← end) (
                follow_loop-end after root fuel refs keys a' new found'
                  (kept.same_lookups a' ∙ value'))
        ]
      ]
