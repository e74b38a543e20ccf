-- ===== src/Store/Kept.antt =====
-- What every step of `resolveVarRefs` keeps.
use native.Mathlib.Decide.{ℕ_discrete}
use flexi_config_reader.Common.{
  ℕ, Text, text_dec, Bool, true, is_some, ap, List, [], ◌∷◌, ◌++◌, none, some, ◌≡◌, refl, arith,
  ◌∙◌, inl, inr, Option-cases,
}
use flexi_config_reader.Store.{
  Cell, Cells, cell_at, write, links_of, content_at, entry_of, entry_at, relink,
}
use flexi_config_reader.Store.Follow.{keys_of, keys_at}
use flexi_config_reader.Store.Written.{
  seen-append, seen-write-none, keys_at-relink, entry_at-relink_other, content_at-relink,
  content_at-relink_some,
}

-- whether the node at an address is a struct-like
unfoldable pub is_struct_at : Cells → ℕ → Bool
unfolding content_at
is_struct_at cells a = is_some (content_at cells a)

-- A node that is a lookup stays that lookup, and no other node becomes one; an entry that leads to
-- something else than a lookup stays as it is; a struct-like stays one, and nothing else becomes one.
pub record IsKept (before after : Cells) : Type 0 where
  pub same_lookups : (a : ℕ) → keys_at after a ≡ keys_at before a
  pub same_entries :
      (s : ℕ) (k : Text) (a : ℕ)
      → entry_at before s k ≡ some a
      → keys_at before a ≡ none
      → entry_at after s k ≡ some a
  pub no_struct : (a : ℕ) → content_at before a ≡ none → content_at after a ≡ none
  pub structs : (a : ℕ) → is_struct_at before a ≡ true → is_struct_at after a ≡ true

pub IsKept-refl : (cells : Cells) → IsKept cells cells
IsKept-refl cells = record {
  same_lookups = λ a. refl;
  same_entries = λ s k a h e. h;
  no_struct = λ a h. h;
  structs = λ a h. h;
}

pub IsKept-trans :
    {first second third : Cells} → IsKept first second → IsKept second third → IsKept first third
IsKept-trans p q = record {
  same_lookups = λ a. q.same_lookups a ∙ p.same_lookups a;
  same_entries =
      λ s k a h e. q.same_entries s k a (p.same_entries s k a h e) (p.same_lookups a ∙ e);
  no_struct = λ a h. q.no_struct a (p.no_struct a h);
  structs = λ a h. q.structs a (p.structs a h);
}

-- the same of a step that changes no entry of a map
pub record IsStill (before after : Cells) : Type 0 where
  pub same_lookups : (a : ℕ) → keys_at after a ≡ keys_at before a
  pub all_entries :
      (s : ℕ) (k : Text) (a : ℕ) → entry_at before s k ≡ some a → entry_at after s k ≡ some a
  pub no_struct : (a : ℕ) → content_at before a ≡ none → content_at after a ≡ none
  pub structs : (a : ℕ) → is_struct_at before a ≡ true → is_struct_at after a ≡ true

pub IsStill-refl : (cells : Cells) → IsStill cells cells
IsStill-refl cells = record {
  same_lookups = λ a. refl;
  all_entries = λ s k a h. h;
  no_struct = λ a h. h;
  structs = λ a h. h;
}

pub IsStill-trans :
    {first second third : Cells} → IsStill first second → IsStill second third → IsStill first third
IsStill-trans p q = record {
  same_lookups = λ a. q.same_lookups a ∙ p.same_lookups a;
  all_entries = λ s k a h. q.all_entries s k a (p.all_entries s k a h);
  no_struct = λ a h. q.no_struct a (p.no_struct a h);
  structs = λ a h. q.structs a (p.structs a h);
}

pub IsStill-IsKept : {before after : Cells} → IsStill before after → IsKept before after
IsStill-IsKept p = record {
  same_lookups = p.same_lookups;
  same_entries = λ s k a h e. p.all_entries s k a h;
  no_struct = p.no_struct;
  structs = p.structs;
}

is_struct_at-relink :
    (cells : Cells) (s : ℕ) (k : Text) (b a : ℕ)
    → is_struct_at cells a ≡ true
    → is_struct_at (relink s k b cells) a ≡ true
unfolding is_struct_at
is_struct_at-relink cells s k b a h = content_at-relink_some cells s k b a h

-- a new value
pub IsStill-append :
    (cells : Cells) (c : Cell)
    → keys_of c ≡ none
    → links_of c ≡ none
    → IsStill cells (cells ++ c ∷ [])
unfolding keys_at content_at entry_at entry_of is_struct_at
IsStill-append cells c k l = record {
  same_lookups = λ a. seen-append keys_of cells c a k;
  all_entries = λ s key a h. seen-append (entry_of key) cells c s (rw (l, entry_of) refl) ∙ h;
  no_struct = λ a h. seen-append links_of cells c a l ∙ h;
  structs = λ a h. ap is_some (seen-append links_of cells c a l) ∙ h;
}

entry_at-content_at :
    (cells : Cells) (s : ℕ) (k : Text) → content_at cells s ≡ none → entry_at cells s k ≡ none
unfolding content_at entry_at entry_of
entry_at-content_at cells s k h = elim (Option-cases (cell_at cells s)) [
  | inl absent ↦ rw (absent, entry_at) refl
  | inr (c, there) ↦
      let l : links_of c ≡ none = ground (arith, h, there) in
      rw (there, entry_at) (rw (l, entry_of) refl)
]

-- another node in place of one, neither of which is a lookup or a struct-like
pub IsStill-write :
    (cells : Cells) (s : ℕ) (c : Cell)
    → keys_at cells s ≡ none
    → content_at cells s ≡ none
    → keys_of c ≡ none
    → links_of c ≡ none
    → IsStill cells (write s c cells)
unfolding keys_at content_at entry_at entry_of is_struct_at
IsStill-write cells s c ks ls k l = record {
  same_lookups = λ a. seen-write-none keys_of cells s a c ks k;
  all_entries = λ t j a h.
      seen-write-none (entry_of j) cells s t c (entry_at-content_at cells s j ls)
        (rw (l, entry_of) refl)
      ∙ h;
  no_struct = λ a h. seen-write-none links_of cells s a c ls l ∙ h;
  structs = λ a h. ap is_some (seen-write-none links_of cells s a c ls l) ∙ h;
}

-- a variable of an expression
pub IsStill-variable :
    (cells : Cells) (s : ℕ) (k : Text) (b : ℕ)
    → keys_at cells s ≡ none
    → content_at cells s ≡ none
    → IsStill cells (relink s k b cells)
IsStill-variable cells s k b ks ls = record {
  same_lookups = keys_at-relink cells s k b;
  all_entries = λ t j a h.
      entry_at-relink_other cells s t j k b (elim (ℕ_discrete t s) [
        | no n ↦ inl n
        | yes p ↦ absurd (ground (arith, p, h, entry_at-content_at cells s j ls))
      ])
      ∙ h;
  no_struct = content_at-relink cells s k b;
  structs = is_struct_at-relink cells s k b;
}

-- an entry that led to a lookup
pub IsKept-relink :
    (cells : Cells) (s : ℕ) (k : Text) (b a : ℕ) (keys : List Text)
    → entry_at cells s k ≡ some a
    → keys_at cells a ≡ some keys
    → IsKept cells (relink s k b cells)
IsKept-relink cells s k b a keys held is_lookup = record {
  same_lookups = keys_at-relink cells s k b;
  same_entries = λ t j c h e.
      entry_at-relink_other cells s t j k b (elim (ℕ_discrete t s) [
        | no n ↦ inl n
        | yes p ↦ elim (text_dec j k) [
          | no n ↦ inr n
          | yes q ↦ absurd (ground (arith, p, q, held, is_lookup, h, e))
        ]
      ])
      ∙ h;
  no_struct = content_at-relink cells s k b;
  structs = is_struct_at-relink cells s k b;
}
