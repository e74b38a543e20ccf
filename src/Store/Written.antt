-- ===== src/Store/Written.antt =====
-- What a store holds after a cell is added or written.
use native.Mathlib.Decide.{ℕ_discrete}
use flexi_config_reader.Common.{
  ℕ, zero, suc, Text, text_dec, [], ◌∷◌, ◌++◌, Option, none, some, ◌≡◌, ◌≢◌, refl, arith, ◌∙◌, sym,
  length, is_some, ◌==◌, ◌⊎◌, if◌then◌else◌, Option-cases, inl, inr, true,
}
use flexi_config_reader.Store.{
  Links, Cell, cell_value, cell_list, cell_expression, cell_lookup, cell_var, cell_struct, Cells,
  cell_at, link_at, set_link, write, links_of, content_at, entry_of, entry_at, relinked, relink,
}
use flexi_config_reader.Store.Follow.{keys_of, keys_at}

pub cell_at-append :
    (cells : Cells) (c : Cell) (a : ℕ)
    → cell_at (cells ++ c ∷ []) a ≡ (if a == length cells then some c else cell_at cells a)
cell_at-append [] c zero = refl
cell_at-append [] c (suc a) = ground arith
cell_at-append (d ∷ cells) c zero = ground arith
cell_at-append (d ∷ cells) c (suc a) = ground (arith, cell_at-append cells c a)

pub cell_at-write :
    (cells : Cells) (s a : ℕ) (c d : Cell)
    → cell_at cells s ≡ some d
    → cell_at (write s c cells) a ≡ (if a == s then some c else cell_at cells a)
unfolding write
cell_at-write [] s a c d h = absurd (ground arith)
cell_at-write (e ∷ cells) zero zero c d h = refl
cell_at-write (e ∷ cells) zero (suc a) c d h = ground arith
cell_at-write (e ∷ cells) (suc s) zero c d h = ground arith
cell_at-write (e ∷ cells) (suc s) (suc a) c d h = ground (arith, cell_at-write cells s a c d h)

pub link_at-set_link :
    (k : Text) (a b : ℕ) (links : Links)
    → link_at k links ≡ some b
    → link_at k (set_link k a links) ≡ some a
unfolding link_at set_link
link_at-set_link k a b [] h = absurd (ground arith)
link_at-set_link k a b ((j, e) ∷ links) h = ground (arith, link_at-set_link k a b links)

pub link_at-set_link_other :
    (j k : Text) (a : ℕ) (links : Links) → j ≢ k → link_at j (set_link k a links) ≡ link_at j links
unfolding link_at set_link
link_at-set_link_other j k a [] n = refl
link_at-set_link_other j k a ((i, e) ∷ links) n = elim (text_dec k i) [
  | yes p ↦ elim (text_dec j i) [ yes q ↦ absurd (n (cc (p, q))) | no m ↦ ground arith ]
  | no m ↦ elim (text_dec j i) [
    | yes q ↦ ground arith
    | no l ↦ ground (arith, link_at-set_link_other j k a links n)
  ]
]

-- what can be read of the cell at an address
abbrev pub seen : {X : Type 0} → (Cell → Option X) → Cells → ℕ → Option X
seen read cells a = elim (cell_at cells a) [ none ↦ none | some c ↦ read c ]

pub seen-append :
    {X : Type 0} (read : Cell → Option X) (cells : Cells) (c : Cell) (a : ℕ)
    → read c ≡ none
    → seen read (cells ++ c ∷ []) a ≡ seen read cells a
seen-append read [] c zero h = h
seen-append read [] c (suc a) h = refl
seen-append read (d ∷ cells) c zero h = refl
seen-append read (d ∷ cells) c (suc a) h = seen-append read cells c a h

pub seen-write :
    {X : Type 0} (read : Cell → Option X) (cells : Cells) (s a : ℕ) (c d : Cell)
    → cell_at cells s ≡ some d
    → read c ≡ read d
    → seen read (write s c cells) a ≡ seen read cells a
unfolding write
seen-write read [] s a c d h e = refl
seen-write read (x ∷ cells) zero zero c d h e = let same : x ≡ d = ground arith in rw same e
seen-write read (x ∷ cells) zero (suc a) c d h e = refl
seen-write read (x ∷ cells) (suc s) zero c d h e = refl
seen-write read (x ∷ cells) (suc s) (suc a) c d h e = seen-write read cells s a c d h e

pub seen-write-none :
    {X : Type 0} (read : Cell → Option X) (cells : Cells) (s a : ℕ) (c : Cell)
    → seen read cells s ≡ none
    → read c ≡ none
    → seen read (write s c cells) a ≡ seen read cells a
unfolding write
seen-write-none read [] s a c h e = refl
seen-write-none read (x ∷ cells) zero zero c h e = e ∙ sym h
seen-write-none read (x ∷ cells) zero (suc a) c h e = refl
seen-write-none read (x ∷ cells) (suc s) zero c h e = refl
seen-write-none read (x ∷ cells) (suc s) (suc a) c h e = seen-write-none read cells s a c h e

relinked-keys_of : (k : Text) (a : ℕ) (c : Cell) → keys_of (relinked k a c) ≡ keys_of c
unfolding relinked keys_of
relinked-keys_of k a (cell_value text t) = refl
relinked-keys_of k a (cell_list t es) = refl
relinked-keys_of k a (cell_expression text links) = refl
relinked-keys_of k a (cell_lookup keys) = refl
relinked-keys_of k a (cell_var name) = refl
relinked-keys_of k a (cell_struct kind name depth links) = refl

pub keys_at-relink :
    (cells : Cells) (s : ℕ) (k : Text) (b a : ℕ) → keys_at (relink s k b cells) a ≡ keys_at cells a
unfolding relink keys_at
keys_at-relink cells s k b a = elim (Option-cases (cell_at cells s)) [
  | inl absent ↦ rw (absent, relink) refl
  | inr (d, there) ↦
      rw (there, relink)
        (seen-write keys_of cells s a (relinked k b d) d there (relinked-keys_of k b d))
]

entry_of-relinked :
    (k : Text) (b : ℕ) (c : Cell) (a : ℕ)
    → entry_of k c ≡ some a
    → entry_of k (relinked k b c) ≡ some b
unfolding entry_of links_of relinked
entry_of-relinked k b (cell_struct kind name depth links) a h = link_at-set_link k b a links h
entry_of-relinked k b c a h = absurd (ground arith)

entry_of-relinked_other :
    (j k : Text) (b : ℕ) (c : Cell) → j ≢ k → entry_of j (relinked k b c) ≡ entry_of j c
unfolding entry_of links_of relinked
entry_of-relinked_other j k b (cell_struct kind name depth links) n =
    link_at-set_link_other j k b links n
entry_of-relinked_other j k b c n = refl

pub entry_at-relink :
    (cells : Cells) (s : ℕ) (k : Text) (b a : ℕ)
    → entry_at cells s k ≡ some a
    → entry_at (relink s k b cells) s k ≡ some b
unfolding relink entry_at
entry_at-relink cells s k b a h = elim (Option-cases (cell_at cells s)) [
  | inl absent ↦ absurd (ground arith)
  | inr (d, there) ↦
      let now : cell_at (write s (relinked k b d) cells) s ≡ some (relinked k b d) =
        ground (arith, cell_at-write cells s s (relinked k b d) d there) in
      rw (there, relink) (rw (now, entry_at) (entry_of-relinked k b d a (ground arith)))
]

-- an entry of another cell, or of another key
pub entry_at-relink_other :
    (cells : Cells) (s t : ℕ) (j k : Text) (b : ℕ)
    → (t ≢ s) ⊎ (j ≢ k)
    → entry_at (relink s k b cells) t j ≡ entry_at cells t j
unfolding relink entry_at
entry_at-relink_other cells s t j k b (inr n) = elim (Option-cases (cell_at cells s)) [
  | inl absent ↦ rw (absent, relink) refl
  | inr (d, there) ↦
      rw (there, relink)
        (seen-write (entry_of j) cells s t (relinked k b d) d there
          (entry_of-relinked_other j k b d n))
]
entry_at-relink_other cells s t j k b (inl n) = elim (Option-cases (cell_at cells s)) [
  | inl absent ↦ rw (absent, relink) refl
  | inr (d, there) ↦
      let now : cell_at (write s (relinked k b d) cells) t ≡ cell_at cells t =
        ground (arith, cell_at-write cells s t (relinked k b d) d there, n) in
      rw (there, relink) (rw (now, entry_at) refl)
]

links_of-relinked :
    (k : Text) (b : ℕ) (c : Cell) → links_of c ≡ none → links_of (relinked k b c) ≡ none
unfolding links_of relinked
links_of-relinked k b (cell_struct kind name depth links) h = absurd (ground arith)
links_of-relinked k b (cell_expression text links) h = refl
links_of-relinked k b c h = h

-- what is no struct-like stays so
pub content_at-relink :
    (cells : Cells) (s : ℕ) (k : Text) (b a : ℕ)
    → content_at cells a ≡ none
    → content_at (relink s k b cells) a ≡ none
unfolding relink content_at
content_at-relink cells s k b a h = elim (Option-cases (cell_at cells s)) [
  | inl absent ↦ rw (absent, relink) h
  | inr (d, there) ↦
      let now = cell_at-write cells s a (relinked k b d) d there in
      rw (there, relink)
        (elim (ℕ_discrete a s) [
          | yes p ↦
              let none_now : links_of (relinked k b d) ≡ none =
                links_of-relinked k b d (ground (arith, p, h)) in
              ground (arith, now, none_now, p)
          | no n ↦ ground (arith, now, n, h)
        ])
]

links_of-relinked_some :
    (k : Text) (b : ℕ) (c : Cell)
    → is_some (links_of c) ≡ true
    → is_some (links_of (relinked k b c)) ≡ true
unfolding links_of relinked
links_of-relinked_some k b (cell_struct kind name depth links) h = refl
links_of-relinked_some k b c h = absurd (ground arith)

-- what is a struct-like stays so
pub content_at-relink_some :
    (cells : Cells) (s : ℕ) (k : Text) (b a : ℕ)
    → is_some (content_at cells a) ≡ true
    → is_some (content_at (relink s k b cells) a) ≡ true
unfolding relink content_at
content_at-relink_some cells s k b a h = elim (Option-cases (cell_at cells s)) [
  | inl absent ↦ rw (absent, relink) h
  | inr (d, there) ↦
      let now = cell_at-write cells s a (relinked k b d) d there in
      rw (there, relink)
        (elim (ℕ_discrete a s) [
          | yes p ↦
              let some_now : is_some (links_of (relinked k b d)) ≡ true =
                links_of-relinked_some k b d (ground (arith, p, h, there)) in
              ground (arith, now, some_now, p)
          | no n ↦ ground (arith, now, n, h)
        ])
]
