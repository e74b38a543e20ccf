-- ===== src/Reader/Arrays.antt =====
-- The loop of `convert` for a `std::array`, in include/flexi_cfg/reader.h.
use flexi_config_reader.Common.{
  ℕ, zero, suc, ◌+◌, List, [], ◌∷◌, ◌++◌, append_assoc, some, ◌≡◌, refl, arith, ap, ◌∙◌, sym,
  length,
}
use flexi_config_reader.Result.{Result, ok, throw, ◌>>=◌, bind_assoc, bind_ext}
use flexi_config_reader.Types.{Config, Items, nil, cons}
use flexi_config_reader.Reader.{nth_item, set_elem, filled, array_loop, convert_items, size_of}

-- the elements from an index on
unfoldable items_from : ℕ → Items → Items
items_from zero es = es
items_from (suc i) nil = nil
items_from (suc i) (cons e es) = items_from i es

nth_item-items_from :
    (i : ℕ) (es rest : Items) (e : Config) → items_from i es ≡ cons e rest → nth_item i es ≡ some e
unfolding nth_item items_from
nth_item-items_from zero nil rest e h = absurd (ground (arith, h))
nth_item-items_from zero (cons d es) rest e h = ground (arith, h)
nth_item-items_from (suc i) nil rest e h = absurd (ground (arith, h))
nth_item-items_from (suc i) (cons d es) rest e h = nth_item-items_from i es rest e h

items_from-next :
    (i : ℕ) (es rest : Items) (e : Config)
    → items_from i es ≡ cons e rest
    → items_from (suc i) es ≡ rest
unfolding items_from
items_from-next zero nil rest e h = absurd (ground (arith, h))
items_from-next zero (cons d es) rest e h = ground (arith, h)
items_from-next (suc i) nil rest e h = absurd (ground (arith, h))
items_from-next (suc i) (cons d es) rest e h = items_from-next i es rest e h

set_elem-append :
    {A : Type 0} (before after : List A) (x a : A)
    → set_elem (length before) a (before ++ x ∷ after) ≡ before ++ a ∷ after
unfolding set_elem
set_elem-append [] after x a = refl
set_elem-append (y ∷ before) after x a = ap (◌∷◌ y) (set_elem-append before after x a)

length-append_one : {A : Type 0} (xs : List A) (a : A) → length (xs ++ a ∷ []) ≡ length xs + 1
length-append_one [] a = omega arith
length-append_one (x ∷ xs) a = omega (arith, length-append_one xs a)

append_one : {A : Type 0} (xs : List A) (a : A) (ys : List A) → xs ++ a ∷ ys ≡ (xs ++ a ∷ []) ++ ys
append_one xs a ys = sym (append_assoc xs (a ∷ []) ys)

items_from-after :
    {A : Type 0} (before : List A) (es rest : Items) (e : Config)
    → items_from (length before) es ≡ cons e rest
    → items_from (length before + 1) es ≡ rest
items_from-after before es rest e h =
    let next : length before + 1 ≡ suc (length before) = omega arith in
    rw next (items_from-next (length before) es rest e h)

bind_ok : {X : Type 0} (result : Result X) → (result >>= λ x. ok x) ≡ result
bind_ok (throw e) = refl
bind_ok (ok x) = refl

module _ {A : Type 0} (convert_element : Config → Result A) where
  loop_step :
      (left i : ℕ) (es : Items) (e : Config) (value : List A)
      → nth_item i es ≡ some e
      → array_loop convert_element (suc left) i es value ≡ (
          convert_element e >>= λ a.
          array_loop convert_element left (i + 1) es (set_elem i a value))
  unfolding array_loop
  loop_step left i es e value h = rw (h, array_loop) refl

  array_loop-items :
      (es rest : Items) (before : List A) (default : A)
      → items_from (length before) es ≡ rest
      → array_loop convert_element
          (size_of convert_element rest)
          (length before)
          es
          (before ++ filled (size_of convert_element rest) default)
        ≡ (convert_items convert_element rest >>= λ xs. ok (before ++ xs))
  unfolding array_loop convert_items filled
  array_loop-items es nil before default h = refl
  array_loop-items es (cons e rest) before default h =
      let post = filled (size_of convert_element rest) default in
      loop_step (size_of convert_element rest) (length before) es e (before ++ default ∷ post)
        (nth_item-items_from (length before) es rest e h)
      ∙ bind_ext (convert_element e) _ _ (λ a.
        let next : length before + 1 ≡ length (before ++ a ∷ []) =
          sym (length-append_one before a) in
        let moved : set_elem (length before) a (before ++ default ∷ post)
            ≡ (before ++ a ∷ []) ++ post =
          set_elem-append before post default a ∙ append_one before a post in
        let from : items_from (length (before ++ a ∷ [])) es ≡ rest =
          rw (length-append_one before a) (items_from-after before es rest e h) in
        rw (next, moved) (array_loop-items es rest (before ++ a ∷ []) default from)
        ∙ bind_ext (convert_items convert_element rest) _ _
            (λ xs. ap ok (sym (append_one before a xs)))
        ∙ sym (bind_assoc (convert_items convert_element rest) (λ xs. ok (a ∷ xs)) _))
      ∙ sym (bind_assoc (convert_element e) _ _)

  -- the loop reads the elements in their order
  pub array_loop-convert_items :
      (es : Items) (default : A)
      → array_loop convert_element
          (size_of convert_element es)
          0
          es
          (filled (size_of convert_element es) default)
        ≡ convert_items convert_element es
  unfolding items_from
  array_loop-convert_items es default =
      array_loop-items es es [] default refl ∙ bind_ok (convert_items convert_element es)
