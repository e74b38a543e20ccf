-- ===== src/Visitor/Printed.antt =====
-- The text that `JsonVisitor` makes is that of a printer of objects and arrays, which puts a comma
-- between two members and nowhere else.
use Prim.Native.Nat.{◌%◌, ◌^◌}
use flexi_config_reader.Common.{
  ℕ, zero, suc, ◌+◌, ◌-◌, ◌<◌, Text, codes, [], ◌∷◌, ◌++◌, true, false, ◌==◌, ltb, ◌≡◌, refl, arith,
  ap, ◌∙◌, sym, append_assoc, append-nil,
}
use flexi_config_reader.Visitor.{
  Any, any_signed, any_unsigned, any_floating, any_bool, any_other, Node, string_node, number_node,
  boolean_node, struct_node, list_node, other_node, Nodes, none_left, next, Entries, no_entry,
  entry, without_quotes, visit_value, visit_nodes, visit_entries, visit_struct,
}
use flexi_config_reader.Visitor.Json.{
  Format, JsonState, comma, strip_comma, on_key, on_string, on_value, begin_struct, end_struct,
  begin_list, end_list, json_visitor,
}

strip_comma-comma : (s : Text) → strip_comma (s ++ comma) ≡ s
unfolding strip_comma
strip_comma-comma [] = refl
strip_comma-comma (c ∷ []) = refl
strip_comma-comma (c ∷ d ∷ s) = ap (◌∷◌ c) (strip_comma-comma (d ∷ s))

strip_comma-other :
    (s : Text) (c : ℕ) → (c == b',') ≡ false → strip_comma (s ++ c ∷ []) ≡ s ++ c ∷ []
unfolding strip_comma
strip_comma-other [] c n = rw n refl
strip_comma-other (d ∷ []) c n = ap (◌∷◌ d) (strip_comma-other [] c n)
strip_comma-other (d ∷ e ∷ s) c n = ap (◌∷◌ d) (strip_comma-other (e ∷ s) c n)

module _ {Double : Type 0} (format : Format Double) where
  -- a value that is handled, of a type that is tried
  abbrev pub print_any : Any Double → Text
  print_any (any_signed i) = format.signed i
  print_any (any_unsigned u) = format.unsigned u
  print_any (any_floating d) = format.floating d
  print_any (any_bool b) = format.boolean b
  print_any any_other = []

  unfoldable mutual
    unfolding without_quotes

    pub print : Node Double → Text
    print (string_node text) = b'"' ∷ (without_quotes text ++ codes "\"")
    print (number_node any) = print_any any
    print (boolean_node any) = print_any any
    print (struct_node es) = b'{' ∷ (print_members es ++ codes "}")
    print (list_node vs) = b'[' ∷ (print_elements vs ++ codes "]")
    print other_node = []

    pub print_elements : Nodes Double → Text
    print_elements none_left = []
    print_elements (next v none_left) = print v
    print_elements (next v (next w vs)) = print v ++ b',' ∷ print_elements (next w vs)

    pub print_members : Entries Double → Text
    print_members no_entry = []
    print_members (entry k v no_entry) = b'"' ∷ (k ++ (codes "\":" ++ print v))
    print_members (entry k v (entry j w es)) =
        b'"' ∷ (k ++ (codes "\":" ++ (print v ++ b',' ∷ print_members (entry j w es))))

  abbrev pub FitsNumber : Any Double → Type 0
  FitsNumber any_other = ⊥
  FitsNumber any = Unit

  abbrev pub FitsBoolean : Any Double → Type 0
  FitsBoolean (any_bool b) = Unit
  FitsBoolean any = ⊥

  -- Every node is of a type that is handled, and at most `n` structs stand in one another.
  unfoldable mutual
    pub Handled : ℕ → Node Double → Type 0
    Handled n (string_node text) = Unit
    Handled n (number_node any) = FitsNumber any
    Handled n (boolean_node any) = FitsBoolean any
    Handled zero (struct_node es) = ⊥
    Handled (suc n) (struct_node es) = HandledMembers n es
    Handled n (list_node vs) = HandledElements n vs
    Handled n other_node = ⊥

    pub HandledElements : ℕ → Nodes Double → Type 0
    HandledElements n none_left = Unit
    HandledElements n (next v vs) = Handled n v × HandledElements n vs

    pub HandledMembers : ℕ → Entries Double → Type 0
    HandledMembers n no_entry = Unit
    HandledMembers n (entry k v es) = Handled n v × HandledMembers n es

  -- the texts that the visitor makes of the parts, each with a comma after it
  trailing_elements : Nodes Double → Text
  trailing_elements none_left = []
  trailing_elements (next v vs) = print v ++ (b',' ∷ trailing_elements vs)

  trailing_members : Entries Double → Text
  trailing_members no_entry = []
  trailing_members (entry k v es) =
      b'"' ∷ (k ++ (codes "\":" ++ (print v ++ (b',' ∷ trailing_members es))))

  trailing-elements :
      (v : Node Double) (vs : Nodes Double)
      → trailing_elements (next v vs) ≡ print_elements (next v vs) ++ comma
  unfolding trailing_elements print
  trailing-elements v none_left = refl
  trailing-elements v (next w vs) =
      ap (λ t. print v ++ (b',' ∷ t)) (trailing-elements w vs)
      ∙ sym (append_assoc (print v) (b',' ∷ print_elements (next w vs)) comma)

  trailing-members :
      (k : Text) (v : Node Double) (es : Entries Double)
      → trailing_members (entry k v es) ≡ print_members (entry k v es) ++ comma
  unfolding trailing_members print
  trailing-members k v no_entry = simp append_assoc
  trailing-members k v (entry j w es) =
      ap (λ t. b'"' ∷ (k ++ (codes "\":" ++ (print v ++ (b',' ∷ t))))) (trailing-members j w es)
      ∙ simp append_assoc

  strip-elements :
      (j : Text) (vs : Nodes Double)
      → strip_comma (j ++ b'[' ∷ trailing_elements vs) ≡ j ++ b'[' ∷ print_elements vs
  unfolding trailing_elements print
  strip-elements j none_left = strip_comma-other j b'[' refl
  strip-elements j (next v vs) =
      ap (λ t. strip_comma (j ++ b'[' ∷ t)) (trailing-elements v vs)
      ∙ ap strip_comma (sym (append_assoc j (b'[' ∷ print_elements (next v vs)) comma))
      ∙ strip_comma-comma (j ++ b'[' ∷ print_elements (next v vs))

  strip-members :
      (j : Text) (es : Entries Double)
      → strip_comma (j ++ b'{' ∷ trailing_members es) ≡ j ++ b'{' ∷ print_members es
  unfolding trailing_members print
  strip-members j no_entry = strip_comma-other j b'{' refl
  strip-members j (entry k v es) =
      ap (λ t. strip_comma (j ++ b'{' ∷ t)) (trailing-members k v es)
      ∙ ap strip_comma (sym (append_assoc j (b'{' ∷ print_members (entry k v es)) comma))
      ∙ strip_comma-comma (j ++ b'{' ∷ print_members (entry k v es))

  abbrev pub state : Text → ℕ → JsonState
  state j c = record { json = j; struct_count = c }

  end_struct-state :
      (j : Text) (es : Entries Double) (c : ℕ)
      → 0 < c
      → c + 1 < 2 ^ 32
      → end_struct format (state ((j ++ codes "{") ++ trailing_members es) (c + 1))
        ≡ state (j ++ (b'{' ∷ (print_members es ++ codes "},"))) c
  unfolding end_struct
  end_struct-state j es c pos small =
      let count : (c + 1 + (2 ^ 32 - 1)) % 2 ^ 32 ≡ c = omega arith in
      let more : ltb 0 c ≡ true = ground arith in
      let stripped : strip_comma ((j ++ codes "{") ++ trailing_members es)
          ≡ j ++ (b'{' ∷ print_members es) =
        ap strip_comma (append_assoc j (codes "{") (trailing_members es)) ∙ strip-members j es in
      rw (count, stripped, more, end_struct)
        (ap (λ t. state t c) (append_assoc j (b'{' ∷ print_members es) (codes "},")))

  end_struct-top :
      (es : Entries Double)
      → end_struct format (state (codes "{" ++ trailing_members es) 1)
        ≡ state (b'{' ∷ (print_members es ++ codes "}")) 0
  unfolding end_struct
  end_struct-top es =
      let stripped : strip_comma (codes "{" ++ trailing_members es) ≡ b'{' ∷ print_members es =
        strip-members [] es in
      rw (stripped, end_struct) refl

  begin_count : (c : ℕ) → c + 1 < 2 ^ 32 → (c + 1) % 2 ^ 32 ≡ c + 1
  begin_count c small = omega arith

  mutual
    unfolding visit_value print trailing_elements trailing_members on_key on_string on_value
        begin_struct end_struct begin_list end_list Handled

    visit_value-state :
        (n : ℕ) (v : Node Double) (j : Text) (c : ℕ)
        → Handled n v
        → 0 < c
        → c + n < 2 ^ 32
        → visit_value (json_visitor format) v (state j c) ≡ state (j ++ (print v ++ comma)) c
    visit_value-state n (string_node text) j c h pos small = simp append_assoc
    visit_value-state n (number_node (any_signed i)) j c h pos small = refl
    visit_value-state n (number_node (any_unsigned i)) j c h pos small = refl
    visit_value-state n (number_node (any_floating i)) j c h pos small = refl
    visit_value-state n (number_node (any_bool i)) j c h pos small = refl
    visit_value-state n (number_node any_other) j c h pos small = absurd h
    visit_value-state n (boolean_node (any_bool b)) j c h pos small = refl
    visit_value-state n (boolean_node any) j c h pos small = absurd h
    visit_value-state zero (struct_node es) j c h pos small = absurd h
    visit_value-state (suc n) (struct_node es) j c h pos small =
        ap
          (λ k.
            end_struct format (visit_entries (json_visitor format) es (state (j ++ codes "{") k)))
          (begin_count c (omega arith))
        ∙ ap (end_struct format)
            (visit_entries-state n es (j ++ codes "{") (c + 1) h (omega arith) (omega arith))
        ∙ end_struct-state j es c pos (omega arith)
        ∙ ap (λ t. state t c) (simp append_assoc)
    visit_value-state n (list_node vs) j c h pos small =
        ap (end_list format) (visit_nodes-state n vs (j ++ codes "[") c h pos small)
        ∙ ap (λ t. state (strip_comma t ++ codes "],") c)
            (append_assoc j (codes "[") (trailing_elements vs))
        ∙ ap (λ t. state (t ++ codes "],") c) (strip-elements j vs)
        ∙ ap (λ t. state t c) (simp append_assoc)
    visit_value-state n other_node j c h pos small = absurd h

    visit_nodes-state :
        (n : ℕ) (vs : Nodes Double) (j : Text) (c : ℕ)
        → HandledElements n vs
        → 0 < c
        → c + n < 2 ^ 32
        → visit_nodes (json_visitor format) vs (state j c) ≡ state (j ++ trailing_elements vs) c
    visit_nodes-state n none_left j c h pos small = ap (λ t. state t c) (sym (append-nil j))
    visit_nodes-state n (next v vs) j c h pos small =
        ap (visit_nodes (json_visitor format) vs) (visit_value-state n v j c h.0 pos small)
        ∙ visit_nodes-state n vs (j ++ (print v ++ comma)) c h.1 pos small
        ∙ ap (λ t. state t c)
            (append_assoc j (print v ++ comma) (trailing_elements vs)
              ∙ ap (λ t. j ++ t) (append_assoc (print v) comma (trailing_elements vs)))

    visit_entries-state :
        (n : ℕ) (es : Entries Double) (j : Text) (c : ℕ)
        → HandledMembers n es
        → 0 < c
        → c + n < 2 ^ 32
        → visit_entries (json_visitor format) es (state j c) ≡ state (j ++ trailing_members es) c
    visit_entries-state n no_entry j c h pos small = ap (λ t. state t c) (sym (append-nil j))
    visit_entries-state n (entry k v es) j c h pos small =
        ap (visit_entries (json_visitor format) es)
          (visit_value-state n v (j ++ (b'"' ∷ (k ++ codes "\":"))) c h.0 pos small)
        ∙ visit_entries-state n es ((j ++ (b'"' ∷ (k ++ codes "\":"))) ++ (print v ++ comma)) c h.1
            pos small
        ∙ ap (λ t. state t c) (simp append_assoc)

  -- Where every node of a map is of a type that is handled, and fewer than 2^32 structs stand in one
  -- another, which `unsigned int` counts, a visit of the map with a new `JsonVisitor` ends with the text
  -- that the printer gives to it as an object: no comma is left before a closing bracket, or at the
  -- end, and none is missing.
  pub visit_struct-print :
      (n : ℕ) (es : Entries Double)
      → HandledMembers n es
      → n + 1 < 2 ^ 32
      → visit_struct (json_visitor format) es (state [] 0) ≡ state (print (struct_node es)) 0
  unfolding visit_struct print begin_struct
  visit_struct-print n es h small =
      ap (end_struct format) (visit_entries-state n es (codes "{") 1 h (omega arith) (omega arith))
      ∙ end_struct-top es
