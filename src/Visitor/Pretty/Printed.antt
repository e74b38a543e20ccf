-- ===== src/Visitor/Pretty/Printed.antt =====
-- The text that `PrettyJsonVisitor` makes is that of a printer with a line for each member.
use Prim.Native.Nat.{◌%◌, ◌^◌}
use flexi_config_reader.Common.{
  ℕ, zero, suc, ◌+◌, ◌-◌, ◌*◌, ◌<◌, Text, codes, [], ◌∷◌, ◌++◌, true, ltb, if◌then◌else◌, ◌≡◌, refl,
  arith, ap, ◌∙◌, sym, append_assoc, append-nil,
}
use flexi_config_reader.Visitor.{
  any_signed, any_unsigned, any_floating, any_bool, any_other, Node, string_node, number_node,
  boolean_node, struct_node, list_node, other_node, Nodes, none_left, next, Entries, no_entry,
  entry, visit_value, visit_nodes, visit_entries, visit_struct,
}
use flexi_config_reader.Visitor.Json.{Format}
use flexi_config_reader.Visitor.Pretty.{
  PrettyState, spaces, update_indent, line_end, comma_end, strip_line, on_key, on_value, begin,
  leave, end_struct, end_list, pretty_visitor,
}
use flexi_config_reader.Visitor.Pretty.Printer.{
  pretty, pretty_elements, pretty_members, HandledWithin, ElementsWithin, MembersWithin,
  trailing_elements, trailing_members, stripped-elements, stripped-members,
}

module _ {Double : Type 0} (format : Format Double) where
  abbrev pub state : Text → Text → ℕ → PrettyState
  state j i c = record { json = j; indent = i; nest_count = c }

  -- the indent after a value: a struct or a list sets it
  indent_after : Node Double → Text → ℕ → Text
  indent_after (struct_node es) i c = spaces (c * 2)
  indent_after (list_node vs) i c = spaces (c * 2)
  indent_after v i c = i

  indent_after-spaces :
      (v : Node Double) (c : ℕ) → indent_after v (spaces (c * 2)) c ≡ spaces (c * 2)
  unfolding indent_after
  indent_after-spaces (struct_node es) c = refl
  indent_after-spaces (list_node es) c = refl
  indent_after-spaces v c = refl

  begin-state :
      (b j i : Text) (c : ℕ)
      → (c + 1) * 2 < 2 ^ 32
      → begin format b (state j i c)
        ≡ state (j ++ (i ++ (b ++ line_end))) (spaces ((c + 1) * 2)) (c + 1)
  unfolding begin update_indent
  begin-state b j i c small =
      let count : (c + 1) % 2 ^ 32 ≡ c + 1 = omega arith in
      let width : (c + 1) * 2 % 2 ^ 32 ≡ (c + 1) * 2 = omega arith in
      rw (count, begin, update_indent) (rw (width, update_indent) refl)

  leave-state :
      (j i : Text) (c : ℕ)
      → (c + 1) * 2 < 2 ^ 32
      → leave format (state j i (c + 1)) ≡ state (strip_line j) (spaces (c * 2)) c
  unfolding leave update_indent
  leave-state j i c small =
      let count : (c + 1 + (2 ^ 32 - 1)) % 2 ^ 32 ≡ c = omega arith in
      let width : c * 2 % 2 ^ 32 ≡ c * 2 = omega arith in
      rw (count, leave, update_indent) (rw (width, update_indent) refl)

  end_struct-state :
      (j i : Text) (es : Entries Double) (c : ℕ)
      → 0 < c
      → (c + 1) * 2 < 2 ^ 32
      → end_struct format
          (state ((j ++ codes "{\n") ++ trailing_members format (c + 1) es) i (c + 1))
        ≡ state
            (((j ++ codes "{\n") ++ pretty_members format (c + 1) es)
              ++ (spaces (c * 2) ++ codes "},\n"))
            (spaces (c * 2))
            c
  unfolding end_struct
  end_struct-state j i es c pos small =
      let more : ltb 0 c ≡ true = ground arith in
      ap {A = PrettyState} {B = PrettyState}
        (λ s'. record s' {
          json =
              s'.json
              ++ (s'.indent
                  ++ (codes "}" ++ (if ltb 0 s'.nest_count then comma_end else line_end)));
        })
        (leave-state ((j ++ codes "{\n") ++ trailing_members format (c + 1) es) i c small)
      ∙ ap
          (λ b.
            state
              (strip_line ((j ++ codes "{\n") ++ trailing_members format (c + 1) es)
                ++ (spaces (c * 2) ++ (codes "}" ++ (if b then comma_end else line_end))))
              (spaces (c * 2)) c)
          more
      ∙ ap (λ t. state (t ++ (spaces (c * 2) ++ codes "},\n")) (spaces (c * 2)) c)
          (stripped-members format j (c + 1) es)

  end_list-state :
      (j i : Text) (vs : Nodes Double) (c : ℕ)
      → (c + 1) * 2 < 2 ^ 32
      → end_list format
          (state ((j ++ codes "[\n") ++ trailing_elements format (c + 1) vs) i (c + 1))
        ≡ state
            (((j ++ codes "[\n") ++ pretty_elements format (c + 1) vs)
              ++ (spaces (c * 2) ++ codes "],\n"))
            (spaces (c * 2))
            c
  unfolding end_list
  end_list-state j i vs c small =
      ap {A = PrettyState} {B = PrettyState}
        (λ s'. record s' { json = s'.json ++ (s'.indent ++ (codes "]" ++ comma_end)) })
        (leave-state ((j ++ codes "[\n") ++ trailing_elements format (c + 1) vs) i c small)
      ∙ ap (λ t. state (t ++ (spaces (c * 2) ++ codes "],\n")) (spaces (c * 2)) c)
          (stripped-elements format j (c + 1) vs)

  on_key-state :
      (k j i : Text) (c : ℕ)
      → c * 2 < 2 ^ 32
      → on_key format k (state j i c)
        ≡ state (j ++ (spaces (c * 2) ++ (b'"' ∷ (k ++ codes "\" :")))) (codes " ") c
  unfolding on_key update_indent
  on_key-state k j i c small =
      let width : c * 2 % 2 ^ 32 ≡ c * 2 = omega arith in rw (width, on_key, update_indent) refl

  mutual
    unfolding visit_value pretty trailing_elements trailing_members on_value HandledWithin
        indent_after

    visit_value-state :
        (n : ℕ) (v : Node Double) (j i : Text) (c : ℕ)
        → HandledWithin format n v
        → 0 < c
        → (c + n) * 2 < 2 ^ 32
        → visit_value (pretty_visitor format) v (state j i c)
          ≡ state (j ++ (i ++ (pretty format c v ++ comma_end))) (indent_after v i c) c
    visit_value-state n (string_node text) j i c h pos small =
        ap (λ t. state t i c) (simp append_assoc)
    visit_value-state n (number_node (any_signed x)) j i c h pos small = refl
    visit_value-state n (number_node (any_unsigned x)) j i c h pos small = refl
    visit_value-state n (number_node (any_floating x)) j i c h pos small = refl
    visit_value-state n (number_node (any_bool x)) j i c h pos small = refl
    visit_value-state n (number_node any_other) j i c h pos small = absurd h
    visit_value-state n (boolean_node (any_bool b)) j i c h pos small = refl
    visit_value-state n (boolean_node any) j i c h pos small = absurd h
    visit_value-state zero (struct_node es) j i c h pos small = absurd h
    visit_value-state zero (list_node vs) j i c h pos small = absurd h
    visit_value-state (suc n) (struct_node es) j i c h pos small =
        let (i', entries) =
          visit_entries-state n es (j ++ (i ++ codes "{\n")) (spaces ((c + 1) * 2)) (c + 1) h
            (omega arith) (omega arith) in
        ap (λ s. end_struct format (visit_entries (pretty_visitor format) es s))
          (begin-state (codes "{") j i c (omega arith))
        ∙ ap (end_struct format) entries
        ∙ ap (λ t. end_struct format (state (t ++ trailing_members format (c + 1) es) i' (c + 1)))
            (sym (append_assoc j i (codes "{\n")))
        ∙ end_struct-state (j ++ i) i' es c pos (omega arith)
        ∙ ap (λ t. state t (spaces (c * 2)) c) (simp append_assoc)
    visit_value-state (suc n) (list_node vs) j i c h pos small =
        ap (λ s. end_list format (visit_nodes (pretty_visitor format) vs s))
          (begin-state (codes "[") j i c (omega arith))
        ∙ ap (end_list format)
            (visit_nodes-state n vs (j ++ (i ++ codes "[\n")) (c + 1) h (omega arith) (omega arith))
        ∙ ap
            (λ t.
              end_list format
                (state (t ++ trailing_elements format (c + 1) vs) (spaces ((c + 1) * 2)) (c + 1)))
            (sym (append_assoc j i (codes "[\n")))
        ∙ end_list-state (j ++ i) (spaces ((c + 1) * 2)) vs c (omega arith)
        ∙ ap (λ t. state t (spaces (c * 2)) c) (simp append_assoc)
    visit_value-state n other_node j i c h pos small = absurd h

    visit_nodes-state :
        (n : ℕ) (vs : Nodes Double) (j : Text) (c : ℕ)
        → ElementsWithin format n vs
        → 0 < c
        → (c + n) * 2 < 2 ^ 32
        → visit_nodes (pretty_visitor format) vs (state j (spaces (c * 2)) c)
          ≡ state (j ++ trailing_elements format c vs) (spaces (c * 2)) c
    visit_nodes-state n none_left j c h pos small =
        ap (λ t. state t (spaces (c * 2)) c) (sym (append-nil j))
    visit_nodes-state n (next v vs) j c h pos small =
        ap (visit_nodes (pretty_visitor format) vs)
          (visit_value-state n v j (spaces (c * 2)) c h.0 pos small)
        ∙ ap
            (λ i.
              visit_nodes (pretty_visitor format) vs
                (state (j ++ (spaces (c * 2) ++ (pretty format c v ++ comma_end))) i c))
            (indent_after-spaces v c)
        ∙ visit_nodes-state n vs (j ++ (spaces (c * 2) ++ (pretty format c v ++ comma_end))) c h.1
            pos small
        ∙ ap (λ t. state t (spaces (c * 2)) c) (simp append_assoc)

    visit_entries-state :
        (n : ℕ) (es : Entries Double) (j i : Text) (c : ℕ)
        → MembersWithin format n es
        → 0 < c
        → (c + n) * 2 < 2 ^ 32
        → (i' : Text) × (visit_entries (pretty_visitor format) es (state j i c)
            ≡ state (j ++ trailing_members format c es) i' c)
    visit_entries-state n no_entry j i c h pos small =
        (i, ap (λ t. state t i c) (sym (append-nil j)))
    visit_entries-state n (entry k v es) j i c h pos small =
        let before = j ++ (spaces (c * 2) ++ (b'"' ∷ (k ++ codes "\" :"))) in
        let after = before ++ (codes " " ++ (pretty format c v ++ comma_end)) in
        let rest = visit_entries-state n es after (indent_after v (codes " ") c) c h.1 pos small in
        (
          rest.0,
          ap
                (λ s.
                  visit_entries (pretty_visitor format) es
                    (visit_value (pretty_visitor format) v s))
                (on_key-state k j i c (omega arith))
              ∙ ap (visit_entries (pretty_visitor format) es)
                  (visit_value-state n v before (codes " ") c h.0 pos small)
              ∙ rest.1
              ∙ ap (λ t. state t rest.0 c) (simp append_assoc),
        )

  end_struct-top :
      (i : Text) (es : Entries Double)
      → end_struct format (state (codes "{\n" ++ trailing_members format 1 es) i 1)
        ≡ state ((codes "{\n" ++ pretty_members format 1 es) ++ codes "}\n") [] 0
  unfolding end_struct spaces
  end_struct-top i es =
      ap {A = PrettyState} {B = PrettyState}
        (λ s'. record s' {
          json =
              s'.json
              ++ (s'.indent
                  ++ (codes "}" ++ (if ltb 0 s'.nest_count then comma_end else line_end)));
        })
        (leave-state (codes "{\n" ++ trailing_members format 1 es) i 0 (omega arith))
      ∙ ap (λ t. state (t ++ codes "}\n") [] 0) (stripped-members format [] 1 es)

  -- Where every node of a map is of a type that is handled, and the structs and lists in one another are
  -- so few that `unsigned int` counts the columns of their indent, a visit of the map with a new
  -- `PrettyJsonVisitor` ends with the text that the printer gives to it as an object, and a line end.
  pub visit_struct-pretty :
      (n : ℕ) (es : Entries Double)
      → MembersWithin format n es
      → (n + 1) * 2 < 2 ^ 32
      → visit_struct (pretty_visitor format) es (state [] [] 0)
        ≡ state (pretty format 0 (struct_node es) ++ line_end) [] 0
  unfolding visit_struct pretty spaces
  visit_struct-pretty n es h small =
      let (i, entries) =
        visit_entries-state n es (codes "{\n") (spaces 2) 1 h (omega arith) (omega arith) in
      ap (λ s. end_struct format (visit_entries (pretty_visitor format) es s))
        (begin-state (codes "{") [] [] 0 (omega arith))
      ∙ ap (end_struct format) entries
      ∙ end_struct-top i es
      ∙ ap (λ t. state t [] 0) (simp append_assoc)
