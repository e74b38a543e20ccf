-- ===== src/Visitor/Pretty/Printer.antt =====
-- A printer of objects and arrays with a line for each member, and the commas that `PrettyJsonVisitor`
-- takes back.
use flexi_config_reader.Common.{
  ℕ, zero, suc, ◌+◌, ◌*◌, Text, codes, [], ◌∷◌, ◌++◌, false, ◌==◌, ◌≡◌, refl, ap, ◌∙◌, sym,
  append_assoc, append-nil,
}
use flexi_config_reader.Visitor.{
  Node, string_node, number_node, boolean_node, struct_node, list_node, other_node, Nodes,
  none_left, next, Entries, no_entry, entry, without_quotes,
}
use flexi_config_reader.Visitor.Json.{Format}
use flexi_config_reader.Visitor.Printed.{print_any, FitsNumber, FitsBoolean}
use flexi_config_reader.Visitor.Pretty.{spaces, line_end, comma_end, strip_line}

strip_line-comma_end : (s : Text) → strip_line (s ++ comma_end) ≡ s ++ line_end
unfolding strip_line
strip_line-comma_end [] = refl
strip_line-comma_end (c ∷ []) = refl
strip_line-comma_end (c ∷ d ∷ []) = refl
strip_line-comma_end (c ∷ d ∷ e ∷ s) = ap (◌∷◌ c) (strip_line-comma_end (d ∷ e ∷ s))

strip_line-other :
    (s : Text) (c : ℕ) → (c == b',') ≡ false → strip_line (s ++ c ∷ line_end) ≡ s ++ c ∷ line_end
unfolding strip_line
strip_line-other [] c n = rw n refl
strip_line-other (d ∷ []) c n = ap (◌∷◌ d) (strip_line-other [] c n)
strip_line-other (d ∷ e ∷ []) c n = ap (◌∷◌ d) (strip_line-other (e ∷ []) c n)
strip_line-other (d ∷ e ∷ f ∷ s) c n = ap (◌∷◌ d) (strip_line-other (e ∷ f ∷ s) c n)

module _ {Double : Type 0} (format : Format Double) where
  -- a node whose first line stands in a line of its own indent, at this depth
  unfoldable mutual
    unfolding without_quotes spaces

    pub pretty : ℕ → Node Double → Text
    pretty c (string_node text) = b'"' ∷ (without_quotes text ++ codes "\"")
    pretty c (number_node any) = print_any format any
    pretty c (boolean_node any) = print_any format any
    pretty c (struct_node es) =
        codes "{\n" ++ (pretty_members (c + 1) es ++ (spaces (c * 2) ++ codes "}"))
    pretty c (list_node vs) =
        codes "[\n" ++ (pretty_elements (c + 1) vs ++ (spaces (c * 2) ++ codes "]"))
    pretty c other_node = []

    -- each element in a line, and commas between them
    pub pretty_elements : ℕ → Nodes Double → Text
    pretty_elements c none_left = []
    pretty_elements c (next v none_left) = spaces (c * 2) ++ (pretty c v ++ line_end)
    pretty_elements c (next v (next w vs)) =
        spaces (c * 2) ++ (pretty c v ++ (comma_end ++ pretty_elements c (next w vs)))

    pub pretty_members : ℕ → Entries Double → Text
    pretty_members c no_entry = []
    pretty_members c (entry k v no_entry) =
        spaces (c * 2) ++ (b'"' ∷ (k ++ (codes "\" : " ++ (pretty c v ++ line_end))))
    pretty_members c (entry k v (entry j w es)) =
        spaces (c * 2)
        ++ (b'"'
            ∷ (k
                ++ (codes "\" : "
                    ++ (pretty c v ++ (comma_end ++ pretty_members c (entry j w es))))))

  -- Every node is of a type that is handled, and at most `n` structs and lists stand in one another.
  unfoldable mutual
    pub HandledWithin : ℕ → Node Double → Type 0
    HandledWithin n (string_node text) = Unit
    HandledWithin n (number_node any) = FitsNumber format any
    HandledWithin n (boolean_node any) = FitsBoolean format any
    HandledWithin zero (struct_node es) = ⊥
    HandledWithin (suc n) (struct_node es) = MembersWithin n es
    HandledWithin zero (list_node vs) = ⊥
    HandledWithin (suc n) (list_node vs) = ElementsWithin n vs
    HandledWithin n other_node = ⊥

    pub ElementsWithin : ℕ → Nodes Double → Type 0
    ElementsWithin n none_left = Unit
    ElementsWithin n (next v vs) = HandledWithin n v × ElementsWithin n vs

    pub MembersWithin : ℕ → Entries Double → Type 0
    MembersWithin n no_entry = Unit
    MembersWithin n (entry k v es) = HandledWithin n v × MembersWithin n es

  -- the texts that the visitor makes of the parts, each with a comma after it
  unfoldable pub trailing_elements : ℕ → Nodes Double → Text
  trailing_elements c none_left = []
  trailing_elements c (next v vs) =
      spaces (c * 2) ++ (pretty c v ++ (comma_end ++ trailing_elements c vs))

  unfoldable pub trailing_members : ℕ → Entries Double → Text
  trailing_members c no_entry = []
  trailing_members c (entry k v es) =
      spaces (c * 2)
      ++ (b'"' ∷ (k ++ (codes "\" : " ++ (pretty c v ++ (comma_end ++ trailing_members c es)))))

  strip-elements :
      (s : Text) (c : ℕ) (v : Node Double) (vs : Nodes Double)
      → strip_line (s ++ trailing_elements c (next v vs)) ≡ s ++ pretty_elements c (next v vs)
  unfolding trailing_elements pretty
  strip-elements s c v none_left =
      ap strip_line (simp append_assoc)
      ∙ strip_line-comma_end (s ++ (spaces (c * 2) ++ pretty c v))
      ∙ simp append_assoc
  strip-elements s c v (next w vs) =
      ap strip_line (simp append_assoc)
      ∙ strip-elements (s ++ (spaces (c * 2) ++ (pretty c v ++ comma_end))) c w vs
      ∙ simp append_assoc

  strip-members :
      (s : Text) (c : ℕ) (k : Text) (v : Node Double) (es : Entries Double)
      → strip_line (s ++ trailing_members c (entry k v es)) ≡ s ++ pretty_members c (entry k v es)
  unfolding trailing_members pretty
  strip-members s c k v no_entry =
      ap strip_line (simp append_assoc)
      ∙ strip_line-comma_end
          (s ++ (spaces (c * 2) ++ (b'"' ∷ (k ++ (codes "\" : " ++ pretty c v)))))
      ∙ simp append_assoc
  strip-members s c k v (entry j w es) =
      ap strip_line (simp append_assoc)
      ∙ strip-members
          (s ++ (spaces (c * 2) ++ (b'"' ∷ (k ++ (codes "\" : " ++ (pretty c v ++ comma_end)))))) c
          j w es
      ∙ simp append_assoc

  pub stripped-elements :
      (s : Text) (c : ℕ) (vs : Nodes Double)
      → strip_line ((s ++ codes "[\n") ++ trailing_elements c vs)
        ≡ (s ++ codes "[\n") ++ pretty_elements c vs
  unfolding trailing_elements pretty
  stripped-elements s c none_left =
      ap strip_line (append-nil (s ++ codes "[\n"))
      ∙ strip_line-other s b'[' refl
      ∙ sym (append-nil (s ++ codes "[\n"))
  stripped-elements s c (next v vs) = strip-elements (s ++ codes "[\n") c v vs

  pub stripped-members :
      (s : Text) (c : ℕ) (es : Entries Double)
      → strip_line ((s ++ codes "{\n") ++ trailing_members c es)
        ≡ (s ++ codes "{\n") ++ pretty_members c es
  unfolding trailing_members pretty
  stripped-members s c no_entry =
      ap strip_line (append-nil (s ++ codes "{\n"))
      ∙ strip_line-other s b'{' refl
      ∙ sym (append-nil (s ++ codes "{\n"))
  stripped-members s c (entry k v es) = strip-members (s ++ codes "{\n") c k v es
