-- ===== src/Store/Load/Placed.antt =====
-- Where `load` puts the structs of a tree.
use flexi_config_reader.Common.{
  ℕ, zero, suc, Text, text_dec, [], ◌∷◌, ◌++◌, none, some, true, ◌≡◌, refl, arith,
}
use flexi_config_reader.Types.{
  Config, config_value, config_list, config_expression, config_value_lookup, config_var,
  config_struct, config_proto, config_reference, of_struct, Items, nil, cons, Fields, end, field,
}
use flexi_config_reader.Types.Map.{at}
use flexi_config_reader.Store.{
  Links, Kind, struct_kind, proto_kind, reference_kind, Cell, cell_struct, Cells, cell_at, fresh,
  link_at, links_of, content_at, entry_of, entry_at,
}
use flexi_config_reader.Store.Written.{cell_at-append}
use flexi_config_reader.Store.Kept.{is_struct_at}
use flexi_config_reader.Store.Standing.{StandsStruct, Stands, StandsEntry}
use flexi_config_reader.Store.Load.{load, load_node, load_items, load_root}

-- No map of the tree has a key twice.
unfoldable mutual
  pub HaveDistinctKeys : Fields → Type 0
  HaveDistinctKeys end = Unit
  HaveDistinctKeys (field k v f) = (at k f ≡ none) × HasDistinctKeys v × HaveDistinctKeys f

  pub HasDistinctKeys : Config → Type 0
  HasDistinctKeys (config_struct t n d f) = HaveDistinctKeys f
  HasDistinctKeys (config_proto n d f) = HaveDistinctKeys f
  HasDistinctKeys (config_reference n p d r f) = HaveDistinctKeys f
  HasDistinctKeys v = Unit

-- what stands in a store stands in the other
record Extends (before after : Cells) : Type 0 where
  holds : (a : ℕ) (c : Cell) → cell_at before a ≡ some c → cell_at after a ≡ some c

Extends-refl : (cells : Cells) → Extends cells cells
Extends-refl cells = record { holds = λ a c h. h }

Extends-trans :
    {first second third : Cells} → Extends first second → Extends second third → Extends first third
Extends-trans p q = record { holds = λ a c h. q.holds a c (p.holds a c h) }

cell_at-append_held :
    (cells : Cells) (d : Cell) (a : ℕ) (c : Cell)
    → cell_at cells a ≡ some c
    → cell_at (cells ++ d ∷ []) a ≡ some c
cell_at-append_held [] d a c h = absurd (ground arith)
cell_at-append_held (x ∷ cells) d zero c h = h
cell_at-append_held (x ∷ cells) d (suc a) c h = cell_at-append_held cells d a c h

Extends-allocate : (cells : Cells) (d : Cell) → Extends cells (cells ++ d ∷ [])
Extends-allocate cells d = record { holds = cell_at-append_held cells d }

mutual
  unfolding load

  load-Extends : (f : Fields) (cells : Cells) → Extends cells (load f cells).0
  load-Extends end cells = Extends-refl cells
  load-Extends (field k v f) cells =
      Extends-trans (load_node-Extends v cells) (load-Extends f (load_node v cells).0)

  load_node-Extends : (v : Config) (cells : Cells) → Extends cells (load_node v cells).0
  load_node-Extends (config_list t es) cells =
      Extends-trans (load_items-Extends es cells) (Extends-allocate (load_items es cells).0 _)
  load_node-Extends (config_expression text lookups) cells =
      Extends-trans (load-Extends lookups cells) (Extends-allocate (load lookups cells).0 _)
  load_node-Extends (config_struct t n d f) cells =
      Extends-trans (load-Extends f cells) (Extends-allocate (load f cells).0 _)
  load_node-Extends (config_proto n d f) cells =
      Extends-trans (load-Extends f cells) (Extends-allocate (load f cells).0 _)
  load_node-Extends (config_reference n p d r f) cells =
      Extends-trans (load-Extends f cells) (Extends-allocate (load f cells).0 _)
  load_node-Extends (config_value text t) cells = Extends-allocate cells _
  load_node-Extends (config_value_lookup keys) cells = Extends-allocate cells _
  load_node-Extends (config_var name) cells = Extends-allocate cells _

  load_items-Extends : (es : Items) (cells : Cells) → Extends cells (load_items es cells).0
  load_items-Extends nil cells = Extends-refl cells
  load_items-Extends (cons e es) cells =
      Extends-trans (load_node-Extends e cells) (load_items-Extends es (load_node e cells).0)

link_at-load :
    (k : Text) (f : Fields) (cells : Cells) → at k f ≡ none → link_at k (load f cells).1 ≡ none
unfolding at link_at load
link_at-load k end cells h = refl
link_at-load k (field j v f) cells h = elim (text_dec k j) [
  | yes p ↦ absurd (ground (arith, h, p))
  | no n ↦ ground (arith, n, link_at-load k f (load_node v cells).0 (ground (arith, h, n)))
]

cell_at-fresh : (cells : Cells) (c : Cell) → cell_at (cells ++ c ∷ []) (fresh cells) ≡ some c
cell_at-fresh cells c = ground (arith, cell_at-append cells c (fresh cells))

-- The map at `s` holds the entries that `load` makes.
abbrev Holds : Cells → ℕ → Links → Type 0
Holds after s links = (k : Text) (a : ℕ) → link_at k links ≡ some a → entry_at after s k ≡ some a

Holds-struct :
    (after : Cells) (a : ℕ) (kind : Kind) (n : Text) (d : ℕ) (links : Links)
    → cell_at after a ≡ some (cell_struct kind n d links)
    → Holds after a links × (is_struct_at after a ≡ true)
unfolding entry_at entry_of links_of is_struct_at content_at
Holds-struct after a kind n d links there =
    (λ k b h. rw (there, entry_at) h, rw (there, is_struct_at, content_at) refl)

-- a struct that was put after what stands below it
placed :
    (f : Fields) (kind : Kind) (n : Text) (d : ℕ) (cells after : Cells) (s : ℕ) (k : Text)
    → Extends ((load f cells).0 ++ cell_struct kind n d (load f cells).1 ∷ []) after
    → entry_at after s k ≡ some (fresh (load f cells).0)
    → ((a : ℕ) → Extends (load f cells).0 after → Holds after a (load f cells).1 → Stands after a f)
    → StandsStruct (λ a. Stands after a f) after s k
placed f kind n d cells after s k e h below =
    let inner = (load f cells).0 in
    let c = cell_struct kind n d (load f cells).1 in
    let there = e.holds (fresh inner) c (cell_at-fresh inner c) in
    let (held, is_struct) = Holds-struct after (fresh inner) kind n d (load f cells).1 there in
    (
      fresh inner,
      h,
      is_struct,
      below (fresh inner) (Extends-trans (Extends-allocate inner c) e) held,
    )

mutual
  unfolding load Stands HaveDistinctKeys at link_at

  load-Stands :
      (f : Fields) (cells after : Cells) (s : ℕ)
      → Extends (load f cells).0 after
      → Holds after s (load f cells).1
      → HaveDistinctKeys f
      → Stands after s f
  load-Stands end cells after s e h d = tt
  load-Stands (field k v f) cells after s e h d =
      let (once, inside, others) = d in
      let next = (load_node v cells).0 in
      (
        load_node-StandsEntry v cells after s k (Extends-trans (load-Extends f next) e)
            (h k (load_node v cells).1 (ground arith)) inside,
        load-Stands f next after s e
            (λ j a l. h j a (elim (text_dec j k) [
              | yes p ↦ absurd (ground (arith, l, p, link_at-load k f next once))
              | no n ↦ ground (arith, n, l)
            ]))
            others,
      )

  load_node-StandsEntry :
      (v : Config) (cells after : Cells) (s : ℕ) (k : Text)
      → Extends (load_node v cells).0 after
      → entry_at after s k ≡ some (load_node v cells).1
      → HasDistinctKeys v
      → StandsEntry after s k v
  load_node-StandsEntry (config_struct t n d f) cells after s k e h i =
      placed f (struct_kind t) n d cells after s k e h (λ a x y. load-Stands f cells after a x y i)
  load_node-StandsEntry (config_proto n d f) cells after s k e h i =
      placed f proto_kind n d cells after s k e h (λ a x y. load-Stands f cells after a x y i)
  load_node-StandsEntry (config_reference n p d r f) cells after s k e h i =
      placed f (reference_kind p r) n d cells after s k e h
        (λ a x y. load-Stands f cells after a x y i)
  load_node-StandsEntry (config_value text t) cells after s k e h i = tt
  load_node-StandsEntry (config_list t es) cells after s k e h i = tt
  load_node-StandsEntry (config_expression text lookups) cells after s k e h i = tt
  load_node-StandsEntry (config_value_lookup keys) cells after s k e h i = tt
  load_node-StandsEntry (config_var name) cells after s k e h i = tt

-- The store of a tree holds the structs of the tree, each at its key.
pub load_root-Stands : (f : Fields) → HaveDistinctKeys f → Stands (load_root f).0 (load_root f).1 f
unfolding load_root load
load_root-Stands f d =
    let inner = (load f []).0 in
    let c = cell_struct (struct_kind of_struct) [] 0 (load f []).1 in
    let there = cell_at-fresh inner c in
    let (held, is_struct) =
      Holds-struct (inner ++ c ∷ []) (fresh inner) (struct_kind of_struct) [] 0 (load f []).1
        there in
    load-Stands f [] (inner ++ c ∷ []) (fresh inner) (Extends-allocate inner c) held d
