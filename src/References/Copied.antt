-- ===== src/References/Copied.antt =====
-- The entries of the struct that `structFromReference` of src/config_helpers.cpp makes.
use flexi_config_reader.Common.{ℕ, Text, none, some, ◌≡◌, arith, Bool-cases, inl, inr}
use flexi_config_reader.Result.{ok, >>=-eq-ok}
use flexi_config_reader.Types.{Config, config_struct, of_struct, Fields, end, field, data_of}
use flexi_config_reader.Types.Map.{at, contains, keys, set, insert_all, at-set, at-insert_all}
use flexi_config_reader.Parser.{copy_proto, check_overlap, struct_from_reference}

-- no key is twice in the map
abbrev pub AreDistinct : Fields → Type 0
AreDistinct end = Unit
AreDistinct (field k v f) = (at k f ≡ none) × AreDistinct f

copy_step :
    (k : Text) (v : Config) (out f copied : Fields)
    → copy_proto out (field k v f) ≡ ok copied
    → copy_proto (set k v out) f ≡ ok copied
unfolding copy_proto
copy_step k v out f copied e = elim (Bool-cases (contains k out)) [
  | inl old ↦ ground (arith, e, old)
  | inr new ↦ ground (arith, e, new)
]

at-copy_proto :
    (q : Text) (out f copied : Fields)
    → copy_proto out f ≡ ok copied
    → AreDistinct f
    → at q copied ≡ elim (at q f) [ none ↦ at q out | some v ↦ some v ]
unfolding copy_proto at
at-copy_proto q out end copied e d = ground (arith, e)
at-copy_proto q out (field k v f) copied e d =
    let rest = at-copy_proto q (set k v out) f copied (copy_step k v out f copied e) d.1 in
    ground (arith, rest, at-set q k v out, d.0)

-- The struct that a proto and a reference make has the entries of both; a key of the proto has the
-- proto's value.
pub at-struct_from_reference :
    (q name : Text) (depth : ℕ) (ref_data proto_data content : Fields)
    → struct_from_reference name depth ref_data proto_data
      ≡ ok (config_struct of_struct name depth content)
    → AreDistinct proto_data
    → at q content ≡ elim (at q proto_data) [ none ↦ at q ref_data | some v ↦ some v ]
unfolding struct_from_reference at data_of
at-struct_from_reference q name depth ref_data proto_data content e d =
    let (out, copied, later) = >>=-eq-ok (copy_proto end proto_data) _ e in
    let (_, checked, made) = >>=-eq-ok (check_overlap out ref_data (keys ref_data)) _ later in
    let same : insert_all out ref_data ≡ content = cc in
    let both = at-insert_all q out ref_data in
    rw (← same) (ground (arith, both, at-copy_proto q end proto_data out copied d))
