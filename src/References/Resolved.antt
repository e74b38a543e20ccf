-- ===== src/References/Resolved.antt =====
-- `resolveReferences` ends, and leaves no reference outside of a proto.
use flexi_config_reader.Common.{
  ℕ, zero, suc, ◌+◌, ◌*◌, ◌≤◌, ◌<◌, Text, text_dec, List, [], ◌∷◌, ◌++◌, some, true, false, ◌≡◌,
  refl, arith, ap, Option-cases, Bool-cases, inl, inr, has, length,
}
use flexi_config_reader.Result.{Result, ok, Run, Settles, Settles-bind, Settles-some, Ensures-any}
use flexi_config_reader.Utils.{make_name}
use flexi_config_reader.Types.{
  Config, config_value, config_list, config_expression, config_value_lookup, config_var,
  config_struct, config_proto, config_reference, of_struct, of_struct_in_proto, Fields, end, field,
  data_of, with_data,
}
use flexi_config_reader.Types.Map.{at, keys, insert_all_sorted, at-insert_all_sorted}
use flexi_config_reader.Lookup.Unseen.{unseen, unseen_less, unseen-le-length}
use flexi_config_reader.Parser.{struct_from_reference}
use flexi_config_reader.Vars.{Services, replace_proto_var}
use flexi_config_reader.Vars.Replaced.{ParsesExpressions}
use flexi_config_reader.References.{
  resolve_content, resolve_reference, resolve_entry, resolve_each, resolve_references,
}
use flexi_config_reader.References.Low.{
  IsFlat, Low, LowEntry, Low-mono, Low-at, LowEntry-data_of, Low-struct_from_reference,
}
use flexi_config_reader.References.Bounded.{Low-replace_proto_var}

-- no reference outside of a proto
mutual
  pub Resolved : Fields → Type 0
  Resolved end = Unit
  Resolved (field k v f) = ResolvedEntry v × Resolved f

  pub ResolvedEntry : Config → Type 0
  ResolvedEntry (config_struct t n d f) = Resolved f
  ResolvedEntry (config_reference n p d r f) = ⊥
  ResolvedEntry (config_proto n d f) = Unit
  ResolvedEntry (config_value _ _) = Unit
  ResolvedEntry (config_list _ _) = Unit
  ResolvedEntry (config_expression _ _) = Unit
  ResolvedEntry (config_value_lookup _) = Unit
  ResolvedEntry (config_var _) = Unit

has-keys-at :
    (k : Text) (v : Config) (f : Fields) → at k f ≡ some v → has text_dec k (keys f) ≡ true
unfolding at keys has
has-keys-at k v end e = cc
has-keys-at k v (field j w f) e = ground (arith, has-keys-at k v f)

IsFlat-insert_all_sorted : (f g : Fields) → IsFlat f → IsFlat g → IsFlat (insert_all_sorted f g)
IsFlat-insert_all_sorted f g h i k v e = elim (Option-cases (at k f)) [
  | inl n ↦ i k v (ground (arith, at-insert_all_sorted k f g, n, e))
  | inr (w, s) ↦
      let same : w ≡ v = ground (arith, at-insert_all_sorted k f g, s, e) in h k v (rw (← same) s)
]

measure_less : (u v s : ℕ) → u < v → u * s + s ≤ v * s
measure_less zero zero s h = absurd (omega arith)
measure_less zero (suc v) s h = omega arith
measure_less (suc u) zero s h = absurd (omega arith)
measure_less (suc u) (suc v) s h = omega (arith, measure_less u v s (omega arith))

module _ (services : Services) (parses : ParsesExpressions services) (protos : Fields) (depth : ℕ)
    (low : Low (suc depth) protos) where
  -- how many calls may still be nested in a call for content that is `n` deep
  calls : List Text → ℕ → ℕ
  calls refd n = unseen refd (keys protos) * suc depth + n

  -- what the recursive calls promise
  abbrev Resumes : (Text → Fields → List Text → Fields → Run Fields) → ℕ → Type 0
  Resumes resume fuel =
      (base : Text) (vars : Fields) (refd : List Text) (f : Fields) (n : ℕ)
      → IsFlat vars
      → n ≤ depth
      → Low n f
      → calls refd n < fuel
      → Settles (λ g. Resolved g × (keys g ≡ keys f)) (resume base vars refd f)

  resolve_content-Resolved :
      (resume : Fields → Run Fields) (vars : Fields) (n : ℕ) (v : Config) (d : Fields)
      → IsFlat vars
      → data_of v ≡ some d
      → Low n d
      → ((f : Fields) → Low n f → Settles (λ g. Resolved g × (keys g ≡ keys f)) (resume f))
      → ((g : Fields) → Resolved g → ResolvedEntry (with_data g v))
      → Settles ResolvedEntry (resolve_content services protos resume vars v)
  unfolding resolve_content
  resolve_content-Resolved resume vars n v d flat e h settles close =
      rw (e, Settles, resolve_content)
        (Settles-bind (Low n) ResolvedEntry (some (replace_proto_var services d vars)) _
          (Low-replace_proto_var services parses vars flat n d h)
          (λ d' h'.
            Settles-bind (λ g. Resolved g × (keys g ≡ keys d')) ResolvedEntry (resume d') _
              (settles d' h') (λ g r. close g r.0)))

  -- The new struct is resolved in its turn, with one more proto referred to.
  struct-Resolved :
      (resume : Text → Fields → List Text → Fields → Run Fields) (fuel : ℕ) (base : Text)
      (vars : Fields) (refd : List Text) (p : Text) (v : Config) (r : Fields) (s : Config)
      {name : Text} {d : ℕ}
      → Resumes resume fuel
      → IsFlat vars
      → IsFlat r
      → at p protos ≡ some v
      → has text_dec p refd ≡ false
      → calls refd 0 < suc fuel
      → (g : Fields) × (s ≡ config_struct of_struct name d g) × Low depth g
      → Settles ResolvedEntry (
          resolve_content services protos
            (resume base (insert_all_sorted vars r) (refd ++ p ∷ []))
            (insert_all_sorted vars r)
            s)
  unfolding calls data_of with_data Resolved
  struct-Resolved resume fuel base vars refd p v r s {name} {d} resumes flat flat_r there new enough
        (g, same, g_low) =
      let inserted = IsFlat-insert_all_sorted vars r flat flat_r in
      let fewer = unseen_less p refd (keys protos) (has-keys-at p v protos there) new in
      rw same (
        resolve_content-Resolved (resume base (insert_all_sorted vars r) (refd ++ p ∷ []))
          (insert_all_sorted vars r) depth (config_struct of_struct name d g) g inserted refl g_low
          (λ e e_low.
            resumes base (insert_all_sorted vars r) (refd ++ p ∷ []) e depth inserted (omega arith)
              e_low
              (omega (
                arith,
                measure_less (unseen (refd ++ p ∷ []) (keys protos)) (unseen refd (keys protos))
                    (suc depth) fewer,
              )))
          (λ e e_resolved. e_resolved))

  resolve_reference-Resolved :
      (resume : Text → Fields → List Text → Fields → Run Fields) (fuel : ℕ) (base : Text)
      (vars : Fields) (refd : List Text) (n : ℕ) (name p : Text) (d : ℕ) (r f : Fields)
      → Resumes resume fuel
      → IsFlat vars
      → n < depth
      → IsFlat r
      → Low n f
      → calls refd n < suc fuel
      → Settles ResolvedEntry
          (resolve_reference services protos (resume base) vars refd name p d r f)
  unfolding resolve_reference calls
  resolve_reference-Resolved resume fuel base vars refd n name p d r f resumes flat le flat_r h
        enough =
      elim (Option-cases (at p protos)) [
        | inl absent ↦ rw (absent, Settles, resolve_reference) tt
        | inr (v, there) ↦ elim (Bool-cases (has text_dec p refd)) [
          | inl cycle ↦ rw (there, Settles, resolve_reference) (rw cycle tt)
          | inr new ↦ elim (Option-cases (data_of v)) [
            | inl plain ↦ rw (there, Settles, resolve_reference) (rw (new, plain) tt)
            | inr (pd, inner) ↦
                rw (there, Settles, resolve_reference)
                  (rw (new, inner)
                    (Settles-bind _ ResolvedEntry (some (struct_from_reference name d f pd)) _
                      (Low-struct_from_reference depth name d f pd
                        (Low-mono n depth f (omega arith) h)
                        (LowEntry-data_of depth v pd inner
                          (Low-at (suc depth) p v protos there low)))
                      (λ s s_low.
                        struct-Resolved resume fuel base vars refd p v r s resumes flat flat_r there
                          new (omega (arith, enough)) s_low)))
          ]
        ]
      ]

  resolve_entry-Resolved :
      (resume : Text → Fields → List Text → Fields → Run Fields) (fuel : ℕ) (base : Text)
      (vars : Fields) (refd : List Text) (n : ℕ) (v : Config)
      → Resumes resume fuel
      → IsFlat vars
      → n ≤ depth
      → LowEntry n v
      → calls refd n < suc fuel
      → Settles ResolvedEntry (resolve_entry services protos resume base vars refd v)
  unfolding resolve_entry calls Resolved data_of with_data Low
  resolve_entry-Resolved resume fuel base vars refd zero (config_struct t name d f) resumes flat le
        h enough =
      absurd h
  resolve_entry-Resolved resume fuel base vars refd zero (config_reference name p d r f) resumes
        flat le h enough =
      absurd h
  resolve_entry-Resolved resume fuel base vars refd (suc n) (config_reference name p d r f) resumes
        flat le h enough =
      resolve_reference-Resolved resume fuel base vars refd n name p d r f resumes flat
        (omega arith) h.0 h.1 (omega arith)
  resolve_entry-Resolved resume fuel base vars refd (suc n) (config_struct of_struct name d f)
        resumes flat le h enough =
      Settles-bind (λ g. Resolved g × (keys g ≡ keys f)) ResolvedEntry (resume base vars refd f) _
        (resumes base vars refd f n flat (omega arith) h (omega arith)) (λ g r. r.0)
  resolve_entry-Resolved resume fuel base vars refd (suc n)
        (config_struct of_struct_in_proto name d f) resumes flat le h enough =
      resolve_content-Resolved (resume base vars refd) vars n
        (config_struct of_struct_in_proto name d f) f flat refl h
        (λ g g_low. resumes base vars refd g n flat (omega arith) g_low (omega arith)) (λ g r. r)
  resolve_entry-Resolved resume fuel base vars refd n (config_proto name d f) resumes flat le h
        enough =
      tt
  resolve_entry-Resolved resume fuel base vars refd n (config_value _ _) resumes flat le h enough =
      tt
  resolve_entry-Resolved resume fuel base vars refd n (config_list _ _) resumes flat le h enough =
      tt
  resolve_entry-Resolved resume fuel base vars refd n (config_expression _ _) resumes flat le h
        enough =
      tt
  resolve_entry-Resolved resume fuel base vars refd n (config_value_lookup _) resumes flat le h
        enough =
      tt
  resolve_entry-Resolved resume fuel base vars refd n (config_var _) resumes flat le h enough = tt

  resolve_each-Resolved :
      (resume : Text → Fields → List Text → Fields → Run Fields) (fuel : ℕ) (base : Text)
      (vars : Fields) (refd : List Text) (n : ℕ) (f : Fields)
      → Resumes resume fuel
      → IsFlat vars
      → n ≤ depth
      → Low n f
      → calls refd n < suc fuel
      → Settles
          (λ g. Resolved g × (keys g ≡ keys f))
          (resolve_each services protos resume base vars refd f)
  unfolding resolve_each Resolved keys Low
  resolve_each-Resolved resume fuel base vars refd n end resumes flat le h enough = (tt, refl)
  resolve_each-Resolved resume fuel base vars refd n (field k v f) resumes flat le h enough =
      Settles-bind (λ _. Unit) (λ g. Resolved g × (keys g ≡ keys (field k v f)))
        (some (make_name base k)) _ (Ensures-any (make_name base k))
        (λ name _.
          Settles-bind ResolvedEntry (λ g. Resolved g × (keys g ≡ keys (field k v f)))
            (resolve_entry services protos resume name vars refd v) _
            (resolve_entry-Resolved resume fuel name vars refd n v resumes flat le h.0 enough)
            (λ w w_resolved.
              Settles-bind (λ g. Resolved g × (keys g ≡ keys f))
                (λ g. Resolved g × (keys g ≡ keys (field k v f)))
                (resolve_each services protos resume base vars refd f) _
                (resolve_each-Resolved resume fuel base vars refd n f resumes flat le h.1 enough)
                (λ g g_resolved. ((w_resolved, g_resolved.0), ap (◌∷◌ k) g_resolved.1))))

  resolve_references-Resumes : (fuel : ℕ) → Resumes (resolve_references services protos fuel) fuel
  unfolding resolve_references
  resolve_references-Resumes zero base vars refd f n flat le h enough = absurd (omega arith)
  resolve_references-Resumes (suc fuel) base vars refd f n flat le h enough =
      resolve_each-Resolved (resolve_references services protos fuel) fuel base vars refd n f
        (resolve_references-Resumes fuel) flat le h enough

  -- Where no struct stands deeper than `depth` in the map or in a proto, references define their
  -- variables by values, and an expression that is read again is an expression, `resolveReferences`
  -- ends: fuel above the number of protos, plus one, times the depth, plus one, is enough, also where
  -- protos refer to one another in a cycle, which is met by an exception. A map that it returns holds no
  -- reference outside of a proto, and has the keys that it had.
  pub resolve_references_total :
      (fuel : ℕ) (f : Fields)
      → Low depth f
      → (length (keys protos) + 1) * (depth + 1) < fuel
      → (r : Result Fields) × (resolve_references services protos fuel [] end [] f ≡ some r)
        × ((g : Fields) → r ≡ ok g → Resolved g × (keys g ≡ keys f))
  unfolding calls at
  resolve_references_total fuel f h enough =
      let fits =
        measure_less (unseen [] (keys protos)) (length (keys protos) + 1) (suc depth)
          (omega (arith, unseen-le-length [] (keys protos))) in
      Settles-some (λ g. Resolved g × (keys g ≡ keys f))
        (resolve_references services protos fuel [] end [] f)
        (resolve_references-Resumes fuel [] end [] f depth (λ k v e. cc) (omega arith) h
          (omega (arith, fits, enough)))
