-- ===== src/Db/Sqlite/Roundtrip.antt =====
-- Rows read back as they were stored: packages/modeldb/src/sqlite/encoding.ts.
use canvas.Base.{
  or_false, map, filter, All, Bool-cases, Bool, true, false, ◌≡◌, ◌≢◌, refl, ap, ◌∙◌, arith, Option,
  none, some, List, [], ◌∷◌, Str, ok, inl, inr, bytes_eq, bytes_eq_self,
}
use canvas.Base.Maps.{put, lookup, has, Distinct, lookup-put}
use canvas.Db.Types.{
  json, Property, primitive, relation, property_name, Model, Value, undefined, null, Js, ModelValue,
  get, defined,
}
use canvas.Db.Validate.Laws.{FitsAll, is_undefined-ne}
use canvas.Db.Validate.Holds.{
  integers, floats, strings, byte_arrays, booleans, Fits, a_key, a_value, a_document, no_value,
  a_reference, no_reference, targets,
}
use canvas.Db.Sqlite.{
  SqlValue, nothing, number, text, blob, column, encode_property, decode_property,
  encode_primitive_value, encode_params, decode_properties, write_param, write_value,
  encode_record_params, decode_record,
}

-- A property with a column.
abbrev pub has_column : Property → Bool
has_column (relation name target) = false
has_column _ = true

abbrev pub is_json : Property → Bool
is_json (primitive name json optional) = true
is_json _ = false

-- The parameters of some properties, by their names.
abbrev pub names : (Str → Str) → List Property → List Str
names params ps = map (λ p. params (property_name p)) ps

module _ (js : Js) (coerce : SqlValue js.Num → Str) where
  open js use {Num, num_eq, num_0, num_1, is_safe_integer, stringify, parse}

  -- JavaScript tells 0 from 1.
  pub record Bits : Type 0 where
    pub one : num_eq num_1 num_1 ≡ true
    pub zero : num_eq num_0 num_1 ≡ false

  -- A document that JSON gives back.
  abbrev pub IsDocument : Value Num → Type 0
  IsDocument v = (s : Str) → stringify v ≡ some s → parse s ≡ some v

  encode_document :
      (v : Value Num) (o : Bool) {s : Str}
      → v ≢ null
      → stringify v ≡ some s
      → encode_primitive_value js coerce json o v ≡ ok (text s)
  unfolding encode_primitive_value
  encode_document null o ne e = absurd (ne refl)
  encode_document undefined o ne e = rw e refl
  encode_document v o ne e = rw e refl

  -- Encoding a value that fits a property with a column succeeds, and decoding gives it back.
  property_roundtrip :
      {p : Property} {v : Value Num}
      → Bits
      → Fits js p v
      → has_column p ≡ true
      → (is_json p ≡ true → IsDocument v)
      → (s : SqlValue Num) × (encode_property js coerce p v ≡ ok (some s))
        × (decode_property js coerce p s ≡ ok (some v))
  unfolding encode_property decode_property
  property_roundtrip b (a_key {s}) c d = (text s, refl, refl)
  property_roundtrip b (a_value (integers m h)) c d = (number m, rw h refl, rw h refl)
  property_roundtrip b (a_value (floats m)) c d = (number m, refl, refl)
  property_roundtrip b (a_value (strings m)) c d = (text m, refl, refl)
  property_roundtrip b (a_value (byte_arrays m)) c d = (blob m, refl, refl)
  property_roundtrip b (a_value (booleans true)) c d = (number num_1, refl, rw b.one refl)
  property_roundtrip b (a_value (booleans false)) c d = (number num_0, refl, rw b.zero refl)
  property_roundtrip b (a_document {s} {o} {v} ne e) c d =
      (text s, rw (encode_document v o ne e) refl, rw (d refl s e) refl)
  property_roundtrip b no_value c d = (nothing, refl, refl)
  property_roundtrip b (a_reference {s}) c d = (text s, refl, refl)
  property_roundtrip b no_reference c d = (nothing, refl, refl)
  property_roundtrip b targets c d = absurd (cc)

  -- A row of the table holds, at each property with a column, what decodes to the property's value.
  abbrev pub StoredAt : (Str → Str) → ModelValue Num → List (Str × SqlValue Num) → Property → Type 0
  StoredAt params row values p =
      has_column p ≡ true
      → (s : SqlValue Num) × (lookup (params (property_name p)) values ≡ some s)
        × (decode_property js coerce p s ≡ ok (some (get row (property_name p))))

  abbrev pub Documents : List Property → ModelValue Num → Type 0
  Documents ps row = All (λ p. is_json p ≡ true → IsDocument (get row (property_name p))) ps

  lookup-write_param :
      (n m : Str) (s : Option (SqlValue Num)) (values : List (Str × SqlValue Num))
      → bytes_eq n m ≡ false
      → lookup m (write_param js coerce n s values) ≡ lookup m values
  lookup-write_param n m none values h = refl
  lookup-write_param n m (some s) values h = lookup-put n m s values ∙ rw h

  encode_relation :
      (p : Property) {v : Value Num}
      → Fits js p v
      → has_column p ≡ false
      → (encode_property js coerce p v ≡ ok none)
        × ((s : SqlValue Num) → decode_property js coerce p s ≡ ok none)
  unfolding encode_property decode_property
  encode_relation (relation n target) targets c = (refl, λ s. refl)
  encode_relation p f c = absurd (cc)

  has-columns :
      (params : Str → Str) (m : Str) (ps : List Property)
      → has m (names params ps) ≡ false
      → has m (names params (filter has_column ps)) ≡ false
  unfolding has
  has-columns params m [] h = h
  has-columns params m (p ∷ ps) h = elim (Bool-cases (has_column p)) [
    | inl c ↦ rw c (ground (arith, has-columns params m ps))
    | inr c ↦ rw c (has-columns params m ps (ground arith))
  ]

  Distinct-columns :
      (params : Str → Str) (ps : List Property)
      → Distinct (names params ps)
      → Distinct (names params (filter has_column ps))
  Distinct-columns params [] d = tt
  Distinct-columns params (p ∷ ps) (fresh, d) = elim (Bool-cases (has_column p)) [
    | inl c ↦
        rw c (has-columns params (params (property_name p)) ps fresh, Distinct-columns params ps d)
    | inr c ↦ rw c (Distinct-columns params ps d)
  ]

  pub encode-All :
      (params : Str → Str) (ps : List Property) (row : ModelValue Num)
      (acc : List (Str × SqlValue Num))
      → Bits
      → FitsAll js ps row
      → Distinct (names params (filter has_column ps))
      → Documents ps row
      → (values : List (Str × SqlValue Num)) × (encode_params js coerce params ps row acc
          ≡ ok values)
        × ((m : Str)
            → has m (names params (filter has_column ps)) ≡ false
            → lookup m values ≡ lookup m acc)
        × All (StoredAt params row values) ps
  unfolding encode_params has
  encode-All params [] row acc b f d docs = (acc, refl, (λ m h. refl), tt)
  encode-All params (p ∷ ps) row acc b ((def, fit), fs) d (doc, docs) =
      elim (Bool-cases (has_column p)) [
        | inl c ↦
            let (fresh, rest) = rw c at d in
            let q = params (property_name p) in
            let (s, e, back) = property_roundtrip b fit c doc in
            let (values, run, outside, stored) =
              encode-All params ps row (put q s acc) b fs rest docs in
            (
              values,
              rw (is_undefined-ne js _ def, e) run,
              (λ m h.
                  let (ne, absent) = or_false (bytes_eq q m) _ (rw c at h) in
                  outside m absent ∙ lookup-put q m s acc ∙ rw ne refl),
              (
                (λ _.
                    (s, outside _ fresh ∙ lookup-put q q s acc ∙ rw (bytes_eq_self q) refl, back)),
                stored,
              ),
            )
        | inr c ↦
            let (e, _) = encode_relation p fit c in
            let (values, run, outside, stored) =
              encode-All params ps row acc b fs (rw c at d) docs in
            (
              values,
              rw (is_undefined-ne js _ def, e) run,
              (λ m h. outside m (rw c at h)),
              ((λ k. absurd (ground arith)), stored),
            )
      ]

  abbrev pub Reads : ModelValue Num → ModelValue Num → Property → Type 0
  Reads row out p = has_column p ≡ true → get out (property_name p) ≡ get row (property_name p)

  lookup-write_value :
      (n m : Str) (v : Option (Value Num)) (row : ModelValue Num)
      → bytes_eq n m ≡ false
      → lookup m (write_value js coerce n v row) ≡ lookup m row
  lookup-write_value n m none row h = refl
  lookup-write_value n m (some v) row h = lookup-put n m v row ∙ rw h refl

  column_lem :
      (values : List (Str × SqlValue Num)) (n : Str) {s : SqlValue Num}
      → lookup n values ≡ some s
      → column values n ≡ s
  column_lem values n e = rw (e, column)

  pub decode-All :
      (ps : List Property) (row acc : ModelValue Num) (values : List (Str × SqlValue Num))
      → FitsAll js ps row
      → Distinct (names (λ n. n) ps)
      → All (StoredAt (λ n. n) row values) ps
      → (out : ModelValue Num) × (decode_properties js coerce ps values acc ≡ ok out)
        × ((m : Str) → has m (names (λ n. n) ps) ≡ false → lookup m out ≡ lookup m acc)
        × All (Reads row out) ps
  unfolding decode_properties has
  decode-All [] row acc values f d st = (acc, refl, (λ m h. refl), tt)
  decode-All (p ∷ ps) row acc values ((def, fit), fs) (fresh, d) (st, sts) =
      elim (Bool-cases (has_column p)) [
        | inl c ↦
            let (s, at, back) = st c in
            let v : Value Num = get row (property_name p) in
            let (out, run, outside, reads) =
              decode-All ps row (put (property_name p) v acc) values fs d sts in
            (
              out,
              rw (column_lem values (property_name p) at, back) run,
              (λ m h.
                  outside m (ground arith)
                  ∙ lookup-write_value (property_name p) m (some v) acc (ground arith)),
              (
                (λ _. ap defined {y = some v} (
                    outside _ fresh
                    ∙ lookup-put (property_name p) (property_name p) v acc
                    ∙ rw (bytes_eq_self (property_name p)) refl)),
                reads,
              ),
            )
        | inr c ↦
            let (_, e) = encode_relation p fit c in
            let (out, run, outside, reads) = decode-All ps row acc values fs d sts in
            (
              out,
              rw (e (column values (property_name p))) run,
              (λ m h. outside m (ground arith)),
              ((λ k. absurd (ground arith)), reads),
            )
      ]

  -- A valid row, of a model whose property names differ, is encoded without an error, and decoding
  -- the record gives back its value at every property but the relations, which have tables of their
  -- own. JSON properties must hold documents that JSON gives back.
  pub decode_record-encode_record_params :
      (model : Model) (row : ModelValue Num)
      → Bits
      → FitsAll js model.properties row
      → Distinct (map property_name model.properties)
      → All (λ p. is_json p ≡ true → IsDocument (get row (property_name p))) model.properties
      → (values : List (Str × SqlValue Num)) × (out : ModelValue Num) × (encode_record_params js
            coerce model row
            (λ n. n)
          ≡ ok values)
        × (decode_record js coerce model values ≡ ok out)
        × All
            (λ p. has_column p ≡ true → get out (property_name p) ≡ get row (property_name p))
            model.properties
  unfolding encode_record_params decode_record
  decode_record-encode_record_params model row b f d docs =
      let (values, run, _, stored) =
        encode-All (λ n. n) model.properties row [] b f
          (Distinct-columns (λ n. n) model.properties d) docs in
      let (out, back, _, reads) = decode-All model.properties row [] values f d stored in
      (values, out, run, back, reads)
