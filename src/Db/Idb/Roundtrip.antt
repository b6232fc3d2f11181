-- ===== src/Db/Idb/Roundtrip.antt =====
-- What IndexedDB gives back: packages/modeldb/src/idb/api.ts.
use canvas.Base.{Bool, true, false, ◌≡◌, ◌≢◌, refl, List, Str, ok, throw}
use canvas.Db.Types.{PrimitiveType, json, Property, primitive, Value, null, strs, Js}
use canvas.Db.Validate.Holds.{
  Holds, integers, floats, strings, byte_arrays, booleans, Fits, a_key, a_value, a_document,
  no_value, a_reference, no_reference, targets,
}
use canvas.Db.Idb.{encode_property_value, decode_property_value}

-- A JSON property that is not optional, with an array in it.
abbrev pub IsJsonArray : {N : Type 0} → Property → Value N → Type 0
IsJsonArray p v = (n : Str) × (ss : List Str) × (p ≡ primitive n json false) × (v ≡ strs ss)

module _ (js : Js) where
  open js use {Num}

  held_roundtrip :
      (n : Str) {t : PrimitiveType} (o : Bool) {v : Value Num}
      → Holds js t v
      → decode_property_value js (primitive n t o) (encode_property_value js (primitive n t o) v)
        ≡ ok v
  unfolding encode_property_value decode_property_value
  held_roundtrip n true (integers m h) = refl
  held_roundtrip n true (floats m) = refl
  held_roundtrip n true (strings m) = refl
  held_roundtrip n true (byte_arrays m) = refl
  held_roundtrip n true (booleans m) = refl
  held_roundtrip n false (integers m h) = refl
  held_roundtrip n false (floats m) = refl
  held_roundtrip n false (strings m) = refl
  held_roundtrip n false (byte_arrays m) = refl
  held_roundtrip n false (booleans m) = refl

  document_roundtrip :
      (n : Str) (o : Bool) (v : Value Num)
      → v ≢ null
      → ¬ IsJsonArray (primitive n json o) v
      → decode_property_value js
          (primitive n json o)
          (encode_property_value js (primitive n json o) v)
        ≡ ok v
  unfolding encode_property_value decode_property_value
  document_roundtrip n o null ne h = absurd (ne refl)
  document_roundtrip n false (strs ss) ne h = absurd (h (n, ss, refl, refl))
  document_roundtrip n true (strs ss) ne h = refl
  document_roundtrip n true v ne h = refl
  document_roundtrip n false v ne h = refl

  roundtrip :
      {p : Property} {v : Value Num}
      → Fits js p v
      → ¬ IsJsonArray p v
      → decode_property_value js p (encode_property_value js p v) ≡ ok v
  unfolding encode_property_value decode_property_value
  roundtrip a_key h = refl
  roundtrip (a_value {n} {o} k) h = held_roundtrip n o k
  roundtrip (a_document {n} {o} {v} ne e) h = document_roundtrip n o v ne h
  roundtrip no_value h = refl
  roundtrip (a_reference {o = true}) h = refl
  roundtrip (a_reference {o = false}) h = refl
  roundtrip no_reference h = refl
  roundtrip targets h = refl

  -- A value that fits its property is read back as it was stored, with one exception: an array in a
  -- JSON property that is not optional is stored, and reading it throws.
  pub decode_property_value-encode_property_value :
      (p : Property) (v : Value Num)
      → Fits js p v
      → (¬ IsJsonArray p v → decode_property_value js p (encode_property_value js p v) ≡ ok v)
        × (IsJsonArray p v
            → decode_property_value js p (encode_property_value js p v) ≡ throw "assertion failed")
  unfolding encode_property_value decode_property_value
  decode_property_value-encode_property_value p v f = (roundtrip f, λ a. fails a)
    where
      fails :
          IsJsonArray p v
          → decode_property_value js p (encode_property_value js p v) ≡ throw "assertion failed"
      fails (n, ss, e, k) = rw (e, k) refl
