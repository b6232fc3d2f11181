-- ===== src/Db/Validate/Laws.antt =====
-- `validatePropertyValue` and `validateModelValue` decide a predicate: packages/modeldb/src/utils.ts.
use canvas.Base.{
  ℕ, Bool, true, false, ◌&&◌, ◌≡◌, ◌≢◌, ◌↔◌, ◌⊎◌, refl, arith, Option, some, List, [], ◌∷◌, Str, ok,
  assert, Option-cases, Bool-cases, inl, inr, >>=-eq-ok, All,
}
use canvas.Db.Types.{
  PrimitiveType, integer, float, string, bytes, boolean, json, Property, primary, primitive,
  reference, relation, property_name, Model, Value, undefined, null, bool, num, str, bin, strs, Js,
  ModelValue, get,
}
use canvas.Db.Validate.{
  validate_type, validate_property_value, validate_properties, validate_model_value, is_undefined,
  is_some, is_null,
}
use canvas.Db.Validate.Holds.{
  integers, floats, strings, byte_arrays, booleans, Fits, a_key, a_value, a_document, no_value,
  a_reference, no_reference, targets,
}

module _ (js : Js) where
  open js use {Num, is_safe_integer, stringify}

  is_some_sound :
      {o : Option (List ℕ)}
      → assert (is_some js o) "must be JSON-serializable" ≡ ok tt
      → (s : List ℕ) × (o ≡ some s)
  is_some_sound {o} h = elim (Option-cases o) [ inl e ↦ absurd (ground arith) | inr x ↦ x ]

  type_sound :
      (n : Str) (t : PrimitiveType) (o : Bool) (v : Value Num)
      → validate_type js t v ≡ ok tt
      → Fits js (primitive n t o) v
  unfolding validate_type
  type_sound n integer o (num m) h = a_value (integers m (ground arith))
  type_sound n float o (num m) h = a_value (floats m)
  type_sound n string o (str s) h = a_value (strings s)
  type_sound n bytes o (bin b) h = a_value (byte_arrays b)
  type_sound n boolean o (bool b) h = a_value (booleans b)
  type_sound n json o null h = absurd (cc)
  type_sound n json o (num m) h = a_document (cc) (is_some_sound h).1
  type_sound n json o (str m) h = a_document (cc) (is_some_sound h).1
  type_sound n json o (bin m) h = a_document (cc) (is_some_sound h).1
  type_sound n json o (bool m) h = a_document (cc) (is_some_sound h).1
  type_sound n json o (strs m) h = a_document (cc) (is_some_sound h).1
  type_sound n json o undefined h = a_document (cc) (is_some_sound h).1
  type_sound n t o v h = absurd (cc)

  property_sound :
      (p : Property) (v : Value Num) → validate_property_value js p v ≡ ok tt → Fits js p v
  unfolding validate_property_value
  property_sound (primary n) (str s) h = a_key
  property_sound (primitive n t true) null h = no_value
  property_sound (primitive n t true) v h = type_sound n t true v h
  property_sound (primitive n t false) v h = type_sound n t false v h
  property_sound (reference n target true) null h = no_reference
  property_sound (reference n target o) (str s) h = a_reference
  property_sound (relation n target) (strs ss) h = targets
  property_sound p v h = absurd (ground arith)

  json_complete :
      (v : Value Num) {s : Str} → v ≢ null → stringify v ≡ some s → validate_type js json v ≡ ok tt
  unfolding validate_type
  json_complete undefined ne e = ground arith
  json_complete null ne e = absurd (ne refl)
  json_complete v ne e = ground arith

  property_complete :
      {p : Property} {v : Value Num} → Fits js p v → validate_property_value js p v ≡ ok tt
  unfolding validate_property_value
  property_complete a_key = refl
  property_complete (a_value (integers m h)) = ground arith
  property_complete (a_value (floats m)) = ground arith
  property_complete (a_value (strings m)) = ground arith
  property_complete (a_value (byte_arrays m)) = ground arith
  property_complete (a_value (booleans m)) = ground arith
  property_complete (a_document {o} {v} ne e) = elim (Bool-cases (o && is_null js v)) [
    | inl h ↦ rw h
    | inr h ↦ rw h (json_complete v ne e)
  ]
  property_complete no_value = refl
  property_complete a_reference = ground arith
  property_complete no_reference = refl
  property_complete targets = refl

  -- A value is accepted at a property exactly if it fits it: of the property's type, or null where
  -- the property is optional.
  pub validate_property_value_iff :
      (p : Property) (v : Value Num) → (validate_property_value js p v ≡ ok tt) ↔ Fits js p v
  validate_property_value_iff p v = (property_sound p v, property_complete)

  -- A row holds a value for each property that fits it.
  abbrev pub FitsAll : List Property → ModelValue Num → Type 0
  FitsAll ps row =
      All (λ p. (get row (property_name p) ≢ undefined) × Fits js p (get row (property_name p))) ps

  undefined_cases :
      (v : Value Num) → (v ≡ undefined) ⊎ ((v ≢ undefined) × (is_undefined js v ≡ false))
  undefined_cases undefined = inl refl
  undefined_cases v = inr ((cc), refl)

  pub is_undefined-ne : (v : Value Num) → v ≢ undefined → is_undefined js v ≡ false
  is_undefined-ne undefined h = absurd (h refl)
  is_undefined-ne v h = refl

  rows_sound :
      (ps : List Property) (row : ModelValue Num)
      → validate_properties js ps row ≡ ok tt
      → FitsAll ps row
  unfolding validate_properties
  rows_sound [] row h = tt
  rows_sound (p ∷ ps) row h = elim (undefined_cases (get row (property_name p))) [
    | inl e ↦ absurd (ground (arith, e))
    | inr (d, e) ↦
        let h1 = rw e at h in
        let (u, first, rest) =
          >>=-eq-ok (validate_property_value js p (get row (property_name p))) _ h1 in
        ((d, property_sound p _ first), rows_sound ps row rest)
  ]

  rows_complete :
      (ps : List Property) (row : ModelValue Num)
      → FitsAll ps row
      → validate_properties js ps row ≡ ok tt
  unfolding validate_properties
  rows_complete [] row h = refl
  rows_complete (p ∷ ps) row ((d, fits), rest) =
      elim (undefined_cases (get row (property_name p))) [
        | inl e ↦ absurd (d e)
        | inr (_, e) ↦ rw (e, property_complete fits) (rows_complete ps row rest)
      ]

  -- `validateModelValue` accepts a row exactly if it defines every property of the model, each with a
  -- value that fits.
  pub validate_model_value_iff :
      (model : Model) (row : ModelValue Num)
      → (validate_model_value js model row ≡ ok tt) ↔ FitsAll model.properties row
  unfolding validate_model_value
  validate_model_value_iff model row =
      (rows_sound model.properties row, rows_complete model.properties row)
