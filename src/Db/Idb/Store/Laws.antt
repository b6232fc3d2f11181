-- ===== src/Db/Idb/Store/Laws.antt =====
-- The rows that effects leave in IndexedDB: packages/modeldb/src/idb/api.ts and ModelDB.ts.
use mathlib.Core.Path.{subst}
use canvas.Base.{
  bytes_eq-false-sym, or_false, ◌≡◌, refl, sym, ap, ◌∙◌, inl, inr, Bool, true, false, Option, none,
  some, List, [], ◌∷◌, map, Str, bytes_eq, bytes_eq_iff, bytes_eq_self, All, Result, ok, ◌>>=◌,
  Bool-cases, if◌then◌else◌,
}
use canvas.Base.Maps.{lookup, has, Distinct}
use canvas.Db.Types.{Property, property_name, Model, str, Js, ModelValue, get, Effect, set, delete}
use canvas.Db.Validate.Laws.{FitsAll, validate_model_value_iff}
use canvas.Db.Validate.Keys.{IsKeyIn, key_value}
use canvas.Db.Idb.{Stored, plain, encode_object, decode_object, encode_property_value}
use canvas.Db.Idb.Roundtrip.{IsJsonArray, decode_property_value-encode_property_value}
use canvas.Db.Idb.Store.{
  Object, ObjectStores, get_value, set_value, delete_value, apply_effects, decode_found,
}
use canvas.Db.Sqlite.Store.Effects.{is_str, or_later, decisive_effect}

module _ (js : Js) where
  open js use {Num}

  -- A row with the values of its properties, in their order.
  abbrev pub picked : List Property → ModelValue Num → ModelValue Num
  picked ps value = map (λ p. (property_name p, get value (property_name p))) ps

  abbrev pub NoJsonArrays : List Property → ModelValue Num → Type 0
  NoJsonArrays ps value = All (λ p. ¬ IsJsonArray p (get value (property_name p))) ps

  -- The object has the encoded value of a property.
  abbrev IsEncoded : ModelValue Num → Object Num → Property → Type 0
  IsEncoded value object p =
      lookup (property_name p) object
      ≡ some (encode_property_value js p (get value (property_name p)))

  IsEncoded-cons :
      (value : ModelValue Num) (object : Object Num) (name : Str) (v : Stored Num)
      (ps : List Property)
      → has name (map property_name ps) ≡ false
      → All (IsEncoded value object) ps
      → All (IsEncoded value ((name, v) ∷ object)) ps
  unfolding lookup has
  IsEncoded-cons value object name v [] fresh all = tt
  IsEncoded-cons value object name v (p ∷ ps) fresh all =
      let (ne, absent) = or_false (bytes_eq (property_name p) name) _ fresh in
      (
        rw (bytes_eq-false-sym (property_name p) name ne) all.0,
        IsEncoded-cons value object name v ps absent all.1,
      )

  encode_object-IsEncoded :
      (ps : List Property) (value : ModelValue Num)
      → Distinct (map property_name ps)
      → All (IsEncoded value (encode_object js ps value)) ps
  unfolding encode_object lookup
  encode_object-IsEncoded [] value d = tt
  encode_object-IsEncoded (p ∷ ps) value d = (
    rw (bytes_eq_self (property_name p)) refl,
    IsEncoded-cons value (encode_object js ps value) (property_name p) _ ps d.0
        (encode_object-IsEncoded ps value d.1),
  )

  decode_object_lem :
      (ps : List Property) (value : ModelValue Num) (object : Object Num)
      → FitsAll js ps value
      → NoJsonArrays ps value
      → All (IsEncoded value object) ps
      → decode_object js ps object ≡ ok (picked ps value)
  unfolding decode_object
  decode_object_lem [] value object fits arrays all = refl
  decode_object_lem (p ∷ ps) value object fits arrays all = rw (all.0) (
      rw
        ((decode_property_value-encode_property_value js p (get value (property_name p)) fits.0.1).0
          arrays.0)
        (rw (decode_object_lem ps value object fits.1 arrays.1 all.1) refl))

  key_entry :
      (name key : Str) (ps : List Property) (value : ModelValue Num) (object : Object Num)
      → IsKeyIn name ps
      → get value name ≡ str key
      → All (IsEncoded value object) ps
      → lookup name object ≡ some (plain (str key))
  unfolding encode_property_value
  key_entry name key [] value object is e all = absurd is
  key_entry name key (p ∷ ps) value object (inl q) e all =
      subst (λ r. IsEncoded value object r) q all.0 ∙ ap (λ v. some (plain v)) e
  key_entry name key (p ∷ ps) value object (inr is) e all =
      key_entry name key ps value object is e all.1

module _ (js : Js) (stores : ObjectStores js.Num) (model : Model) where
  open js use {Num}
  open stores use {State, get_object, put_object, delete_object}

  -- The object store of the model, whose key path is the name of the primary key.
  pub record IsStore : Type 0 where
    pub puts :
        (key : Str) (object : Object Num) (s : State)
        → lookup model.primary_key object ≡ some (plain (str key))
        → (t : State) × (put_object model.name object s ≡ ok t)
          × (get_object model.name key t ≡ some object)
          × ((k : Str)
              → bytes_eq key k ≡ false
              → get_object model.name k t ≡ get_object model.name k s)
    pub deletes :
        (key k : Str) (s : State)
        → get_object model.name k (delete_object model.name key s)
          ≡ (if bytes_eq key k then none else get_object model.name k s)

  -- Effects on the model, whose values fit it and hold no array in a JSON property.
  abbrev pub AreEffects : List (Effect Num) → Type 0
  AreEffects [] = Unit
  AreEffects (set name value ∷ effects) =
      (name ≡ model.name)
      × FitsAll js model.properties value
      × NoJsonArrays js model.properties value
      × AreEffects effects
  AreEffects (delete name key ∷ effects) = (name ≡ model.name) × AreEffects effects

  -- What `get` returns after the last effect on a key, if there was one.
  abbrev pub got_after :
      Option (Option (ModelValue Num))
      → Result (Option (ModelValue Num))
      → Result (Option (ModelValue Num))
  got_after none before = before
  got_after (some none) before = ok none
  got_after (some (some value)) before = ok (some (picked js model.properties value))

  pub got_after-or_later :
      (later first : Option (Option (ModelValue Num))) (before : Result (Option (ModelValue Num)))
      → got_after later (got_after first before) ≡ got_after (or_later later first) before
  got_after-or_later none first before = refl
  got_after-or_later (some none) first before = refl
  got_after-or_later (some (some value)) first before = refl

  module _ (is : IsStore) (keyed : IsKeyIn model.primary_key model.properties)
      (distinct : Distinct (map property_name model.properties)) where
    abbrev models : List (Str × Model)
    models = (model.name, model) ∷ []

    of_model : (name : Str) → name ≡ model.name → lookup name models ≡ some model
    unfolding lookup
    of_model name e = rw (ap (bytes_eq model.name) e ∙ bytes_eq_self model.name) refl

    abbrev found : Model → Option (Object Num) → Result (Option (ModelValue Num))
    found = decode_found js stores

    -- What a read returns after a value is set, at its key or elsewhere.
    abbrev written : ModelValue Num → Str → State → Bool → Result (Option (ModelValue Num))
    written value k s own =
        got_after (if own then some (some value) else none) (get_value js stores model k s)

    found_if :
        (c : Bool) (o : Option (Object Num))
        → found model (if c then none else o)
          ≡ got_after (if c then some none else none) (found model o)
    found_if true o = refl
    found_if false o = refl

    get_value-set_value :
        (value : ModelValue Num) (s : State)
        → FitsAll js model.properties value
        → NoJsonArrays js model.properties value
        → (t : State) × (set_value js stores model value s ≡ ok t)
          × ((k : Str)
              → get_value js stores model k t
                ≡ got_after
                    (if is_str k (get value model.primary_key) then some (some value) else none)
                    (get_value js stores model k s))
    unfolding set_value get_value
    get_value-set_value value s fits arrays =
        let object = encode_object js model.properties value in
        let encoded = encode_object-IsEncoded js model.properties value distinct in
        let (key, e) = key_value js model.primary_key model.properties value keyed fits in
        let (t, put, own, others) =
          is.puts key object s
            (key_entry js model.primary_key key model.properties value object keyed e encoded) in
        (
          t,
          rw ((validate_model_value_iff js model value).1 fits) put,
          λ k. elim (Bool-cases (bytes_eq key k)) [
            | inl same ↦
                ap (found model)
                  (ap (λ n. get_object model.name n t) (sym ((bytes_eq_iff key k).0 same)) ∙ own)
                ∙ ap (λ r. r >>= λ v. ok (some v))
                    (decode_object_lem js model.properties value object fits arrays encoded)
                ∙ ap (written value k s) (sym (ap (is_str k) e ∙ same))
            | inr ne ↦
                ap (found model) (others k ne) ∙ ap (written value k s) (sym (ap (is_str k) e ∙ ne))
          ],
        )

    get_value-delete_value :
        (key k : Str) (s : State)
        → get_value js stores model k (delete_value js stores model key s)
          ≡ got_after (if bytes_eq key k then some none else none) (get_value js stores model k s)
    unfolding delete_value get_value
    get_value-delete_value key k s =
        ap (found model) (is.deletes key k s)
        ∙ found_if (bytes_eq key k) (get_object model.name k s)

    -- A transaction of effects on one model, whose values fit it, returns, and what `get` returns of
    -- a key is decided by the last effect on the key: nothing after a delete, the values of the
    -- properties that were set after a set, and what it was before if no effect has the key. The names of the
    -- properties differ, one is the primary key, and JSON properties hold no arrays.
    pub apply_effects-decisive :
        (effects : List (Effect Num)) (s : State)
        → AreEffects effects
        → (t : State) × (apply_effects js stores models effects s ≡ ok t)
          × ((k : Str)
              → get_value js stores model k t
                ≡ got_after
                    (decisive_effect model.primary_key k effects)
                    (get_value js stores model k s))
    unfolding apply_effects
    apply_effects-decisive [] s are = (s, refl, λ k. refl)
    apply_effects-decisive (set name value ∷ effects) s (named, fits, arrays, are) =
        let (t, e, got) = get_value-set_value value s fits arrays in
        let (u, e2, after) = apply_effects-decisive effects t are in
        (
          u,
          rw (of_model name named) (rw e e2),
          λ k.
              after k
              ∙ ap (got_after (decisive_effect model.primary_key k effects)) (got k)
              ∙ got_after-or_later (decisive_effect model.primary_key k effects) _ _,
        )
    apply_effects-decisive (delete name key ∷ effects) s (named, are) =
        let (u, e2, after) =
          apply_effects-decisive effects (delete_value js stores model key s) are in
        (
          u,
          rw (of_model name named) e2,
          λ k.
              after k
              ∙ ap (got_after (decisive_effect model.primary_key k effects))
                  (get_value-delete_value key k s)
              ∙ got_after-or_later (decisive_effect model.primary_key k effects) _ _,
        )
