-- ===== src/Db/Validate/Keys.antt =====
-- The primary key of a row: packages/modeldb/src/config.ts and utils.ts.
use mathlib.Core.Path.{subst}
use canvas.Base.{◌≡◌, refl, ◌⊎◌, inl, inr, List, [], ◌∷◌, Str}
use canvas.Db.Types.{Property, primary, property_name, Value, str, Js, ModelValue, get}
use canvas.Db.Validate.Holds.{Fits, a_key}
use canvas.Db.Validate.Laws.{FitsAll}

-- The model's primary key is the name of a primary property.
abbrev pub IsKeyIn : Str → List Property → Type 0
IsKeyIn name [] = ⊥
IsKeyIn name (p ∷ ps) = (p ≡ primary name) ⊎ IsKeyIn name ps

module _ (js : Js) where
  open js use {Num}

  of_key : (name : Str) {v : Value Num} → Fits js (primary name) v → (s : Str) × (v ≡ str s)
  of_key name (a_key {s}) = (s, refl)

  -- A row that fits has a string for its key.
  pub key_value :
      (name : Str) (ps : List Property) (value : ModelValue Num)
      → IsKeyIn name ps
      → FitsAll js ps value
      → (key : Str) × (get value name ≡ str key)
  key_value name [] value h fits = absurd h
  key_value name (p ∷ ps) value (inl e) fits =
      of_key name (subst (λ q. Fits js q (get value (property_name q))) e fits.0.1)
  key_value name (p ∷ ps) value (inr h) fits = key_value name ps value h fits.1
