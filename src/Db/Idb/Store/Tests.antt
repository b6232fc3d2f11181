-- ===== src/Db/Idb/Store/Tests.antt =====
-- Object stores of one model, and two effects on it.
use canvas.Base.{
  if_false, if_true, ◌≡◌, refl, ap, ◌∙◌, inl, ℕ, true, Option, some, List, [], ◌∷◌, map, Str, codes,
  bytes_eq, bytes_eq_self, Result, ok, throw, ◌>>=◌,
}
use canvas.Base.Maps.{lookup, put, remove, has, Distinct, lookup-put, lookup-remove}
use canvas.Db.Types.{
  primary, primitive, string, property_name, Model, str, ModelValue, get, Effect, set, delete,
}
use canvas.Db.Tests.{js}
use canvas.Db.Validate.Holds.{strings, a_key, a_value}
use canvas.Db.Validate.Laws.{FitsAll}
use canvas.Db.Idb.{Stored, plain}
use canvas.Db.Idb.Roundtrip.{IsJsonArray}
use canvas.Db.Idb.Store.{Object, ObjectStores, get_value, apply_effects}
use canvas.Db.Idb.Store.Laws.{NoJsonArrays, IsStore, got_after, apply_effects-decisive}
use canvas.Db.Sqlite.Store.Effects.{decisive_effect}

abbrev room : Model
room = record {
  name = codes "room";
  primary_key = codes "id";
  properties = primary (codes "id") ∷ primitive (codes "name") string true ∷ [];
  indexes = [];
}

-- The key at the key path.
abbrev key_at : Option (Stored ℕ) → Result Str
key_at (some (plain (str key))) = ok key
key_at _ = throw "DataError"

abbrev pub stores_at : (key_path : Str) → ObjectStores ℕ
stores_at key_path = record {
  State = List (Str × Object ℕ);
  get_object = λ store key s. lookup key s;
  put_object = λ store object s. key_at (lookup key_path object) >>= λ key. ok (put key object s);
  delete_object = λ store key s. remove key s;
}

abbrev stores : ObjectStores ℕ
stores = stores_at room.primary_key

pub stores_at-IsStore : (model : Model) → IsStore js (stores_at model.primary_key) model
stores_at-IsStore model = record {
  puts = λ key object s h. (
    put key object s,
    ap (λ o. key_at o >>= λ k. ok (put k object s)) h,
    lookup-put key key object s ∙ if_true (bytes_eq key key) _ _ (bytes_eq_self key),
    λ k ne. lookup-put key k object s ∙ if_false (bytes_eq key k) _ _ ne,
  );
  deletes = λ key k s. lookup-remove key k s;
}

abbrev lobby : ModelValue ℕ
lobby = (codes "id", str (codes "a")) ∷ (codes "name", str (codes "Lobby")) ∷ []

lobby-FitsAll : FitsAll js room.properties lobby
unfolding lookup bytes_eq
lobby-FitsAll = (((λ h. cc), a_key), (((λ h. cc), a_value (strings _)), tt))

lobby-NoJsonArrays : NoJsonArrays js room.properties lobby
lobby-NoJsonArrays = (not_json, (not_json_name, tt))
  where
    not_json : ¬ IsJsonArray {N = ℕ} (primary (codes "id")) (get lobby (codes "id"))
    not_json (n, ss, e, k) = absurd (cc)

    not_json_name :
        ¬ IsJsonArray {N = ℕ} (primitive (codes "name") string true) (get lobby (codes "name"))
    not_json_name (n, ss, e, k) = absurd (cc)

names_differ : Distinct (map property_name room.properties)
unfolding has bytes_eq
names_differ = (refl, (refl, tt))

abbrev effects : List (Effect ℕ)
effects = set (codes "room") lobby ∷ delete (codes "room") (codes "b") ∷ []

apply_effects-decisive_example :
    (t : List (Str × Object ℕ)) × (apply_effects js stores ((codes "room", room) ∷ []) effects []
      ≡ ok t)
    × ((k : Str)
        → get_value js stores room k t
          ≡ got_after js stores room
              (decisive_effect (codes "id") k effects)
              (get_value js stores room k []))
apply_effects-decisive_example =
    apply_effects-decisive js stores room (stores_at-IsStore room) (inl refl) names_differ effects
      [] (refl, lobby-FitsAll, lobby-NoJsonArrays, (refl, tt))

-- The room is there, under its key.
lobby_found :
    apply_effects js stores ((codes "room", room) ∷ []) effects []
      >>= (λ t. get_value js stores room (codes "a") t)
    ≡ ok (some lobby)
unfolding apply_effects get_value lookup put remove bytes_eq
    canvas.Db.Validate.validate_property_value
lobby_found = refl
