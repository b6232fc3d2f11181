-- ===== src/Runtime/Cells.antt =====
-- What a message does to one row: packages/core/src/runtime/AbstractRuntime.ts.
use canvas.Base.{
  Bool, true, false, ◌&&◌, ◌≡◌, refl, ap, sym, ◌∙◌, arith, Option, none, some, List, [], ◌∷◌, ◌++◌,
  map, Str, Bytes, bytes_eq, bytes_eq_iff, bytes_lt, if◌then◌else◌, inl, inr, Bool-cases, All,
}
use canvas.Base.Maps.{lookup, lookup-put, has, Distinct}
use canvas.Runtime.State.{
  Db, Effect, set_version, Env, is_own, update_row, apply_effect, apply_effects,
}
use canvas.Runtime.Consumer.{
  version_key, row_effect, is_older, entry_effects, model_effects, all_effects,
}

-- The version and the row under one key of one model.
pub record Cell (Row : Type 0) : Type 0 where
  pub version : Option Bytes
  pub row : Option Row

apply_effects-append :
    {Row : Type 0} (es fs : List (Effect Row)) (db : Db Row)
    → apply_effects (es ++ fs) db ≡ apply_effects fs (apply_effects es db)
unfolding apply_effects
apply_effects-append [] fs db = refl
apply_effects-append (e ∷ es) fs db = apply_effects-append es fs (apply_effect e db)

-- No row is newer than an id.
abbrev is_newer : Bytes → Option Bytes → Bool
is_newer id none = false
is_newer id (some existing) = bytes_lt id existing

-- A write with an id wins over a row of a smaller id.
abbrev pub write : {Row : Type 0} → Bytes → Option Row → Cell Row → Cell Row
write id value c = if is_newer id c.version then c else record { version = some id; row = value }

abbrev pub write_at : {Row : Type 0} → Bytes → Option (Option Row) → Cell Row → Cell Row
write_at id none c = c
write_at id (some value) c = write id value c

-- Entries as `execute` returns them: objects, whose keys differ.
abbrev pub keys_of : {V : Type 0} → List (Str × V) → List Str
keys_of entries = map (λ e. e.0) entries

-- No entry is one of the runtime's own tables.
abbrev pub IsForeign : {V : Type 0} → (index_history : Bool) → Str → List (Str × V) → Type 0
IsForeign history model [] = Unit
IsForeign history model (e ∷ entries) =
    (is_own history model ≡ false) × IsForeign history model entries

abbrev pub AreForeign : {V : Type 0} → (index_history : Bool) → List (Str × List (Str × V)) → Type 0
AreForeign history models = All (λ e. IsForeign history e.0 e.1) models

abbrev pub AreObjects : {V : Type 0} → List (Str × List (Str × V)) → Type 0
AreObjects models = Distinct (keys_of models) × All (λ e. Distinct (keys_of e.1)) models

module _ (env : Env) where
  open env use {Args, Row, index_history, key_hash, encode_id, execute}

  -- Keys of `$versions` differ for different rows.
  pub record DistinctKeys : Type 0 where
    pub version_keys :
        (m k m' k' : Str)
        → bytes_eq (version_key env m k) (version_key env m' k') ≡ (bytes_eq m m' && bytes_eq k k')

  abbrev pub cell : Str → Str → Db Row → Cell Row
  cell m k db = record { version = lookup (version_key env m k) db.versions; row = db.rows m k }

  abbrev pub entry_at : Str → Option (List (Str × Option Row)) → Option (Option Row)
  entry_at k none = none
  entry_at k (some entries) = lookup k entries

  abbrev pub value_at : Str → Str → List (Str × List (Str × Option Row)) → Option (Option Row)
  value_at m k models = entry_at k (lookup m models)

  lookup-absent :
      {V : Type 0} (k : Str) (l : List (Str × V)) → has k (keys_of l) ≡ false → lookup k l ≡ none
  unfolding lookup has
  lookup-absent k [] h = refl
  lookup-absent k ((j, v) ∷ l) h = ground (arith, lookup-absent k l)

  module _ (d : DistinctKeys) (latest : index_history ≡ false) (m k : Str) (db : Db Row)
      (id : Str) where
    version_write :
        (m' k' : Str) (v : Option Row) (db1 : Db Row)
        → is_own index_history m' ≡ false
        → cell m k (
            apply_effects
              (set_version (version_key env m' k') (encode_id id) ∷ row_effect env m' k' v ∷ [])
              db1)
          ≡ (if bytes_eq m' m && bytes_eq k' k
              then record { version = some (encode_id id); row = v }
              else cell m k db1)
    unfolding apply_effects apply_effect update_row
    version_write m' k' none db1 f = rw f (
        ground (
          arith,
          lookup-put (version_key env m' k') (version_key env m k) (encode_id id) db1.versions,
          d.version_keys m' k' m k,
        ))
    version_write m' k' (some r) db1 f = rw f (
        ground (
          arith,
          lookup-put (version_key env m' k') (version_key env m k) (encode_id id) db1.versions,
          d.version_keys m' k' m k,
        ))

    is_older-is_newer :
        (o : Option Bytes) → is_older env (encode_id id) o ≡ is_newer (encode_id id) o
    is_older-is_newer none = refl
    is_older-is_newer (some b) = refl

    entry_effects_lem :
        (m' k' : Str) (v : Option Row)
        → entry_effects env db id m' k' v ≡ (
            if is_newer (encode_id id) (lookup (version_key env m' k') db.versions)
            then []
            else (set_version (version_key env m' k') (encode_id id) ∷ row_effect env m' k' v ∷ []))
    unfolding entry_effects
    entry_effects_lem m' k' v =
        rw latest (rw (is_older-is_newer (lookup (version_key env m' k') db.versions)) refl)

    same_key :
        (m' k' : Str)
        → bytes_eq m' m && bytes_eq k' k ≡ true
        → version_key env m' k' ≡ version_key env m k
    same_key m' k' h =
        let p : m' ≡ m = ground (arith, bytes_eq_iff m' m) in
        let q : k' ≡ k = ground (arith, bytes_eq_iff k' k) in cc

    version_here :
        (m' k' : Str) (db1 : Db Row) {b : Bool}
        → cell m k db1 ≡ cell m k db
        → bytes_eq m' m && bytes_eq k' k ≡ true
        → is_newer (encode_id id) (lookup (version_key env m' k') db.versions) ≡ b
        → is_newer (encode_id id) (lookup (version_key env m k) db1.versions) ≡ b
    version_here m' k' db1 e w n =
        ap (λ (c : Cell Row). is_newer (encode_id id) c.version) e
        ∙ ap (λ q. is_newer (encode_id id) (lookup q db.versions)) (sym (same_key m' k' w))
        ∙ n

    -- One entry, whose effects are chosen by what `db` holds.
    entry_cell :
        (m' k' : Str) (v : Option Row) (db1 : Db Row)
        → is_own index_history m' ≡ false
        → cell m k db1 ≡ cell m k db
        → cell m k (apply_effects (entry_effects env db id m' k' v) db1) ≡ (
            if bytes_eq m' m && bytes_eq k' k
            then write (encode_id id) v (cell m k db1)
            else cell m k db1)
    unfolding apply_effects
    entry_cell m' k' v db1 f e =
        rw (entry_effects_lem m' k' v)
          (elim (Bool-cases
            (is_newer (encode_id id) (lookup (version_key env m' k') db.versions))) [
              | inl n ↦ rw n (kept n)
              | inr n ↦ rw n (version_write m' k' v db1 f ∙ written n)
            ])
      where
        kept :
            is_newer (encode_id id) (lookup (version_key env m' k') db.versions) ≡ true
            → cell m k db1 ≡ (
                if bytes_eq m' m && bytes_eq k' k
                then write (encode_id id) v (cell m k db1)
                else cell m k db1)
        kept n = elim (Bool-cases (bytes_eq m' m && bytes_eq k' k)) [
          | inl w ↦ rw (w, version_here m' k' db1 e w n) refl
          | inr w ↦ rw w refl
        ]

        written :
            is_newer (encode_id id) (lookup (version_key env m' k') db.versions) ≡ false
            → (if bytes_eq m' m && bytes_eq k' k
                then record { version = some (encode_id id); row = v }
                else cell m k db1)
              ≡ (if bytes_eq m' m && bytes_eq k' k
                  then write (encode_id id) v (cell m k db1)
                  else cell m k db1)
        written n = elim (Bool-cases (bytes_eq m' m && bytes_eq k' k)) [
          | inl w ↦ rw (w, version_here m' k' db1 e w n) refl
          | inr w ↦ rw w refl
        ]

    entry_elsewhere :
        (m' k' : Str) (v : Option Row) (db1 : Db Row)
        → is_own index_history m' ≡ false
        → bytes_eq m' m && bytes_eq k' k ≡ false
        → cell m k (apply_effects (entry_effects env db id m' k' v) db1) ≡ cell m k db1
    unfolding apply_effects
    entry_elsewhere m' k' v db1 f w =
        rw (entry_effects_lem m' k' v)
          (elim (Bool-cases
            (is_newer (encode_id id) (lookup (version_key env m' k') db.versions))) [
              | inl n ↦ rw n refl
              | inr n ↦ rw n (version_write m' k' v db1 f ∙ rw w refl)
            ])

    model_elsewhere :
        (m' : Str) (entries : List (Str × Option Row)) (db1 : Db Row)
        → IsForeign index_history m' entries
        → bytes_eq m' m && has k (keys_of entries) ≡ false
        → cell m k (apply_effects (model_effects env db id m' entries) db1) ≡ cell m k db1
    unfolding model_effects apply_effects has
    model_elsewhere m' [] db1 f w = refl
    model_elsewhere m' ((k', v) ∷ entries) db1 (f, fs) w =
        ap (cell m k) (apply_effects-append (entry_effects env db id m' k' v) _ db1)
        ∙ model_elsewhere m' entries _ fs (ground arith)
        ∙ entry_elsewhere m' k' v db1 f (ground arith)

    model_cell :
        (m' : Str) (entries : List (Str × Option Row)) (db1 : Db Row)
        → IsForeign index_history m' entries
        → Distinct (keys_of entries)
        → cell m k db1 ≡ cell m k db
        → cell m k (apply_effects (model_effects env db id m' entries) db1)
          ≡ write_at
              (encode_id id)
              (if bytes_eq m' m then lookup k entries else none)
              (cell m k db1)
    unfolding model_effects apply_effects has lookup
    model_cell m' [] db1 f u e = ground arith
    model_cell m' ((k', v) ∷ entries) db1 (f, fs) (fresh, u) e =
        ap (cell m k) (apply_effects-append (entry_effects env db id m' k' v) _ db1)
        ∙ elim (Bool-cases (bytes_eq m' m && bytes_eq k' k)) [
          | inl w ↦
              let q : k' ≡ k = ground (arith, bytes_eq_iff k' k) in
              model_elsewhere m' entries _ fs (rw (rw q at fresh) (ground arith))
              ∙ entry_cell m' k' v db1 f e
              ∙ rw w (written w)
          | inr w ↦
              model_cell m' entries _ fs u (entry_elsewhere m' k' v db1 f w ∙ e)
              ∙ ap (write_at (encode_id id) (if bytes_eq m' m then lookup k entries else none))
                  (entry_elsewhere m' k' v db1 f w)
              ∙ ap (λ o. write_at (encode_id id) o (cell m k db1)) (ground arith)
        ]
      where
        written :
            bytes_eq m' m && bytes_eq k' k ≡ true
            → write (encode_id id) v (cell m k db1)
              ≡ write_at
                  (encode_id id)
                  (if bytes_eq m' m then lookup k ((k', v) ∷ entries) else none)
                  (cell m k db1)
        written w =
            let p : bytes_eq m' m ≡ true = ground arith in
            let q : bytes_eq k' k ≡ true = ground arith in rw (p, q) refl

    all_elsewhere :
        (models : List (Str × List (Str × Option Row))) (db1 : Db Row)
        → AreForeign index_history models
        → has m (keys_of models) ≡ false
        → cell m k (apply_effects (all_effects env db id models) db1) ≡ cell m k db1
    unfolding all_effects apply_effects has
    all_elsewhere [] db1 f w = refl
    all_elsewhere ((m', entries) ∷ models) db1 (f, fs) w =
        ap (cell m k) (apply_effects-append (model_effects env db id m' entries) _ db1)
        ∙ all_elsewhere models _ fs (ground arith)
        ∙ model_elsewhere m' entries db1 f (ground arith)

    -- All effects of an action.
    pub all_cell :
        (models : List (Str × List (Str × Option Row))) (db1 : Db Row)
        → AreForeign index_history models
        → AreObjects models
        → cell m k db1 ≡ cell m k db
        → cell m k (apply_effects (all_effects env db id models) db1)
          ≡ write_at (encode_id id) (value_at m k models) (cell m k db1)
    unfolding all_effects apply_effects has lookup
    all_cell [] db1 f u e = refl
    all_cell ((m', entries) ∷ models) db1 (f, fs) ((fresh, u), (uk, us)) e =
        ap (cell m k) (apply_effects-append (model_effects env db id m' entries) _ db1)
        ∙ elim (Bool-cases (bytes_eq m' m)) [
          | inl w ↦
              let q : m' ≡ m = ground (arith, bytes_eq_iff m' m) in
              all_elsewhere models _ fs (rw (rw q at fresh) (ground arith))
              ∙ model_cell m' entries db1 f uk e
              ∙ rw w refl
          | inr w ↦
              all_cell models _ fs (u, us) (skipped w ∙ e)
              ∙ ap (write_at (encode_id id) (value_at m k models)) (skipped w)
              ∙ rw w refl
        ]
      where
        skipped :
            bytes_eq m' m ≡ false
            → cell m k (apply_effects (model_effects env db id m' entries) db1) ≡ cell m k db1
        skipped w = model_cell m' entries db1 f uk e ∙ rw w refl
