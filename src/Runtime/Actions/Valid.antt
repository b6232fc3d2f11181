-- ===== src/Runtime/Actions/Valid.antt =====
-- The rows that actions write fit their models, whatever the contract does:
-- packages/core/src/runtime/ContractRuntime.ts, FunctionRuntime.ts and AbstractRuntime.ts.
use mathlib.Core.Path.{subst}
use canvas.Base.{
  some_inj, ◌≡◌, inl, inr, Bool, true, false, ◌&&◌, Option, none, some, List, [], ◌∷◌, ◌++◌, Str,
  leb, bytes_eq, bytes_eq_iff, Bool-cases, ok, >>=-eq-ok, assert-eq-ok, ok_inj, All, OnOk-at,
  if◌then◌else◌, arith, any,
}
use canvas.Base.Maps.{lookup, put}
use canvas.Gossip.Log.Types.{or_throw, Txn}
use canvas.Db.Types.{Model, str, ModelValue, get}
use canvas.Db.Validate.Laws.{FitsAll}
use canvas.Runtime.State.{
  Payload, session, action, other, Delivery, Db, Env, Effect, set_effect, set_version, set_row,
  delete_row, own_row, is_own, max_safe_integer, apply_effect, apply_effects, update_row,
}
use canvas.Runtime.Consumer.{
  authorises, is_older, is_superseded, entry_effects, model_effects, all_effects, apply_session,
  apply_action, consume, consume_all, get_model_value, version_key, row_effect, write_row, expires,
}
use canvas.Runtime.Actions.{Entries, Kind, Host, put_entry, no_entries, runtime_of, execute_payload}
use canvas.Runtime.Actions.Laws.{AreKeyed, or_throw-eq-ok, lookup-All}
use canvas.Runtime.Actions.Runs.{Writes-any, IsKept, execute_payload-P}
use canvas.Runtime.Actions.Objects.{All-put}

module _ (host : Host) where
  open host use {js, Args, models}

  -- A row that fits the model, under its primary key.
  pub record IsRow (name key : Str) (value : ModelValue js.Num) : Type 0 where
    pub model : Model
    pub found : lookup name models ≡ some model
    pub fits : FitsAll js model.properties value
    pub keyed : get value model.primary_key ≡ str key

  -- Every row of the database fits its model.
  abbrev pub AreRows : Db (ModelValue js.Num) → Type 0
  AreRows db =
      (name key : Str) (value : ModelValue js.Num)
      → db.rows name key ≡ some value
      → IsRow name key value

  unfoldable IsEntry : Str → (Str × Option (ModelValue js.Num)) → Type 0
  IsEntry name (key, none) = Unit
  IsEntry name (key, some value) = IsRow name key value

  unfoldable AreEntries : Entries js.Num → Type 0
  unfolding IsEntry
  AreEntries entries = All (λ e. All (IsEntry e.0) e.1) entries

  AreEntries-put_entry :
      (name key : Str) (value : Option (ModelValue js.Num)) (entries : Entries js.Num)
      {entries' : Entries js.Num}
      → AreEntries entries
      → IsEntry name (key, value)
      → put_entry name key value entries ≡ ok entries'
      → AreEntries entries'
  unfolding AreEntries put_entry
  AreEntries-put_entry name key value entries all p h =
      let (rows, e, h1) =
        >>=-eq-ok (or_throw (lookup name entries) "modelEntries[model] is undefined") _ h in
      let found = or_throw-eq-ok (lookup name entries) "modelEntries[model] is undefined" e in
      subst AreEntries (ok_inj h1) (
        All-put (λ e. All (IsEntry e.0) e.1) name (put key value rows) entries all
          (All-put (IsEntry name) key value rows
            (lookup-All (λ e. All (IsEntry e.0) e.1) name entries all found) p))

  AreEntries-no_entries : (ms : List (Str × Model)) → AreEntries (no_entries {N = js.Num} ms)
  unfolding AreEntries
  AreEntries-no_entries [] = tt
  AreEntries-no_entries (m ∷ ms) = (tt, AreEntries-no_entries ms)

  -- Rows of any model.
  abbrev IsAny : Str → Type 0
  IsAny name = Unit

  AreEntries-IsKept : IsKept host IsAny AreEntries
  unfolding IsEntry
  AreEntries-IsKept = record {
    at_first = AreEntries-no_entries models;
    by_set = λ name value entries any p w.
        AreEntries-put_entry name w.key (some value) entries p
          (record { model = w.model; found = w.found; fits = w.fits; keyed = w.keyed }) w.written;
    by_delete = λ name key entries any p w. AreEntries-put_entry name key none entries p tt w;
  }

  unfoldable IsFit : Effect (ModelValue js.Num) → Type 0
  IsFit (set_row name key value) = IsRow name key value
  IsFit (set_effect key value) = Unit
  IsFit (own_row w) = Unit
  IsFit (set_version key value) = Unit
  IsFit (delete_row name key) = Unit

  All-append :
      (xs ys : List (Effect (ModelValue js.Num)))
      → All IsFit xs
      → All IsFit ys
      → All IsFit (xs ++ ys)
  All-append [] ys a b = b
  All-append (x ∷ xs) ys a b = (a.0, All-append xs ys a.1 b)

  moved :
      (name key name' key' : Str) (v value : ModelValue js.Num)
      → IsRow name key v
      → (bytes_eq name name' && bytes_eq key key') ≡ true
      → some v ≡ some value
      → IsRow name' key' value
  moved name key name' key' v value row here e =
      let names : name ≡ name' = ground (arith, bytes_eq_iff name name') in
      let keys : key ≡ key' = ground (arith, bytes_eq_iff key key') in
      subst (λ n. IsRow n key' value) names
        (subst (λ k. IsRow name k value) keys (subst (λ u. IsRow name key u) (some_inj e) row))

  not_written : {v : ModelValue js.Num} → ◌≡◌ {A = Option (ModelValue js.Num)} none (some v) → ⊥
  not_written e = cc

  AreRows-apply_effect :
      (e : Effect (ModelValue js.Num)) (db : Db (ModelValue js.Num))
      → IsFit e
      → AreRows db
      → AreRows (apply_effect e db)
  unfolding apply_effect IsFit update_row
  AreRows-apply_effect (set_effect key v) db f rows = rows
  AreRows-apply_effect (own_row w) db f rows = rows
  AreRows-apply_effect (set_version key v) db f rows = rows
  AreRows-apply_effect (set_row name key v) db f rows = λ name' key' value e.
      elim (Bool-cases (bytes_eq name name' && bytes_eq key key')) [
        | inl here ↦ moved name key name' key' v value f here (rw here at e)
        | inr away ↦ rows name' key' value (rw away at e)
      ]
  AreRows-apply_effect (delete_row name key) db f rows = λ name' key' value e.
      elim (Bool-cases (bytes_eq name name' && bytes_eq key key')) [
        | inl here ↦ absurd (not_written (rw here at e))
        | inr away ↦ rows name' key' value (rw away at e)
      ]

  All-if :
      (c : Bool) (xs ys : List (Effect (ModelValue js.Num)))
      → All IsFit xs
      → All IsFit ys
      → All IsFit (if c then xs else ys)
  All-if true xs ys p q = p
  All-if false xs ys p q = q

  AreRows-apply_effects :
      (es : List (Effect (ModelValue js.Num))) (db : Db (ModelValue js.Num))
      → All IsFit es
      → AreRows db
      → AreRows (apply_effects es db)
  unfolding apply_effects
  AreRows-apply_effects [] db f rows = rows
  AreRows-apply_effects (e ∷ es) db f rows =
      AreRows-apply_effects es (apply_effect e db) f.1 (AreRows-apply_effect e db f.0 rows)

  module _ (kind : Kind) where
    abbrev env : Env
    env = runtime_of host kind

    IsFit-write_row :
        (name key : Str) (value : Option (ModelValue js.Num))
        → IsEntry name (key, value)
        → IsFit (write_row env name key value)
    unfolding IsEntry IsFit
    IsFit-write_row name key none p = tt
    IsFit-write_row name key (some value) p = p

    IsFit-row_effect :
        (name key : Str) (value : Option (ModelValue js.Num))
        → IsEntry name (key, value)
        → IsFit (row_effect env name key value)
    unfolding IsEntry IsFit
    IsFit-row_effect name key value p = elim (Bool-cases (is_own host.index_history name)) [
      | inl own ↦ rw own tt
      | inr theirs ↦ rw theirs (IsFit-write_row name key value p)
    ]

    entry_effects-IsFit :
        (db : Db (ModelValue js.Num)) (id name key : Str) (value : Option (ModelValue js.Num))
        → IsEntry name (key, value)
        → All IsFit (entry_effects env db id name key value)
    unfolding entry_effects IsFit
    entry_effects-IsFit db id name key value p =
        let row = IsFit-row_effect name key value p in
        All-if host.index_history _ _
          (tt, All-if (is_superseded env db id name key) _ _ tt (row, tt))
          (All-if (is_older env (host.encode_id id) (lookup (version_key env name key) db.versions))
            _ _ tt (tt, (row, tt)))

    model_effects-IsFit :
        (db : Db (ModelValue js.Num)) (id name : Str) (es : List (Str × Option (ModelValue js.Num)))
        → All (IsEntry name) es
        → All IsFit (model_effects env db id name es)
    unfolding model_effects
    model_effects-IsFit db id name [] p = tt
    model_effects-IsFit db id name ((key, value) ∷ es) p =
        All-append (entry_effects env db id name key value) (model_effects env db id name es)
          (entry_effects-IsFit db id name key value p.0) (model_effects-IsFit db id name es p.1)

    all_effects-IsFit :
        (db : Db (ModelValue js.Num)) (id : Str) (entries : Entries js.Num)
        → AreEntries entries
        → All IsFit (all_effects env db id entries)
    unfolding all_effects AreEntries
    all_effects-IsFit db id [] p = tt
    all_effects-IsFit db id ((name, es) ∷ entries) p =
        All-append (model_effects env db id name es) (all_effects env db id entries)
          (model_effects-IsFit db id name es p.0) (all_effects-IsFit db id entries p.1)

    consume-AreRows :
        AreKeyed models
        → (txn : Txn) (db : Db (ModelValue js.Num)) (d : Delivery Args) (p : Payload Args)
          {db' : Db (ModelValue js.Num)}
        → consume env txn db d p ≡ ok db'
        → AreRows db
        → AreRows db'
    unfolding consume apply_session apply_action
    consume-AreRows k txn db d (session s) h rows =
        subst AreRows
          (ok_inj (
            assert-eq-ok (leb (expires env s.timestamp s.duration) max_safe_integer) _ _ (
              assert-eq-ok (host.verify_session host.topic s) _ _ (
                assert-eq-ok (bytes_eq s.public_key d.signature_key) _ _
                  (assert-eq-ok (host.matches s.address) _ _ h)))))
          rows
    consume-AreRows k txn db d (action a) h rows =
        let h1 =
          assert-eq-ok (any (authorises env d.signature_key a.address a.timestamp) db.sessions) _ _
            h in
        let (entries, e, h2) =
          >>=-eq-ok (execute_payload host kind (get_model_value env txn db d) d d.payload) _ h1 in
        subst AreRows (ok_inj h2) (
          AreRows-apply_effects (all_effects env db d.id entries) db
            (all_effects-IsFit db d.id entries (
              OnOk-at AreEntries (execute_payload host kind _ d d.payload)
                (execute_payload-P host IsAny AreEntries AreEntries-IsKept k
                  (λ name i at typed context. Writes-any (i.apply typed context)) kind _ d
                  d.payload)
                e))
            rows)
    consume-AreRows k txn db d other h rows = absurd (cc)

    -- Whatever rows the actions of a contract set and delete, with or without a history: if every
    -- row of its models fits its model and is stored under its primary key, this is so after any
    -- messages that are accepted. The primary keys of the models are names of primary properties.
    pub consume_all-AreRows :
        AreKeyed models
        → (txn : Txn) (ds : List (Delivery Args)) (db : Db (ModelValue js.Num))
          {db' : Db (ModelValue js.Num)}
        → AreRows db
        → consume_all env txn ds db ≡ ok db'
        → AreRows db'
    unfolding consume_all
    consume_all-AreRows k txn [] db rows h = subst AreRows (ok_inj h) rows
    consume_all-AreRows k txn (d ∷ ds) db rows h =
        let (db1, h1, h2) = >>=-eq-ok (consume env txn db d d.payload) _ h in
        consume_all-AreRows k txn ds db1 (consume-AreRows k txn db d d.payload h1 rows) h2
