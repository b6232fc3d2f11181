-- ===== src/Runtime/Actions/Reads.antt =====
-- An action reads what it wrote: packages/core/src/runtime/ContractRuntime.ts, FunctionRuntime.ts and
-- getModelValue of AbstractRuntime.ts.
use canvas.Base.{
  if_false, if_true, ◌≡◌, refl, sym, ap, ◌∙◌, inl, inr, Bool, true, false, ◌&&◌, Option, none, some,
  List, Str, bytes_eq, bytes_eq_iff, bytes_eq_self, Bool-cases, Result, ok, throw, ◌>>=◌, >>=-eq-ok,
  ok_inj, if◌then◌else◌, arith,
}
use canvas.Base.Maps.{lookup, put, lookup-put}
use canvas.Gossip.Log.Types.{or_throw, Txn}
use canvas.Db.Types.{Model, str, ModelValue, get}
use canvas.Runtime.State.{Delivery, Db, Env}
use canvas.Runtime.Consumer.{get_model_value, read_value}
use canvas.Runtime.Actions.{
  Entries, ModelApi, Kind, Host, Read, put_entry, runtime_of, api_of, get_in,
}
use canvas.Runtime.Actions.Laws.{AreKeyed, or_throw-eq-ok, api_of-IsApi}

read_value_pending :
    (env : Env) (c : Bool) (pending : Option env.Row) (found : Result (Option env.Row))
    → c ≡ true
    → read_value env c (some pending) found ≡ ok pending
read_value_pending env true pending found e = refl
read_value_pending env false pending found e = absurd (cc)

module _ (host : Host) (kind : Kind) (txn : Txn) (db : Db (ModelValue host.js.Num))
    (d : Delivery host.Args) where
  open host use {js, models, index_history}

  abbrev read : Read js.Num
  read = get_model_value (runtime_of host kind) txn db d

  abbrev api : ModelApi js.Num
  api = api_of host kind read

  -- What a read returns after an entry is written: the entry, and elsewhere what it did before.
  abbrev pub Reads :
      (name key : Str) → Option (ModelValue js.Num) → (entries entries' : Entries js.Num) → Type 0
  Reads name key value entries entries' =
      (m k : Str)
      → api.get_row m k entries'
        ≡ (if bytes_eq name m && bytes_eq key k then ok value else api.get_row m k entries)

  read_pending :
      index_history ≡ true
      → (pending : Option (ModelValue js.Num)) (name key : Str)
      → read (some pending) name key ≡ ok pending
  unfolding get_model_value
  read_pending kept pending name key =
      read_value_pending (runtime_of host kind) index_history pending _ kept

  -- A read, of what is found for its model.
  abbrev read_in :
      Str
      → Str
      → Option (List (Str × Option (ModelValue js.Num)))
      → Result (Option (ModelValue js.Num))
  read_in m k found =
      or_throw found "modelEntries[model] is undefined" >>= λ rows. read (lookup k rows) m k

  -- The entries after a write, where the model had some rows.
  module _ (kept : index_history ≡ true) (name key : Str) (value : Option (ModelValue js.Num))
      (entries : Entries js.Num) (rows : List (Str × Option (ModelValue js.Num)))
      (found : lookup name entries ≡ some rows) where
    abbrev written : Entries js.Num
    written = put name (put key value rows) entries

    read_own : read_in name key (lookup name written) ≡ ok value
    read_own =
        ap (read_in name key) (
          lookup-put name name (put key value rows) entries
          ∙ if_true (bytes_eq name name) _ _ (bytes_eq_self name))
        ∙ ap (λ l. read l name key)
            (lookup-put key key value rows ∙ if_true (bytes_eq key key) _ _ (bytes_eq_self key))
        ∙ read_pending kept value name key

    read_other :
        (m k : Str)
        → (bytes_eq name m && bytes_eq key k) ≡ false
        → read_in m k (lookup m written) ≡ read_in m k (lookup m entries)
    read_other m k away = elim (Bool-cases (bytes_eq name m)) [
      | inl e ↦
          ap (read_in m k)
            (lookup-put name m (put key value rows) entries ∙ if_true (bytes_eq name m) _ _ e)
          ∙ ap (λ l. read l m k)
              (lookup-put key k value rows ∙ if_false (bytes_eq key k) _ _ (rw e at away))
          ∙ sym (
              ap (read_in m k)
                (ap (λ n. lookup n entries) (sym ((bytes_eq_iff name m).0 e)) ∙ found))
      | inr e ↦
          ap (read_in m k)
            (lookup-put name m (put key value rows) entries ∙ if_false (bytes_eq name m) _ _ e)
    ]

  get_in-put_entry :
      index_history ≡ true
      → (name key : Str) (value : Option (ModelValue js.Num)) (entries : Entries js.Num)
        {entries' : Entries js.Num}
      → put_entry name key value entries ≡ ok entries'
      → (get_in host read name key entries' ≡ ok value)
        × ((m k : Str)
            → (bytes_eq name m && bytes_eq key k) ≡ false
            → get_in host read m k entries' ≡ get_in host read m k entries)
  unfolding put_entry
  get_in-put_entry kept name key value entries h =
      let (rows, e, h1) =
        >>=-eq-ok (or_throw (lookup name entries) "modelEntries[model] is undefined") _ h in
      let found = or_throw-eq-ok (lookup name entries) "modelEntries[model] is undefined" e in
      let after = ap (λ es. get_in host read name key es) (sym (ok_inj h1)) in
      (
        after ∙ if_true index_history _ _ kept ∙ read_own kept name key value entries rows found,
        λ m k away.
            ap (λ es. get_in host read m k es) (sym (ok_inj h1))
            ∙ ap
                (λ r.
                  if index_history then r else throw "cannot call .get if indexHistory is disabled")
                (read_other kept name key value entries rows found m k away),
      )

  Reads-put_entry :
      AreKeyed models
      → index_history ≡ true
      → (name key : Str) (value : Option (ModelValue js.Num)) (entries : Entries js.Num)
        {entries' : Entries js.Num}
      → put_entry name key value entries ≡ ok entries'
      → Reads name key value entries entries'
  Reads-put_entry keyed kept name key value entries {entries' = t} h m k =
      let is = api_of-IsApi host keyed kind read in
      let (own, other) = get_in-put_entry kept name key value entries h in
      elim (Bool-cases (bytes_eq name m && bytes_eq key k)) [
        | inl e ↦
            ap (λ n. api.get_row n k t) (sym ((bytes_eq_iff name m).0 (ground arith)))
            ∙ ap (λ j. api.get_row name j t) (sym ((bytes_eq_iff key k).0 (ground arith)))
            ∙ is.gets name key t
            ∙ own
            ∙ sym (if_true (bytes_eq name m && bytes_eq key k) _ _ e)
        | inr e ↦
            is.gets m k t
            ∙ other m k e
            ∙ sym (is.gets m k entries)
            ∙ sym (if_false (bytes_eq name m && bytes_eq key k) _ _ e)
      ]

  -- With a history, on both runtimes: after a call that sets a value, an action reads the value, at
  -- the key that the value has for its model's primary key, and at every other key of every model a
  -- read returns or throws what it did before. The primary keys of the models are names of primary
  -- properties.
  pub get_row-set_row :
      AreKeyed models
      → index_history ≡ true
      → (name : Str) (value : ModelValue js.Num) (entries t : Entries js.Num)
      → api.set_row name value entries ≡ ok t
      → (model : Model) × (key : Str) × (lookup name models ≡ some model)
        × (get value model.primary_key ≡ str key)
        × Reads name key (some value) entries t
  get_row-set_row keyed kept name value entries t h =
      let w = (api_of-IsApi host keyed kind read).sets name value entries h in
      (
        w.model,
        w.key,
        w.found,
        w.keyed,
        Reads-put_entry keyed kept name w.key (some value) entries w.written,
      )

  -- After a call that deletes, an action reads null.
  get_row-delete_row :
      AreKeyed models
      → index_history ≡ true
      → (name key : Str) (entries t : Entries js.Num) → api.delete_row name key entries ≡ ok t
      → Reads name key none entries t
  get_row-delete_row keyed kept name key entries t h =
      Reads-put_entry keyed kept name key none entries
        ((api_of-IsApi host keyed kind read).deletes name key entries h)
