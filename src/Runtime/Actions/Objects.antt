-- ===== src/Runtime/Actions/Objects.antt =====
-- An action reads what it wrote, and what it writes is an object for each model: so without a history
-- replicas of either runtime converge. packages/core/src/runtime/ContractRuntime.ts and
-- FunctionRuntime.ts.
use mathlib.Core.Path.{subst}
use canvas.Base.{
  ◌≡◌, refl, sym, ap, inl, inr, false, Bool, ◌||◌, Option, none, some, List, [], ◌∷◌, Str, bytes_eq,
  bytes_eq_iff, Bool-cases, ok, >>=-eq-ok, ok_inj, All, OnOk-at, arith,
}
use canvas.Base.Maps.{lookup, put, has, Distinct}
use canvas.Gossip.Log.Types.{or_throw, Txn}
use canvas.Db.Types.{Model, ModelValue}
use canvas.Runtime.State.{Delivery, Db, is_own}
use canvas.Runtime.Cells.{keys_of, AreObjects, IsForeign, AreForeign, DistinctKeys, cell}
use canvas.Runtime.Consumer.{consume_all}
use canvas.Runtime.Converge.{Reorder, consume_all-Reorder}
use canvas.Runtime.Actions.{Entries, Kind, Host, put_entry, no_entries, execute_payload, runtime_of}
use canvas.Runtime.Actions.Laws.{AreKeyed, or_throw-eq-ok, lookup-All}
use canvas.Runtime.Actions.Runs.{ActionsWrite, IsKept, execute_payload-P}

module _ {V : Type 0} where
  has-put :
      (k j : Str) (v : V) (m : List (Str × V))
      → has j (keys_of (put k v m)) ≡ (bytes_eq k j || has j (keys_of m))
  unfolding has put
  has-put k j v [] = refl
  has-put k j v ((i, w) ∷ m) =
      ground (arith, bytes_eq_iff i k, bytes_eq_iff i j, bytes_eq_iff k j, has-put k j v m)

  pub Distinct-put :
      (k : Str) (v : V) (m : List (Str × V)) → Distinct (keys_of m) → Distinct (keys_of (put k v m))
  unfolding put has
  Distinct-put k v [] d = (refl, tt)
  Distinct-put k v ((i, w) ∷ m) d = elim (Bool-cases (bytes_eq i k)) [
    | inl e ↦ rw e (rw (sym ((bytes_eq_iff i k).0 e)) d)
    | inr e ↦ rw e (
      (rw (has-put k i v m) (ground (arith, bytes_eq_iff i k, bytes_eq_iff k i, d.0))),
      Distinct-put k v m d.1,
    )
  ]

  pub All-put :
      (P : (Str × V) → Type 0) (k : Str) (v : V) (m : List (Str × V))
      → All P m
      → P (k, v)
      → All P (put k v m)
  unfolding put
  All-put P k v [] all p = (p, tt)
  All-put P k v ((i, w) ∷ m) all p = elim (Bool-cases (bytes_eq i k)) [
    | inl e ↦ rw e (p, all.1)
    | inr e ↦ rw e (all.0, All-put P k v m all.1 p)
  ]

AreObjects-put_entry :
    {N : Type 0} (model key : Str) (value : Option (ModelValue N)) (entries : Entries N)
    {entries' : Entries N}
    → AreObjects entries
    → put_entry model key value entries ≡ ok entries'
    → AreObjects entries'
unfolding put_entry
AreObjects-put_entry model key value entries (d, all) h =
    let (rows, e, h1) =
      >>=-eq-ok (or_throw (lookup model entries) "modelEntries[model] is undefined") _ h in
    let found = or_throw-eq-ok (lookup model entries) "modelEntries[model] is undefined" e in
    subst AreObjects (ok_inj h1) (
      Distinct-put model (put key value rows) entries d,
      All-put (λ e. Distinct (keys_of e.1)) model (put key value rows) entries all
          (Distinct-put key value rows
            (lookup-All (λ e. Distinct (keys_of e.1)) model entries all found)),
    )

IsForeign-all :
    {V : Type 0} (history : Bool) (model : Str) (entries : List (Str × V))
    → is_own history model ≡ false
    → IsForeign history model entries
IsForeign-all history model [] e = tt
IsForeign-all history model (x ∷ entries) e = (e, IsForeign-all history model entries e)

AreForeign-put_entry :
    {N : Type 0} (history : Bool) (model key : Str) (value : Option (ModelValue N))
    (entries : Entries N) {entries' : Entries N}
    → AreForeign history entries
    → is_own history model ≡ false
    → put_entry model key value entries ≡ ok entries'
    → AreForeign history entries'
unfolding put_entry
AreForeign-put_entry history model key value entries all foreign h =
    let (rows, e, h1) =
      >>=-eq-ok (or_throw (lookup model entries) "modelEntries[model] is undefined") _ h in
    subst (AreForeign history) (ok_inj h1) (
      All-put (λ e. IsForeign history e.0 e.1) model (put key value rows) entries all
        (IsForeign-all history model (put key value rows) foreign))

module _ (host : Host) where
  open host use {js, Args, models, index_history, encode_id}

  keys_of-no_entries : (ms : List (Str × Model)) → keys_of (no_entries {N = js.Num} ms) ≡ keys_of ms
  keys_of-no_entries [] = refl
  keys_of-no_entries (m ∷ ms) = ap (◌∷◌ m.0) (keys_of-no_entries ms)

  AreEmpty-no_entries :
      (ms : List (Str × Model)) → All (λ e. Distinct (keys_of e.1)) (no_entries {N = js.Num} ms)
  AreEmpty-no_entries [] = tt
  AreEmpty-no_entries (m ∷ ms) = (tt, AreEmpty-no_entries ms)

  AreObjects-no_entries :
      (ms : List (Str × Model)) → Distinct (keys_of ms) → AreObjects (no_entries {N = js.Num} ms)
  AreObjects-no_entries ms d =
      (subst Distinct (sym (keys_of-no_entries ms)) d, AreEmpty-no_entries ms)

  AreForeign-no_entries :
      (ms : List (Str × Model)) → AreForeign index_history (no_entries {N = js.Num} ms)
  AreForeign-no_entries [] = tt
  AreForeign-no_entries (m ∷ ms) = (tt, AreForeign-no_entries ms)

  -- A model that is not a table of the runtime.
  abbrev pub IsTheirs : Str → Type 0
  IsTheirs name = is_own index_history name ≡ false

  abbrev AreWritable : Entries js.Num → Type 0
  AreWritable entries = AreForeign index_history entries × AreObjects entries

  objects-IsKept : Distinct (keys_of models) → IsKept host IsTheirs AreWritable
  objects-IsKept d = record {
    at_first = (AreForeign-no_entries models, AreObjects-no_entries models d);
    by_set = λ name value entries theirs p w. (
      AreForeign-put_entry index_history name w.key (some value) entries p.0 theirs w.written,
      AreObjects-put_entry name w.key (some value) entries p.1 w.written,
    );
    by_delete = λ name key entries theirs p w. (
      AreForeign-put_entry index_history name key none entries p.0 theirs w,
      AreObjects-put_entry name key none entries p.1 w,
    );
  }

  -- Where no action sets or deletes rows of the runtime's own tables, two replicas that keep no history, start from the same
  -- tables and accept the same messages, in two orders that differ by swaps of messages of different
  -- ids, end with the same version and the same row under every key of every model, on both
  -- runtimes. The models have different names and primary keys, and the keys of the table of
  -- versions and the encoded ids differ where the keys and the ids do.
  pub runtime_of-Reorder :
      (kind : Kind)
      → AreKeyed models
      → Distinct (keys_of models)
      → ActionsWrite host IsTheirs
      → index_history ≡ false
      → DistinctKeys (runtime_of host kind)
      → ((a b : Str) → encode_id a ≡ encode_id b → a ≡ b)
      → (m k : Str) {ds es : List (Delivery Args)} → Reorder ds es
      → (txn txn' : Txn) (db : Db (ModelValue js.Num)) {r s : Db (ModelValue js.Num)}
      → consume_all (runtime_of host kind) txn ds db ≡ ok r
      → consume_all (runtime_of host kind) txn' es db ≡ ok s
      → cell (runtime_of host kind) m k r ≡ cell (runtime_of host kind) m k s
  runtime_of-Reorder kind keyed distinct theirs latest keys ids m k p txn txn' db h1 h2 =
      consume_all-Reorder (runtime_of host kind)
        (record {
          latest = latest;
          keys = keys;
          ids = ids;
          objects = λ d entries e.
              OnOk-at AreWritable (execute_payload host kind _ d d.payload)
                (execute_payload-P host IsTheirs AreWritable (objects-IsKept distinct) keyed theirs
                  kind _ d d.payload)
                e;
        })
        m k p txn txn' db h1 h2
