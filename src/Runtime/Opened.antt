-- ===== src/Runtime/Opened.antt =====
-- A runtime that opens its database with the models of a contract:
-- packages/core/src/runtime/ContractRuntime.ts, FunctionRuntime.ts and AbstractRuntime.ts.
use canvas.Base.{◌≡◌, false, List, Str, ok}
use canvas.Gossip.Log.Types.{Txn}
use canvas.Db.Types.{ModelValue}
use canvas.Db.Config.{ModelInit}
use canvas.Runtime.State.{Delivery, Db}
use canvas.Runtime.Cells.{DistinctKeys, cell}
use canvas.Runtime.Consumer.{consume_all}
use canvas.Runtime.Converge.{Reorder}
use canvas.Runtime.Schema.Laws.{IsOpened, IsOpened-AreKeyed}
use canvas.Runtime.Actions.{Kind, Host, runtime_of}
use canvas.Runtime.Actions.Runs.{ActionsWrite}
use canvas.Runtime.Actions.Objects.{IsTheirs, runtime_of-Reorder}
use canvas.Runtime.Actions.Valid.{AreRows, consume_all-AreRows}

module _ (host : Host) (kind : Kind) (inits : List ModelInit)
    (opened : IsOpened inits host.index_history host.models) where
  open host use {js, Args, models, index_history, encode_id}

  -- Whatever rows the actions of a contract set and delete, on both runtimes and with or without a
  -- history: if every row of the contract's models fits its model and is stored under its primary
  -- key, this is so after any messages that are accepted. The rows of the runtime's own tables
  -- ($sessions, and $effects or $versions) are not among these rows. What an action calls depends
  -- only on its arguments, its context and what its calls return, and it does not change a value
  -- after setting it. The database is opened with models of different names that parse,
  -- and with the tables of the runtime.
  pub consume_all-valid :
      (txn : Txn) (ds : List (Delivery Args)) (db : Db (ModelValue js.Num))
      {db' : Db (ModelValue js.Num)}
      → AreRows host db
      → consume_all (runtime_of host kind) txn ds db ≡ ok db'
      → AreRows host db'
  consume_all-valid txn ds db rows h =
      let (keyed, distinct) = IsOpened-AreKeyed inits index_history models opened in
      consume_all-AreRows host kind keyed txn ds db rows h

  -- Where no action sets or deletes a row of the runtime's own tables, and what an action calls
  -- depends only on its arguments, its context and what its calls return, and it does not change a
  -- value after setting it: two replicas that keep no history, start from the same
  -- tables and accept the same messages, in two orders that differ by swaps of messages of different
  -- ids, end with the same version and the same row under every key of every model, on both
  -- runtimes. The database is opened with models of different names that parse, and with the tables
  -- of the runtime; the keys of the table of versions and the encoded ids differ where the keys and
  -- the ids do.
  pub consume_all-converges :
      ActionsWrite host (IsTheirs host)
      → index_history ≡ false
      → DistinctKeys (runtime_of host kind)
      → ((a b : Str) → encode_id a ≡ encode_id b → a ≡ b)
      → (m k : Str) {ds es : List (Delivery Args)} → Reorder ds es
      → (txn txn' : Txn) (db : Db (ModelValue js.Num)) {r s : Db (ModelValue js.Num)}
      → consume_all (runtime_of host kind) txn ds db ≡ ok r
      → consume_all (runtime_of host kind) txn' es db ≡ ok s
      → cell (runtime_of host kind) m k r ≡ cell (runtime_of host kind) m k s
  consume_all-converges theirs latest keys ids m k order txn txn' db h1 h2 =
      let (keyed, distinct) = IsOpened-AreKeyed inits index_history models opened in
      runtime_of-Reorder host kind keyed distinct theirs latest keys ids m k order txn txn' db h1 h2
