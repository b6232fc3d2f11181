-- ===== src/Gossip/Locks.antt =====
-- packages/gossiplog/src/memory/index.ts: the queue of reads and writes, and the peers that they are
-- for. The queue is the package p-queue with a concurrency of one: a task starts when none runs, in
-- the order of the calls, and runs until its callback returns or throws.
pub mod Laws
mod Tests
use canvas.Base.{
  ◌≡◌, not, Bool, false, Option, none, some, List, [], ◌∷◌, ◌++◌, Str, String, Result, ok, throw,
  assert, ◌>>=◌, ◌>>◌,
}
use canvas.Base.Maps.{has, add, delete}

-- What waits in the queue: `entries`, `read` and `write`, with the peer.
pub data Task : Type 0 where
  listing : Task
  reading : (target : Option Str) → Task
  writing : (source : Option Str) → Task

pub record Log : Type 0 where
  pub queue : List Task
  pub running : Option Task
  pub incoming_sync_peers : List Str
  pub outgoing_sync_peers : List Str

abbrev pub opened : Log
opened = record { queue = []; running = none; incoming_sync_peers = []; outgoing_sync_peers = [] }

abbrev pub is_peer : Option Str → List Str → Bool
is_peer none peers = false
is_peer (some peer) peers = has peer peers

abbrev pub add_peer : Option Str → List Str → List Str
add_peer none peers = peers
add_peer (some peer) peers = add peer peers

abbrev pub delete_peer : Option Str → List Str → List Str
delete_peer none peers = peers
delete_peer (some peer) peers = delete peer peers

-- `this.queue.add`
abbrev pub queue_add : Task → Log → Log
queue_add task log = record log { queue = log.queue ++ task ∷ [] }

-- A call of `entries`, `read` or `write`, to where it waits.
unfoldable pub call : Task → Log → Result Log
unfolding has
call listing log = ok (queue_add listing log)
call (reading target) log = do
  assert (not (is_peer target log.outgoing_sync_peers)) "deadlock with peer"
  ok (queue_add (reading target) log)
call (writing source) log = do
  assert (not (is_peer source log.incoming_sync_peers)) "deadlock with peer"
  ok (queue_add (writing source) log)

-- The task starts.
unfoldable pub start : Task → Log → Log
unfolding add
start listing log = record log { running = some listing }
start (reading target) log = record log {
  running = some (reading target);
  incoming_sync_peers = add_peer target log.incoming_sync_peers;
}
start (writing source) log = record log {
  running = some (writing source);
  outgoing_sync_peers = add_peer source log.outgoing_sync_peers;
}

-- Its callback has returned or thrown: the `finally`.
unfoldable pub finish : Task → Log → Log
unfolding delete
finish listing log = record log { running = none }
finish (reading target) log = record log {
  running = none;
  incoming_sync_peers = delete_peer target log.incoming_sync_peers;
}
finish (writing source) log = record log {
  running = none;
  outgoing_sync_peers = delete_peer source log.outgoing_sync_peers;
}

-- What happens to the log, one thing after another.
pub data Step : Log → Log → Type 0 where
  called : (task : Task) {log log' : Log} → call task log ≡ ok log' → Step log log'
  started :
      (task : Task) (tasks : List Task) {log : Log}
      → log.running ≡ none
      → log.queue ≡ task ∷ tasks
      → Step log (start task (record log { queue = tasks }))
  finished : (task : Task) {log : Log} → log.running ≡ some task → Step log (finish task log)

pub data Steps : Log → Log → Type 0 where
  stay : {log : Log} → Steps log log
  next : {a b c : Log} → Steps a b → Step b c → Steps a c
