-- ===== src/Gossip/Locks/Laws.antt =====
-- When a call of `read` or `write` is refused: packages/gossiplog/src/memory/index.ts.
use mathlib.Core.Path.{subst}
use canvas.Base.{
  ◌≡◌, refl, sym, ap, ◌∙◌, ◌↔◌, not, Bool, true, false, Option, none, some, List, [], ◌∷◌, Str,
  String, bytes_eq_iff, bytes_eq_self, Result, ok, throw, assert, ◌>>◌, assert-eq-ok, ok_inj, arith,
}
use canvas.Base.Maps.{has, add, delete}
use canvas.Gossip.Locks.{
  Task, listing, reading, writing, Log, opened, is_peer, call, start, finish, Step, called, started,
  finished, Steps, stay, next,
}

abbrev pub of_peer : Option Str → List Str
of_peer none = []
of_peer (some peer) = peer ∷ []

-- The peers of the task that runs.
abbrev pub incoming_of : Option Task → List Str
incoming_of none = []
incoming_of (some listing) = []
incoming_of (some (reading target)) = of_peer target
incoming_of (some (writing source)) = []

abbrev pub outgoing_of : Option Task → List Str
outgoing_of none = []
outgoing_of (some listing) = []
outgoing_of (some (reading target)) = []
outgoing_of (some (writing source)) = of_peer source

pub record IsHeld (log : Log) : Type 0 where
  pub incoming : log.incoming_sync_peers ≡ incoming_of log.running
  pub outgoing : log.outgoing_sync_peers ≡ outgoing_of log.running

call-IsHeld :
    (task : Task) (log : Log) {log' : Log} → IsHeld log → call task log ≡ ok log' → IsHeld log'
unfolding call
call-IsHeld listing log held h =
    subst IsHeld (ok_inj h) (record { incoming = held.incoming; outgoing = held.outgoing })
call-IsHeld (reading target) log held h =
    subst IsHeld (ok_inj (assert-eq-ok (not (is_peer target log.outgoing_sync_peers)) _ _ h))
      (record { incoming = held.incoming; outgoing = held.outgoing })
call-IsHeld (writing source) log held h =
    subst IsHeld (ok_inj (assert-eq-ok (not (is_peer source log.incoming_sync_peers)) _ _ h))
      (record { incoming = held.incoming; outgoing = held.outgoing })

start-IsHeld :
    (task : Task) (tasks : List Task) (log : Log)
    → IsHeld log
    → log.running ≡ none
    → IsHeld (start task (record log { queue = tasks }))
unfolding start add
start-IsHeld listing tasks log held idle = record {
  incoming = held.incoming ∙ ap incoming_of idle;
  outgoing = held.outgoing ∙ ap outgoing_of idle;
}
start-IsHeld (reading none) tasks log held idle = record {
  incoming = held.incoming ∙ ap incoming_of idle;
  outgoing = held.outgoing ∙ ap outgoing_of idle;
}
start-IsHeld (reading (some p)) tasks log held idle = record {
  incoming = ap (add p) (held.incoming ∙ ap incoming_of idle);
  outgoing = held.outgoing ∙ ap outgoing_of idle;
}
start-IsHeld (writing none) tasks log held idle = record {
  incoming = held.incoming ∙ ap incoming_of idle;
  outgoing = held.outgoing ∙ ap outgoing_of idle;
}
start-IsHeld (writing (some p)) tasks log held idle = record {
  incoming = held.incoming ∙ ap incoming_of idle;
  outgoing = ap (add p) (held.outgoing ∙ ap outgoing_of idle);
}

delete_own : (p : Str) → delete p (p ∷ []) ≡ []
unfolding delete
delete_own p = rw (bytes_eq_self p) refl

finish-IsHeld :
    (task : Task) (log : Log) → IsHeld log → log.running ≡ some task → IsHeld (finish task log)
unfolding finish
finish-IsHeld listing log held runs = record {
  incoming = held.incoming ∙ ap incoming_of runs;
  outgoing = held.outgoing ∙ ap outgoing_of runs;
}
finish-IsHeld (reading none) log held runs = record {
  incoming = held.incoming ∙ ap incoming_of runs;
  outgoing = held.outgoing ∙ ap outgoing_of runs;
}
finish-IsHeld (reading (some p)) log held runs = record {
  incoming = ap (delete p) (held.incoming ∙ ap incoming_of runs) ∙ delete_own p;
  outgoing = held.outgoing ∙ ap outgoing_of runs;
}
finish-IsHeld (writing none) log held runs = record {
  incoming = held.incoming ∙ ap incoming_of runs;
  outgoing = held.outgoing ∙ ap outgoing_of runs;
}
finish-IsHeld (writing (some p)) log held runs = record {
  incoming = held.incoming ∙ ap incoming_of runs;
  outgoing = ap (delete p) (held.outgoing ∙ ap outgoing_of runs) ∙ delete_own p;
}

Step-IsHeld : {a b : Log} → Step a b → IsHeld a → IsHeld b
Step-IsHeld (called task h) held = call-IsHeld task _ held h
Step-IsHeld (started task tasks idle queued) held = start-IsHeld task tasks _ held idle
Step-IsHeld (finished task runs) held = finish-IsHeld task _ held runs

Steps-IsHeld : {a b : Log} → Steps a b → IsHeld a → IsHeld b
Steps-IsHeld stay held = held
Steps-IsHeld (next steps step) held = Step-IsHeld step (Steps-IsHeld steps held)

own_peer : (p q : Str) → has p (q ∷ []) ≡ true → q ≡ p
unfolding has
own_peer p q h = ground (arith, bytes_eq_iff q p)

self_peer : (p : Str) → has p (p ∷ []) ≡ true
unfolding has
self_peer p = rw (bytes_eq_self p) refl

has_of :
    (p : Str) (running : Option Task)
    → has p (outgoing_of running) ≡ true
    → running ≡ some (writing (some p))
unfolding has
has_of p none h = absurd (cc)
has_of p (some listing) h = absurd (cc)
has_of p (some (reading target)) h = absurd (cc)
has_of p (some (writing none)) h = absurd (cc)
has_of p (some (writing (some q))) h = ap (λ r. some (writing (some r))) (own_peer p q h)

has_in :
    (p : Str) (running : Option Task)
    → has p (incoming_of running) ≡ true
    → running ≡ some (reading (some p))
unfolding has
has_in p none h = absurd (cc)
has_in p (some listing) h = absurd (cc)
has_in p (some (writing source)) h = absurd (cc)
has_in p (some (reading none)) h = absurd (cc)
has_in p (some (reading (some q))) h = ap (λ r. some (reading (some r))) (own_peer p q h)

assert-eq-throw :
    {B : Type 0} (c : Bool) (e : String) (r : Result B) (b : B)
    → r ≡ ok b
    → (assert (not c) e >> r ≡ throw e) ↔ (c ≡ true)
assert-eq-throw true e r b h = ((λ t. refl), (λ t. refl))
assert-eq-throw false e r b h = ((λ t. absurd (cc)), (λ t. absurd (cc)))

-- At any time after the log is opened, a read for a peer is refused exactly while a write from that
-- peer runs, and a write from a peer is refused exactly while a read for that peer runs.
pub call_iff :
    (peer : Str) {log : Log}
    → Steps opened log
    → ((call (reading (some peer)) log ≡ throw "deadlock with peer")
        ↔ (log.running ≡ some (writing (some peer))))
      × ((call (writing (some peer)) log ≡ throw "deadlock with peer")
          ↔ (log.running ≡ some (reading (some peer))))
unfolding call
call_iff peer {log} steps =
    let held = Steps-IsHeld steps (record { incoming = refl; outgoing = refl }) in
    let refused_read =
      assert-eq-throw (has peer log.outgoing_sync_peers) "deadlock with peer" _ _ refl in
    let refused_write =
      assert-eq-throw (has peer log.incoming_sync_peers) "deadlock with peer" _ _ refl in
    (
      (
        λ h. has_of peer log.running (ap (has peer) (sym held.outgoing) ∙ refused_read.0 h),
        λ runs.
            refused_read.1 (ap (has peer) (held.outgoing ∙ ap outgoing_of runs) ∙ self_peer peer),
      ),
      (
        λ h. has_in peer log.running (ap (has peer) (sym held.incoming) ∙ refused_write.0 h),
        λ runs.
            refused_write.1 (ap (has peer) (held.incoming ∙ ap incoming_of runs) ∙ self_peer peer),
      ),
    )
