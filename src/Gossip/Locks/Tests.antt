-- ===== src/Gossip/Locks/Tests.antt =====
-- A log that syncs with a peer: the calls and the tasks, one after another.
use canvas.Base.{◌≡◌, ◌↔◌, bytes_eq, refl, some, [], ◌∷◌, codes, throw}
use canvas.Gossip.Locks.{
  reading, writing, Log, opened, call, start, finish, Steps, stay, next, called, started,
}
use canvas.Gossip.Locks.Laws.{call_iff}

-- A write from "b" runs, and a read for "c" waits.
abbrev busy : Log
busy = record {
  queue = reading (some (codes "c")) ∷ [];
  running = some (writing (some (codes "b")));
  incoming_sync_peers = [];
  outgoing_sync_peers = codes "b" ∷ [];
}

busy-Steps : Steps opened busy
unfolding call start
busy-Steps =
    next
      (next (next stay (called (writing (some (codes "b"))) refl))
        (called (reading (some (codes "c"))) refl))
      (started (writing (some (codes "b"))) (reading (some (codes "c")) ∷ []) refl refl)

call_iff_example :
    ((call (reading (some (codes "b"))) busy ≡ throw "deadlock with peer")
      ↔ (busy.running ≡ some (writing (some (codes "b")))))
    × ((call (writing (some (codes "b"))) busy ≡ throw "deadlock with peer")
        ↔ (busy.running ≡ some (reading (some (codes "b")))))
call_iff_example = call_iff (codes "b") busy-Steps

refused : call (reading (some (codes "b"))) busy ≡ throw "deadlock with peer"
refused = (call_iff (codes "b") busy-Steps).0.1 refl

-- After the write the read starts, for its peer.
done :
    start
      (reading (some (codes "c")))
      (record (finish (writing (some (codes "b"))) busy) { queue = [] })
    ≡ record {
      queue = [];
      running = some (reading (some (codes "c")));
      incoming_sync_peers = codes "c" ∷ [];
      outgoing_sync_peers = [];
    }
unfolding start finish bytes_eq
done = refl
