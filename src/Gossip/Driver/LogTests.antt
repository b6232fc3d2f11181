-- ===== src/Gossip/Driver/LogTests.antt =====
-- A log that syncs with a source of one message.
use canvas.Base.{
  ℕ, ◌≡◌, refl, true, false, Option, none, some, List, [], ◌∷◌, Bytes, All, Result, ok, throw,
}
use canvas.Gossip.Schema.{get_key}
use canvas.Gossip.Log.Types.{Log}
use canvas.Gossip.Log.Sync.{sync_entry, sync}
use canvas.Gossip.Log.Reach.{empty_log}
use canvas.Gossip.Driver.{Node, Peers, run_sync}
use canvas.Gossip.Driver.Rule.{IsEntry}
use canvas.Gossip.Driver.Refine.{log_peers, run_sync-sync}
use canvas.Gossip.Log.Tests.{test_env}

abbrev remote_value : Bytes
remote_value = 7 ∷ 5 ∷ []

abbrev remote_key : Bytes
remote_key = get_key (test_env true).sha256 1 remote_value

abbrev remote_leaf : Node
remote_leaf = record {
  level = 0;
  key = some remote_key;
  hash = remote_value;
  value = some remote_value;
}

abbrev remote_root : Node
remote_root = record { level = 1; key = none; hash = 1 ∷ []; value = none }

abbrev remote_children : ℕ → Option Bytes → Result (List Node)
remote_children level key = ok (remote_leaf ∷ [])

abbrev local_root : Log (test_env true) → Node
local_root log = record { level = 0; key = none; hash = []; value = none }

abbrev local_node : Log (test_env true) → ℕ → Option Bytes → Result (Option Node)
local_node log level key = ok none

abbrev peers : Peers
peers =
    log_peers (test_env true) remote_root remote_children local_root local_node (λ a b. false)
      (λ a b. false)

abbrev synced : Result (Log (test_env true) × ℕ) → Log (test_env true) × ℕ
synced (ok r) = r
synced (throw message) = (empty_log (test_env true) 0, 0)

abbrev log_synced : Log (test_env true) × ℕ
log_synced = synced (run_sync peers 1 (empty_log (test_env true) 0, 0))

one_synced : log_synced.1 ≡ 1
unfolding run_sync sync_entry get_key canvas.Gossip.Log.Tests.read_lists
one_synced = refl

run_sync-sync_example :
    (entries : List (Bytes × Bytes)) × (sync
        (test_env true)
        entries
        (empty_log (test_env true) 0, 0)
      ≡ ok (log_synced.0, log_synced.1))
    × All (λ e. IsEntry peers e.0 e.1) entries
unfolding run_sync sync_entry get_key canvas.Gossip.Log.Tests.read_lists
run_sync-sync_example =
    run_sync-sync (test_env true) remote_root remote_children local_root local_node (λ a b. false)
      (λ a b. false) 1 (empty_log (test_env true) 0) {after = log_synced.0} {count = log_synced.1}
      refl
