-- ===== src/Gossip/Driver/Refine.antt =====
-- The driver under the log's sync: packages/gossiplog/src/sync/driver.ts and AbstractGossipLog.ts.
use canvas.Base.{
  ℕ, Bool, ◌≡◌, refl, ◌∙◌, ap, Option, List, [], ◌∷◌, ◌++◌, Bytes, Result, ok, throw, ◌>>=◌, OnOk,
  OnOk-map, OnOk-self, OnOk-at, All, >>=_assoc, sym,
}
use canvas.Gossip.Log.Types.{Env, Log}
use canvas.Gossip.Log.Sync.{sync_entry, sync}
use canvas.Gossip.Driver.{Node, Peers, run_sync}
use canvas.Gossip.Driver.Rule.{IsEntry, run_sync-Inv}

>>=-ok {ℓ} : {A : Type ℓ} (m : Result A) → m >>= (λ a. ok a) ≡ m
>>=-ok (throw message) = refl
>>=-ok (ok a) = refl

module _ (env : Env) where
  sync-snoc :
      (entries : List (Bytes × Bytes)) (key value : Bytes) (r : Log env × ℕ)
      → sync env (entries ++ (key, value) ∷ []) r
        ≡ sync env entries r >>= (λ t. sync_entry env key value t)
  unfolding sync
  sync-snoc [] key value r = >>=-ok (sync_entry env key value r)
  sync-snoc ((k, v) ∷ entries) key value r =
      ap (λ f. sync_entry env k v r >>= f) (λ i t. sync-snoc entries key value t i)
      ∙ sym (>>=_assoc (sync_entry env k v r) (sync env entries) (λ u. sync_entry env key value u))

  All-snoc :
      {A : Type 0} (P : A → Type 0) (xs : List A) (x : A) → All P xs → P x → All P (xs ++ x ∷ [])
  All-snoc P [] x h p = (p, tt)
  All-snoc P (y ∷ xs) x h p = (h.0, All-snoc P xs x h.1 p)

  -- The sync of a log with a source: the consumer is the loop of `sync`, and `tree` reads the log's
  -- own tree of messages.
  module _ (source_root : Node) (get_children : ℕ → Option Bytes → Result (List Node))
      (tree_root : Log env → Node) (tree_node : Log env → ℕ → Option Bytes → Result (Option Node))
      (equal_nodes : Node → Node → Bool) (equal_arrays : Bytes → Bytes → Bool) where
    abbrev pub log_peers : Peers
    log_peers = record {
      State = Log env × ℕ;
      source_root = source_root;
      get_children = get_children;
      target_root = λ r. tree_root r.0;
      get_node = λ r. tree_node r.0;
      equal_nodes = equal_nodes;
      equal_arrays = equal_arrays;
      on_entry = λ key value r. sync_entry env key value r;
    }

    -- Entries that the source lists, and a sync of them up to here.
    Synced : Log env × ℕ → Log env × ℕ → Type 0
    Synced start r =
        (entries : List (Bytes × Bytes)) × (sync env entries start ≡ ok r)
        × All (λ e. IsEntry log_peers e.0 e.1) entries

    Synced-sync_entry :
        (key value : Bytes) (start r : Log env × ℕ)
        → IsEntry log_peers key value
        → Synced start r
        → OnOk (Synced start) (sync_entry env key value r)
    unfolding Synced
    Synced-sync_entry key value start r listed (entries, e, all) =
        OnOk-map (λ t. sync_entry env key value r ≡ ok t) (Synced start)
          (sync_entry env key value r) (OnOk-self _)
          (λ t f. (
            entries ++ (key, value) ∷ [],
            sync-snoc entries key value start ∙ rw e f,
            All-snoc (λ p. IsEntry log_peers p.0 p.1) entries (key, value) all listed,
          ))

    -- A sync that returns did what the log does with a list of entries, each of which the source
    -- lists at level 0: the driver and the writes between its reads, seen as one list.
    pub run_sync-sync :
        (fuel : ℕ) (log : Log env) {after : Log env} {count : ℕ}
        → run_sync log_peers fuel (log, 0) ≡ ok (after, count)
        → (entries : List (Bytes × Bytes)) × (sync env entries (log, 0) ≡ ok (after, count))
          × All (λ e. IsEntry log_peers e.0 e.1) entries
    unfolding Synced sync
    run_sync-sync fuel log e =
        OnOk-at (Synced (log, 0)) (run_sync log_peers fuel (log, 0))
          (run_sync-Inv log_peers fuel (log, 0) (Synced (log, 0))
            (λ key value t listed _ h. Synced-sync_entry key value (log, 0) t listed h)
            ([], refl, tt))
          e
