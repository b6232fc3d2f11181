-- ===== src/Gossip/Log/Tests.antt =====
-- A log of messages with numbers in them, whose values list the parents, each ended by a zero.
use canvas.Base.Int.{pos}
use canvas.Base.{
  ℕ, zero, suc, ◌+◌, ◌≤◌, ◌<◌, ◌^◌, Bool, true, false, ◌≡◌, refl, ap, sym, ◌∙◌, arith,
  if◌then◌else◌, ◌==◌, List, [], ◌∷◌, ◌++◌, map, Bytes, bytes_eq, length, take, replicate, All,
  Result, ok, throw, ◌>>=◌, Returns, ok_inj,
}
use canvas.Base.Maps.{lookup, has}
use canvas.Gossip.Clock.{decode_clock}
use canvas.Gossip.Schema.{get_key, get_next_clock, key_length}
use canvas.Gossip.Schema.Laws.{BelowClock, get_next_clock_lem, decode_clock-get_key}
use canvas.Gossip.Log.Types.{Message, Txn, Env, Log, stored}
use canvas.Gossip.Log.Ancestors.{ancestor_clocks, get_ancestor_clocks}
use canvas.Gossip.Log.Insert.{append, encode, store, insert_at, insert_now}
use canvas.Gossip.Log.Sync.{decode, sync_entry}
use canvas.Gossip.Log.Closed.{Codec, IsClosed, HasHeads, Grows}
use canvas.Gossip.Log.Reach.{empty_log, appended, here, after, Reach-IsClosed}
use canvas.Gossip.Mempool.{empty, insert}
use canvas.Gossip.Log.Thrown.{log_of, insert_left}
use canvas.Gossip.Log.Fuel.{insert_now_fuel}
use canvas.Gossip.Log.Heads.{is_parent, HeadsExact, store-HeadsExact}
use canvas.Gossip.Log.Decay.{get_ancestor_clocks_ends}
use canvas.Gossip.Log.Missing.{sync_entry-missing}

unfoldable pub write_lists : List Bytes → Bytes
write_lists [] = []
write_lists (p ∷ ps) = map (λ x. suc x) p ++ (0 ∷ write_lists ps)

abbrev pub cons_head : ℕ → List Bytes → List Bytes
cons_head x [] = (x ∷ []) ∷ []
cons_head x (p ∷ ps) = (x ∷ p) ∷ ps

unfoldable pub read_lists : Bytes → List Bytes
read_lists [] = []
read_lists (zero ∷ bs) = [] ∷ read_lists bs
read_lists (suc x ∷ bs) = cons_head x (read_lists bs)

read_one : (p bs : Bytes) → read_lists (map (λ x. suc x) p ++ (0 ∷ bs)) ≡ p ∷ read_lists bs
unfolding read_lists
read_one [] bs = refl
read_one (x ∷ p) bs = ap (cons_head x) (read_one p bs)

read_lists-write_lists : (ps : List Bytes) → read_lists (write_lists ps) ≡ ps
unfolding read_lists write_lists
read_lists-write_lists [] = refl
read_lists-write_lists (p ∷ ps) =
    read_one p (write_lists ps) ∙ ap (◌∷◌ p) (read_lists-write_lists ps)

abbrev pub test_decode : Bytes → Result (ℕ × List Bytes × ℕ)
test_decode (s ∷ p ∷ bs) = ok (s, read_lists bs, p)
test_decode bs = throw "error decoding message"

abbrev pub test_env : Bool → Env
test_env indexed = record {
  Payload = ℕ;
  Signature = ℕ;
  State = ℕ;
  topic = [];
  index_ancestors = indexed;
  encode_id = λ id. id;
  decode_id = λ key. key;
  sha256 = λ value. take 20 (value ++ replicate 20 0);
  encode_value = λ s ps p. ok (s ∷ p ∷ write_lists ps);
  decode_value = test_decode;
  verify_signed_value = λ s m. true;
  verify_signature = λ s. true;
  apply = λ txn state id s m. ok (suc state);
}

test_codec : (indexed : Bool) → Codec (test_env indexed)
test_codec indexed = record {
  ids = λ key. refl;
  values = λ s ps p v e.
      ap test_decode (sym (ok_inj e)) ∙ ap (λ l. ok (s, l, p)) (read_lists-write_lists ps);
}

abbrev logged : (indexed : Bool) → Result (Log (test_env indexed)) → Log (test_env indexed)
logged indexed (ok log) = log
logged indexed (throw e) = empty_log (test_env indexed) 0

abbrev log1 : Log (test_env true)
log1 = logged true (append (test_env true) (λ m. 7) 5 (empty_log (test_env true) 0))

abbrev log2 : Log (test_env true)
log2 = logged true (append (test_env true) (λ m. 7) 6 log1)

Reach-IsClosed_example :
    IsClosed (test_env true) log1.txn
    × HasHeads (test_env true) log1.txn
    × Grows (test_env true) log1.txn log2.txn
unfolding append write_lists
Reach-IsClosed_example =
    Reach-IsClosed (test_env true) (test_codec true) refl 0 (after here (appended (λ m. 7) 5 refl))
      (appended (λ m. 7) 6 refl)

-- A consumer that does not take the payload 9.
abbrev takes : ℕ → ℕ → Result ℕ
takes payload state = if payload == 9 then throw "refused" else ok (suc state)

abbrev picky_env : Env
picky_env = record (test_env true) { apply = λ txn state id s m. takes m.payload state }

abbrev first : Message ℕ
first = record { topic = []; clock = 1; parents = []; payload = 5 }

-- The message 3 waits for 1 and 2, and the message 4, which the consumer does not take, for 1.
abbrev waiting_log : Log picky_env
waiting_log = record {
  txn = record { messages = []; heads = []; ancestors = [] };
  mempool =
      insert (4 ∷ []) (7, record { topic = []; clock = 2; parents = (1 ∷ []) ∷ []; payload = 9 })
        ((1 ∷ []) ∷ [])
        (insert (3 ∷ [])
          (7, record { topic = []; clock = 3; parents = (1 ∷ []) ∷ (2 ∷ []) ∷ []; payload = 6 })
          ((1 ∷ []) ∷ (2 ∷ []) ∷ []) empty);
  state = 0;
}

-- The insertion of 1 throws at the message 4, and then 3 waits for 2 alone, and 4 is gone.
left_waiting :
    (log_of picky_env (
      insert_left picky_env 2
        (1 ∷ [])
        7
        first
        (1 ∷ [])
        (7 ∷ 5 ∷ [])
        waiting_log)).mempool.missing_parents
    ≡ (3 ∷ [], (2 ∷ []) ∷ []) ∷ []
unfolding insert_left insert write_lists bytes_eq lookup canvas.Gossip.Mempool.add_children
    canvas.Gossip.Mempool.add_child canvas.Base.Maps.put canvas.Base.Maps.add
    canvas.Base.Maps.remove has canvas.Gossip.Mempool.release encode
left_waiting = refl

insert_now_fuel_example :
    insert_at
      (test_env true)
      (suc (length log1.mempool.values) + 4)
      (1 ∷ [])
      7
      (record { topic = []; clock = 1; parents = []; payload = 5 })
      (1 ∷ [])
      (7 ∷ 5 ∷ [])
      log1
    ≡ insert_now
        (test_env true)
        (1 ∷ [])
        7
        (record { topic = []; clock = 1; parents = []; payload = 5 })
        (1 ∷ [])
        (7 ∷ 5 ∷ [])
        log1
insert_now_fuel_example =
    insert_now_fuel (test_env true) 4 (1 ∷ []) 7
      (record { topic = []; clock = 1; parents = []; payload = 5 }) (1 ∷ []) (7 ∷ 5 ∷ []) log1

abbrev empty_txn : Txn
empty_txn = record { messages = []; heads = []; ancestors = [] }

store-HeadsExact_example :
    (is_parent (test_env true) empty_txn (1 ∷ []) ≡ false
      → HeadsExact (test_env true) (store (1 ∷ []) (7 ∷ 5 ∷ 3 ∷ 0 ∷ []) ((2 ∷ []) ∷ []) empty_txn))
    × (is_parent (test_env true) empty_txn (1 ∷ []) ≡ true
        → (has (1 ∷ []) (store (1 ∷ []) (7 ∷ 5 ∷ 3 ∷ 0 ∷ []) ((2 ∷ []) ∷ []) empty_txn).heads
            ≡ true)
          × (is_parent
                (test_env true)
                (store (1 ∷ []) (7 ∷ 5 ∷ 3 ∷ 0 ∷ []) ((2 ∷ []) ∷ []) empty_txn)
                (1 ∷ [])
              ≡ true))
unfolding lookup read_lists has stored bytes_eq
store-HeadsExact_example =
    store-HeadsExact (test_env true) (1 ∷ []) (7 ∷ 5 ∷ 3 ∷ 0 ∷ []) ((2 ∷ []) ∷ []) empty_txn
      (λ w h. absurd (cc)) refl refl (λ k. refl)

get_ancestor_clocks_ends_example :
    (5 ≤ 2 ^ 30 → Returns (get_ancestor_clocks 5))
    × (2 ^ 30 < 5 → (fuel : ℕ) → ancestor_clocks fuel 0 5 ≡ throw "out of fuel")
get_ancestor_clocks_ends_example = get_ancestor_clocks_ends 5

abbrev key20 : Bytes
key20 = 5 ∷ replicate 19 0

get_next_clock_lem_example :
    (n : ℕ) × (get_next_clock (key20 ∷ []) ≡ ok n)
    × (0 < n)
    × All (λ key. BelowClock (decode_clock key).0 n) (key20 ∷ [])
    × ((m : ℕ) → 0 < m → All (λ key. BelowClock (decode_clock key).0 m) (key20 ∷ []) → n ≤ m)
get_next_clock_lem_example = get_next_clock_lem (key20 ∷ []) (refl, tt)

decode_clock-get_key_example :
    (length (get_key (λ v. replicate 32 9) 300 (1 ∷ [])) ≡ key_length)
    × ((decode_clock (get_key (λ v. replicate 32 9) 300 (1 ∷ []))).0 ≡ pos 300)
decode_clock-get_key_example =
    decode_clock-get_key (λ v. replicate 32 9) 300 (1 ∷ []) (ground arith) (ground arith)

-- A value whose parent is `key20`, and its key.
abbrev orphan : Bytes
orphan = 7 ∷ 5 ∷ 6 ∷ (replicate 19 1 ++ (0 ∷ []))

abbrev orphan_key : Bytes
orphan_key = get_key (test_env false).sha256 6 orphan

abbrev orphan_message : Message ℕ
orphan_message = record { topic = []; clock = 6; parents = key20 ∷ []; payload = 5 }

sync_entry-missing_example :
    (false ≡ true
      → sync_entry (test_env false) orphan_key orphan (empty_log (test_env false) 0, 0)
        ≡ throw "missing parent")
    × (false ≡ false
        → sync_entry (test_env false) orphan_key orphan (empty_log (test_env false) 0, 0) ≡ (
            insert_now
              (test_env false)
              orphan_key
              7
              orphan_message
              orphan_key
              orphan
              (empty_log (test_env false) 0)
            >>= λ log'. ok (log', suc 0)))
unfolding stored lookup has bytes_eq decode read_lists
sync_entry-missing_example =
    sync_entry-missing (test_env false) orphan_key orphan (empty_log (test_env false) 0) 0 7
      orphan_message key20 refl refl refl refl refl
