-- ===== src/Lib.antt =====
-- Canvas: a log of signed messages that replicas exchange, and a database that the messages write.
--
-- The parts, and how they interact. A message names its parents; its key begins with its logical
-- clock (packages/gossiplog/src/clock.ts), and what is stored is the signed value
-- (packages/signed-cid). A log stores messages, and holds back in a mempool those whose parents are
-- missing (packages/gossiplog/src/Mempool.ts). Two replicas compare the Merkle trees of their logs
-- (packages/gossiplog/src/sync/driver.ts), and the one asks the other for the entries it misses.
-- Every message of the log is given to the runtime's consumer
-- (packages/core/src/runtime/AbstractRuntime.ts), which checks sessions, runs actions and applies
-- their effects to a database (packages/modeldb), which stores rows in SQLite or IndexedDB and
-- answers queries.
--
--   Base           shared names: results, byte strings, maps, integers, lists.
--   SignedCid      signed-cid/src: Cid has the codecs, the digests and getCID; Signers has the two
--                  signers, verifySignature and verifySignedValue; External what they are given.
--   Gossip/Clock   gossiplog/src/clock.ts: encodeClock, decodeClock, encodingLength. JavaScript's bit
--                  operators work on 32-bit integers, and the wrap-around is written out.
--   Gossip/Schema  gossiplog/src/schema.ts: getNextClock and getKey.
--   Gossip/Log     gossiplog/src/AbstractGossipLog.ts: Types has the tables and what is external;
--                  Ancestors has getAncestorClocks, #getAncestors, isAncestor and the links of a new
--                  message; Insert has encode, #insert (insert_at), insert (insert_message) and
--                  append; Thrown has #insert with the log that it leaves when it throws (insert_left);
--                  Sync has decode and the loop of sync over the entries of its driver.
--   Gossip/Driver  gossiplog/src/sync/driver.ts: sync (run_sync), syncRoot and syncNode, each run
--                  with the consumer of the entries that it yields.
--   Gossip/Locks   gossiplog/src/memory/index.ts: the queue of entries, read and write, and the peers
--                  of a sync, as steps of the log.
--   Gossip/CacheMap  gossiplog/src/utils.ts: CacheMap.
--   Gossip/Mempool   gossiplog/src/Mempool.ts: add (here insert) and observe, over association
--                  lists.
--   Db/Types       modeldb/src/types.ts: schemas and values.
--   Db/Config      modeldb/src/config.ts: parseConfig and parseProperty.
--   Db/Validate    modeldb/src/utils.ts: validateModelValue.
--   Db/Order       modeldb/src/query.ts: the orders of values, and getCompare.
--   Db/Query       modeldb/src/query.ts: getFilter and what it calls.
--   Db/Subscriptions  modeldb/src/AbstractModelDB.ts: subscribe, unsubscribe and getEffectFilter,
--                  and the calls that apply of modeldb/src/sqlite/ModelDB.ts makes; Stored has the
--                  rows of a database over object stores.
--   Db/Sqlite      modeldb/src/sqlite/encoding.ts: encodeRecordParams and decodeRecord.
--   Db/Sqlite/Api  modeldb/src/sqlite/api.ts: what the constructors of ModelAPI and RelationAPI
--                  execute and prepare, as SQL text.
--   Db/Sqlite/Store  the same file and modeldb/src/sqlite/ModelDB.ts: get, set, delete and values of
--                  a model, get, add and delete of a relation, and the transaction of apply.
--   Db/Idb         modeldb/src/idb/api.ts: encodeObject, decodeObject and getRange; Plan has query
--                  (query_rows), over the rows that a cursor visits; Store has get, set and delete,
--                  and the effects of apply of modeldb/src/idb/ModelDB.ts.
--   Runtime/State  core/src/runtime/AbstractRuntime.ts: the tables, and what the runtime is given.
--   Runtime/Consumer  the same file: getConsumer and getModelValue; consume_all is the loop of replay
--                  in gossiplog/src/AbstractGossipLog.ts.
--   Runtime/Actions  core/src/runtime/ContractRuntime.ts and FunctionRuntime.ts: execute, and the
--                  database that an action is given (contract_api, function_api). An action is given
--                  by its calls; each goes on with what the call returned or threw.
--   Runtime/Schema core/src/runtime/AbstractRuntime.ts: getModelSchema; db_models is the constructor
--                  of modeldb/src/AbstractModelDB.ts. Opened has what they give the runtime.
--
-- Exceptions are results (throw with its message); generators and async functions are run to their
-- end. Maps and sets are association lists in insertion order. JavaScript's numbers, JSON, the keys
-- of IndexedDB and their order, hashes, signatures, base32, CBOR, the Merkle tree, what an SQL
-- statement does and the contract are parameters, with hypotheses where a theorem needs any. The
-- laws of the SQL engine are about the statements whose text is built here, for one model and its
-- relations.
--
-- Fuel: the loop of encodeClock gets five rounds, and encode_sets_fuel shows that they are enough;
-- #insert calls itself for each message that the mempool releases, and gets one call more than
-- messages wait, which insert_now_fuel shows to be enough; getAncestorClocks gets thirty-one rounds,
-- see get_ancestor_clocks_ends; the recursion of isAncestor and #getAncestors is bounded by the
-- clock, which falls with each call; the loop of getModelValue gets one round more than there are
-- effects, see find_value-Finds; the walk of the driver is bounded by the height of the source's
-- tree, see run_sync-Complete.
--
-- An operation that throws gives its message and no state, but for #insert: insert_left also gives
-- the log that it leaves when it throws. LMDB then takes the tables back, the log in memory does
-- not, and neither restores the mempool, from which observe may have deleted. What an action calls
-- depends on its arguments, its context and what its calls return. The rows of $sessions, $effects
-- and $versions are fields of the runtime's state; what an action that sets or deletes one of them
-- does to these fields is a parameter (write_own), and the theorem on convergence is about actions
-- that write to the contract's models only.
--
-- Not modelled: how the log and its Merkle tree are stored (an external package), networking, the
-- signers of the chains, the virtual machine, how a contract is loaded, the SQL text of queries,
-- count, and the user interfaces.
pub mod Base
pub mod Gossip
pub mod Db
pub mod SignedCid
pub mod Runtime
