-- ===== src/Runtime/State.antt =====
-- packages/core/src/runtime/AbstractRuntime.ts: the tables that messages are applied
-- to, and what the runtime takes from elsewhere.
use canvas.Base.{
  codes, ◌||◌, ℕ, Bool, not, ◌&&◌, Option, none, some, List, [], ◌∷◌, Str, Bytes, bytes_eq,
  bytes_lt, Result, if◌then◌else◌,
}
use canvas.Base.Maps.{put}

pub record SessionPayload : Type 0 where
  pub public_key : Str
  pub address : Str
  pub timestamp : ℕ
  pub duration : Option ℕ
  pub blockhash : Option Str

pub record ActionPayload (Args : Type 0) : Type 0 where
  pub address : Str
  pub name : Str
  pub args : Args
  pub timestamp : ℕ
  pub blockhash : Option Str

pub data Payload (Args : Type 0) : Type 0 where
  session : SessionPayload → Payload Args
  action : ActionPayload Args → Payload Args
  other : Payload Args

-- A message as the log delivers it, with its id and the key that signed it.
pub record Delivery (Args : Type 0) : Type 0 where
  pub id : Str
  pub signature_key : Str
  pub parents : List Str
  pub payload : Payload Args

-- A row of `$sessions`.
pub record SessionRow : Type 0 where
  pub message_id : Str
  pub public_key : Str
  pub address : Str
  pub expiration : ℕ
  pub raw_message : Str
  pub raw_signature : Str

-- The tables: `$sessions`, `$effects` and `$versions` by their keys, which are the runtime's own, and
-- the rows of the contract's models.
pub record Db (Row : Type 0) : Type 0 where
  pub sessions : List (Str × SessionRow)
  pub effects : List (Str × Option Bytes)
  pub versions : List (Str × Bytes)
  pub rows : Str → Str → Option Row

-- The batch that `db.apply` gets. What a row that an action sets or deletes in one of the runtime's
-- own tables does to them is given with it.
pub data Effect (Row : Type 0) : Type 0 where
  set_effect : (key : Str) → Option Bytes → Effect Row
  set_version : (key : Str) → Bytes → Effect Row
  set_row : (model key : Str) → Row → Effect Row
  delete_row : (model key : Str) → Effect Row
  own_row : (Db Row → Db Row) → Effect Row

-- The tables that `getModelSchema` adds to the contract's models.
unfoldable pub is_own : (index_history : Bool) → Str → Bool
unfolding bytes_eq
is_own index_history model =
    bytes_eq model (codes "$sessions")
    || bytes_eq model (if index_history then codes "$effects" else codes "$versions")

-- What the code takes from elsewhere: signers, the contract, hashes and encodings.
pub record Env : Type 1 where
  pub Args : Type 0
  pub Row : Type 0
  pub topic : Str
  pub index_history : Bool
  -- Some signer matches an address; it verifies a session.
  pub matches : Str → Bool
  pub verify_session : Str → SessionPayload → Bool
  pub raw_message : Delivery Args → Str
  pub raw_signature : Delivery Args → Str
  -- `execute`: from the reads that a contract may make to the entries that it writes.
  pub execute :
      (Option (Option Row) → Str → Str → Result (Option Row))
      → Delivery Args
      → Result (List (Str × List (Str × Option Row)))
  pub key_hash : Str → Str
  -- What a write of an action to one of the runtime's own tables makes of them.
  pub write_own : (model key : Str) → Option Row → Db Row → Db Row
  pub encode_row : Row → Bytes
  pub decode_row : Option Bytes → Result (Option Row)
  pub encode_id : Str → Bytes
  pub decode_id : Bytes → Str

abbrev pub max_safe_integer : ℕ
max_safe_integer = 9007199254740991

-- "vvvvvvvvvvvvvvvvvvvvvvvvvvvvvvvv" and "00000000000000000000000000000000"
abbrev pub max_message_id : Str
max_message_id =
    let v = λ (s : Str). 118 ∷ 118 ∷ 118 ∷ 118 ∷ 118 ∷ 118 ∷ 118 ∷ 118 ∷ s in v (v (v (v [])))

abbrev pub min_message_id : Str
min_message_id = let z = λ (s : Str). 48 ∷ 48 ∷ 48 ∷ 48 ∷ 48 ∷ 48 ∷ 48 ∷ 48 ∷ s in z (z (z (z [])))

-- `$effects` rows of a key range, one by one: `orderBy: { key: "desc" }, limit: 1` keeps the last.
abbrev pub later : Option (Str × Option Bytes) → (Str × Option Bytes) → Option (Str × Option Bytes)
later none e = some e
later (some (j, w)) (k, v) = if bytes_lt j k then some (k, v) else some (j, w)

unfoldable pub last_effect :
    (lower upper : Str)
    → List (Str × Option Bytes)
    → Option (Str × Option Bytes)
    → Option (Str × Option Bytes)
unfolding bytes_lt
last_effect lower upper [] best = best
last_effect lower upper ((k, v) ∷ es) best =
    last_effect lower upper es
      (if not (bytes_lt k lower) && bytes_lt k upper then later best (k, v) else best)

-- The database, as the runtime uses it.
module _ {Row : Type 0} where
  unfoldable pub update_row :
      Str → Str → Option Row → (Str → Str → Option Row) → Str → Str → Option Row
  update_row model key v rows m k = if bytes_eq model m && bytes_eq key k then v else rows m k

  unfoldable pub apply_effect : Effect Row → Db Row → Db Row
  unfolding update_row put
  apply_effect (set_effect key v) db = record db { effects = put key v db.effects }
  apply_effect (set_version key v) db = record db { versions = put key v db.versions }
  apply_effect (set_row model key v) db = record db { rows = update_row model key (some v) db.rows }
  apply_effect (own_row write) db =
      let own = write db in
      record db { sessions = own.sessions; effects = own.effects; versions = own.versions }
  apply_effect (delete_row model key) db = record db { rows = update_row model key none db.rows }

  unfoldable pub apply_effects : List (Effect Row) → Db Row → Db Row
  apply_effects [] db = db
  apply_effects (e ∷ es) db = apply_effects es (apply_effect e db)
