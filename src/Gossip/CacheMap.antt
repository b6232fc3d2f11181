-- ===== src/Gossip/CacheMap.antt =====
-- packages/gossiplog/src/utils.ts: CacheMap, a map that drops its oldest entries.
pub mod Laws
mod Tests
use canvas.Base.{ℕ, Bool, List, [], ◌∷◌, Str, length, ltb, if◌then◌else◌}
use canvas.Base.Maps.{put}

module _ {ℓ} {V : Type ℓ} where
  -- The loop of `set` over the keys: it deletes from the front while the map is too large.
  unfoldable pub shift : ℕ → List (Str × V) → List (Str × V)
  shift capacity [] = []
  shift capacity (entry ∷ entries) =
      let rest = shift capacity entries in
      if ltb capacity (length (entry ∷ entries)) then rest else entry ∷ entries

  -- `CacheMap.set`
  unfoldable pub set_entry : ℕ → Str → V → List (Str × V) → List (Str × V)
  unfolding shift put
  set_entry capacity key value entries = shift capacity (put key value entries)

  -- The constructor.
  unfoldable pub of_entries : ℕ → List (Str × V) → List (Str × V) → List (Str × V)
  unfolding set_entry
  of_entries capacity [] map = map
  of_entries capacity ((key, value) ∷ entries) map =
      of_entries capacity entries (set_entry capacity key value map)
