-- ===== src/Gossip/CacheMap/Tests.antt =====
-- A full cache of two entries.
use canvas.Base.{ℕ, ◌≤◌, ◌<◌, ◌≡◌, arith, none, some, List, [], ◌∷◌, Str, length, drop}
use canvas.Base.Maps.{put, lookup}
use canvas.Gossip.CacheMap.{set_entry}
use canvas.Gossip.CacheMap.Laws.{set_entry_lem}

abbrev full : List (Str × ℕ)
full = (1 ∷ [], 10) ∷ (2 ∷ [], 20) ∷ []

set_entry_lem_example :
    (length (set_entry 2 (3 ∷ []) 30 full) ≤ 2)
    × ((w : ℕ)
        → lookup (3 ∷ []) full ≡ some w
        → set_entry 2 (3 ∷ []) 30 full ≡ put (3 ∷ []) 30 full)
    × (lookup (3 ∷ []) full ≡ none
        → length full < 2
        → set_entry 2 (3 ∷ []) 30 full ≡ put (3 ∷ []) 30 full)
    × (lookup (3 ∷ []) full ≡ none
        → length full ≡ 2
        → set_entry 2 (3 ∷ []) 30 full ≡ drop 1 (put (3 ∷ []) 30 full))
set_entry_lem_example = set_entry_lem 2 (3 ∷ []) 30 full (ground arith)
