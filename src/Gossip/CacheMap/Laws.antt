-- ===== src/Gossip/CacheMap/Laws.antt =====
-- What a CacheMap keeps: packages/gossiplog/src/utils.ts.
use canvas.Base.{
  ℕ, suc, ◌≤◌, ◌<◌, true, false, ◌≡◌, refl, ap, arith, none, some, List, [], ◌∷◌, Str, length, drop,
  ltb, bytes_eq, inl, inr, Bool-cases,
}
use canvas.Base.Maps.{put, lookup}
use canvas.Gossip.CacheMap.{shift, set_entry}

module _ {ℓ} {V : Type ℓ} where
  shift_fits : (capacity : ℕ) (m : List (Str × V)) → length m ≤ capacity → shift capacity m ≡ m
  unfolding shift
  shift_fits capacity [] h = refl
  shift_fits capacity (e ∷ m) h =
      let b : ltb capacity (suc (length m)) ≡ false = ground arith in rw b refl

  shift_one :
      (capacity : ℕ) (m : List (Str × V)) → length m ≡ suc capacity → shift capacity m ≡ drop 1 m
  unfolding shift
  shift_one capacity [] h = refl
  shift_one capacity (e ∷ m) h =
      let b : ltb capacity (suc (length m)) ≡ true = ground arith in
      rw b (shift_fits capacity m (omega arith))

  -- A key that is there keeps its place; a new one is the youngest.
  put_old :
      (k : Str) (v w : V) (m : List (Str × V)) → lookup k m ≡ some w → length (put k v m) ≡ length m
  unfolding put lookup
  put_old k v w [] h = absurd (cc)
  put_old k v w ((j, u) ∷ m) h = elim (Bool-cases (bytes_eq j k)) [
    | inl b ↦ rw b refl
    | inr b ↦ rw b (ap suc (put_old k v w m (rw b at h)))
  ]

  put_new :
      (k : Str) (v : V) (m : List (Str × V))
      → lookup k m ≡ none
      → length (put k v m) ≡ suc (length m)
  unfolding put lookup
  put_new k v [] h = refl
  put_new k v ((j, u) ∷ m) h = elim (Bool-cases (bytes_eq j k)) [
    | inl b ↦ absurd (ground (arith, b))
    | inr b ↦ rw b (ap suc (put_new k v m (rw b at h)))
  ]

  length-shift : (capacity : ℕ) (m : List (Str × V)) → length (shift capacity m) ≤ capacity
  unfolding shift
  length-shift capacity [] = omega arith
  length-shift capacity (e ∷ m) = elim (Bool-cases (ltb capacity (suc (length m)))) [
    | inl b ↦ rw b (length-shift capacity m)
    | inr b ↦ rw b (ground arith)
  ]

  -- A map within its capacity stays within it. Setting a key that is there, or a new one while there
  -- is room, drops nothing; setting a new key in a full map drops the oldest entry and no other.
  pub set_entry_lem :
      (capacity : ℕ) (k : Str) (v : V) (m : List (Str × V))
      → length m ≤ capacity
      → (length (set_entry capacity k v m) ≤ capacity)
        × ((w : V) → lookup k m ≡ some w → set_entry capacity k v m ≡ put k v m)
        × (lookup k m ≡ none → length m < capacity → set_entry capacity k v m ≡ put k v m)
        × (lookup k m ≡ none → length m ≡ capacity → set_entry capacity k v m ≡ drop 1 (put k v m))
  unfolding set_entry
  set_entry_lem capacity k v m h = (
    length-shift capacity (put k v m),
    (λ w e. shift_fits capacity (put k v m) (omega (arith, put_old k v w m e))),
    (λ e l. shift_fits capacity (put k v m) (omega (arith, put_new k v m e))),
    (λ e l. shift_one capacity (put k v m) (omega (arith, put_new k v m e))),
  )
