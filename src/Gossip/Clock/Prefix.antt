-- ===== src/Gossip/Clock/Prefix.antt =====
-- The prefix of a key, for each number of bytes: clock.ts.
use native.Mathlib.Decide.{dec_lt}
use canvas.Base.Int.{pos}
use canvas.Base.{
  ℕ, zero, suc, ◌+◌, ◌-◌, ◌/◌, ◌%◌, ◌^◌, ◌≤◌, ◌<◌, ◌≡◌, List, [], ◌∷◌, ◌++◌, Bytes, length, drop,
  arith, ap, ◌∙◌,
}
use canvas.Gossip.Clock.{encode_sets, write_sets, encode_clock, decode_clock}
use canvas.Gossip.Clock.Groups.{
  encode_sets_step, encode_sets_end, decode1, decode2, decode3, decode4, decode5,
}

-- The bytes `p` that the key of a clock begins with.
abbrev pub IsPrefixOf : ℕ → Bytes → Type 0
IsPrefixOf c p =
    (length p ≤ 5)
    × ((key : Bytes) → 5 ≤ length key → encode_clock key c ≡ (p ++ drop (length p) key, length p))
    × ((rest : Bytes) → decode_clock (p ++ rest) ≡ (pos c, length p))

encode_clock_lem :
    (c : ℕ) (k0 k1 k2 k3 k4 : ℕ) (key : Bytes) {sets : List ℕ}
    → 0 < c
    → encode_sets 5 (pos c) ≡ sets
    → encode_clock (k0 ∷ k1 ∷ k2 ∷ k3 ∷ k4 ∷ key) c
      ≡ (write_sets (k0 ∷ k1 ∷ k2 ∷ k3 ∷ k4 ∷ key) (length sets - 1) 0 sets, length sets)
unfolding encode_clock
encode_clock_lem zero k0 k1 k2 k3 k4 key h e = absurd (omega arith)
encode_clock_lem (suc c) k0 k1 k2 k3 k4 key h e =
    ap (λ s. (write_sets (k0 ∷ k1 ∷ k2 ∷ k3 ∷ k4 ∷ key) (length s - 1) 0 s, length s)) e

module _ (c : ℕ) where
  pub encode_sets1 : 1 ≤ c → c < 128 → encode_sets 5 (pos c) ≡ (c % 128) ∷ []
  encode_sets1 h k =
      encode_sets_step 4 c (omega arith) (omega arith)
      ∙ ap (◌∷◌ (c % 128)) (ap (λ m. encode_sets 4 (pos m)) (omega arith) ∙ encode_sets_end 4)

  pub encode_clock1 :
      (key : Bytes)
      → 5 ≤ length key
      → 1 ≤ c
      → c < 128
      → encode_clock key c ≡ (((c % 128) ∷ []) ++ drop 1 key, 1)
  unfolding write_sets
  encode_clock1 (k0 ∷ k1 ∷ k2 ∷ k3 ∷ k4 ∷ key) l h k =
      encode_clock_lem c k0 k1 k2 k3 k4 key (omega arith) (encode_sets1 h k)
  encode_clock1 key l h k = absurd (omega arith)

  prefix1 : 1 ≤ c → c < 128 → (p : Bytes) × IsPrefixOf c p
  prefix1 h k = (
    (c % 128) ∷ [],
    (
      omega arith,
      (λ key l. encode_clock1 key l h k),
      λ rest.
          decode1 (c % 128) 0 0 0 0 rest (omega arith) (omega arith) (omega arith) (omega arith)
            (omega arith)
          ∙ ap (λ v. (pos v, 1)) (omega arith),
    ),
  )

  pub encode_sets2 :
      128 ≤ c → c < 16384 → encode_sets 5 (pos c) ≡ (c % 128) ∷ ((c / 128) % 128) ∷ []
  encode_sets2 h k =
      encode_sets_step 4 c (omega arith) (omega arith)
      ∙ ap (◌∷◌ (c % 128)) (
          encode_sets_step 3 (c / 128) (omega arith) (omega arith)
          ∙ ap (◌∷◌ ((c / 128) % 128))
              (ap (λ m. encode_sets 3 (pos m)) (omega arith) ∙ encode_sets_end 3))

  pub encode_clock2 :
      (key : Bytes)
      → 5 ≤ length key
      → 128 ≤ c
      → c < 16384
      → encode_clock key c ≡ ((((c / 128) % 128 + 128) ∷ (c % 128) ∷ []) ++ drop 2 key, 2)
  unfolding write_sets
  encode_clock2 (k0 ∷ k1 ∷ k2 ∷ k3 ∷ k4 ∷ key) l h k =
      encode_clock_lem c k0 k1 k2 k3 k4 key (omega arith) (encode_sets2 h k)
  encode_clock2 key l h k = absurd (omega arith)

  prefix2 : 128 ≤ c → c < 16384 → (p : Bytes) × IsPrefixOf c p
  prefix2 h k = (
    ((c / 128) % 128 + 128) ∷ (c % 128) ∷ [],
    (
      omega arith,
      (λ key l. encode_clock2 key l h k),
      λ rest.
          decode2 (c % 128) ((c / 128) % 128) 0 0 0 rest (omega arith) (omega arith) (omega arith)
            (omega arith) (omega arith)
          ∙ ap (λ v. (pos v, 2)) (omega arith),
    ),
  )

  pub encode_sets3 :
      16384 ≤ c
      → c < 2097152
      → encode_sets 5 (pos c) ≡ (c % 128) ∷ ((c / 128) % 128) ∷ ((c / 16384) % 128) ∷ []
  encode_sets3 h k =
      encode_sets_step 4 c (omega arith) (omega arith)
      ∙ ap (◌∷◌ (c % 128)) (
          encode_sets_step 3 (c / 128) (omega arith) (omega arith)
          ∙ ap (◌∷◌ ((c / 128) % 128)) (
              ap (λ m. encode_sets 3 (pos m)) (omega arith)
              ∙ encode_sets_step 2 (c / 16384) (omega arith) (omega arith)
              ∙ ap (◌∷◌ ((c / 16384) % 128))
                  (ap (λ m. encode_sets 2 (pos m)) (omega arith) ∙ encode_sets_end 2)))

  pub encode_clock3 :
      (key : Bytes)
      → 5 ≤ length key
      → 16384 ≤ c
      → c < 2097152
      → encode_clock key c
        ≡ ((((c / 16384) % 128 + 128) ∷ ((c / 128) % 128 + 128) ∷ (c % 128) ∷ []) ++ drop 3 key, 3)
  unfolding write_sets
  encode_clock3 (k0 ∷ k1 ∷ k2 ∷ k3 ∷ k4 ∷ key) l h k =
      encode_clock_lem c k0 k1 k2 k3 k4 key (omega arith) (encode_sets3 h k)
  encode_clock3 key l h k = absurd (omega arith)

  prefix3 : 16384 ≤ c → c < 2097152 → (p : Bytes) × IsPrefixOf c p
  prefix3 h k = (
    ((c / 16384) % 128 + 128) ∷ ((c / 128) % 128 + 128) ∷ (c % 128) ∷ [],
    (
      omega arith,
      (λ key l. encode_clock3 key l h k),
      λ rest.
          decode3 (c % 128) ((c / 128) % 128) ((c / 16384) % 128) 0 0 rest (omega arith)
            (omega arith) (omega arith) (omega arith) (omega arith)
          ∙ ap (λ v. (pos v, 3)) (omega arith),
    ),
  )

  pub encode_sets4 :
      2097152 ≤ c
      → c < 268435456
      → encode_sets 5 (pos c)
        ≡ (c % 128) ∷ ((c / 128) % 128) ∷ ((c / 16384) % 128) ∷ ((c / 2097152) % 128) ∷ []
  encode_sets4 h k =
      encode_sets_step 4 c (omega arith) (omega arith)
      ∙ ap (◌∷◌ (c % 128)) (
          encode_sets_step 3 (c / 128) (omega arith) (omega arith)
          ∙ ap (◌∷◌ ((c / 128) % 128)) (
              ap (λ m. encode_sets 3 (pos m)) (omega arith)
              ∙ encode_sets_step 2 (c / 16384) (omega arith) (omega arith)
              ∙ ap (◌∷◌ ((c / 16384) % 128)) (
                  ap (λ m. encode_sets 2 (pos m)) (omega arith)
                  ∙ encode_sets_step 1 (c / 2097152) (omega arith) (omega arith)
                  ∙ ap (◌∷◌ ((c / 2097152) % 128))
                      (ap (λ m. encode_sets 1 (pos m)) (omega arith) ∙ encode_sets_end 1))))

  pub encode_clock4 :
      (key : Bytes)
      → 5 ≤ length key
      → 2097152 ≤ c
      → c < 268435456
      → encode_clock key c ≡ (
        (((c / 2097152) % 128 + 128)
              ∷ ((c / 16384) % 128 + 128)
              ∷ ((c / 128) % 128 + 128)
              ∷ (c % 128)
              ∷ [])
            ++ drop 4 key,
        4,
      )
  unfolding write_sets
  encode_clock4 (k0 ∷ k1 ∷ k2 ∷ k3 ∷ k4 ∷ key) l h k =
      encode_clock_lem c k0 k1 k2 k3 k4 key (omega arith) (encode_sets4 h k)
  encode_clock4 key l h k = absurd (omega arith)

  prefix4 : 2097152 ≤ c → c < 268435456 → (p : Bytes) × IsPrefixOf c p
  prefix4 h k = (
    ((c / 2097152) % 128 + 128)
        ∷ ((c / 16384) % 128 + 128)
        ∷ ((c / 128) % 128 + 128)
        ∷ (c % 128)
        ∷ [],
    (
      omega arith,
      (λ key l. encode_clock4 key l h k),
      λ rest.
          decode4 (c % 128) ((c / 128) % 128) ((c / 16384) % 128) ((c / 2097152) % 128) 0 rest
            (omega arith) (omega arith) (omega arith) (omega arith) (omega arith)
          ∙ ap (λ v. (pos v, 4)) (omega arith),
    ),
  )

  pub encode_sets5 :
      268435456 ≤ c
      → c < 2147483648
      → encode_sets 5 (pos c)
        ≡ (c % 128)
          ∷ ((c / 128) % 128)
          ∷ ((c / 16384) % 128)
          ∷ ((c / 2097152) % 128)
          ∷ ((c / 268435456) % 128)
          ∷ []
  encode_sets5 h k =
      encode_sets_step 4 c (omega arith) (omega arith)
      ∙ ap (◌∷◌ (c % 128)) (
          encode_sets_step 3 (c / 128) (omega arith) (omega arith)
          ∙ ap (◌∷◌ ((c / 128) % 128)) (
              ap (λ m. encode_sets 3 (pos m)) (omega arith)
              ∙ encode_sets_step 2 (c / 16384) (omega arith) (omega arith)
              ∙ ap (◌∷◌ ((c / 16384) % 128)) (
                  ap (λ m. encode_sets 2 (pos m)) (omega arith)
                  ∙ encode_sets_step 1 (c / 2097152) (omega arith) (omega arith)
                  ∙ ap (◌∷◌ ((c / 2097152) % 128)) (
                      ap (λ m. encode_sets 1 (pos m)) (omega arith)
                      ∙ encode_sets_step 0 (c / 268435456) (omega arith) (omega arith)
                      ∙ ap (◌∷◌ ((c / 268435456) % 128))
                          (ap (λ m. encode_sets 0 (pos m)) (omega arith) ∙ encode_sets_end 0)))))

  pub encode_clock5 :
      (key : Bytes)
      → 5 ≤ length key
      → 268435456 ≤ c
      → c < 2147483648
      → encode_clock key c ≡ (
        (((c / 268435456) % 128 + 128)
              ∷ ((c / 2097152) % 128 + 128)
              ∷ ((c / 16384) % 128 + 128)
              ∷ ((c / 128) % 128 + 128)
              ∷ (c % 128)
              ∷ [])
            ++ drop 5 key,
        5,
      )
  unfolding write_sets
  encode_clock5 (k0 ∷ k1 ∷ k2 ∷ k3 ∷ k4 ∷ key) l h k =
      encode_clock_lem c k0 k1 k2 k3 k4 key (omega arith) (encode_sets5 h k)
  encode_clock5 key l h k = absurd (omega arith)

  prefix5 : 268435456 ≤ c → c < 2147483648 → (p : Bytes) × IsPrefixOf c p
  prefix5 h k = (
    ((c / 268435456) % 128 + 128)
        ∷ ((c / 2097152) % 128 + 128)
        ∷ ((c / 16384) % 128 + 128)
        ∷ ((c / 128) % 128 + 128)
        ∷ (c % 128)
        ∷ [],
    (
      omega arith,
      (λ key l. encode_clock5 key l h k),
      λ rest.
          decode5 (c % 128) ((c / 128) % 128) ((c / 16384) % 128) ((c / 2097152) % 128)
            ((c / 268435456) % 128) rest (omega arith) (omega arith) (omega arith) (omega arith)
            (omega arith)
          ∙ ap (λ v. (pos v, 5)) (omega arith),
    ),
  )

pub prefix_of : (c : ℕ) → 0 < c → c < 2 ^ 31 → (p : Bytes) × IsPrefixOf c p
prefix_of c h k = elim (dec_lt c 128) [
  | yes a ↦ prefix1 c h a
  | no a ↦ elim (dec_lt c 16384) [
    | yes b ↦ prefix2 c (omega arith) b
    | no b ↦ elim (dec_lt c 2097152) [
      | yes d ↦ prefix3 c (omega arith) d
      | no d ↦ elim (dec_lt c 268435456) [
        | yes e ↦ prefix4 c (omega arith) e
        | no e ↦ prefix5 c (omega arith) k
      ]
    ]
  ]
]
