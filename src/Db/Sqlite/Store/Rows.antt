-- ===== src/Db/Sqlite/Store/Rows.antt =====
-- The rows under a key, after a statement: packages/modeldb/src/sqlite/api.ts.
use canvas.Base.{
  some_inj, ◌≡◌, refl, ap, Bool, true, false, not, some, List, [], ◌∷◌, ◌++◌, Str, bytes_eq,
  bytes_eq_iff, filter, Bool-cases, inl, inr, arith,
}
use canvas.Base.Maps.{lookup}
use canvas.Db.Sqlite.{SqlValue, missing, nothing, number, text, blob, column}
use canvas.Db.Sqlite.Store.{Record, head?}
use canvas.Db.Sqlite.Store.Laws.{is_text, has_key, bound, updated}

pub filter-append {ℓ} :
    {A : Type ℓ} (f : A → Bool) (xs ys : List A) → filter f (xs ++ ys) ≡ filter f xs ++ filter f ys
filter-append f [] ys = refl
filter-append f (x ∷ xs) ys = elim (Bool-cases (f x)) [
  | inl e ↦ rw e (ap (◌∷◌ x) (filter-append f xs ys))
  | inr e ↦ rw e (filter-append f xs ys)
]

module _ {N : Type 0} where
  is_text_other :
      (v : SqlValue N) (key k : Str)
      → bytes_eq key k ≡ false
      → is_text k v ≡ true
      → is_text key v ≡ false
  is_text_other (text s) key k ne h = elim (Bool-cases (bytes_eq s key)) [
    | inr e ↦ e
    | inl e ↦ absurd (clash e)
  ]
    where
      clash : bytes_eq s key ≡ true → ⊥
      clash e = ground (arith, bytes_eq_iff s key, bytes_eq_iff s k, bytes_eq_iff key k)
  is_text_other missing key k ne h = refl
  is_text_other nothing key k ne h = refl
  is_text_other (number n) key k ne h = refl
  is_text_other (blob b) key k ne h = refl

  module _ (name key : Str) where
    pub deleted_self :
        (rows : List (Record N))
        → filter (has_key name key) (filter (λ r. not (has_key name key r)) rows) ≡ []
    deleted_self [] = refl
    deleted_self (r ∷ rows) = elim (Bool-cases (has_key name key r)) [
      | inl e ↦ rw e (deleted_self rows)
      | inr e ↦ rw (e, e) (deleted_self rows)
    ]

    pub deleted_other :
        (k : Str) (rows : List (Record N))
        → bytes_eq key k ≡ false
        → filter (has_key name k) (filter (λ r. not (has_key name key r)) rows)
          ≡ filter (has_key name k) rows
    deleted_other k [] ne = refl
    deleted_other k (r ∷ rows) ne = elim (Bool-cases (has_key name k r)) [
      | inl e ↦
          rw (is_text_other (column r name) key k ne e, e) (ap (◌∷◌ r) (deleted_other k rows ne))
      | inr e ↦ elim (Bool-cases (has_key name key r)) [
        | inl f ↦ rw (e, f) (deleted_other k rows ne)
        | inr f ↦ rw (f, e) (deleted_other k rows ne)
      ]
    ]

    -- A row with the key has no other.
    pub other_key :
        (k : Str) (r : Record N)
        → bytes_eq key k ≡ false
        → has_key name key r ≡ true
        → has_key name k r ≡ false
    other_key k r ne h =
        is_text_other (column r name) k key (ground (arith, bytes_eq_iff key k, bytes_eq_iff k key))
          h

    module _ (row : Record N) (keyed : has_key name key row ≡ true) where
      pub updated_self :
          (rows : List (Record N)) {old : Record N}
          → head? (filter (has_key name key) rows) ≡ some old
          → head? (filter (has_key name key) (updated name key row rows)) ≡ some row
      updated_self [] h = absurd (cc)
      updated_self (r ∷ rows) h = elim (Bool-cases (has_key name key r)) [
        | inl e ↦ rw (e, keyed) refl
        | inr e ↦ rw (e, e) (updated_self rows (rw e at h))
      ]

      pub updated_other :
          (k : Str) (rows : List (Record N))
          → bytes_eq key k ≡ false
          → filter (has_key name k) (updated name key row rows) ≡ filter (has_key name k) rows
      updated_other k [] ne = refl
      updated_other k (r ∷ rows) ne = elim (Bool-cases (has_key name key r)) [
        | inl e ↦ rw (e, other_key k row ne keyed, other_key k r ne e) (updated_other k rows ne)
        | inr e ↦ elim (Bool-cases (has_key name k r)) [
          | inl f ↦ rw (e, f) (ap (◌∷◌ r) (updated_other k rows ne))
          | inr f ↦ rw (e, f) (updated_other k rows ne)
        ]
      ]

  -- A column of a row that was written.
  pub lookup-bound :
      (columns : List (Str × Str)) (values : Record N) (n : Str) {q : Str}
      → lookup n columns ≡ some q
      → lookup n (bound columns values) ≡ some (column values q)
  unfolding lookup
  lookup-bound [] values n h = absurd (cc)
  lookup-bound ((m, p) ∷ columns) values n {q} h = elim (Bool-cases (bytes_eq m n)) [
    | inl e ↦ rw e (ap (λ (r : Str). some (column values r)) (some_inj (rw e at h)))
    | inr e ↦ rw e (lookup-bound columns values n (rw e at h))
  ]
