-- ===== src/Db/Sqlite/Store/Relations.antt =====
-- The tables of relations: RelationAPI of packages/modeldb/src/sqlite/api.ts, and the loops over them.
use mathlib.Core.List.{append-nil, append_assoc}
use canvas.Base.{
  ◌≡◌, ◌≢◌, refl, sym, ap, ap₂, ◌∙◌, Bool, true, false, List, [], ◌∷◌, ◌++◌, map, Str, codes,
  bytes_eq, bytes_eq_iff, bytes_eq_self, filter, Result, ok, ◌>>=◌,
}
use canvas.Base.Maps.{lookup, has}
use canvas.Db.Types.{Model, Value, strs, Js}
use canvas.Db.Sqlite.{SqlValue, column}
use canvas.Db.Sqlite.Api.{relation_api, relation_table}
use canvas.Db.Sqlite.Store.{
  Record, Sql, text_of, relation_row, add_targets, relation_add, relation_delete,
}
use canvas.Db.Sqlite.Store.Laws.{has_key, only_target, relation_names, Tables}
use canvas.Db.Sqlite.Store.Rows.{filter-append, deleted_self, deleted_other}

abbrev pub list_in : {N : Type 0} → Value N → List Str
list_in (strs targets) = targets
list_in _ = []

abbrev pub source_column : Str
source_column = codes "_source"

append_inj : (a b c : Str) → a ++ b ≡ a ++ c → b ≡ c
append_inj [] b c h = h
append_inj (x ∷ a) b c h = append_inj a b c (tail (a ++ b) (a ++ c) h)
  where
    tail : (u v : Str) → ◌≡◌ {A = Str} (x ∷ u) (x ∷ v) → u ≡ v
    tail u v p = cc

pub relation_table-ne :
    (source name other : Str)
    → bytes_eq name other ≡ false
    → relation_table source name ≢ relation_table source other
relation_table-ne source name other ne h =
    differ (append_inj source (codes "/" ++ name) (codes "/" ++ other) h)
  where
    same : name ≡ other → ⊥
    same e = cc (sym ne ∙ (bytes_eq_iff name other).1 e)

    differ : ◌≡◌ {A = Str} (b'/' ∷ name) (b'/' ∷ other) → ⊥
    differ p = same (cc)

module _ (js : Js) (coerce : SqlValue js.Num → Str) (sql : Sql js.Num) (model : Model)
    (key_name key_param_name : Str)
    (tables : Tables js coerce sql model key_name key_param_name) where
  open js use {Num}
  open sql use {State, run, all}
  open tables use {rows, relation_selects, relation_inserts, relation_deletes}

  abbrev pub table : Str → Str
  table name = relation_table model.name name

  -- The rows of a relation from a source.
  abbrev pub from_source : State → (name source : Str) → List (Record Num)
  from_source s name source = filter (has_key source_column source) (rows s (table name))

  abbrev pub targets_of : State → (name source : Str) → List Str
  targets_of s name source =
      map (λ row. text_of (column row (codes "_target")))
        (map only_target (from_source s name source))

  abbrev pub target_rows : (source : Str) → List Str → List (Record Num)
  target_rows source targets = map (λ target. relation_row js coerce sql source target) targets

  abbrev pub IsDeclared : Str → Type 0
  IsDeclared name = has name (relation_names model.properties) ≡ true

  abbrev pub Others : State → State → Str → Type 0
  Others s t name = (other : Str) → other ≢ table name → rows t other ≡ rows s other

  relation_row-source :
      (source k target : Str)
      → has_key source_column k (relation_row js coerce sql source target) ≡ bytes_eq source k
  unfolding lookup bytes_eq
  relation_row-source source k target = refl

  own_rows :
      (source : Str) (targets : List Str)
      → filter (has_key source_column source) (target_rows source targets)
        ≡ target_rows source targets
  own_rows source [] = refl
  own_rows source (target ∷ targets) =
      rw (relation_row-source source source target, bytes_eq_self source)
        (ap (◌∷◌ (relation_row js coerce sql source target)) (own_rows source targets))

  no_rows :
      (source k : Str) (targets : List Str)
      → bytes_eq source k ≡ false
      → filter (has_key source_column k) (target_rows source targets) ≡ []
  no_rows source k [] ne = refl
  no_rows source k (target ∷ targets) ne =
      rw (relation_row-source source k target, ne) (no_rows source k targets ne)

  pub targets-target_rows :
      (source : Str) (targets : List Str)
      → map
          (λ row. text_of (column row (codes "_target")))
          (map only_target (target_rows source targets))
        ≡ targets
  unfolding lookup bytes_eq
  targets-target_rows source [] = refl
  targets-target_rows source (target ∷ targets) =
      ap (◌∷◌ target) (targets-target_rows source targets)

  add_targets_lem :
      (name source : Str) (targets : List Str) (s : State)
      → IsDeclared name
      → (t : State) × (add_targets js coerce sql (relation_api model.name name) source targets s
          ≡ ok t)
        × (rows t (table name) ≡ rows s (table name) ++ target_rows source targets)
        × Others s t name
  unfolding add_targets
  add_targets_lem name source [] s d =
      (s, refl, sym (append-nil (rows s (table name))), λ o ne. refl)
  add_targets_lem name source (target ∷ targets) s d =
      let (t, e, r, o) = relation_inserts name source target s d in
      let (u, e2, r2, o2) = add_targets_lem name source targets t d in
      (
        u,
        rw e e2,
        r2
            ∙ ap (λ l. l ++ target_rows source targets) r
            ∙ append_assoc (rows s (table name)) (relation_row js coerce sql source target ∷ [])
                (target_rows source targets),
        λ other ne. o2 other ne ∙ o other ne,
      )

  -- One relation in the loop of `set`.
  abbrev pub set_relation : Bool → Str → Str → Value Num → State → Result State
  set_relation exists name key v s = do
    s1 ← elim exists [
      | true ↦ relation_delete js coerce sql (relation_api model.name name) key s
      | false ↦ ok s
    ]
    relation_add js coerce sql (relation_api model.name name) key v s1

  abbrev pub Replaced : State → State → (name key : Str) → List Str → Type 0
  Replaced s u name key targets =
      (from_source u name key ≡ target_rows key targets)
      × ((k : Str) → bytes_eq key k ≡ false → from_source u name k ≡ from_source s name k)

  added :
      (name key : Str) (targets : List Str) (s t u : State)
      → from_source t name key ≡ []
      → ((k : Str) → bytes_eq key k ≡ false → from_source t name k ≡ from_source s name k)
      → rows u (table name) ≡ rows t (table name) ++ target_rows key targets
      → Replaced s u name key targets
  added name key targets s t u empty same r = (
    ap (filter (has_key source_column key)) r
        ∙ filter-append (has_key source_column key) (rows t (table name)) (target_rows key targets)
        ∙ ap (λ l. l ++ filter (has_key source_column key) (target_rows key targets)) empty
        ∙ own_rows key targets,
    λ k ne.
        ap (filter (has_key source_column k)) r
        ∙ filter-append (has_key source_column k) (rows t (table name)) (target_rows key targets)
        ∙ ap₂ ◌++◌ (same k ne) (no_rows key k targets ne)
        ∙ append-nil (from_source s name k),
  )

  pub set_relation_lem :
      (exists : Bool) (name key : Str) (targets : List Str) (s : State)
      → IsDeclared name
      → (exists ≡ false → from_source s name key ≡ [])
      → (u : State) × (set_relation exists name key (strs targets) s ≡ ok u)
        × Replaced s u name key targets
        × Others s u name
  set_relation_lem false name key targets s d clean =
      let (u, e, r, o) = add_targets_lem name key targets s d in
      (u, e, added name key targets s s u (clean refl) (λ k ne. refl) r, o)
  set_relation_lem true name key targets s d clean =
      let (t, e, r, o) = relation_deletes name key s d in
      let (u, e2, r2, o2) = add_targets_lem name key targets t d in
      (
        u,
        rw e e2,
        added name key targets s t u
            (ap (filter (has_key source_column key)) r
              ∙ deleted_self source_column key (rows s (table name)))
            (λ k ne.
              ap (filter (has_key source_column k)) r
              ∙ deleted_other source_column key k (rows s (table name)) ne)
            r2,
        λ other ne. o2 other ne ∙ o other ne,
      )
