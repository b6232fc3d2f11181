-- ===== src/Db/Sqlite/Store/Refine.antt =====
-- The tables as a map from keys to values: ModelAPI of packages/modeldb/src/sqlite/api.ts.
use mathlib.Core.Path.{subst}
use mathlib.Core.List.{append-nil}
use canvas.Base.{
  ◌≡◌, ◌≢◌, refl, sym, ap, ap₂, ◌∙◌, true, false, Option, none, some, List, [], ◌∷◌, ◌++◌, map, Str,
  codes, bytes_eq, bytes_eq_iff, filter, All, Result, ok, throw, ◌>>=◌, Bool-cases, inl, inr,
}
use canvas.Base.Maps.{Distinct}
use canvas.Gossip.Log.Types.{is_some}
use canvas.Db.Types.{property_name, Model, str, strs, Js, ModelValue, get}
use canvas.Db.Validate.Laws.{FitsAll, validate_model_value_iff}
use canvas.Db.Sqlite.{SqlValue, column, encode_record_params, decode_record}
use canvas.Db.Sqlite.Roundtrip.{has_column, StoredAt, Bits, Documents, encode-All, decode-All}
use canvas.Db.Sqlite.Api.{
  RelationApi, ModelApi, relations_from, primary_from, relation_table, param_of,
}
use canvas.Db.Sqlite.Api.Params.{params-Distinct, params_from-HasParam}
use canvas.Db.Sqlite.Store.{
  Record, Sql, text_of, head?, with_relations, decode_found, get_value, set_value, set_relations,
  delete_relations, delete_value, key_param,
}
use canvas.Db.Sqlite.Store.Laws.{has_key, only_target, bound, api, AreStorable, Tables}
use canvas.Db.Sqlite.Store.Rows.{
  filter-append, deleted_self, deleted_other, updated_self, updated_other, other_key,
}
use canvas.Db.Sqlite.Store.Relations.{from_source, targets_of, targets-target_rows, list_in}
use canvas.Db.Sqlite.Store.Loops.{
  relation_keys, put_targets, IsEntry, Clean, AllReplaced, Elsewhere, set_relations_lem,
  delete_relations_lem, with_relations_lem,
}
use canvas.Db.Sqlite.Store.Models.{
  keys-relations_from, relation_keys-Distinct, relations_from-IsEntryOf, columns-IsNoRelation,
  IsNoRelation, relations-lists, bound-StoredAt, bound-key, get-put_targets, columns-put_targets,
  put_targets_same,
}

module _ (js : Js) (coerce : SqlValue js.Num → Str) (sql : Sql js.Num) (model : Model)
    (key_name key_param_name : Str)
    (tables : Tables js coerce sql model key_name key_param_name) where
  open js use {Num}
  open sql use {State, run, all}
  open tables use {rows, is_storable, selects, updates, inserts, deletes}

  abbrev here : ModelApi
  here = api js coerce sql model key_name key_param_name

  -- The rows of the model under a key.
  abbrev pub under : State → Str → List (Record Num)
  under s key = filter (has_key key_name key) (rows s model.name)

  abbrev entries : List (Str × RelationApi)
  entries = relations_from model.name model.properties

  abbrev source_rows : State → (name source : Str) → List (Record Num)
  source_rows s name source =
      from_source js coerce sql model key_name key_param_name tables s name source

  -- A key without a row is the source of no relation.
  abbrev pub IsClean : State → Type 0
  IsClean s =
      (key : Str)
      → under s key ≡ []
      → Clean js coerce sql model key_name key_param_name tables s entries key

  -- The row under a key, and the relations from it, are what they were.
  abbrev Same : State → State → Str → Type 0
  Same s t k =
      (under t k ≡ under s k) × All (λ e. source_rows t e.0 k ≡ source_rows s e.0 k) entries

  entries-IsEntry : All (IsEntry js coerce sql model key_name key_param_name tables) entries
  entries-IsEntry = relations_from-IsEntryOf model.name model.properties

  same_targets :
      (s t : State) (k : Str) (es : List (Str × RelationApi))
      → All (λ e. source_rows t e.0 k ≡ source_rows s e.0 k) es
      → All
          (λ e.
            targets_of js coerce sql model key_name key_param_name tables t e.0 k
            ≡ targets_of js coerce sql model key_name key_param_name tables s e.0 k)
          es
  same_targets s t k [] h = tt
  same_targets s t k (e ∷ es) h = (
    ap (λ l. map (λ row. text_of (column row (codes "_target"))) (map only_target l)) h.0,
    same_targets s t k es h.1,
  )

  decode_found_same :
      (s t : State) (k : Str) (found : Option (Record Num))
      → All (λ e. source_rows t e.0 k ≡ source_rows s e.0 k) entries
      → decode_found js coerce sql here k t found ≡ decode_found js coerce sql here k s found
  decode_found_same s t k none h = refl
  decode_found_same s t k (some row) h = same_decoded (decode_record js coerce model row)
    where
      relations_same :
          (value : ModelValue Num)
          → with_relations js coerce sql entries k t value
            ≡ with_relations js coerce sql entries k s value
      relations_same value =
          with_relations_lem js coerce sql model key_name key_param_name tables entries k t value
            entries-IsEntry
          ∙ ap ok (put_targets_same js coerce entries _ _ value (same_targets s t k entries h))
          ∙ sym (
              with_relations_lem js coerce sql model key_name key_param_name tables entries k s
                value entries-IsEntry)

      same_decoded :
          (m : Result (ModelValue Num))
          → (m >>= (λ v. with_relations js coerce sql entries k t v)) >>= (λ v. ok (some v))
            ≡ (m >>= (λ v. with_relations js coerce sql entries k s v)) >>= (λ v. ok (some v))
      same_decoded (throw message) = refl
      same_decoded (ok v) = ap (λ m. m >>= (λ w. ok (some w))) (relations_same v)

  get_value-Same :
      (s t : State) (k : Str)
      → Same s t k
      → get_value js coerce sql here k t ≡ get_value js coerce sql here k s
  unfolding get_value
  get_value-Same s t k (same, h) =
      rw (selects k t, selects k s, same) (decode_found_same s t k (head? (under s k)) h)

  module _ (value : ModelValue Num) (key : Str) (values : Record Num)
      (encoded : encode_record_params js coerce model value (param_of here) ≡ ok values)
      (keyed : get value key_name ≡ str key)
      (storable : AreStorable js coerce sql model key_name key_param_name is_storable value)
      (row_keyed : has_key key_name key (bound here.params values) ≡ true) where
    abbrev row : Record Num
    row = bound here.params values

    -- The statement that `set` runs: what it leaves under the keys, and in other tables.
    abbrev Written : State → Result State → Type 0
    Written s written =
        (t : State) × (written ≡ ok t)
        × (head? (under t key) ≡ some row)
        × ((k : Str) → bytes_eq key k ≡ false → under t k ≡ under s k)
        × ((other : Str) → other ≢ model.name → rows t other ≡ rows s other)

    inserted : (s : State) → under s key ≡ [] → Written s (run here.insert values s)
    inserted s fresh =
        let (t, e, r, o) = inserts value key values s encoded keyed storable fresh in
        (
          t,
          e,
          ap head? (
              ap (filter (has_key key_name key)) r
              ∙ filter-append (has_key key_name key) (rows s model.name) (row ∷ [])
              ∙ ap₂ ◌++◌ fresh kept),
          λ k ne.
              ap (filter (has_key key_name k)) r
              ∙ filter-append (has_key key_name k) (rows s model.name) (row ∷ [])
              ∙ ap (λ l. under s k ++ l) (left_out k ne)
              ∙ append-nil (under s k),
          o,
        )
      where
        kept : filter (has_key key_name key) (row ∷ []) ≡ row ∷ []
        kept = rw row_keyed refl

        left_out : (k : Str) → bytes_eq key k ≡ false → filter (has_key key_name k) (row ∷ []) ≡ []
        left_out k ne = rw (other_key key_name key k row ne row_keyed) refl

    updated_row :
        (s : State) {old : Record Num}
        → head? (under s key) ≡ some old
        → Written s (run here.update values s)
    updated_row s h =
        let (t, e, r, o) = updates value key values s encoded keyed storable in
        (
          t,
          e,
          ap (λ l. head? (filter (has_key key_name key) l)) r
              ∙ updated_self key_name key row row_keyed (rows s model.name) h,
          λ k ne.
              ap (filter (has_key key_name k)) r
              ∙ updated_other key_name key row row_keyed k (rows s model.name) ne,
          o,
        )

    written :
        (s : State) (found : List (Record Num))
        → under s key ≡ found
        → Written s (elim (is_some (head? found)) [
          | true ↦ run here.update values s
          | false ↦ run here.insert values s
        ])
    written s [] e = inserted s e
    written s (old ∷ found) e = updated_row s (ap head? e)

  apart :
      (n : Str) (es : List (Str × RelationApi))
      → Elsewhere js coerce sql model key_name key_param_name tables model.name es
  apart n [] = tt
  apart n (e ∷ es) = ((λ p. longer model.name e.0 p), apart n es)
    where
      longer : (m name : Str) → m ≢ relation_table m name
      longer [] name p = cc
      longer (c ∷ m) name p = longer m name (tail m (relation_table m name) p)
        where
          tail : (a b : Str) → ◌≡◌ {A = Str} (c ∷ a) (c ∷ b) → a ≡ b
          tail a b q = cc

  -- A write to the table of records leaves the relations.
  sources_kept :
      (s t : State) (es : List (Str × RelationApi)) (k : Str)
      → Elsewhere js coerce sql model key_name key_param_name tables model.name es
      → ((other : Str) → other ≢ model.name → rows t other ≡ rows s other)
      → All (λ e. source_rows t e.0 k ≡ source_rows s e.0 k) es
  sources_kept s t [] k a o = tt
  sources_kept s t (e ∷ es) k a o = (
    ap (filter (has_key (codes "_source") k))
        (o (relation_table model.name e.0) (λ p. a.0 (sym p))),
    sources_kept s t es k a.1 o,
  )

  Clean-same :
      (s t : State) (es : List (Str × RelationApi)) (k : Str)
      → All (λ e. source_rows t e.0 k ≡ source_rows s e.0 k) es
      → Clean js coerce sql model key_name key_param_name tables s es k
      → Clean js coerce sql model key_name key_param_name tables t es k
  Clean-same s t [] k h c = tt
  Clean-same s t (e ∷ es) k h c = (h.0 ∙ c.0, Clean-same s t es k h.1 c.1)

  All-trans :
      (s t u : State) (k : Str) (es : List (Str × RelationApi))
      → All (λ e. source_rows u e.0 k ≡ source_rows t e.0 k) es
      → All (λ e. source_rows t e.0 k ≡ source_rows s e.0 k) es
      → All (λ e. source_rows u e.0 k ≡ source_rows s e.0 k) es
  All-trans s t u k [] a b = tt
  All-trans s t u k (e ∷ es) a b = (a.0 ∙ b.0, All-trans s t u k es a.1 b.1)

  replaced_others :
      (s u : State) (es : List (Str × RelationApi)) (key : Str) (value : ModelValue Num) (k : Str)
      → bytes_eq key k ≡ false
      → AllReplaced js coerce sql model key_name key_param_name tables s u es key value
      → All (λ e. source_rows u e.0 k ≡ source_rows s e.0 k) es
  replaced_others s u [] key value k ne h = tt
  replaced_others s u (e ∷ es) key value k ne h =
      (h.0.1 k ne, replaced_others s u es key value k ne h.1)

  -- The lists that `get` finds are those that `set` wrote.
  replaced_lists :
      (s u : State) (es : List (Str × RelationApi)) (key : Str) (value out : ModelValue Num)
      → AllReplaced js coerce sql model key_name key_param_name tables s u es key value
      → All (λ e. get value e.0 ≡ strs (list_in (get value e.0))) es
      → All
          (λ e.
            get out e.0
            ≡ strs (targets_of js coerce sql model key_name key_param_name tables u e.0 key))
          es
      → All (λ e. get out e.0 ≡ get value e.0) es
  replaced_lists s u [] key value out r l g = tt
  replaced_lists s u (e ∷ es) key value out r l g = (
    g.0
        ∙ ap (λ rs. strs (map (λ row. text_of (column row (codes "_target"))) (map only_target rs)))
            r.0.0
        ∙ ap strs (
            targets-target_rows js coerce sql model key_name key_param_name tables key
              (list_in (get value e.0)))
        ∙ sym l.0,
    replaced_lists s u es key value out r.1 l.1 g.1,
  )

  no_head : (l : List (Record Num)) → is_some (head? l) ≡ false → l ≡ []
  no_head [] h = refl
  no_head (r ∷ l) h = absurd (cc)

  get_found :
      (u : State) (key : Str) (r : Record Num) {out : ModelValue Num}
      → head? (under u key) ≡ some r
      → decode_record js coerce model r ≡ ok out
      → get_value js coerce sql here key u
        ≡ ok (
            some (
              put_targets entries
                (λ name. targets_of js coerce sql model key_name key_param_name tables u name key)
                out))
  unfolding get_value
  get_found u key r {out} h d =
      rw (selects key u, h)
        (rw d (
          rw
            (with_relations_lem js coerce sql model key_name key_param_name tables entries key u out
              entries-IsEntry)
            refl))

  module _ (has_primary : primary_from 0 model.properties ≡ some (key_name, key_param_name))
      (distinct : Distinct (map property_name model.properties)) where
    entries-Distinct : Distinct (relation_keys entries)
    entries-Distinct = relation_keys-Distinct model.name model.properties distinct

    abbrev pub AgreesWith : ModelValue Num → ModelValue Num → Type 0
    AgreesWith value out =
        All (λ p. has_column p ≡ true → get out (property_name p) ≡ get value (property_name p))
          model.properties
        × All (λ e. get out e.0 ≡ get value e.0) entries

    -- A row of the value under the key, and the relations of the value: what `get` returns.
    read_back :
        (s u : State) (key : Str) (value : ModelValue Num) (r : Record Num)
        → FitsAll js model.properties value
        → All (StoredAt js coerce (λ n. n) value r) model.properties
        → head? (under u key) ≡ some r
        → AllReplaced js coerce sql model key_name key_param_name tables s u entries key value
        → (out : ModelValue Num) × (get_value js coerce sql here key u ≡ ok (some out))
          × AgreesWith value out
    unfolding decode_record
    read_back s u key value r fits stored h replaced =
        let (out, d, _, reads) =
          decode-All js coerce model.properties value [] r fits distinct stored in
        let lists = λ (name : Str).
          targets_of js coerce sql model key_name key_param_name tables u name key in
        (
          put_targets entries lists out,
          get_found u key r h d,
          (
            columns-put_targets js coerce entries lists value out model.properties
                (subst (λ names. All (IsNoRelation names) model.properties)
                  (sym (keys-relations_from model.name model.properties))
                  (columns-IsNoRelation model.properties distinct))
                reads,
            replaced_lists s u entries key value (put_targets entries lists out) replaced
                (relations-lists js coerce model.name model.properties value fits)
                (get-put_targets js coerce entries lists out entries-Distinct),
          ),
        )

    set_value_run :
        (s t u : State) (key : Str) (value : ModelValue Num) (values : Record Num)
        → FitsAll js model.properties value
        → get value key_name ≡ str key
        → encode_record_params js coerce model value (param_of here) ≡ ok values
        → elim (is_some (head? (under s key))) [
          | true ↦ run here.update values s
          | false ↦ run here.insert values s
        ]
          ≡ ok t
        → set_relations js coerce sql entries (is_some (head? (under s key))) key value t ≡ ok u
        → set_value js coerce sql here value s ≡ ok u
    unfolding set_value
    set_value_run s t u key value values fits keyed encoded e e2 =
        rw ((validate_model_value_iff js model value).1 fits, keyed, encoded, selects key s)
          (ap
              (λ m. m >>= (λ s'.
                set_relations js coerce sql entries (is_some (head? (under s key))) key value s'))
              e
            ∙ e2)

    -- After a set of a value that fits the model, which returns, the tables are a map with the value
    -- under its key: `get` of the key returns a value that agrees at every column and at every
    -- relation, and `get` of any other key returns what it did. A key without a row stays the source
    -- of no relation, which must hold before. The names of the properties differ, and a JSON value
    -- must be one that JSON gives back. SQLite stores the values of the properties as they are bound.
    pub get_value-set_value :
        (value : ModelValue Num) (s : State)
        → Bits js coerce
        → FitsAll js model.properties value
        → Documents js coerce model.properties value
        → AreStorable js coerce sql model key_name key_param_name is_storable value
        → IsClean s
        → (key : Str) × (get value key_name ≡ str key)
          × ((t : State) × (set_value js coerce sql here value s ≡ ok t)
              × IsClean t
              × ((out : ModelValue Num) × (get_value js coerce sql here key t ≡ ok (some out))
                  × AgreesWith value out)
              × ((k : Str)
                  → bytes_eq key k ≡ false
                  → get_value js coerce sql here k t ≡ get_value js coerce sql here k s))
    unfolding encode_record_params
    get_value-set_value value s bits fits documents storable clean =
        let (values, encoded, _, held) =
          encode-All js coerce (param_of here) model.properties value [] bits fits
            (params-Distinct model.properties distinct) documents in
        let stored =
          bound-StoredAt js coerce here.params value values model.properties
            (params_from-HasParam 0 model.properties) held in
        let (key, keyed, row_keyed) =
          bound-key js coerce 0 model.properties value (bound here.params values) has_primary fits
            stored in
        let (t, e, at, others, kept) =
          written value key values encoded keyed storable row_keyed s (under s key) refl in
        let moved = λ (k : Str). sources_kept s t entries k (apart model.name entries) kept in
        let (u, e2, replaced, un) =
          set_relations_lem js coerce sql model key_name key_param_name tables entries
            (is_some (head? (under s key))) key value t entries-IsEntry entries-Distinct
            (relations-lists js coerce model.name model.properties value fits)
            (λ none_found.
              Clean-same s t entries key (moved key)
                (clean key (no_head (under s key) none_found))) in
        let model_kept = un model.name (apart model.name entries) in
        let same : (k : Str) → bytes_eq key k ≡ false → Same s u k = λ k ne. (
          ap (filter (has_key key_name k)) model_kept ∙ others k ne,
          All-trans s t u k entries (replaced_others t u entries key value k ne replaced) (moved k),
        ) in
        let found = ap (λ l. head? (filter (has_key key_name key) l)) model_kept ∙ at in
        (
          key,
          keyed,
          (
            u,
            set_value_run s t u key value values fits keyed encoded e e2,
            set-IsClean s u key found (λ k ne. same k ne) clean,
            read_back t u key value (bound here.params values) fits stored found replaced,
            λ k ne. get_value-Same s u k (same k ne),
          ),
        )
      where
        set-IsClean :
            (s u : State) (key : Str) {r : Record Num}
            → head? (under u key) ≡ some r
            → ((k : Str) → bytes_eq key k ≡ false → Same s u k)
            → IsClean s
            → IsClean u
        set-IsClean s u key {r} found same clean k empty = elim (Bool-cases (bytes_eq key k)) [
          | inr ne ↦
              let (rows_same, sources_same) = same k ne in
              Clean-same s u entries k sources_same (clean k (sym rows_same ∙ empty))
          | inl eq ↦ absurd (
              nothing_there (
                sym found
                ∙ ap (λ j. head? (under u j)) ((bytes_eq_iff key k).0 eq)
                ∙ ap head? empty))
        ]
          where
            nothing_there : ◌≡◌ {A = Option (Record Num)} (some r) none → ⊥
            nothing_there p = cc

    delete_value_run :
        (s t u : State) (key : Str) {r : Record Num}
        → head? (under s key) ≡ some r
        → run here.delete (key_param js coerce sql here key) s ≡ ok t
        → delete_relations js coerce sql entries key t ≡ ok u
        → delete_value js coerce sql here key s ≡ ok u
    unfolding delete_value
    delete_value_run s t u key h e e2 = rw (selects key s, h) (rw e e2)

    -- What a delete leaves.
    abbrev pub Deleted : State → Str → State → Type 0
    Deleted s key t =
        IsClean t
        × (get_value js coerce sql here key t ≡ ok none)
        × ((k : Str)
            → bytes_eq key k ≡ false
            → get_value js coerce sql here k t ≡ get_value js coerce sql here k s)

    get_nothing :
        (u : State) (key : Str) → under u key ≡ [] → get_value js coerce sql here key u ≡ ok none
    unfolding get_value
    get_nothing u key e = rw (selects key u, e) refl

    delete_found :
        (s : State) (key : Str) {r : Record Num}
        → IsClean s
        → head? (under s key) ≡ some r
        → (t : State) × (delete_value js coerce sql here key s ≡ ok t) × Deleted s key t
    delete_found s key clean h =
        let (t, e, rs, kept) = deletes key s in
        let (u, e2, gone, others, un) =
          delete_relations_lem js coerce sql model key_name key_param_name tables entries key t
            entries-IsEntry entries-Distinct in
        let model_kept = un model.name (apart model.name entries) ∙ rs in
        let same : (k : Str) → bytes_eq key k ≡ false → Same s u k = λ k ne. (
          ap (filter (has_key key_name k)) model_kept
              ∙ deleted_other key_name key k (rows s model.name) ne,
          All-trans s t u k entries (others k ne)
              (sources_kept s t entries k (apart model.name entries) kept),
        ) in
        let nothing_left =
          ap (filter (has_key key_name key)) model_kept
          ∙ deleted_self key_name key (rows s model.name) in
        (
          u,
          delete_value_run s t u key h e e2,
          (
            deleted-IsClean s u key gone same clean,
            get_nothing u key nothing_left,
            λ k ne. get_value-Same s u k (same k ne),
          ),
        )
      where
        deleted-IsClean :
            (s u : State) (key : Str)
            → Clean js coerce sql model key_name key_param_name tables u entries key
            → ((k : Str) → bytes_eq key k ≡ false → Same s u k)
            → IsClean s
            → IsClean u
        deleted-IsClean s u key gone same clean k empty = elim (Bool-cases (bytes_eq key k)) [
          | inr ne ↦
              let (rows_same, sources_same) = same k ne in
              Clean-same s u entries k sources_same (clean k (sym rows_same ∙ empty))
          | inl eq ↦
              subst (λ j. Clean js coerce sql model key_name key_param_name tables u entries j)
                ((bytes_eq_iff key k).0 eq) gone
        ]

    delete_absent :
        (s : State) (key : Str) → under s key ≡ [] → delete_value js coerce sql here key s ≡ ok s
    unfolding delete_value
    delete_absent s key e = rw (selects key s, e) refl

    -- A delete returns, and then `get` finds nothing under the key, and under any other key what it did.
    pub get_value-delete_value :
        (key : Str) (s : State)
        → IsClean s
        → (t : State) × (delete_value js coerce sql here key s ≡ ok t) × Deleted s key t
    get_value-delete_value key s clean = by_rows (under s key) refl
      where
        by_rows :
            (l : List (Record Num))
            → under s key ≡ l
            → (t : State) × (delete_value js coerce sql here key s ≡ ok t) × Deleted s key t
        by_rows [] e = (s, delete_absent s key e, (clean, get_nothing s key e, λ k ne. refl))
        by_rows (r ∷ l) e = delete_found s key clean (ap head? e)
