-- ===== src/Db/Sqlite/Store/Loops.antt =====
-- The loops over the relations of a model in `get`, `set` and `delete` of
-- packages/modeldb/src/sqlite/api.ts.
use canvas.Base.{
  or_false, ◌≡◌, ◌≢◌, refl, sym, ap, ◌∙◌, Bool, true, false, List, [], ◌∷◌, map, Str, bytes_eq,
  filter, All, Result, ok, ◌>>=◌, >>=_assoc,
}
use canvas.Base.Maps.{has, Distinct, put}
use canvas.Db.Types.{Model, Value, strs, Js, ModelValue, get}
use canvas.Db.Sqlite.{SqlValue}
use canvas.Db.Sqlite.Api.{RelationApi, relation_api}
use canvas.Db.Sqlite.Store.{
  Sql, relation_get, relation_add, relation_delete, with_relations, set_relations, delete_relations,
}
use canvas.Db.Sqlite.Store.Laws.{has_key, Tables}
use canvas.Db.Sqlite.Store.Rows.{deleted_self, deleted_other}
use canvas.Db.Sqlite.Store.Relations.{
  list_in, source_column, relation_table-ne, table, from_source, targets_of, IsDeclared, Others,
  Replaced, set_relation, set_relation_lem,
}

abbrev pub relation_keys : List (Str × RelationApi) → List Str
relation_keys relations = map (λ e. e.0) relations

-- The value that `get` returns, from what the tables hold.
abbrev pub put_targets :
    {N : Type 0} → List (Str × RelationApi) → (Str → List Str) → ModelValue N → ModelValue N
put_targets [] targets value = value
put_targets ((name, r) ∷ relations) targets value =
    put_targets relations targets (put name (strs (targets name)) value)

module _ (js : Js) (coerce : SqlValue js.Num → Str) (sql : Sql js.Num) (model : Model)
    (key_name key_param_name : Str)
    (tables : Tables js coerce sql model key_name key_param_name) where
  open js use {Num}
  open sql use {State, run, all}
  open tables use {rows, relation_selects, relation_deletes}

  -- An entry of the model's relations.
  abbrev pub IsEntry : Str × RelationApi → Type 0
  IsEntry e =
      (e.1 ≡ relation_api model.name e.0)
      × IsDeclared js coerce sql model key_name key_param_name tables e.0

  abbrev here : Str → Str
  here name = table js coerce sql model key_name key_param_name tables name

  abbrev source_rows : State → (name source : Str) → List (List (Str × SqlValue Num))
  source_rows s name source =
      from_source js coerce sql model key_name key_param_name tables s name source

  -- A table that is none of the relations'.
  abbrev pub Elsewhere : Str → List (Str × RelationApi) → Type 0
  Elsewhere other relations = All (λ e. other ≢ here e.0) relations

  abbrev pub Unchanged : State → State → List (Str × RelationApi) → Type 0
  Unchanged s u relations = (other : Str) → Elsewhere other relations → rows u other ≡ rows s other

  Elsewhere-later :
      (name : Str) (relations : List (Str × RelationApi))
      → has name (relation_keys relations) ≡ false
      → Elsewhere (here name) relations
  unfolding has
  Elsewhere-later name [] h = tt
  Elsewhere-later name ((other, r) ∷ relations) h =
      let (ne, absent) = or_false (bytes_eq other name) _ h in
      (
        (λ e. relation_table-ne model.name other name ne (sym e)),
        Elsewhere-later name relations absent,
      )

  -- Each relation has, from the key, the targets of the value, and from other keys what it had.
  abbrev pub AllReplaced :
      State → State → List (Str × RelationApi) → (key : Str) → ModelValue Num → Type 0
  AllReplaced s u relations key value =
      All
        (λ e.
          Replaced js coerce sql model key_name key_param_name tables s u e.0 key
            (list_in (get value e.0)))
        relations

  abbrev pub Clean : State → List (Str × RelationApi) → Str → Type 0
  Clean s relations key = All (λ e. source_rows s e.0 key ≡ []) relations

  same_source :
      (s t : State) (name k : Str)
      → rows t (here name) ≡ rows s (here name)
      → source_rows t name k ≡ source_rows s name k
  same_source s t name k e = ap (filter (has_key source_column k)) e

  Clean-later :
      (s t : State) (relations : List (Str × RelationApi)) (name key : Str)
      → Elsewhere (here name) relations
      → Others js coerce sql model key_name key_param_name tables s t name
      → Clean s relations key
      → Clean t relations key
  Clean-later s t [] name key d o c = tt
  Clean-later s t (e ∷ relations) name key d o c = (
    same_source s t e.0 key (o (here e.0) (λ p. d.0 (sym p))) ∙ c.0,
    Clean-later s t relations name key d.1 o c.1,
  )

  AllReplaced-later :
      (s t u : State) (relations : List (Str × RelationApi)) (name key : Str)
      (value : ModelValue Num)
      → Elsewhere (here name) relations
      → Others js coerce sql model key_name key_param_name tables s t name
      → AllReplaced t u relations key value
      → AllReplaced s u relations key value
  AllReplaced-later s t u [] name key value d o c = tt
  AllReplaced-later s t u (e ∷ relations) name key value d o ((own, other), c) = (
    (own, λ k ne. other k ne ∙ same_source s t e.0 k (o (here e.0) (λ p. d.0 (sym p)))),
    AllReplaced-later s t u relations name key value d.1 o c,
  )

  -- After the loop of `set`.
  pub set_relations_lem :
      (relations : List (Str × RelationApi)) (exists : Bool) (key : Str) (value : ModelValue Num)
      (s : State)
      → All IsEntry relations
      → Distinct (relation_keys relations)
      → All (λ e. get value e.0 ≡ strs (list_in (get value e.0))) relations
      → (exists ≡ false → Clean s relations key)
      → (u : State) × (set_relations js coerce sql relations exists key value s ≡ ok u)
        × AllReplaced s u relations key value
        × Unchanged s u relations
  unfolding set_relations
  set_relations_lem [] exists key value s ent d lists clean = (s, refl, tt, λ other h. refl)
  set_relations_lem ((name, r) ∷ relations) exists key value s ((is_api, declared), ent) d
        (l, lists) clean =
      let targets = list_in (get value name) in
      let (t, e, (own, other), o) =
        set_relation_lem js coerce sql model key_name key_param_name tables exists name key targets
          s declared (λ x. (clean x).0) in
      let away = Elsewhere-later name relations d.0 in
      let (u, e2, all_replaced, un) =
        set_relations_lem relations exists key value t ent d.1 lists
          (λ x. Clean-later s t relations name key away o (clean x).1) in
      (
        u,
        run_one exists t u is_api l e ∙ e2,
        (
          (
            same_source t u name key (un (here name) away) ∙ own,
            λ k ne. same_source t u name k (un (here name) away) ∙ other k ne,
          ),
          AllReplaced-later s t u relations name key value away o all_replaced,
        ),
        λ o2 h. un o2 h.1 ∙ o o2 h.0,
      )
    where
      run_one :
          (exists : Bool) (t u : State)
          → r ≡ relation_api model.name name
          → get value name ≡ strs (list_in (get value name))
          → set_relation js coerce sql model key_name key_param_name tables exists name key
              (strs (list_in (get value name)))
              s
            ≡ ok t
          → set_relations js coerce sql ((name, r) ∷ relations) exists key value s
            ≡ set_relations js coerce sql relations exists key value t
      run_one exists t u is_api l e =
          ap (λ r2. step r2 (get value name)) is_api
          ∙ ap (step (relation_api model.name name)) l
          ∙ sym (
              >>=_assoc (deleted (relation_api model.name name))
                (relation_add js coerce sql (relation_api model.name name) key
                  (strs (list_in (get value name))))
                rest)
          ∙ ap (λ m. m >>= rest) e
        where
          rest : State → Result State
          rest s2 = set_relations js coerce sql relations exists key value s2

          deleted : RelationApi → Result State
          deleted r2 = elim exists [ true ↦ relation_delete js coerce sql r2 key s | false ↦ ok s ]

          step : RelationApi → Value Num → Result State
          step r2 v = deleted r2 >>= (λ s1. relation_add js coerce sql r2 key v s1 >>= rest)

  Clean-kept :
      (s t : State) (relations : List (Str × RelationApi)) (name key : Str)
      → Elsewhere (here name) relations
      → Others js coerce sql model key_name key_param_name tables s t name
      → (k : Str) → All (λ e. source_rows t e.0 k ≡ source_rows s e.0 k) relations
  Clean-kept s t [] name key d o k = tt
  Clean-kept s t (e ∷ relations) name key d o k = (
    same_source s t e.0 k (o (here e.0) (λ p. d.0 (sym p))),
    Clean-kept s t relations name key d.1 o k,
  )

  -- After the loop of `delete` no relation has a row from the key.
  pub delete_relations_lem :
      (relations : List (Str × RelationApi)) (key : Str) (s : State)
      → All IsEntry relations
      → Distinct (relation_keys relations)
      → (u : State) × (delete_relations js coerce sql relations key s ≡ ok u)
        × Clean u relations key
        × ((k : Str)
            → bytes_eq key k ≡ false
            → All (λ e. source_rows u e.0 k ≡ source_rows s e.0 k) relations)
        × Unchanged s u relations
  unfolding delete_relations
  delete_relations_lem [] key s ent d = (s, refl, tt, (λ k ne. tt), λ other h. refl)
  delete_relations_lem ((name, r) ∷ relations) key s ((is_api, declared), ent) d =
      let (t, e, rs, o) = relation_deletes name key s declared in
      let away = Elsewhere-later name relations d.0 in
      let (u, e2, clean, others, un) = delete_relations_lem relations key t ent d.1 in
      let own = un (here name) away in
      (
        u,
        run_one t u is_api e ∙ e2,
        (
          same_source t u name key own
              ∙ ap (filter (has_key source_column key)) rs
              ∙ deleted_self source_column key (rows s (here name)),
          clean,
        ),
        λ k ne. (
          same_source t u name k own
              ∙ ap (filter (has_key source_column k)) rs
              ∙ deleted_other source_column key k (rows s (here name)) ne,
          All-trans s t u k relations (others k ne) (Clean-kept s t relations name key away o k),
        ),
        λ o2 h. un o2 h.1 ∙ o o2 h.0,
      )
    where
      run_one :
          (t u : State)
          → r ≡ relation_api model.name name
          → relation_delete js coerce sql (relation_api model.name name) key s ≡ ok t
          → delete_relations js coerce sql ((name, r) ∷ relations) key s
            ≡ delete_relations js coerce sql relations key t
      run_one t u is_api e =
          ap (λ r2. relation_delete js coerce sql r2 key s >>= rest) is_api ∙ ap (λ m. m >>= rest) e
        where
          rest : State → Result State
          rest s2 = delete_relations js coerce sql relations key s2

      All-trans :
          (s t u : State) (k : Str) (l : List (Str × RelationApi))
          → All (λ e. source_rows u e.0 k ≡ source_rows t e.0 k) l
          → All (λ e. source_rows t e.0 k ≡ source_rows s e.0 k) l
          → All (λ e. source_rows u e.0 k ≡ source_rows s e.0 k) l
      All-trans s t u k [] a b = tt
      All-trans s t u k (e ∷ l) a b = (a.0 ∙ b.0, All-trans s t u k l a.1 b.1)

  pub with_relations_lem :
      (relations : List (Str × RelationApi)) (key : Str) (s : State) (value : ModelValue Num)
      → All IsEntry relations
      → with_relations js coerce sql relations key s value
        ≡ ok (
            put_targets relations
              (λ name. targets_of js coerce sql model key_name key_param_name tables s name key)
              value)
  unfolding with_relations relation_get
  with_relations_lem [] key s value ent = refl
  with_relations_lem ((name, r) ∷ relations) key s value ((is_api, declared), ent) =
      ap (λ r2. relation_get js coerce sql r2 key s >>= rest) is_api
      ∙ rw (relation_selects name key s declared) (with_relations_lem relations key s _ ent)
    where
      rest : List Str → Result (ModelValue Num)
      rest targets = with_relations js coerce sql relations key s (put name (strs targets) value)
