-- ===== src/Db/Sqlite/Store/Models.antt =====
-- What the statements of a model know of its properties: packages/modeldb/src/sqlite/api.ts.
use mathlib.Core.Path.{subst}
use canvas.Base.{
  some_inj, or_false, ℕ, suc, ◌≡◌, refl, sym, ap, ◌∙◌, Bool, true, false, ◌||◌, Option, some, List,
  [], ◌∷◌, map, Str, bytes_eq, bytes_eq_self, bytes_eq_iff, All, Result, ok, Bool-cases,
  Option-cases, inl, inr, arith,
}
use canvas.Base.Maps.{lookup, has, Distinct, put, lookup-put}
use canvas.Db.Types.{
  Property, primary, primitive, reference, relation, property_name, Value, str, strs, Js,
  ModelValue, get, defined,
}
use canvas.Db.Validate.Laws.{FitsAll}
use canvas.Db.Validate.Holds.{Fits, a_key, targets as fitting}
use canvas.Db.Sqlite.{SqlValue, missing, nothing, number, text, blob, column, decode_property}
use canvas.Db.Sqlite.Roundtrip.{has_column, StoredAt}
use canvas.Db.Sqlite.Api.{
  RelationApi, relation_api, relations_from, primary_from, param_name, or_empty,
}
use canvas.Db.Sqlite.Api.Params.{HasParam, param_in}
use canvas.Db.Sqlite.Store.{Record}
use canvas.Db.Sqlite.Store.Laws.{is_text, has_key, bound, relation_names}
use canvas.Db.Sqlite.Store.Rows.{lookup-bound}
use canvas.Db.Sqlite.Store.Relations.{list_in}
use canvas.Db.Sqlite.Store.Loops.{relation_keys, put_targets}

pub keys-relations_from :
    (m : Str) (ps : List Property) → relation_keys (relations_from m ps) ≡ relation_names ps
unfolding relations_from
keys-relations_from m [] = refl
keys-relations_from m (relation name target ∷ ps) = ap (◌∷◌ name) (keys-relations_from m ps)
keys-relations_from m (primary name ∷ ps) = keys-relations_from m ps
keys-relations_from m (primitive name type optional ∷ ps) = keys-relations_from m ps
keys-relations_from m (reference name target optional ∷ ps) = keys-relations_from m ps

no_relation :
    (n : Str) (ps : List Property)
    → has n (map property_name ps) ≡ false
    → has n (relation_names ps) ≡ false
unfolding has
no_relation n [] h = refl
no_relation n (relation name target ∷ ps) h =
    let (ne, absent) = or_false (bytes_eq name n) _ h in rw ne (no_relation n ps absent)
no_relation n (primary name ∷ ps) h = no_relation n ps (or_false (bytes_eq name n) _ h).1
no_relation n (primitive name type optional ∷ ps) h =
    no_relation n ps (or_false (bytes_eq name n) _ h).1
no_relation n (reference name target optional ∷ ps) h =
    no_relation n ps (or_false (bytes_eq name n) _ h).1

relation_names-Distinct :
    (ps : List Property) → Distinct (map property_name ps) → Distinct (relation_names ps)
relation_names-Distinct [] d = tt
relation_names-Distinct (relation name target ∷ ps) d =
    (no_relation name ps d.0, relation_names-Distinct ps d.1)
relation_names-Distinct (primary name ∷ ps) d = relation_names-Distinct ps d.1
relation_names-Distinct (primitive name type optional ∷ ps) d = relation_names-Distinct ps d.1
relation_names-Distinct (reference name target optional ∷ ps) d = relation_names-Distinct ps d.1

pub relation_keys-Distinct :
    (m : Str) (ps : List Property)
    → Distinct (map property_name ps)
    → Distinct (relation_keys (relations_from m ps))
relation_keys-Distinct m ps d =
    subst Distinct (sym (keys-relations_from m ps)) (relation_names-Distinct ps d)

-- The entries of some relation properties, among others.
abbrev pub IsEntryOf : Str → List Property → Str × RelationApi → Type 0
IsEntryOf m ps e = (e.1 ≡ relation_api m e.0) × (has e.0 (relation_names ps) ≡ true)

entry_later :
    (m name : Str) (target : Str) (ps : List Property) (es : List (Str × RelationApi))
    → All (IsEntryOf m ps) es
    → All (IsEntryOf m (relation name target ∷ ps)) es
unfolding has
entry_later m name target ps [] h = tt
entry_later m name target ps (e ∷ es) h =
    ((h.0.0, or_true _ _ h.0.1), entry_later m name target ps es h.1)
  where
    or_true : (a b : Bool) → b ≡ true → (a || b) ≡ true
    or_true a b k = ground arith

pub relations_from-IsEntryOf :
    (m : Str) (ps : List Property) → All (IsEntryOf m ps) (relations_from m ps)
unfolding relations_from has
relations_from-IsEntryOf m [] = tt
relations_from-IsEntryOf m (relation name target ∷ ps) = (
  (refl, rw (bytes_eq_self name) refl),
  entry_later m name target ps (relations_from m ps) (relations_from-IsEntryOf m ps),
)
relations_from-IsEntryOf m (primary name ∷ ps) = relations_from-IsEntryOf m ps
relations_from-IsEntryOf m (primitive name type optional ∷ ps) = relations_from-IsEntryOf m ps
relations_from-IsEntryOf m (reference name target optional ∷ ps) = relations_from-IsEntryOf m ps

-- No relation has the name of a column.
abbrev pub IsNoRelation : List Str → Property → Type 0
IsNoRelation names p = has_column p ≡ true → has (property_name p) names ≡ false

IsNoRelation-later :
    (name : Str) (names : List Str) (ps : List Property)
    → has name (map property_name ps) ≡ false
    → All (IsNoRelation names) ps
    → All (IsNoRelation (name ∷ names)) ps
unfolding has
IsNoRelation-later name names [] h a = tt
IsNoRelation-later name names (p ∷ ps) h a =
    let (ne, absent) = or_false (bytes_eq (property_name p) name) _ h in
    (λ c. rw (flip (property_name p) ne) (a.0 c), IsNoRelation-later name names ps absent a.1)
  where
    flip : (n : Str) → bytes_eq n name ≡ false → bytes_eq name n ≡ false
    flip n e = elim (Bool-cases (bytes_eq name n)) [
      | inr f ↦ f
      | inl f ↦ ground (arith, bytes_eq_iff n name, bytes_eq_iff name n)
    ]

pub columns-IsNoRelation :
    (ps : List Property)
    → Distinct (map property_name ps)
    → All (IsNoRelation (relation_names ps)) ps
columns-IsNoRelation [] d = tt
columns-IsNoRelation (relation name target ∷ ps) d = (
  λ c. absurd (cc),
  IsNoRelation-later name (relation_names ps) ps d.0 (columns-IsNoRelation ps d.1),
)
columns-IsNoRelation (primary name ∷ ps) d =
    (λ c. no_relation name ps d.0, columns-IsNoRelation ps d.1)
columns-IsNoRelation (primitive name type optional ∷ ps) d =
    (λ c. no_relation name ps d.0, columns-IsNoRelation ps d.1)
columns-IsNoRelation (reference name target optional ∷ ps) d =
    (λ c. no_relation name ps d.0, columns-IsNoRelation ps d.1)

module _ (js : Js) (coerce : SqlValue js.Num → Str) where
  open js use {Num}

  -- A value that fits has a list at each relation.
  pub relations-lists :
      (m : Str) (ps : List Property) (value : ModelValue Num)
      → FitsAll js ps value
      → All (λ e. get value e.0 ≡ strs (list_in (get value e.0))) (relations_from m ps)
  unfolding relations_from
  relations-lists m [] value f = tt
  relations-lists m (relation name target ∷ ps) value f =
      (is_list f.0.1, relations-lists m ps value f.1)
    where
      is_list : {v : Value Num} → Fits js (relation name target) v → v ≡ strs (list_in v)
      is_list fitting = refl
  relations-lists m (primary name ∷ ps) value f = relations-lists m ps value f.1
  relations-lists m (primitive name type optional ∷ ps) value f = relations-lists m ps value f.1
  relations-lists m (reference name target optional ∷ ps) value f = relations-lists m ps value f.1

  -- A row that was written holds what the parameters held.
  pub bound-StoredAt :
      (params : List (Str × Str)) (value : ModelValue Num) (values : Record Num)
      (ps : List Property)
      → All (HasParam params) ps
      → All (StoredAt js coerce (param_in params) value values) ps
      → All (StoredAt js coerce (λ n. n) value (bound params values)) ps
  bound-StoredAt params value values [] h st = tt
  bound-StoredAt params value values (p ∷ ps) h st = (
    λ c.
        let (q, known) = h.0 c in
        let (s, at, back) = st.0 c in
        (
          s,
          lookup-bound params values (property_name p) known
              ∙ ap some (found q s (ap (λ o. lookup (or_empty o) values) (sym known) ∙ at)),
          back,
        ),
    bound-StoredAt params value values ps h.1 st.1,
  )
    where
      found : (q : Str) (s : SqlValue Num) → lookup q values ≡ some s → column values q ≡ s
      found q s e = rw (e, column) refl

  of_key : (n : Str) {v : Value Num} → Fits js (primary n) v → (key : Str) × (v ≡ str key)
  of_key n (a_key {s}) = (s, refl)

  text_lem :
      (n key : Str) (s : SqlValue Num)
      → decode_property js coerce (primary n) s ≡ ok (some (str key))
      → is_text key s ≡ true
  unfolding decode_property
  text_lem n key (text t) h = ap (λ u. bytes_eq u key) (str_inj h) ∙ bytes_eq_self key
    where
      str_inj :
          {a b : Str}
          → ◌≡◌ {A = Result (Option (Value Num))} (ok (some (str a))) (ok (some (str b)))
          → a ≡ b
      str_inj p = cc
  text_lem n key missing h = absurd (cc)
  text_lem n key nothing h = absurd (cc)
  text_lem n key (number x) h = absurd (cc)
  text_lem n key (blob b) h = absurd (cc)

  abbrev pub HasKey : ModelValue Num → Record Num → Str → Type 0
  HasKey value row name = (key : Str) × (get value name ≡ str key) × (has_key name key row ≡ true)

  primary-HasKey :
      (n : Str) (value : ModelValue Num) (row : Record Num)
      → Fits js (primary n) (get value n)
      → StoredAt js coerce (λ n. n) value row (primary n)
      → HasKey value row n
  primary-HasKey n value row f st =
      let (key, e) = of_key n f in
      let (s, at, back) = st refl in
      (key, e, ap (is_text key) (stored s at) ∙ text_lem n key s (back ∙ ap (λ v. ok (some v)) e))
    where
      stored : (s : SqlValue Num) → lookup n row ≡ some s → column row n ≡ s
      stored s at = rw (at, column) refl

  -- The row of a value has its key.
  pub bound-key :
      (i : ℕ) (ps : List Property) (value : ModelValue Num) (row : Record Num) {name param : Str}
      → primary_from i ps ≡ some (name, param)
      → FitsAll js ps value
      → All (StoredAt js coerce (λ n. n) value row) ps
      → HasKey value row name
  unfolding primary_from
  bound-key i [] value row e f st = absurd (cc)
  bound-key i (primary n ∷ ps) value row {name} {param} e f st =
      elim (Option-cases (primary_from (suc i) ps)) [
        | inr (later, l) ↦ bound-key (suc i) ps value row (l ∙ rw l at e) f.1 st.1
        | inl l ↦
            subst (HasKey value row) (first (rw l at e)) (primary-HasKey n value row f.0.1 st.0)
      ]
    where
      first : ◌≡◌ {A = Option (Str × Str)} (some (n, param_name i)) (some (name, param)) → n ≡ name
      first p = ap (λ (q : Str × Str). q.0) (some_inj p)
  bound-key i (primitive n type optional ∷ ps) value row e f st =
      bound-key (suc i) ps value row e f.1 st.1
  bound-key i (reference n target optional ∷ ps) value row e f st =
      bound-key (suc i) ps value row e f.1 st.1
  bound-key i (relation n target ∷ ps) value row e f st = bound-key (suc i) ps value row e f.1 st.1

  lookup-put_targets :
      (es : List (Str × RelationApi)) (targets : Str → List Str) (value : ModelValue Num) (n : Str)
      → has n (relation_keys es) ≡ false
      → lookup n (put_targets es targets value) ≡ lookup n value
  unfolding has
  lookup-put_targets [] targets value n h = refl
  lookup-put_targets ((name, r) ∷ es) targets value n h =
      let (ne, absent) = or_false (bytes_eq name n) _ h in
      lookup-put_targets es targets (put name (strs (targets name)) value) n absent
      ∙ lookup-put name n (strs (targets name)) value
      ∙ rw ne refl

  -- The lists that `get` puts at the relations.
  pub get-put_targets :
      (es : List (Str × RelationApi)) (targets : Str → List Str) (value : ModelValue Num)
      → Distinct (relation_keys es)
      → All (λ e. get (put_targets es targets value) e.0 ≡ strs (targets e.0)) es
  get-put_targets [] targets value d = tt
  get-put_targets ((name, r) ∷ es) targets value d = (
    ap defined {y = some (strs (targets name))} (
        lookup-put_targets es targets (put name (strs (targets name)) value) name d.0
        ∙ lookup-put name name (strs (targets name)) value
        ∙ rw (bytes_eq_self name) refl),
    get-put_targets es targets (put name (strs (targets name)) value) d.1,
  )

  -- And what it leaves at the columns.
  pub columns-put_targets :
      (es : List (Str × RelationApi)) (targets : Str → List Str) (value out : ModelValue Num)
      (ps : List Property)
      → All (IsNoRelation (relation_keys es)) ps
      → All (λ p. has_column p ≡ true → get out (property_name p) ≡ get value (property_name p)) ps
      → All
          (λ p.
            has_column p ≡ true
            → get (put_targets es targets out) (property_name p) ≡ get value (property_name p))
          ps
  columns-put_targets es targets value out [] apart reads = tt
  columns-put_targets es targets value out (p ∷ ps) apart reads = (
    λ c. ap defined (lookup-put_targets es targets out (property_name p) (apart.0 c)) ∙ reads.0 c,
    columns-put_targets es targets value out ps apart.1 reads.1,
  )

  pub put_targets_same :
      (es : List (Str × RelationApi)) (before after : Str → List Str) (value : ModelValue Num)
      → All (λ e. after e.0 ≡ before e.0) es
      → put_targets es after value ≡ put_targets es before value
  put_targets_same [] before after value h = refl
  put_targets_same ((name, r) ∷ es) before after value h =
      ap (λ ts. put_targets es after (put name (strs ts) value)) h.0
      ∙ put_targets_same es before after (put name (strs (before name)) value) h.1
