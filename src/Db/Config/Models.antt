-- ===== src/Db/Config/Models.antt =====
-- The models and relations of a configuration: parseConfig of packages/modeldb/src/config.ts.
use mathlib.Core.Path.{subst}
use mathlib.Core.List.{append_assoc, append-nil}
use canvas.Base.{
  ◌≡◌, refl, sym, ap, ◌∙◌, bytes_eq_self, inl, inr, Bool, true, false, ◌||◌, List, [], ◌∷◌, ◌++◌,
  Str, String, bytes_eq, any, filter, All, if◌then◌else◌, Result, ok, assert, ◌>>◌, >>=-eq-ok,
  ok_inj, Bool-cases,
}
use canvas.Db.Types.{
  Property, primary, primitive, reference, relation, property_name, Model, Relation,
}
use canvas.Db.Config.{
  is_name, IndexInit, Declared, text, array, ModelInit, Config, names_property, includes_index,
  parse_declared, push_relation, parse_properties, is_primary, only_primary, names_relation,
  columns_of, parse_indexes, list_of, parse_models, parse_config,
}
use canvas.Db.Config.Printed.{Declares, parse_property_iff}

-- The properties are those that the texts declare, in their order.
abbrev pub DeclaresAll : List (Str × Declared) → List Property → Type 0
DeclaresAll [] [] = Unit
DeclaresAll [] (p ∷ ps) = ⊥
DeclaresAll (d ∷ ds) [] = ⊥
DeclaresAll ((name, declared) ∷ ds) (p ∷ ps) =
    ((t : Str) × (declared ≡ text t) × Declares name t p) × DeclaresAll ds ps

-- The relations of a model.
abbrev pub relations_of : ModelInit → List Property → List Relation
relations_of init [] = []
relations_of init (relation name target ∷ ps) =
    record {
      source = init.name;
      property = name;
      target = target;
      indexed = includes_index init.indexes name;
    }
    ∷ relations_of init ps
relations_of init (primary name ∷ ps) = relations_of init ps
relations_of init (primitive name type optional ∷ ps) = relations_of init ps
relations_of init (reference name target optional ∷ ps) = relations_of init ps

-- An index on a relation.
abbrev pub is_relation_index : IndexInit → Property → Bool
is_relation_index index (relation name target) = names_property name index
is_relation_index index _ = false

-- The columns of the indexes that are not on relations.
abbrev pub column_indexes : List Property → List IndexInit → List (List Str)
column_indexes ps [] = []
column_indexes ps (index ∷ indexes) =
    if any (is_relation_index index) ps
    then column_indexes ps indexes
    else columns_of index ∷ column_indexes ps indexes

-- The model of a declaration.
pub record ModelOf (init : ModelInit) (model : Model) : Type 0 where
  pub named : model.name ≡ init.name
  pub valid_name : is_name model.name ≡ true
  pub declared : DeclaresAll init.rest model.properties
  pub one_primary : filter is_primary model.properties ≡ primary model.primary_key ∷ []
  pub indexed : model.indexes ≡ column_indexes model.properties (list_of init.indexes)

abbrev pub ModelsOf : List ModelInit → List Model → Type 0
ModelsOf [] [] = Unit
ModelsOf [] (m ∷ ms) = ⊥
ModelsOf (i ∷ is) [] = ⊥
ModelsOf (i ∷ is) (m ∷ ms) = ModelOf i m × ModelsOf is ms

abbrev pub all_relations : List ModelInit → List Model → List Relation
all_relations [] ms = []
all_relations (i ∷ is) [] = []
all_relations (i ∷ is) (m ∷ ms) = relations_of i m.properties ++ all_relations is ms

-- The keys of an object are different.
abbrev pub DistinctNames : List ModelInit → Type 0
DistinctNames [] = Unit
DistinctNames (i ∷ is) = All (λ j. bytes_eq i.name j.name ≡ false) is × DistinctNames is

parse_declared_lem :
    (name : Str) (d : Declared) {p : Property}
    → parse_declared name d ≡ ok p
    → (t : Str) × (d ≡ text t) × Declares name t p
parse_declared_lem name (array indexes) h = absurd (cc)
parse_declared_lem name (text t) {p} h = (t, refl, (parse_property_iff name t p).0 h)

push_relation_lem :
    (init : ModelInit) (p : Property) (rs : List Relation)
    → push_relation init.name (property_name p) (includes_index init.indexes (property_name p)) p rs
      ≡ rs ++ relations_of init (p ∷ [])
push_relation_lem init (primary name) rs = sym (append-nil rs)
push_relation_lem init (primitive name type optional) rs = sym (append-nil rs)
push_relation_lem init (reference name target optional) rs = sym (append-nil rs)
push_relation_lem init (relation name target) rs = refl

relations_of-cons :
    (init : ModelInit) (p : Property) (ps : List Property)
    → relations_of init (p ∷ []) ++ relations_of init ps ≡ relations_of init (p ∷ ps)
relations_of-cons init (primary name) ps = refl
relations_of-cons init (primitive name type optional) ps = refl
relations_of-cons init (reference name target optional) ps = refl
relations_of-cons init (relation name target) ps = refl

-- What the loop over the properties adds.
Adds :
    ModelInit
    → List (Str × Declared)
    → List Property × List Relation
    → List Property × List Relation
    → Type 0
Adds init rest before found =
    (ps : List Property) × (found.0 ≡ before.0 ++ ps)
    × (found.1 ≡ before.1 ++ relations_of init ps)
    × DeclaresAll rest ps

parse_properties_lem :
    (init : ModelInit) (rest : List (Str × Declared)) (ps : List Property) (rs : List Relation)
    {found : List Property × List Relation}
    → parse_properties init rest (ps, rs) ≡ ok found
    → Adds init rest (ps, rs) found
unfolding parse_properties Adds
parse_properties_lem init [] ps rs {found} h = (
  [],
  ap (λ (f : List Property × List Relation). f.0) (sym (ok_inj h)) ∙ sym (append-nil ps),
  ap (λ (f : List Property × List Relation). f.1) (sym (ok_inj h)) ∙ sym (append-nil rs),
  tt,
)
parse_properties_lem init ((name, d) ∷ rest) ps rs {found} h =
    let (p, e, h2) = >>=-eq-ok (parse_declared name d) _ h in
    let declares = parse_declared_lem name d e in
    let (qs, e0, e1, all_declared) = parse_properties_lem init rest _ _ h2 in
    (
      p ∷ qs,
      e0 ∙ append_assoc ps (p ∷ []) qs,
      e1
          ∙ ap (λ l. l ++ relations_of init qs) (pushed p declares.2.0)
          ∙ append_assoc rs (relations_of init (p ∷ [])) (relations_of init qs)
          ∙ ap (λ l. rs ++ l) (relations_of-cons init p qs),
      (declares, all_declared),
    )
  where
    pushed :
        (p : Property)
        → property_name p ≡ name
        → push_relation init.name name (includes_index init.indexes name) p rs
          ≡ rs ++ relations_of init (p ∷ [])
    pushed p e =
        subst
          (λ n.
            push_relation init.name n (includes_index init.indexes n) p rs
            ≡ rs ++ relations_of init (p ∷ []))
          e (push_relation_lem init p rs)

any-append {ℓ} :
    {A : Type ℓ} (f : A → Bool) (xs ys : List A) → any f (xs ++ ys) ≡ (any f xs || any f ys)
any-append f [] ys = refl
any-append f (x ∷ xs) ys = elim (Bool-cases (f x)) [
  | inl e ↦ rw e refl
  | inr e ↦ rw e (any-append f xs ys)
]

no_relation :
    (source : Str) (index : IndexInit) (rs : List Relation)
    → All (λ r. bytes_eq r.source source ≡ false) rs
    → any (names_relation source index) rs ≡ false
no_relation source index [] h = refl
no_relation source index (r ∷ rs) h = rw h.0 (no_relation source index rs h.1)

own_relation :
    (init : ModelInit) (index : IndexInit) (ps : List Property)
    → any (names_relation init.name index) (relations_of init ps) ≡ any (is_relation_index index) ps
own_relation init index [] = refl
own_relation init index (primary name ∷ ps) = own_relation init index ps
own_relation init index (primitive name type optional ∷ ps) = own_relation init index ps
own_relation init index (reference name target optional ∷ ps) = own_relation init index ps
own_relation init index (relation name target ∷ ps) =
    rw (bytes_eq_self init.name)
      (ap (λ b. names_property name index || b) (own_relation init index ps))

parse_indexes_lem :
    (init : ModelInit) (rs : List Relation) (ps : List Property) (indexes : List IndexInit)
    → All (λ r. bytes_eq r.source init.name ≡ false) rs
    → parse_indexes init.name (rs ++ relations_of init ps) indexes ≡ column_indexes ps indexes
unfolding parse_indexes
parse_indexes_lem init rs ps [] fresh = refl
parse_indexes_lem init rs ps (index ∷ indexes) fresh =
    rw
      (
        any-append (names_relation init.name index) rs (relations_of init ps),
        no_relation init.name index rs fresh,
        own_relation init index ps,
        parse_indexes_lem init rs ps indexes fresh,
      )
      refl

filter-primary : (ps : List Property) → All (λ p. is_primary p ≡ true) (filter is_primary ps)
filter-primary [] = tt
filter-primary (primary name ∷ ps) = (refl, filter-primary ps)
filter-primary (primitive name type optional ∷ ps) = filter-primary ps
filter-primary (reference name target optional ∷ ps) = filter-primary ps
filter-primary (relation name target ∷ ps) = filter-primary ps

only_primary_lem :
    (ps : List Property) {k : Str}
    → All (λ p. is_primary p ≡ true) ps
    → only_primary ps ≡ ok k
    → ps ≡ primary k ∷ []
only_primary_lem [] a h = absurd (cc)
only_primary_lem (primary name ∷ []) a h = ap (λ n. primary n ∷ []) (ok_inj h)
only_primary_lem (primitive name type optional ∷ []) a h = absurd (cc)
only_primary_lem (reference name target optional ∷ []) a h = absurd (cc)
only_primary_lem (relation name target ∷ []) a h = absurd (cc)
only_primary_lem (p ∷ q ∷ ps) a h = absurd (cc)

-- No relation of the list has the name for its source.
abbrev Fresh : List Relation → ModelInit → Type 0
Fresh rs init = All (λ r. bytes_eq r.source init.name ≡ false) rs

Fresh-append :
    (rs own : List Relation) (init : ModelInit)
    → Fresh rs init
    → Fresh own init
    → Fresh (rs ++ own) init
Fresh-append [] own init h k = k
Fresh-append (r ∷ rs) own init h k = (h.0, Fresh-append rs own init h.1 k)

relations_of-Fresh :
    (init other : ModelInit) (ps : List Property)
    → bytes_eq init.name other.name ≡ false
    → Fresh (relations_of init ps) other
relations_of-Fresh init other [] h = tt
relations_of-Fresh init other (primary name ∷ ps) h = relations_of-Fresh init other ps h
relations_of-Fresh init other (primitive name type optional ∷ ps) h =
    relations_of-Fresh init other ps h
relations_of-Fresh init other (reference name target optional ∷ ps) h =
    relations_of-Fresh init other ps h
relations_of-Fresh init other (relation name target ∷ ps) h =
    (h, relations_of-Fresh init other ps h)

All-Fresh :
    (init : ModelInit) (ps : List Property) (rs : List Relation) (inits : List ModelInit)
    → All (λ j. bytes_eq init.name j.name ≡ false) inits
    → All (Fresh rs) inits
    → All (Fresh (rs ++ relations_of init ps)) inits
All-Fresh init ps rs [] d f = tt
All-Fresh init ps rs (j ∷ inits) d f = (
  Fresh-append rs (relations_of init ps) j f.0 (relations_of-Fresh init j ps d.0),
  All-Fresh init ps rs inits d.1 f.1,
)

-- What the loop over the models adds.
AddsModels : List ModelInit → Config → Config → Type 0
AddsModels inits before out =
    (ms : List Model) × (out.models ≡ before.models ++ ms)
    × (out.relations ≡ before.relations ++ all_relations inits ms)
    × ModelsOf inits ms

named_lem {ℓ} :
    {A : Type ℓ} (c : Bool) (m : String) (r : Result A) {a : A}
    → (assert c m >> r) ≡ ok a
    → (c ≡ true) × (r ≡ ok a)
named_lem true m r h = (refl, h)
named_lem false m r h = absurd (cc)

from_empty :
    (init : ModelInit) (before : List Relation) (ps : List Property) (rs : List Relation)
    → Adds init init.rest ([], before) (ps, rs)
    → (rs ≡ before ++ relations_of init ps) × DeclaresAll init.rest ps
unfolding Adds
from_empty init before ps rs (qs, e0, e1, d) =
    subst (λ l. (rs ≡ before ++ relations_of init l) × DeclaresAll init.rest l) (sym e0) (e1, d)

abbrev parsed_model : ModelInit → List Property → List Relation → (key : Str) → Model
parsed_model init ps rs key = record {
  name = init.name;
  primary_key = key;
  properties = ps;
  indexes = parse_indexes init.name rs (list_of init.indexes);
}

parsed_model-ModelOf :
    (init : ModelInit) (before : List Relation) (ps : List Property) (rs : List Relation)
    {key : Str}
    → is_name init.name ≡ true
    → Fresh before init
    → rs ≡ before ++ relations_of init ps
    → DeclaresAll init.rest ps
    → only_primary (filter is_primary ps) ≡ ok key
    → ModelOf init (parsed_model init ps rs key)
parsed_model-ModelOf init before ps rs valid fresh e declared p = record {
  named = refl;
  valid_name = valid;
  declared = declared;
  one_primary = only_primary_lem (filter is_primary ps) (filter-primary ps) p;
  indexed =
      ap (λ l. parse_indexes init.name l (list_of init.indexes)) e
      ∙ parse_indexes_lem init before ps (list_of init.indexes) fresh;
}

-- The loop goes on with one more model.
AddsModels-cons :
    (init : ModelInit) (inits : List ModelInit) (config : Config) (ps : List Property)
    (rs : List Relation) (model : Model) (out : Config)
    → rs ≡ config.relations ++ relations_of init ps
    → model.properties ≡ ps
    → ModelOf init model
    → AddsModels inits (record { relations = rs; models = config.models ++ model ∷ [] }) out
    → AddsModels (init ∷ inits) config out
unfolding AddsModels
AddsModels-cons init inits config ps rs model out e p of (ms, em, er, all_of) = (
  model ∷ ms,
  em ∙ append_assoc config.models (model ∷ []) ms,
  er
      ∙ ap (λ l. l ++ all_relations inits ms) e
      ∙ append_assoc config.relations (relations_of init ps) (all_relations inits ms)
      ∙ ap (λ l. config.relations ++ (relations_of init l ++ all_relations inits ms)) (sym p),
  (of, all_of),
)

parse_models_lem :
    (inits : List ModelInit) (config : Config) {out : Config}
    → DistinctNames inits
    → All (Fresh config.relations) inits
    → parse_models inits config ≡ ok out
    → AddsModels inits config out
unfolding parse_models AddsModels
parse_models_lem [] config {out} d fresh h = (
  [],
  ap (λ (c : Config). c.models) (sym (ok_inj h)) ∙ sym (append-nil config.models),
  ap (λ (c : Config). c.relations) (sym (ok_inj h)) ∙ sym (append-nil config.relations),
  tt,
)
parse_models_lem (init ∷ inits) config {out} d fresh h =
    let (valid, h1) = named_lem (is_name init.name) _ _ h in
    let (found, e2, h2) = >>=-eq-ok (parse_properties init init.rest ([], config.relations)) _ h1 in
    let (key, e3, h3) = >>=-eq-ok (only_primary (filter is_primary found.0)) _ h2 in
    let (e, declared) =
      from_empty init config.relations found.0 found.1
        (parse_properties_lem init init.rest [] config.relations e2) in
    let model : Model = parsed_model init found.0 found.1 key in
    AddsModels-cons init inits config found.0 found.1 model out e refl
      (parsed_model-ModelOf init config.relations found.0 found.1 valid fresh.0 e declared e3)
      (parse_models_lem inits (record { relations = found.1; models = config.models ++ model ∷ [] })
        d.1
        (subst (λ l. All (Fresh l) inits) (sym e)
          (All-Fresh init found.0 config.relations inits d.0 fresh.1))
        h3)

All-Fresh-nil : (inits : List ModelInit) → All (Fresh []) inits
All-Fresh-nil [] = tt
All-Fresh-nil (i ∷ inits) = (tt, All-Fresh-nil inits)

-- A configuration that parses, of models with different names, has for each declaration, in their
-- order, a model of its name, with the properties that its texts declare, in their order, exactly
-- one of which is primary and gives the primary key, and with its indexes but those that name a
-- relation; and it has the relations of all models, indexed where an index names them.
pub parse_config-eq-ok :
    (inits : List ModelInit) {config : Config}
    → DistinctNames inits
    → parse_config inits ≡ ok config
    → ModelsOf inits config.models × (config.relations ≡ all_relations inits config.models)
unfolding parse_config AddsModels
parse_config-eq-ok inits {config} d h =
    let (ms, em, er, all_of) =
      parse_models_lem inits (record { relations = []; models = [] }) d (All-Fresh-nil inits) h in
    (subst (ModelsOf inits) (sym em) all_of, er ∙ ap (all_relations inits) (sym em))
