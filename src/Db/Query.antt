-- ===== src/Db/Query.antt =====
-- packages/modeldb/src/query.ts: the filters of `where`.
pub mod Filter
use canvas.Base.{
  ℕ, Bool, true, false, not, ◌&&◌, ◌||◌, Option, none, some, List, [], ◌∷◌, Str, Bytes, bytes_eq,
  bytes_lt, Result, ok, throw, assert, ◌>>=◌, ◌>>◌, if◌then◌else◌, all, length, ◌==◌,
}
use canvas.Base.Maps.{has}
use canvas.Db.Types.{
  PrimitiveType, integer, float, string, bytes, boolean, json, Property, primary, primitive,
  reference, relation, property_name, Model, Value, undefined, null, bool, num, str, bin, strs, Js,
  ModelValue, get, Expression, literal, neq, range, Direction, asc, desc,
}
use canvas.Db.Validate.{validate_property_value}
use canvas.Db.Order.{Order, strict_eq, primitive_type_orders, find_property}

module _ (js : Js) where
  open js use {Num}

  -- The clauses of a range: `undefined` bounds are skipped.
  abbrev pub check : Option (Value Num) → (Value Num → Bool) → Bool
  check none p = true
  check (some bound) p = p bound

  unfoldable pub range_filter : Order Num → (gt gte lt lte : Option (Value Num)) → Value Num → Bool
  range_filter order gt gte lt lte v =
      check gt (λ b. not (order.less v b || order.equals v b))
      && check gte (λ b. not (order.less v b))
      && check lt (λ b. order.less v b)
      && check lte (λ b. order.less v b || order.equals v b)

  unfoldable pub validate_bound : Property → Option (Value Num) → Result (Unit {0})
  validate_bound property none = ok tt
  validate_bound property (some v) = validate_property_value js property v

  -- `getPrimitiveFilter`; the property is `primitive name type optional`.
  unfoldable pub get_primitive_filter :
      Str → PrimitiveType → Bool → Expression Num → Result (Value Num → Bool)
  unfolding validate_bound range_filter
  get_primitive_filter name type optional (literal target) = do
    validate_property_value js (primitive name type optional) target
    ok (λ v. (primitive_type_orders js type).equals v target)
  get_primitive_filter name type optional (neq target) = do
    validate_property_value js (primitive name type optional) target
    ok (λ v. not ((primitive_type_orders js type).equals v target))
  get_primitive_filter name type optional (range gt gte lt lte) = do
    validate_bound (primitive name type optional) gt
    validate_bound (primitive name type optional) gte
    validate_bound (primitive name type optional) lt
    validate_bound (primitive name type optional) lte
    ok (range_filter (primitive_type_orders js type) gt gte lt lte)

  abbrev pub is_reference : Value Num → Bool
  is_reference null = true
  is_reference (str s) = true
  is_reference _ = false

  unfoldable pub get_reference_filter : Expression Num → Result (Value Num → Bool)
  get_reference_filter (literal target) = do
    assert (is_reference target) "invalid reference value expression"
    ok (λ v. strict_eq js v target)
  get_reference_filter (neq target) = do
    assert (is_reference target) "invalid reference value expression"
    ok (λ v. not (strict_eq js v target))
  get_reference_filter (range gt gte lt lte) =
      throw "cannot use range expressions on reference values"

  abbrev pub includes : Value Num → Str → Bool
  includes (strs ss) target = has target ss
  includes _ target = false

  abbrev pub excludes : Value Num → Str → Bool
  excludes (strs ss) target = not (has target ss)
  excludes _ target = false

  unfoldable pub get_relation_filter : Expression Num → Result (Value Num → Bool)
  unfolding has
  get_relation_filter (literal (strs targets)) = ok (λ v. all (includes v) targets)
  get_relation_filter (literal _) = throw "invalid relation expression (expected string[])"
  get_relation_filter (neq (strs targets)) = ok (λ v. all (excludes v) targets)
  get_relation_filter (neq _) = throw "invalid relation expression (expected string[])"
  get_relation_filter (range gt gte lt lte) =
      throw "cannot use range expressions on relation values"

  unfoldable pub filter_by : Option Property → Expression Num → Result (Value Num → Bool)
  unfolding get_primitive_filter get_reference_filter get_relation_filter
  filter_by none e = throw "assertion failed"
  filter_by (some (primary name)) e = get_primitive_filter name string false e
  filter_by (some (primitive name type optional)) e = get_primitive_filter name type optional e
  filter_by (some (reference name target optional)) e = get_reference_filter e
  filter_by (some (relation name target)) e = get_relation_filter e

  -- `getPropertyFilter`
  abbrev pub get_property_filter : Model → Str → Expression Num → Result (Value Num → Bool)
  get_property_filter model name e = filter_by (find_property js name model.properties) e

  unfoldable pub get_filters :
      Model → List (Str × Expression Num) → Result (List (Str × (Value Num → Bool)))
  unfolding find_property filter_by
  get_filters model [] = ok []
  get_filters model ((name, e) ∷ rest) = do
    f ← get_property_filter model name e
    fs ← get_filters model rest
    ok ((name, f) ∷ fs)

  abbrev pub passes : List (Str × (Value Num → Bool)) → ModelValue Num → Bool
  passes [] row = true
  passes ((name, f) ∷ fs) row = f (get row name) && passes fs row

  unfoldable pub get_filter : Model → List (Str × Expression Num) → Result (ModelValue Num → Bool)
  unfolding get_filters
  get_filter model clauses = do fs ← get_filters model clauses; ok (passes fs)
