-- ===== src/Db/Order/Compare.antt =====
-- `getCompare` gives `Array.sort` a comparator that fits it: packages/modeldb/src/query.ts.
use canvas.Base.{◌≡◌, ap, arith, Option, none, some, [], ◌∷◌, Str, ok}
use canvas.Db.Types.{
  PrimitiveType, string, Property, primary, primitive, reference, relation, Model, Value, Js,
  ModelValue, get, Direction, asc, desc,
}
use canvas.Db.Order.{
  Sign, minus, same, plus, compare_by, find_property, compare_property, get_compare,
  primitive_type_orders,
}
use canvas.Db.Validate.Holds.{Stored}
use canvas.Db.Order.Laws.{OrderedNumbers, order_trichotomy, order_trans}

abbrev pub flip : Sign → Sign
flip minus = plus
flip same = same
flip plus = minus

module _ (js : Js) where
  open js use {Num}

  -- The type whose order a property is sorted by.
  abbrev pub sort_type : Property → Option PrimitiveType
  sort_type (primary name) = some string
  sort_type (primitive name type optional) = some type
  sort_type (reference name target optional) = some string
  sort_type (relation name target) = none

  -- The comparator of a property, where its type is known.
  abbrev pub comparator : PrimitiveType → Str → Direction → ModelValue Num → ModelValue Num → Sign
  comparator t name direction a b =
      compare_by js (primitive_type_orders js t) direction (get a name) (get b name)

  compare_property_lem :
      (p : Property) (name : Str) (direction : Direction) {t : PrimitiveType}
      → sort_type p ≡ some t
      → compare_property js (some p) name direction ≡ ok (comparator t name direction)
  unfolding compare_property
  compare_property_lem (primary n) name direction {t} s =
      let e : string ≡ t = cc in ap (λ u. ok (comparator u name direction)) e
  compare_property_lem (primitive n u optional) name direction {t} s =
      let e : u ≡ t = cc in ap (λ u. ok (comparator u name direction)) e
  compare_property_lem (reference n target optional) name direction {t} s =
      let e : string ≡ t = cc in ap (λ u. ok (comparator u name direction)) e
  compare_property_lem (relation n target) name direction s = absurd (cc)

  get_compare_lem :
      (model : Model) (name : Str) (direction : Direction) (p : Property) {t : PrimitiveType}
      → find_property js name model.properties ≡ some p
      → sort_type p ≡ some t
      → get_compare js model ((name, direction) ∷ []) ≡ ok (comparator t name direction)
  unfolding get_compare
  get_compare_lem model name direction p e s = rw e (compare_property_lem p name direction s)

  module _ (o : OrderedNumbers js) (t : PrimitiveType) where
    compare_by-flip :
        (direction : Direction) {a b : Value Num}
        → Stored js t a
        → Stored js t b
        → compare_by js (primitive_type_orders js t) direction b a
          ≡ flip (compare_by js (primitive_type_orders js t) direction a b)
    unfolding compare_by
    compare_by-flip asc h k =
        ground (arith, order_trichotomy js o t h k, order_trichotomy js o t k h)
    compare_by-flip desc h k =
        ground (arith, order_trichotomy js o t h k, order_trichotomy js o t k h)

    compare_by_trans :
        (direction : Direction) {a b c : Value Num}
        → Stored js t a
        → Stored js t b
        → Stored js t c
        → compare_by js (primitive_type_orders js t) direction a b ≡ minus
        → compare_by js (primitive_type_orders js t) direction b c ≡ minus
        → compare_by js (primitive_type_orders js t) direction a c ≡ minus
    unfolding compare_by
    compare_by_trans asc h k l e f = ground (arith, order_trans js o t h k l)
    compare_by_trans desc h k l e f = ground (
      arith,
      order_trans js o t l k h,
      order_trichotomy js o t h k,
      order_trichotomy js o t k l,
      order_trichotomy js o t h l,
    )

  -- What `Array.sort` asks of a comparator, at the values of one property.
  pub record IsComparator (t : PrimitiveType) (name : Str)
      (f : ModelValue Num → ModelValue Num → Sign) : Type 0 where
    pub flips :
        (a b : ModelValue Num)
        → Stored js t (get a name)
        → Stored js t (get b name)
        → f b a ≡ flip (f a b)
    pub trans :
        (a b c : ModelValue Num)
        → Stored js t (get a name)
        → Stored js t (get b name)
        → Stored js t (get c name)
        → f a b ≡ minus
        → f b c ≡ minus
        → f a c ≡ minus

  -- `orderBy` with one entry, naming a primary, primitive or reference property, gives a
  -- comparator, in either direction: it changes its sign when the rows are swapped, and is
  -- transitive, at rows that store null or values of the property's type other than NaN. A
  -- descending sort is the reverse of an ascending one. Numbers other than NaN are ordered by
  -- JavaScript's `<` and `===`.
  pub get_compare-IsComparator :
      (o : OrderedNumbers js) (model : Model) (name : Str) (p : Property) (t : PrimitiveType)
      → find_property js name model.properties ≡ some p
      → sort_type p ≡ some t
      → (up down : ModelValue Num → ModelValue Num → Sign) × (get_compare js model
            ((name, asc) ∷ [])
          ≡ ok up)
        × (get_compare js model ((name, desc) ∷ []) ≡ ok down)
        × IsComparator t name up
        × IsComparator t name down
        × ((a b : ModelValue Num) → down a b ≡ flip (up a b))
  unfolding compare_by
  get_compare-IsComparator o model name p t e s = (
    comparator t name asc,
    comparator t name desc,
    get_compare_lem model name asc p e s,
    get_compare_lem model name desc p e s,
    record {
      flips = λ a b h k. compare_by-flip o t asc h k;
      trans = λ a b c h k l. compare_by_trans o t asc h k l;
    },
    record {
      flips = λ a b h k. compare_by-flip o t desc h k;
      trans = λ a b c h k l. compare_by_trans o t desc h k l;
    },
    λ a b. ground arith,
  )
