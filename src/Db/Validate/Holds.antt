-- ===== src/Db/Validate/Holds.antt =====
-- The values that a property of each type may store: packages/modeldb/src/utils.ts.
use canvas.Base.{ℕ, Bool, true, ◌≡◌, ◌≢◌, List, some, Str}
use canvas.Db.Types.{
  PrimitiveType, integer, float, string, bytes, boolean, json, Property, primary, primitive,
  reference, relation, Value, null, bool, num, str, bin, strs, Js,
}

module _ (js : Js) where
  open js use {Num, num_eq, is_safe_integer, stringify}

  -- The values of each type but JSON, which the program does not let a query order or filter by.
  pub data Holds : PrimitiveType → Value Num → Type 0 where
    integers : (n : Num) → is_safe_integer n ≡ true → Holds integer (num n)
    floats : (n : Num) → Holds float (num n)
    strings : (s : List ℕ) → Holds string (str s)
    byte_arrays : (b : List ℕ) → Holds bytes (bin b)
    booleans : (b : Bool) → Holds boolean (bool b)

  -- A value that is not NaN.
  abbrev pub IsNumber : Value Num → Type 0
  IsNumber (num n) = num_eq n n ≡ true
  IsNumber v = Unit

  -- What a property stores but NaN, null among it.
  pub data Stored (t : PrimitiveType) : Value Num → Type 0 where
    nothing : Stored t null
    held : {v : Value Num} → Holds t v → IsNumber v → Stored t v

  -- What a property accepts.
  pub data Fits : Property → Value Num → Type 0 where
    a_key : {n s : Str} → Fits (primary n) (str s)
    a_value :
        {n : Str} {t : PrimitiveType} {o : Bool} {v : Value Num}
        → Holds t v
        → Fits (primitive n t o) v
    a_document :
        {n s : Str} {o : Bool} {v : Value Num}
        → v ≢ null
        → stringify v ≡ some s
        → Fits (primitive n json o) v
    no_value : {n : Str} {t : PrimitiveType} → Fits (primitive n t true) null
    a_reference : {n target s : Str} {o : Bool} → Fits (reference n target o) (str s)
    no_reference : {n target : Str} → Fits (reference n target true) null
    targets : {n target : Str} {ss : List Str} → Fits (relation n target) (strs ss)
