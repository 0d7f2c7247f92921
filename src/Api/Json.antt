-- ===== src/Api/Json.antt =====
-- JSON values, the content of the `map[string]any` trees that the generator builds.
use dataprepper_operator.Base.{
  String, Bool, List, [], ◌∷◌, ◌==◌, string_eq, if◌then◌else◌, Option, none, some,
}
use dataprepper_operator.Base.Int.{ℤ}

mutual
  pub data Value : Type 0 where
    null : Value
    bool : Bool → Value
    num : ℤ → Value
    -- A number that is not an integer, as it is written.
    fraction : String → Value
    str : String → Value
    arr : Values → Value
    obj : Fields → Value

  pub data Values : Type 0 where
    nil : Values
    cons : Value → Values → Values

  pub data Fields : Type 0 where
    end : Fields
    field : String → Value → Fields → Fields

-- `m[k] = v` on a `map[string]any`.
unfoldable pub put : String → Value → Fields → Fields
put k v end = field k v end
put k v (field j w fs) = if j == k then field k v fs else field j w (put k v fs)

-- `m[k]`
unfoldable pub get : String → Fields → Option Value
get k end = none
get k (field j w fs) = if j == k then some w else get k fs

-- `maps.Copy(dst, src)`
unfoldable pub copy_fields : Fields → Fields → Fields
copy_fields dst end = dst
copy_fields dst (field k v src) = copy_fields (put k v dst) src

abbrev pub field_names : Fields → List String
field_names end = []
field_names (field k v fs) = k ∷ field_names fs

abbrev pub values : List Value → Values
values [] = nil
values (v ∷ vs) = cons v (values vs)

-- A map literal with one key.
abbrev pub single : String → Value → Value
single k v = obj (field k v end)

abbrev pub strings : List String → Values
strings [] = nil
strings (s ∷ ss) = cons (str s) (strings ss)
