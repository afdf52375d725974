-- ===== src/Json.antt =====
-- JSON values as the handlers read them: a number is its text; `undefined` is a missing option.
use distributed_task_platfor.Prelude.{
  String, Bool, true, false, not, ◌||◌, Option, none, some, str_eq, if◌then◌else◌,
}

mutual
  pub data Json : Type 0 where
    null : Json
    boolean : Bool → Json
    number : String → Json
    text : String → Json
    array : Items → Json
    object : Fields → Json

  pub data Items : Type 0 where
    no_items : Items
    item : Json → Items → Items

  pub data Fields : Type 0 where
    no_fields : Fields
    field : (key : String) → Json → Fields → Fields

abbrev pub get_field : String → Fields → Option Json
get_field key no_fields = none
get_field key (field k v fs) = if str_eq k key then some v else get_field key fs

-- `value?.key`
abbrev pub get : String → Option Json → Option Json
get key (some (object fs)) = get_field key fs
get key _ = none

-- `a ?? b`
abbrev pub or_else : Option Json → Option Json → Option Json
or_else none b = b
or_else (some null) b = b
or_else (some v) b = some v

abbrev pub or_value : Option Json → Json → Json
or_value none d = d
or_value (some null) d = d
or_value (some v) d = v

-- Boolean(value)
abbrev pub truthy : Json → Bool
truthy null = false
truthy (boolean b) = b
truthy (number t) = not (str_eq t "0" || str_eq t "NaN")
truthy (text s) = not (str_eq s "")
truthy (array xs) = true
truthy (object fs) = true

-- An object's key set to a value.
abbrev pub set_field : String → Json → Fields → Fields
set_field key v no_fields = field key v no_fields
set_field key v (field k w fs) =
    if str_eq k key then field k v fs else field k w (set_field key v fs)

-- { ...fs, ...more }, where `more` is an object.
abbrev pub spread : Fields → Fields → Fields
spread fs no_fields = fs
spread fs (field k v more) = spread (set_field k v fs) more

abbrev pub fields_of : Json → Fields
fields_of (object fs) = fs
fields_of _ = no_fields
