-- ===== src/Json.antt =====
-- Decoded JSON bodies: what encoding/json gives for interface{}, and the readers of the program.
use repo_extension.Base.{Bool, Option, none, some, [], if◌then◌else◌}
use repo_extension.Base.Text.{Text, codes, text_eq}

-- A number is kept as its literal. The fields of a map have distinct keys, as those of a Go map do.
mutual
  pub data Json : Type 0 where
    null : Json
    boolean : Bool → Json
    number : Text → Json
    text : Text → Json
    array : Items → Json
    object : Fields → Json

  pub data Items : Type 0 where
    nil : Items
    cons : Json → Items → Items

  pub data Fields : Type 0 where
    end : Fields
    field : Text → Json → Fields → Fields

-- v[k] on a map; a nil map has no keys.
unfoldable pub get : Fields → Text → Json
get end k = null
get (field j v fs) k = if text_eq j k then v else get fs k

-- v[k].(string), with "" where the assertion fails: strVal, strFrom, argStr.
abbrev pub as_string : Json → Text
as_string (text s) = s
as_string _ = []

unfoldable pub str_from : Fields → Text → Text
str_from m k = as_string (get m k)

-- v.([]interface{}), with nil where the assertion fails: sliceOf, arraySlice.
abbrev pub slice_of : Json → Items
slice_of (array xs) = xs
slice_of _ = nil

-- v.(map[string]interface{})
abbrev pub as_map : Json → Option Fields
as_map (object m) = some m
as_map _ = none

abbrev pub map_or_nil : Json → Fields
map_or_nil (object m) = m
map_or_nil _ = end

-- errText
unfoldable pub err_text : Fields → Text
err_text v = elim (get v (codes "error")) [
  | text s ↦ s
  | _ ↦ elim (get v (codes "message")) [ text s ↦ s | _ ↦ [] ]
]
