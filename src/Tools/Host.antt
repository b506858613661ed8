-- ===== src/Tools/Host.antt =====
-- What the tool calls use of code outside the repository, and the results that they return
-- (tools.go, abc-protocol-go).
use repo_extension.Base.{String, Bool, Option, List, [], ◌∷◌, ltb, if◌then◌else◌}
use repo_extension.Base.Int.{ℤ, pos}
use repo_extension.Base.Text.{Text, is_empty}
use repo_extension.Base.Lists.{length, take}
use repo_extension.Errs.{Message, Err, op_error, not_found_for_http, plain}
use repo_extension.Json.{Json, null, boolean, number, text, array, object, Items, nil, cons, Fields}
use repo_extension.Effects.{Prog, ret, ◌>>=◌}
use repo_extension.I18n.{lc}
use repo_extension.Tools.{Hunk}

-- abcprotocol.ArgString and ArgInt, base64 of the standard library, the int64 of a decoded number,
-- strings.TrimSpace and the text that fmt gives for a map.
pub record Host : Type 0 where
  pub arg_string : Fields → String → Text
  pub arg_int : Fields → String → ℤ → ℤ
  pub encode_base64 : Text → Text
  pub decode_base64 : Text → Option Text
  pub int64_of : Text → ℤ
  pub trim_space : Text → Text
  pub print_map : Fields → Text

-- The values of the Data of a result; `decoded` is a value of a reply that is passed on.
mutual
  pub data Value : Type 0 where
    string : Text → Value
    count : ℤ → Value
    flag : Bool → Value
    decoded : Json → Value
    patch : Option Hunk → Value
    list : Values → Value
    map : Entries → Value

  pub data Values : Type 0 where
    no_values : Values
    value : Value → Values → Values

  infixr 30 ◌=>◌⨾◌
  pub data Entries : Type 0 where
    no_entries : Entries
    ◌=>◌⨾◌ : String → Value → Entries → Entries

-- ToolResultData: the pieces of the content in order, and the data; or a panic.
pub data ToolResult : Type 0 where
  tool_result : List Message → Entries → ToolResult
  tool_reply : List Message → Fields → ToolResult
  tool_panics : ToolResult

-- A result whose content is a localized text.
abbrev pub say : Text → Message → Message → Entries → Prog ToolResult
say session_name en zh entries = lc session_name en zh >>= λ m. ret (tool_result (m ∷ []) entries)

-- errors.Is(err, errNotFoundForHTTP)
abbrev pub is_not_found : Err → Bool
is_not_found (not_found_for_http _) = Bool.true
is_not_found (op_error _ _) = Bool.false
is_not_found (plain _) = Bool.false

abbrev pub or_default : Text → Text → Text
or_default v d = if is_empty v then d else v

-- shortID
unfoldable pub short_id : Text → Text
short_id id = if ltb 8 (length id) then take 8 id else id

abbrev pub strings_of : Items → List Text
strings_of nil = []
strings_of (cons (text s) rest) = s ∷ strings_of rest
strings_of (cons null rest) = strings_of rest
strings_of (cons (boolean _) rest) = strings_of rest
strings_of (cons (number _) rest) = strings_of rest
strings_of (cons (array _) rest) = strings_of rest
strings_of (cons (object _) rest) = strings_of rest

-- The values of a slice of strings.
abbrev pub string_values : List Text → Values
string_values [] = no_values
string_values (s ∷ rest) = value (string s) (string_values rest)

-- len of a slice, as an int64
abbrev pub size_of {ℓ} : {A : Type ℓ} → List A → ℤ
size_of xs = pos (length xs)
