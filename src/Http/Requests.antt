-- ===== src/Http/Requests.antt =====
-- httpapi.go: the handlers of the requests. What net/http and encoding/json do is an argument, `Go`;
-- an answer is what is written to the ResponseWriter.
use vss.Prelude.{
  ℕ, Bytes, codes, List, [], ◌∷◌, ◌++◌, Bool, false, ◌&&◌, not, Option, str_eq, ◌==◌, is_nil,
  if◌then◌else◌,
}
use vss.DynamicVar.{to_lower}
use vss.Text.{contains, contains_text, has_prefix}
use vss.Http.Nested.{Any, Fields}

-- json.Unmarshal into an `any`, json.Decoder.Decode into a map, json.Marshal and json.MarshalIndent,
-- ParseFloat followed by FormatFloat, fmt.Sprintf with %v, and the orders of the ranges over a map.
pub record Go : Type 0 where
  pub unmarshal : Bytes → Option Any
  pub decode : Bytes → Option Fields
  pub marshal : Any → Option Bytes
  pub marshal_indent : Any → Option Bytes
  pub float_text : Bytes → Option Bytes
  pub sprint : Any → Bytes
  pub check_order : Fields → Fields
  pub fill_order : Fields → Fields

pub record Request : Type 0 where
  pub method : Bytes
  pub path : Bytes
  pub query : Bytes → Bytes
  pub header : Bytes → Bytes
  pub body : Bytes

-- A status, a content type and a body; net/http recovers a handler that panics, and answers nothing.
pub data Answer : Type 0 where
  answer : ℕ → Bytes → Bytes → Answer
  websocket : Bytes → Answer
  panicked : Answer

-- http.Error
abbrev pub http_error : Bytes → ℕ → Answer
http_error message status = answer status (codes "text/plain; charset=utf-8") (message ++ 10 ∷ [])

abbrev pub no_content : Answer
no_content = answer 204 [] []

abbrev pub ok_json : Bytes → Answer
ok_json out = answer 200 (codes "application/json") out

-- strings.TrimSuffix(s, string(b))
unfoldable pub trim_suffix : ℕ → Bytes → Bytes
trim_suffix b [] = []
trim_suffix b (c ∷ []) = if c == b then [] else c ∷ []
trim_suffix b (c ∷ d ∷ s) = c ∷ trim_suffix b (d ∷ s)

-- strings.HasSuffix(s, string(b))
unfoldable pub has_suffix : ℕ → Bytes → Bool
has_suffix b [] = false
has_suffix b (c ∷ []) = c == b
has_suffix b (c ∷ d ∷ s) = has_suffix b (d ∷ s)

-- trimWildcardBase
unfoldable pub trim_wildcard_base : Bytes → Bytes
trim_wildcard_base name =
    if has_suffix b'*' name then trim_suffix b'.' (trim_suffix b'*' name) else name

-- strings.TrimPrefix(s, p)
unfoldable pub drop_prefix : Bytes → Bytes → Bytes
drop_prefix [] s = s
drop_prefix (c ∷ p) [] = []
drop_prefix (c ∷ p) (d ∷ s) = drop_prefix p s

-- Below the base of the name that was asked for, a name is given without it.
unfoldable pub below_base : Bytes → Bytes → Bytes
below_base base full_name =
    if not (is_nil base) && has_prefix full_name (base ++ b'.' ∷ [])
    then drop_prefix (base ++ b'.' ∷ []) full_name
    else full_name

-- The word of a value in the tree of the answer; `several` is len(vals) != 1.
unfoldable pub json_name : Bool → Bytes → Bool → Bytes → Bytes
json_name full name several full_name =
    let base = trim_wildcard_base name in
    if full
    then full_name
    else if not (str_eq base full_name)
    then below_base base full_name
    else if several
    then codes "_value"
    else full_name

-- The one value that was asked for, with a dot in its name, is answered alone.
unfoldable pub is_alone : Bool → Bytes → Bool → Bytes → Bool
is_alone full name several full_name =
    not full && str_eq (trim_wildcard_base name) full_name && not several && contains full_name b'.'

-- fullnames=true keeps the whole name, as a line of the plain export.
unfoldable pub plain_line : Bool → Bytes → Bytes × Bytes → Bytes
plain_line full name (full_name, val) =
    (if full then full_name else below_base (trim_wildcard_base name) full_name) ++ b'=' ∷ val

-- strings.Join(lines, "\n")
unfoldable pub join_lines : List Bytes → Bytes
join_lines [] = []
join_lines (line ∷ []) = line
join_lines (line ∷ next ∷ lines) = line ++ 10 ∷ join_lines (next ∷ lines)

-- strings.ReplaceAll(strings.TrimPrefix(path, "/"), "/", ".")
unfoldable pub dots : Bytes → Bytes
dots [] = []
dots (c ∷ s) = (if c == b'/' then b'.' else c) ∷ dots s

unfoldable pub var_name : Bytes → Bytes
var_name [] = []
var_name (c ∷ s) = if c == b'/' then dots s else dots (c ∷ s)

unfoldable pub exporter_of : Request → Bytes
exporter_of r =
    let asked = to_lower (r.query (codes "export")) in
    if not (is_nil asked)
    then asked
    else if contains_text (r.header (codes "Accept")) (codes "text/plain")
    then codes "plain"
    else codes "json"

abbrev pub flag : Request → Bytes → Bool
flag r key = str_eq (to_lower (r.query key)) (codes "true")
