-- ===== src/Http/Exports.antt =====
-- httpapi.go, `handleGetByName`: the values of variables as plain text and as JSON, and `parseDynamicVar`.
use vss.Prelude.{
  Bytes, codes, List, [], ◌∷◌, ◌++◌, map, Bool, true, false, not, Option, none, some, str_eq,
  is_nil, if◌then◌else◌,
}
use vss.DynamicVar.{
  itoa, get_int64, get_bool, Kind, int_kind, float_kind, bool_kind, string_kind, infer_type,
}
use vss.Text.{split}
use vss.Http.Nested.{Any, text, object, Fields, no_fields, insert_nested}
use vss.Http.Arrays.{normalize_arrays}
use vss.Http.Requests.{
  Go, Request, Answer, answer, panicked, http_error, ok_json, json_name, is_alone, plain_line,
  join_lines, exporter_of, flag,
}

module _ (go : Go) where
  open go use {unmarshal, marshal, marshal_indent, float_text, check_order, fill_order}

  -- parseDynamicVar
  abbrev parsed_or : Bytes → Option Any → Any
  parsed_or s none = text s
  parsed_or s (some out) = out

  unfoldable pub parse_dynamic_var : Bytes → Any
  parse_dynamic_var s = if is_nil s then text [] else parsed_or s (unmarshal s)

  abbrev float_or_empty : Option Bytes → Bytes
  float_or_empty none = []
  float_or_empty (some float) = float

  abbrev is_read : Option Bytes → Bool
  is_read none = false
  is_read (some float) = true

  -- The value as a JSON value of its kind.
  abbrev as_kind : Bytes → Kind → Bytes
  as_kind s int_kind = itoa (get_int64 s)
  as_kind s float_kind = float_or_empty (float_text s)
  as_kind s bool_kind = if get_bool s then codes "trye" else codes "false"
  as_kind s string_kind = b'"' ∷ (s ++ b'"' ∷ [])

  -- One value, written by the type that InferType finds.
  unfoldable pub single_json : Bytes → Bytes
  single_json s = as_kind s (infer_type (is_read (float_text s)) s)

  -- The loop over the values: the tree of the answer.
  unfoldable pub insert_values : Bool → Bytes → Bool → List (Bytes × Bytes) → Fields → Fields
  insert_values full name several [] root = root
  insert_values full name several ((full_name, val) ∷ vals) root =
      insert_values full name several vals (
        insert_nested (split b'.' (json_name full name several full_name)) (parse_dynamic_var val)
          root)

  abbrev encoded : Option Bytes → Answer
  encoded none = http_error (codes "encoding error") 500
  encoded (some out) = ok_json out

  abbrev encode : Bool → Option Any → Answer
  encode pretty none = panicked
  encode pretty (some final) = encoded (if pretty then marshal_indent final else marshal final)

  abbrev tree_answer : Bool → Bool → Bytes → Bool → List (Bytes × Bytes) → Answer
  tree_answer pretty full name several vals = encode pretty (
      normalize_arrays check_order fill_order
        (object (insert_values full name several vals no_fields)))

  -- The export as JSON.
  unfoldable pub json_answer : Bool → Bool → Bytes → List (Bytes × Bytes) → Answer
  json_answer pretty full name [] = tree_answer pretty full name true []
  json_answer pretty full name ((full_name, val) ∷ []) =
      if is_alone full name false full_name
      then ok_json (single_json val)
      else tree_answer pretty full name false ((full_name, val) ∷ [])
  json_answer pretty full name (v ∷ w ∷ vals) = tree_answer pretty full name true (v ∷ w ∷ vals)

  unfoldable pub plain_answer : Bool → Bytes → List (Bytes × Bytes) → Answer
  plain_answer full name vals =
      answer 200 (codes "text/plain; charset=utf-8") (join_lines (map (plain_line full name) vals))

  abbrev pub values_answer : Request → Bytes → Option Bytes × List (Bytes × Bytes) → Answer
  values_answer r name (some err, vals) = http_error err 500
  values_answer r name (none, vals) =
      let exporter = exporter_of r in
      let full = flag r (codes "fullnames") in
      if str_eq exporter (codes "plain")
      then plain_answer full name vals
      else if not (str_eq exporter (codes "json"))
      then http_error (codes "invalid export format (use json or plain)") 400
      else json_answer (flag r (codes "pretty")) full name vals
