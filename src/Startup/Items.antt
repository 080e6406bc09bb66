-- ===== src/Startup/Items.antt =====
-- main.go, `initConfigurations`: the configuration items with their names, default values and
-- validations. `atoi_error` is the text of strconv.Atoi's error.
use vss.Prelude.{
  Bytes, codes, List, [], ◌∷◌, ◌++◌, Bool, ◌&&◌, ◌||◌, Option, none, some, str_eq, if◌then◌else◌,
}
use vss.Prelude.Int.{ℤ, pos, le_int}
use vss.Text.{contains_text}
use vss.DynamicVar.{atoi}
use vss.Confs.{ConfOption, with_possible_names, with_default_value, with_validation, to_lower}

abbrev pub Entry : Type 0
Entry = Bytes × List ConfOption

abbrev refusal : Bytes → Bytes → Option Bytes
refusal v why = some (codes "received '" ++ (v ++ (codes "', must be " ++ why)))

abbrev pub within_int : (ℤ → Bool) → Bytes → Bytes → Option ℤ → Option Bytes
within_int test v why none = refusal v why
within_int test v why (some i) = if test i then none else refusal v why

abbrev pub is_port : ℤ → Bool
is_port i = le_int (pos 1) i && le_int i (pos 65535)

-- GetInte, and the bounds of a port.
unfoldable pub port_error : Bytes → Option Bytes
port_error v = within_int is_port v (codes "a valid TCP port number (1-65535)") (atoi v)

unfoldable pub positive_error : Bytes → Option Bytes
positive_error v = within_int (λ i. le_int (pos 1) i) v (codes "a valid positive integer") (atoi v)

unfoldable pub interval_error : Bytes → Option Bytes
interval_error v = within_int (λ i. le_int (pos 0) i) v (codes "a valid positive integer") (atoi v)

abbrev log_size_refusal : (Bytes → Bytes) → Bytes → Option ℤ → Option Bytes
log_size_refusal atoi_error v none = refusal v (codes "a positive integer: " ++ atoi_error v)
log_size_refusal atoi_error v (some i) = none

unfoldable pub log_size_error : (Bytes → Bytes) → Bytes → Option Bytes
log_size_error atoi_error v = log_size_refusal atoi_error v (atoi v)

unfoldable pub log_level_error : Bytes → Option Bytes
log_level_error v =
    if contains_text (codes "tracedebuginfoinfo2warningerrorcritical") (to_lower v)
    then none
    else refusal (to_lower v)
        (codes "a valid log level (trace, debug, info, info, warning, error or critical)")

unfoldable pub driver_error : Bytes → Option Bytes
driver_error v =
    if str_eq (to_lower v) (codes "ramcacheddb") || str_eq (to_lower v) (codes "ramcacheddbpkv")
    then none
    else refusal (to_lower v) (codes "a valid database driver (ramcacheddb or ramcacheddbpkv)")

-- An item whose validation reads its value as it stands, before any map.
abbrev pub checked : Bytes → List Bytes → Bytes → (Bytes → Option Bytes) → Entry
checked name possible_names default_value error = (
  name,
  with_possible_names possible_names
      ∷ with_default_value default_value
      ∷ with_validation (λ i. error i.the_value)
      ∷ [],
)

abbrev pub unchecked : Bytes → List Bytes → Bytes → Entry
unchecked name possible_names default_value =
    (name, with_possible_names possible_names ∷ with_default_value default_value ∷ [])
