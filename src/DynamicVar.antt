-- ===== src/DynamicVar.antt =====
-- sources/misc/dynamicvar.go: a value kept as text. An integer is stored by strconv.Itoa and read by
-- strconv.Atoi, whose error reads as 0.
pub mod RoundTrip
use vss.Prelude.{
  ℕ, zero, suc, ◌+◌, ◌-◌, ◌*◌, ◌/◌, ◌%◌, ◌≤◌, ◌<◌, Bytes, codes, [], ◌∷◌, ◌++◌, ◌≡◌, refl, Bool,
  true, false, ◌&&◌, ◌||◌, str_eq, Option, none, some, leb, ltb, ◌==◌, if◌then◌else◌,
}
use vss.Text.{contains_text}
use vss.Prelude.Int.{ℤ, pos, negsuc, negated, int_limit}

unfoldable pub is_digit : ℕ → Bool
is_digit c = leb b'0' c && leb c b'9'

unfoldable pub digits_value : ℕ → Bytes → Option ℕ
unfolding is_digit
digits_value n [] = some n
digits_value n (c ∷ s) =
    let rest = digits_value (n * 10 + (c - b'0')) s in if is_digit c then rest else none

unsigned : Bytes → Option ℕ
unfolding digits_value
unsigned [] = none
unsigned (c ∷ s) = digits_value 0 (c ∷ s)

abbrev positive : Option ℕ → Option ℤ
positive none = none
positive (some n) = if ltb n int_limit then some (pos n) else none

abbrev negative : Option ℕ → Option ℤ
negative none = none
negative (some n) = if leb n int_limit then some (negated n) else none

-- strconv.Atoi: an optional sign, one or more digits, a value that fits 64 bits.
unfoldable pub atoi : Bytes → Option ℤ
unfolding unsigned
atoi [] = none
atoi (c ∷ s) =
    if c == b'-'
    then negative (unsigned s)
    else if c == b'+'
    then positive (unsigned s)
    else positive (unsigned (c ∷ s))

-- Each round takes the last digit off; `n + 1` rounds are enough.
digits : ℕ → ℕ → Bytes → Bytes
digits zero n out = out
digits (suc fuel) n out = elim (ltb n 10) [
  | true ↦ (b'0' + n % 10) ∷ out
  | false ↦ digits fuel (n / 10) ((b'0' + n % 10) ∷ out)
]

unfoldable pub format : ℕ → Bytes
unfolding digits
format n = digits (suc n) n []

-- strconv.Itoa
unfoldable pub itoa : ℤ → Bytes
itoa (pos n) = format n
itoa (negsuc n) = b'-' ∷ format (suc n)

abbrev pub int_or_zero : Option ℤ → ℤ
int_or_zero none = pos 0
int_or_zero (some i) = i

-- GetInt64, GetInt
unfoldable pub get_int64 : Bytes → ℤ
unfolding atoi
get_int64 data_text = int_or_zero (atoi data_text)

-- SetBool
unfoldable pub bool_text : Bool → Bytes
bool_text true = codes "1"
bool_text false = codes "0"

-- strings.ToLower of an ASCII text.
unfoldable pub to_lower : Bytes → Bytes
to_lower [] = []
to_lower (c ∷ s) = (if leb b'A' c && leb c b'Z' then c + 32 else c) ∷ to_lower s

-- GetBool: whether the text in lower case stands anywhere in "1trueyesok".
unfoldable pub get_bool : Bytes → Bool
unfolding to_lower
get_bool data_text = contains_text (codes "1trueyesok") (to_lower data_text)

-- The kinds that InferType tells apart.
pub data Kind : Type 0 where
  int_kind float_kind bool_kind string_kind : Kind

abbrev is_bool_text : Bytes → Bool
is_bool_text lower_data =
    str_eq lower_data (codes "1")
    || str_eq lower_data (codes "0")
    || str_eq lower_data (codes "true")
    || str_eq lower_data (codes "false")
    || str_eq lower_data (codes "yes")
    || str_eq lower_data (codes "no")

abbrev unless_int : Bool → Bytes → Option ℤ → Kind
unless_int is_float data_text (some i) = int_kind
unless_int is_float data_text none =
    if is_float
    then float_kind
    else if is_bool_text (to_lower data_text)
    then bool_kind
    else string_kind

-- InferType; `is_float` is whether strconv.ParseFloat reads the text.
unfoldable pub infer_type : Bool → Bytes → Kind
infer_type is_float data_text = unless_int is_float data_text (atoi data_text)

itoa_runs : itoa (negsuc 41) ≡ codes "-42"
unfolding itoa format
itoa_runs = refl
