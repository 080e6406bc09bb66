-- ===== src/Logger/Common.antt =====
-- loggerutils/common.go: the texts that the writers put together. What package time does is an argument.
pub mod Lines
use vss.Prelude.{
  ℕ, zero, suc, ◌≡◌, refl, ◌+◌, ◌-◌, ◌/◌, ◌%◌, Bytes, codes, List, [], ◌∷◌, ◌++◌, Bool, true, false,
  Option, none, some, if◌then◌else◌, ◌==◌, is_nil, length,
}
use vss.Prelude.Int.{ℤ, pos, negsuc, negated, int_eq, sub}
use vss.Text.{before}
use vss.DynamicVar.{format}

-- strings.ReplaceAll of one byte.
unfoldable pub replace_all : ℕ → Bytes → Bytes → Bytes
replace_all b new [] = []
replace_all b new (c ∷ s) =
    let rest = replace_all b new s in if c == b then new ++ rest else c ∷ rest

-- strings.HasSuffix(s, "\n")
unfoldable pub ends_line : Bytes → Bool
ends_line [] = false
ends_line (c ∷ []) = c == 10
ends_line (c ∷ d ∷ s) = ends_line (d ∷ s)

-- Ident
unfoldable pub ident : Bytes → Bytes → Bytes
unfolding replace_all
ident source prefix =
    let ret = replace_all 10 (10 ∷ prefix) source in
    if ends_line source then before (length ret - length prefix) ret else ret

-- EscapeString
unfoldable pub escape_string : Bytes → Bytes
escape_string s =
    let s1 = replace_all 92 (92 ∷ 92 ∷ []) s in
    let s2 = replace_all 34 (92 ∷ 34 ∷ []) s1 in
    let s3 = replace_all 10 (codes "\\n") s2 in
    let s4 = replace_all 13 (codes "\\r") s3 in replace_all 9 (codes "\\t") s4

-- `/` and `%` of Go, which go towards zero.
abbrev quotient : ℤ → ℕ → ℤ
quotient (pos n) d = pos (n / d)
quotient (negsuc n) d = negated (suc n / d)

abbrev remainder : ℤ → ℕ → ℤ
remainder (pos n) d = pos (n % d)
remainder (negsuc n) d = negated (suc n % d)

abbrev zeros : ℕ → Bytes
zeros zero = []
zeros (suc n) = b'0' ∷ zeros n

abbrev wide : ℕ → Bytes → Bytes
wide n s = zeros (n - length s) ++ s

-- "%+03d"
abbrev signed_03 : ℤ → Bytes
signed_03 (pos n) = b'+' ∷ wide 2 (format n)
signed_03 (negsuc n) = b'-' ∷ wide 2 (format (suc n))

-- "%02d"
abbrev wide_02 : ℤ → Bytes
wide_02 (pos n) = wide 2 (format n)
wide_02 (negsuc n) = b'-' ∷ wide 1 (format (suc n))

-- The offset of a time zone, in seconds, as +hhmm.
unfoldable pub offset_text : ℤ → Bytes
offset_text timezoneoffset =
    signed_03 (quotient timezoneoffset 3600)
    ++ wide_02 (quotient (remainder timezoneoffset 3600) 60)

-- Package time; the flag of `format_time` asks for the milliseconds.
pub record Clock (T : Type 0) : Type 0 where
  pub is_zero : T → Bool
  pub zone : T → ℤ
  pub add_seconds : ℤ → T → T
  pub format_time : Bool → T → Bytes

abbrev bracketed : Bytes → Bytes
bracketed s = b'[' ∷ s ++ codes "] "

module _ {T : Type 0} (clock : Clock T) where
  open clock use {is_zero, zone, add_seconds, format_time}

  -- `now` is what time.Now gives.
  abbrev shown_time : T → T → ℤ → T
  shown_time now date_time timezoneoffset =
      if is_zero date_time then add_seconds (sub timezoneoffset (zone now)) now else date_time

  -- GenerateLineBeginning
  unfoldable pub generate_line_beginning : T → Bytes → Bytes → Bool → T → ℤ → Bool → Bytes
  generate_line_beginning now level_str name include_date_time date_time timezoneoffset
        include_millis =
      (if include_date_time
        then bracketed (
            format_time include_millis (shown_time now date_time timezoneoffset)
            ++ offset_text timezoneoffset)
        else [])
      ++ (bracketed level_str ++ (if is_nil name then [] else bracketed name))

-- LevelToString
unfoldable pub level_to_string : ℤ → Bytes → Bytes
level_to_string level default_name =
    if int_eq level (pos 9)
    then codes "TRACE"
    else if int_eq level (pos 10)
    then codes "DEBUG2"
    else if int_eq level (pos 20)
    then codes "DEBUG"
    else if int_eq level (pos 30)
    then codes "INFO2"
    else if int_eq level (pos 40)
    then codes "INFO"
    else if int_eq level (pos 50)
    then codes "WARNING"
    else if int_eq level (pos 60)
    then codes "ERROR"
    else if int_eq level (pos 70)
    then codes "CRITICAL"
    else default_name

-- "-03-30" for three hours and a half west of Greenwich.
half_hour_runs : offset_text (negsuc 12599) ≡ codes "-03-30"
unfolding offset_text format
half_hour_runs = refl

ident_runs : ident (codes "a\nb\n") (codes "  ") ≡ codes "a\n  b\n"
unfolding ident replace_all ends_line before
ident_runs = refl
