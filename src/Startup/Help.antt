-- ===== src/Startup/Help.antt =====
-- main.go, `getTerminalSize`, `printHelpLine`: the lines of the help, wrapped to the width of the terminal.
pub mod Wrapped
pub mod Endless
use vss.Prelude.{
  ℕ, zero, suc, ◌+◌, ◌-◌, Bytes, List, [], ◌∷◌, ◌++◌, Bool, true, false, Option, none, some, ◌≡◌,
  refl, ◌&&◌, ◌||◌, ◌==◌, if◌then◌else◌, Bool-cases, inl, inr, ltb, leb, is_nil, length, codes,
}
use vss.Prelude.Int.{ℤ, pos, negsuc}
use vss.DynamicVar.{atoi}
use vss.Text.{before, drop, spaces}

abbrev is_positive : ℤ → Bool
is_positive (pos n) = ltb 0 n
is_positive (negsuc n) = false

-- strconv.Atoi of COLUMNS, where it is a positive number.
abbrev columns_or_default : Option ℤ → ℤ
columns_or_default none = pos 80
columns_or_default (some parsed) = if is_positive parsed then parsed else pos 80

-- getTerminalSize: the widths that term.GetSize gives of the three streams whose descriptors are not
-- negative, and COLUMNS.
unfoldable pub get_terminal_size : List (Option ℤ) → Bytes → ℤ
get_terminal_size [] cols = if is_nil cols then pos 80 else columns_or_default (atoi cols)
get_terminal_size (none ∷ widths) cols = get_terminal_size widths cols
get_terminal_size (some width ∷ widths) cols =
    if is_positive width then width else get_terminal_size widths cols

columns_or_default_positive : (o : Option ℤ) → is_positive (columns_or_default o) ≡ true
columns_or_default_positive none = refl
columns_or_default_positive (some parsed) = elim (Bool-cases (is_positive parsed)) [
  | inl e ↦ rw e e
  | inr e ↦ rw e refl
]

pub get_terminal_size_positive :
    (widths : List (Option ℤ)) (cols : Bytes) → is_positive (get_terminal_size widths cols) ≡ true
unfolding get_terminal_size
get_terminal_size_positive [] cols = elim (Bool-cases (is_nil cols)) [
  | inl e ↦ rw e refl
  | inr e ↦ rw e (columns_or_default_positive (atoi cols))
]
get_terminal_size_positive (none ∷ widths) cols = get_terminal_size_positive widths cols
get_terminal_size_positive (some width ∷ widths) cols = elim (Bool-cases (is_positive width)) [
  | inl e ↦ rw e e
  | inr e ↦ rw e (get_terminal_size_positive widths cols)
]

abbrev later : Option ℕ → Option ℕ
later none = none
later (some k) = some (suc k)

abbrev or_here : Bool → Option ℕ → Option ℕ
or_here here (some k) = some k
or_here true none = some 0
or_here false none = none

-- strings.LastIndex(line, " ")
unfoldable pub last_space : Bytes → Option ℕ
last_space [] = none
last_space (c ∷ s) = or_here (c == 32) (later (last_space s))

-- strings.LastIndex(line, "  ")
unfoldable pub last_two_spaces : Bytes → Option ℕ
last_two_spaces [] = none
last_two_spaces (c ∷ []) = none
last_two_spaces (c ∷ d ∷ s) = or_here (c == 32 && d == 32) (later (last_two_spaces (d ∷ s)))

abbrev length_at : ℕ → Option ℕ → ℕ
length_at size none = size
length_at size (some k) = if ltb size (k + 20) then k + 1 else size

-- The length of `toPrint`.
abbrev pub piece_length : ℕ → Bytes → ℕ
piece_length size line = length_at size (last_space (before size line))

abbrev cons_piece : Bytes → Option (List Bytes) → Option (List Bytes)
cons_piece piece none = none
cons_piece piece (some pieces) = some (piece ∷ pieces)

-- The loop, by rounds: the lines that are printed, and `none` where the rounds do not suffice.
unfoldable pub wrap : ℕ → ℕ → ℕ → Bytes → Option (List Bytes)
wrap zero size identation line = none
wrap (suc fuel) size identation line =
    let n = piece_length size line in
    let rest = drop n line in
    let others = wrap fuel size identation (spaces identation ++ rest) in
    if ltb (length line) size
    then some (line ∷ [])
    else if is_nil rest
    then some (before n line ∷ [])
    else cons_piece (before n line) others

abbrev wrap_at : ℕ → ℕ → Bytes → Option ℕ → Option (List Bytes)
wrap_at fuel size line none = some (line ∷ [])
wrap_at fuel size line (some index) =
    let wrapped = wrap fuel size (index + 2 + 1) line in
    if ltb (length line) size then some (line ∷ []) else wrapped

-- printHelpLine, for a width that is not negative.
unfoldable pub print_help_line : ℕ → Bytes → ℕ → Option (List Bytes)
print_help_line fuel line terminal_size = wrap_at fuel terminal_size line (last_two_spaces line)
