-- ===== src/Tests/Help.antt =====
-- The help of main.go at concrete lines.
use vss.Prelude.{Bytes, codes, [], ◌∷◌, ◌≡◌, refl, some, arith}
use vss.Text.{before, drop, spaces}
use vss.Startup.Help.{last_two_spaces, last_space, wrap, print_help_line}
use vss.Startup.Help.Wrapped.{PrintedHelp, print_help_line_ends}

abbrev one_option : Bytes
one_option = codes "  --db  The driver of the storage"

last_two : last_two_spaces one_option ≡ some 6
unfolding last_two_spaces
last_two = refl

print_help_line_ends_example : PrintedHelp one_option 29 9
print_help_line_ends_example = print_help_line_ends one_option 29 6 last_two (omega arith)

wrapped_line :
    print_help_line 2 one_option 29
    ≡ some (codes "  --db  The driver of the " ∷ codes "         storage" ∷ [])
unfolding print_help_line last_two_spaces wrap last_space before drop spaces
wrapped_line = refl
