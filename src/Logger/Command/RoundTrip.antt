-- ===== src/Logger/Command/RoundTrip.antt =====
-- commandcall.go: the file of the command, read back by a reader of quoted fields.
use vss.Prelude.{
  ℕ, zero, suc, Bytes, codes, List, [], ◌∷◌, ◌++◌, ◌≡◌, refl, sym, subst, append_assoc, Bool, true,
  false, Option, none, some, arith, if◌then◌else◌, ◌==◌, Bool-cases, inl, inr, All, length, ◌>>=◌,
}
use vss.Prelude.Int.{ℤ, pos, negsuc, IsInt}
use vss.Text.{contains, cut, cut_at_first}
use vss.DynamicVar.{is_digit, itoa, get_int64}
use vss.DynamicVar.RoundTrip.{get_int64-itoa, contains-format}
use vss.Logger.Common.{escape_string, replace_all}
use vss.Logger.Command.{CommandEntry, line_of, file_of}

-- The byte that a backslash and `c` stand for.
abbrev unescaped : ℕ → ℕ
unescaped c = if c == b'n' then 10 else if c == b'r' then 13 else if c == b't' then 9 else c

abbrev prepend : ℕ → Option (Bytes × Bytes) → Option (Bytes × Bytes)
prepend c none = none
prepend c (some (s, rest)) = some (c ∷ s, rest)

-- The text up to the quote that ends it, and what follows; the flag is whether a backslash was just read.
unfoldable pub read_quoted : Bool → Bytes → Option (Bytes × Bytes)
read_quoted escaped [] = none
read_quoted true (c ∷ s) = prepend (unescaped c) (read_quoted false s)
read_quoted false (c ∷ s) =
    let next = read_quoted true s in
    let plain = read_quoted false s in
    if c == 34 then some ([], s) else if c == 92 then next else prepend c plain

replace_all-append :
    (b : ℕ) (new s t : Bytes)
    → replace_all b new (s ++ t) ≡ replace_all b new s ++ replace_all b new t
unfolding replace_all
replace_all-append b new [] t = refl
replace_all-append b new (c ∷ s) t = elim (Bool-cases (c == b)) [
  | inl e ↦ rw (e, replace_all-append b new s t) (sym (append_assoc new _ _))
  | inr e ↦ rw (e, replace_all-append b new s t) refl
]

escape_string-cons :
    (c : ℕ) (s : Bytes) → escape_string (c ∷ s) ≡ escape_string (c ∷ []) ++ escape_string s
unfolding escape_string
escape_string-cons c s =
    rw
      (
        replace_all-append 92 (92 ∷ 92 ∷ []) (c ∷ []) s,
        replace_all-append 34 (92 ∷ 34 ∷ []) (replace_all 92 (92 ∷ 92 ∷ []) (c ∷ [])),
        replace_all-append 10 (codes "\\n"),
        replace_all-append 13 (codes "\\r"),
        replace_all-append 9 (codes "\\t"),
      )
      refl

-- The byte `c` is read back from its escaped form.
abbrev IsRead : Bytes → ℕ → Type 0
IsRead t c = read_quoted false (escape_string (c ∷ []) ++ t) ≡ prepend c (read_quoted false t)

IsRead-at : (t : Bytes) (b c : ℕ) → c == b ≡ true → IsRead t b → IsRead t c
IsRead-at t b c e h = subst (IsRead t) (ground arith) h

IsRead-byte : (c : ℕ) (t : Bytes) → IsRead t c
unfolding escape_string replace_all read_quoted
IsRead-byte c t = elim (Bool-cases (c == 92)) [
  | inl e ↦ IsRead-at t 92 c e refl
  | inr e ↦ elim (Bool-cases (c == 34)) [
    | inl e1 ↦ IsRead-at t 34 c e1 refl
    | inr e1 ↦ elim (Bool-cases (c == 10)) [
      | inl e2 ↦ IsRead-at t 10 c e2 refl
      | inr e2 ↦ elim (Bool-cases (c == 13)) [
        | inl e3 ↦ IsRead-at t 13 c e3 refl
        | inr e3 ↦ elim (Bool-cases (c == 9)) [
          | inl e4 ↦ IsRead-at t 9 c e4 refl
          | inr e4 ↦ rw (e, e1, e2, e3, e4) (rw (e1, e) refl)
        ]
      ]
    ]
  ]
]

read_escaped : (s t : Bytes) → read_quoted false (escape_string s ++ 34 ∷ t) ≡ some (s, t)
unfolding read_quoted
read_escaped [] t = unfold escape_string replace_all in refl
read_escaped (c ∷ s) t =
    rw
      (
        escape_string-cons c s,
        append_assoc (escape_string (c ∷ [])),
        IsRead-byte c,
        read_escaped s t,
      )
      refl

itoa_lacks : (i : ℤ) → contains (itoa i) 10 ≡ false
unfolding itoa contains is_digit
itoa_lacks (pos n) = contains-format n 10 refl
itoa_lacks (negsuc n) = contains-format (suc n) 10 refl

-- The text `expected`, which the input has to begin with, taken off.
abbrev expect : Bytes → Bytes → Option Bytes
expect [] s = some s
expect (b ∷ bs) [] = none
expect (b ∷ bs) (c ∷ s) = if c == b then expect bs s else none

expect-append : (bs s : Bytes) → expect bs (bs ++ s) ≡ some s
expect-append [] s = refl
expect-append (b ∷ bs) s = ground (arith, expect-append bs s)

-- One line, and what follows.
unfoldable pub read_line : Bytes → Option (CommandEntry × Bytes)
read_line s = do
  s1 ← expect (codes "\"") s
  header ← read_quoted false s1
  s2 ← expect (codes ",\"") header.1
  body ← read_quoted false s2
  s3 ← expect (codes ",\"") body.1
  title ← read_quoted false s3
  s4 ← expect (codes ",") title.1
  number ← cut 10 s4
  some (
    record { header = header.0; entry_text = body.0; name = title.0; level = get_int64 number.0 },
    number.1,
  )

read_line-line_of :
    (e : CommandEntry) (rest : Bytes)
    → IsInt e.level
    → read_line (line_of e ++ rest) ≡ some (e, rest)
unfolding read_line line_of
read_line-line_of e rest h =
    rw
      (
        append_assoc (escape_string e.header),
        append_assoc (escape_string e.entry_text),
        append_assoc (escape_string e.name),
        append_assoc (itoa e.level),
        read_escaped e.header,
        read_escaped e.entry_text,
        read_escaped e.name,
        cut_at_first 10 (itoa e.level) rest (itoa_lacks e.level),
        get_int64-itoa e.level h,
      )
      refl

-- As many lines as the number says, and what follows them.
unfoldable pub read_lines : ℕ → Bytes → Option (List CommandEntry × Bytes)
read_lines zero s = some ([], s)
read_lines (suc n) s = do
  first ← read_line s
  others ← read_lines n first.1
  some (first.0 ∷ others.0, others.1)

-- For entries whose levels are numbers of 64 bits and any text behind them: the file that the command
-- gets, read as lines of three quoted fields, in which a backslash stands before a quote, a backslash and
-- the letters of a line break, a carriage return and a tab, and a number, gives the entries back, in their
-- order, and leaves the text behind them.
pub read_lines-file_of :
    (es : List CommandEntry) (rest : Bytes)
    → All (λ e. IsInt e.level) es
    → read_lines (length es) (file_of es ++ rest) ≡ some (es, rest)
unfolding read_lines file_of
read_lines-file_of [] rest _ = refl
read_lines-file_of (e ∷ es) rest (h, hs) =
    rw
      (
        append_assoc (line_of e),
        read_line-line_of e (file_of es ++ rest) h,
        read_lines-file_of es rest hs,
      )
      refl
