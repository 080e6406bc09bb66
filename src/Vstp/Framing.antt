-- ===== src/Vstp/Framing.antt =====
-- The lines do not depend on how the bytes arrive.
use vss.Prelude.{
  ℕ, zero, suc, ◌≤◌, Bytes, List, [], ◌∷◌, ◌++◌, ◌≡◌, ◌≢◌, refl, sym, ap, ◌∙◌, append_assoc,
  append-nil, length, Option-cases, inl, inr, arith,
}
use vss.Text.{cut, split, split-none, split-some, split-ne-nil, length-cut, cut-append}
use vss.Vstp.{trim_cr, take_lines, on_client_data, on_pieces}

abbrev end_of_line : ℕ
end_of_line = b'\n'

-- All the parts but the last one, and the last one.
abbrev pub whole_lines : List Bytes → List Bytes
whole_lines [] = []
whole_lines (p ∷ []) = []
whole_lines (p ∷ q ∷ ps) = trim_cr p ∷ whole_lines (q ∷ ps)

abbrev pub last_part : List Bytes → Bytes
last_part [] = []
last_part (p ∷ []) = p
last_part (p ∷ q ∷ ps) = last_part (q ∷ ps)

whole_lines-cons :
    (p : Bytes) (ps : List Bytes) → ps ≢ [] → whole_lines (p ∷ ps) ≡ trim_cr p ∷ whole_lines ps
whole_lines-cons p [] h = absurd (h refl)
whole_lines-cons p (q ∷ ps) h = refl

last_part-cons : (p : Bytes) (ps : List Bytes) → ps ≢ [] → last_part (p ∷ ps) ≡ last_part ps
last_part-cons p [] h = absurd (h refl)
last_part-cons p (q ∷ ps) h = refl

take_lines-split :
    (fuel : ℕ) (buf : Bytes)
    → length buf ≤ fuel
    → take_lines fuel buf ≡ (whole_lines (split end_of_line buf), last_part (split end_of_line buf))
unfolding take_lines
take_lines-split zero [] h = unfold split in refl
take_lines-split zero (c ∷ buf) h = absurd (omega arith)
take_lines-split (suc fuel) buf h = elim (Option-cases (cut end_of_line buf)) [
  | inl e ↦ rw (e, split-none end_of_line buf e) refl
  | inr ((line, rest), e) ↦
      let less = length-cut end_of_line buf line rest e in
      let step = take_lines-split fuel rest (omega arith) in
      rw
        (
          e,
          split-some end_of_line buf line rest e,
          step,
          whole_lines-cons line (split end_of_line rest) (split-ne-nil end_of_line rest),
          last_part-cons line (split end_of_line rest) (split-ne-nil end_of_line rest),
        )
        refl
]

-- The new bytes complete the lines that are the buffer's and the bytes' parts between the ends of
-- line, without the carriage returns at their ends, and the last part stays in the buffer.
pub on_client_data-split :
    (buf bytes : Bytes)
    → on_client_data buf bytes ≡ (
      whole_lines (split end_of_line (buf ++ bytes)),
      last_part (split end_of_line (buf ++ bytes)),
    )
unfolding on_client_data
on_client_data-split buf bytes = take_lines-split _ (buf ++ bytes) (omega arith)

SplitMore : Bytes → Bytes → Type 0
SplitMore s t =
    (whole_lines (split end_of_line (s ++ t))
      ≡ whole_lines (split end_of_line s)
        ++ whole_lines (split end_of_line (last_part (split end_of_line s) ++ t)))
    × (last_part (split end_of_line (s ++ t))
        ≡ last_part (split end_of_line (last_part (split end_of_line s) ++ t)))

split-more_within : (fuel : ℕ) (s t : Bytes) → length s ≤ fuel → SplitMore s t
unfolding SplitMore
split-more_within zero [] t h = unfold split in (refl, refl)
split-more_within zero (c ∷ s) t h = absurd (omega arith)
split-more_within (suc fuel) s t h = elim (Option-cases (cut end_of_line s)) [
  | inl e ↦ rw (split-none end_of_line s e) (refl, refl)
  | inr ((x, y), e) ↦
      let less = length-cut end_of_line s x y e in
      let (a, b) = split-more_within fuel y t (omega arith) in
      rw
        (
          split-some end_of_line s x y e,
          split-some end_of_line (s ++ t) x (y ++ t) (cut-append end_of_line s t x y e),
          whole_lines-cons x (split end_of_line y) (split-ne-nil end_of_line y),
          last_part-cons x (split end_of_line y) (split-ne-nil end_of_line y),
          whole_lines-cons x (split end_of_line (y ++ t)) (split-ne-nil end_of_line (y ++ t)),
          last_part-cons x (split end_of_line (y ++ t)) (split-ne-nil end_of_line (y ++ t)),
        )
        (ap (λ l. trim_cr x ∷ l) a, b)
]

-- More bytes behind a text change its last part only.
split-more : (s t : Bytes) → SplitMore s t
split-more s t = split-more_within (length s) s t (omega arith)

abbrev pub joined : List Bytes → Bytes
joined [] = []
joined (piece ∷ pieces) = piece ++ joined pieces

-- Two calls give what one call with both pieces gives.
on_client_data-append :
    (buf s t : Bytes)
    → on_client_data buf (s ++ t) ≡ (
      (on_client_data buf s).0 ++ (on_client_data (on_client_data buf s).1 t).0,
      (on_client_data (on_client_data buf s).1 t).1,
    )
unfolding SplitMore
on_client_data-append buf s t =
    let (a, b) = split-more (buf ++ s) t in
    rw
      (on_client_data-split, on_client_data-split, on_client_data-split, sym (append_assoc buf s t))
      (λ i. (a i, b i))

-- The lines that are processed, and what stays in the buffer, are those of the pieces joined, however
-- the network cuts the bytes into pieces; the first piece comes to the buffer of the client.
pub on_pieces-joined :
    (buf piece : Bytes) (pieces : List Bytes)
    → on_pieces buf (piece ∷ pieces) ≡ on_client_data buf (joined (piece ∷ pieces))
unfolding on_pieces
on_pieces-joined buf piece [] = rw (append-nil piece, append-nil (on_client_data buf piece).0) refl
on_pieces-joined buf piece (q ∷ pieces) =
    let rest = on_pieces-joined (on_client_data buf piece).1 q pieces in
    (λ i. ((on_client_data buf piece).0 ++ (rest i).0, (rest i).1))
    ∙ sym (on_client_data-append buf piece (joined (q ∷ pieces)))
