-- ===== src/Storage/Keys.antt =====
-- The path that a dot-separated key names. `scrollTree` reads the key from the front, one name at a
-- time; `key_path` is the same path, read off the split key: a last empty part is not followed.
use vss.Prelude.{
  ℕ, suc, arith, ◌≤◌, ◌<◌, Bytes, List, [], ◌∷◌, ◌++◌, ◌≡◌, ◌≢◌, refl, ◌∙◌, false, Option, none,
  some, inl, inr, length, if◌then◌else◌, Option-cases, is_nil, All, ap,
}
use vss.Text.{
  cut, split, split-none, split-some, split-ne-nil, split-ne-nil_nil, length-cut, contains, count,
  length-split, split-append, split_lacking, split-All,
}

abbrev pub dot : ℕ
dot = b'.'

abbrev first_or_all : Bytes → Option (Bytes × Bytes) → Bytes × Bytes
first_or_all name none = (name, [])
first_or_all name (some parts) = parts

-- currName and remainingName
unfoldable pub first_name : Bytes → Bytes × Bytes
first_name name = first_or_all name (cut dot name)

drop_trailing : List Bytes → List Bytes
drop_trailing [] = []
drop_trailing (p ∷ []) = p ∷ []
drop_trailing (p ∷ [] ∷ []) = p ∷ []
drop_trailing (p ∷ [] ∷ q ∷ r) = p ∷ drop_trailing ([] ∷ q ∷ r)
drop_trailing (p ∷ (c ∷ s) ∷ r) = p ∷ drop_trailing ((c ∷ s) ∷ r)

unfoldable pub key_path : Bytes → List Bytes
unfolding drop_trailing
key_path name = drop_trailing (split dot name)

drop_trailing-cons :
    (p : Bytes) (ps : List Bytes)
    → ps ≢ []
    → ps ≢ [] ∷ []
    → drop_trailing (p ∷ ps) ≡ p ∷ drop_trailing ps
unfolding drop_trailing
drop_trailing-cons p [] h k = absurd (h refl)
drop_trailing-cons p ([] ∷ []) h k = absurd (k refl)
drop_trailing-cons p ([] ∷ q ∷ r) h k = refl
drop_trailing-cons p ((c ∷ s) ∷ r) h k = refl

drop_trailing-split :
    (p s : Bytes)
    → drop_trailing (p ∷ split dot s) ≡ p ∷ (if is_nil s then [] else drop_trailing (split dot s))
unfolding drop_trailing
drop_trailing-split p [] = unfold split in refl
drop_trailing-split p (c ∷ s) =
    drop_trailing-cons p _ (split-ne-nil dot (c ∷ s)) (split-ne-nil_nil dot c s)

-- The path is the first name and, unless nothing remains, the path of what remains.
pub key_path_step :
    (name : Bytes)
    → key_path name
      ≡ (first_name name).0
        ∷ (if is_nil (first_name name).1 then [] else key_path (first_name name).1)
unfolding key_path first_name
key_path_step name = elim (Option-cases (cut dot name)) [
  | inl e ↦ rw (e, split-none dot name e)
  | inr ((x, y), e) ↦ rw (e, split-some dot name x y e) (drop_trailing-split x y)
]

-- What remains is shorter, so `scrollTree` ends.
pub length-first_name :
    (name : Bytes) → (first_name name).1 ≢ [] → length (first_name name).1 < length name
unfolding first_name
length-first_name name h = elim (Option-cases (cut dot name)) [
  | inl e ↦ absurd (h (rw e))
  | inr ((x, y), e) ↦ rw e (length-cut dot name x y e)
]

drop_trailing-append :
    (ps qs : List Bytes)
    → qs ≢ []
    → qs ≢ [] ∷ []
    → drop_trailing (ps ++ qs) ≡ ps ++ drop_trailing qs
drop_trailing-append [] qs h k = refl
drop_trailing-append (p ∷ []) qs h k = drop_trailing-cons p qs h k
drop_trailing-append (p ∷ q ∷ ps) qs h k =
    drop_trailing-cons p (q ∷ ps ++ qs) (λ e. cc) (λ e. not_one q ps qs h e)
    ∙ ap (λ r. p ∷ r) (drop_trailing-append (q ∷ ps) qs h k)
  where
    not_one : (q : Bytes) (ps qs : List Bytes) → qs ≢ [] → q ∷ ps ++ qs ≢ [] ∷ []
    not_one q [] qs h e = h (cc)
    not_one q (p ∷ ps) qs h e = cc

-- The path of a key behind a prefix and a dot.
pub key_path-append : (s t : Bytes) → t ≢ [] → key_path (s ++ dot ∷ t) ≡ split dot s ++ key_path t
unfolding key_path
key_path-append s [] h = absurd (h refl)
key_path-append s (c ∷ t) h =
    rw split-append (drop_trailing-append _ _ (split-ne-nil dot (c ∷ t)) (split-ne-nil_nil dot c t))

-- A key of one name.
pub key_path_lacking : (s : Bytes) → contains s dot ≡ false → key_path s ≡ s ∷ []
unfolding key_path drop_trailing
key_path_lacking s h = rw (split_lacking dot s h)

drop_trailing-All {ℓ} : (P : Bytes → Type ℓ) (ps : List Bytes) → All P ps → All P (drop_trailing ps)
unfolding drop_trailing
drop_trailing-All P [] h = h
drop_trailing-All P (p ∷ []) h = h
drop_trailing-All P (p ∷ [] ∷ []) (h, _) = (h, tt)
drop_trailing-All P (p ∷ [] ∷ q ∷ r) (h, hs) = (h, drop_trailing-All P ([] ∷ q ∷ r) hs)
drop_trailing-All P (p ∷ (c ∷ s) ∷ r) (h, hs) = (h, drop_trailing-All P ((c ∷ s) ∷ r) hs)

-- No name on a path holds a dot.
pub key_path-All : (name : Bytes) → All (λ p. contains p dot ≡ false) (key_path name)
unfolding key_path
key_path-All name = drop_trailing-All _ _ (split-All dot name)

-- A key whose last name is not empty names the parts that it splits into.
pub key_path_parts :
    (key : Bytes) (pre : List Bytes) (c : ℕ) (s : Bytes)
    → split dot key ≡ pre ++ (c ∷ s) ∷ []
    → key_path key ≡ pre ++ (c ∷ s) ∷ []
unfolding key_path
key_path_parts key pre c s h =
    rw h
      (drop_trailing-append pre ((c ∷ s) ∷ []) (λ e. cc) (λ e. cc) ∙ unfold drop_trailing in refl)

length-drop_trailing : (ps : List Bytes) → length ps ≤ suc (length (drop_trailing ps))
unfolding drop_trailing
length-drop_trailing [] = omega arith
length-drop_trailing (p ∷ []) = omega arith
length-drop_trailing (p ∷ [] ∷ []) = omega arith
length-drop_trailing (p ∷ [] ∷ q ∷ r) = omega (arith, length-drop_trailing ([] ∷ q ∷ r))
length-drop_trailing (p ∷ (c ∷ s) ∷ r) = omega (arith, length-drop_trailing ((c ∷ s) ∷ r))

-- A path has at least as many names as its key has dots.
pub length-key_path : (name : Bytes) → count dot name ≤ length (key_path name)
unfolding key_path
length-key_path name = omega (arith, length-drop_trailing (split dot name), length-split dot name)
