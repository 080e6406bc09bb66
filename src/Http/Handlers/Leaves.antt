-- ===== src/Http/Handlers/Leaves.antt =====
-- httpapi.go, `setJson`: an object is set by its leaves.
use vss.Prelude.{
  ℕ, Bytes, codes, List, [], ◌∷◌, ◌++◌, ◌≡◌, refl, sym, ap, ◌∙◌, append_assoc, is_nil, str_eq,
  false, Option, none, some, if◌then◌else◌, Bool-cases, inl, inr,
}
use vss.Vstp.Commands.{IController}
use vss.Http.Nested.{Any, scalar, text, array, object, Fields, no_fields, field}
use vss.Http.Requests.{Go}
use vss.Http.Handlers.{
  SetJson, done, failed, set_panicked, with_context, then_set, dotted, set_result, set_scalar,
  set_text, encoded_or, set_json,
}

-- The words that lead to a value, with dots between them.
abbrev pub joined_words : List Bytes → Bytes
joined_words [] = []
joined_words (w ∷ []) = w
joined_words (w ∷ v ∷ ws) = w ++ (b'.' ∷ joined_words (v ∷ ws))

-- A variable's name: empty words in front leave no dot.
abbrev pub name_of : List Bytes → Bytes
name_of [] = []
name_of ([] ∷ ws) = name_of ws
name_of ((c ∷ w) ∷ ws) = joined_words ((c ∷ w) ∷ ws)

-- The values of an object that are no objects, each with the words that lead to it.
unfoldable pub leaves : List Bytes → Fields → List (List Bytes × Any)
leaves path no_fields = []
leaves path (field key (object t) obj) = leaves (path ++ key ∷ []) t ++ leaves path obj
leaves path (field key (scalar s) obj) = (path ++ key ∷ [], scalar s) ∷ leaves path obj
leaves path (field key (text s) obj) = (path ++ key ∷ [], text s) ∷ leaves path obj
leaves path (field key (array xs) obj) = (path ++ key ∷ [], array xs) ∷ leaves path obj

joined_words-last :
    (w : Bytes) (ws : List Bytes) (key : Bytes)
    → joined_words (w ∷ ws ++ key ∷ []) ≡ joined_words (w ∷ ws) ++ (b'.' ∷ key)
joined_words-last w [] key = refl
joined_words-last w (v ∷ ws) key =
    ap (λ r. w ++ (b'.' ∷ r)) (joined_words-last v ws key)
    ∙ sym (append_assoc w (b'.' ∷ joined_words (v ∷ ws)) (b'.' ∷ key))

dotted-ne : (s key : Bytes) → is_nil s ≡ false → dotted s ++ key ≡ s ++ (b'.' ∷ key)
dotted-ne [] key h = cc
dotted-ne (c ∷ s) key h = append_assoc (c ∷ s) (b'.' ∷ []) key

joined_words-filled :
    (c : ℕ) (w : Bytes) (ws : List Bytes) → is_nil (joined_words ((c ∷ w) ∷ ws)) ≡ false
joined_words-filled c w [] = refl
joined_words-filled c w (v ∷ ws) = refl

name_of-last :
    (path : List Bytes) (key : Bytes) → name_of (path ++ key ∷ []) ≡ dotted (name_of path) ++ key
name_of-last [] [] = refl
name_of-last [] (c ∷ key) = refl
name_of-last ([] ∷ ws) key = name_of-last ws key
name_of-last ((c ∷ w) ∷ ws) key =
    joined_words-last (c ∷ w) ws key ∙ sym (dotted-ne _ key (joined_words-filled c w ws))

-- How a call ends, without the text of its error.
pub data End : Type 0 where
  all_set stopped_at_error stopped_by_panic : End

abbrev pub end_of : SetJson → End
end_of done = all_set
end_of (failed err) = stopped_at_error
end_of set_panicked = stopped_by_panic

-- What follows after all was set.
abbrev after : {C : Type 0} → End × C → (C → End × C) → End × C
after (all_set, c) rest = rest c
after (stopped_at_error, c) rest = (stopped_at_error, c)
after (stopped_by_panic, c) rest = (stopped_by_panic, c)

module _ {C : Type 0} where
  after_assoc :
      (x : End × C) (f g : C → End × C) → after (after x f) g ≡ after x (λ c. after (f c) g)
  after_assoc (all_set, c) f g = refl
  after_assoc (stopped_at_error, c) f g = refl
  after_assoc (stopped_by_panic, c) f g = refl

  after_pointwise :
      (x : End × C) (f g : C → End × C) → ((c : C) → f c ≡ g c) → after x f ≡ after x g
  after_pointwise (all_set, c) f g h = h c
  after_pointwise (stopped_at_error, c) f g h = refl
  after_pointwise (stopped_by_panic, c) f g h = refl

  abbrev pub ended : SetJson × C → End × C
  ended (r, c) = (end_of r, c)

  ended-then_set :
      (x : SetJson × C) (f : C → SetJson × C)
      → ended (then_set x f) ≡ after (ended x) (λ c. ended (f c))
  ended-then_set (done, c) f = refl
  ended-then_set (failed err, c) f = refl
  ended-then_set (set_panicked, c) f = refl

  ended-with_context :
      (name : Bytes) (x : SetJson × C) → ended (with_context name x.0, x.1) ≡ ended x
  ended-with_context name (done, c) = refl
  ended-with_context name (failed err, c) = refl
  ended-with_context name (set_panicked, c) = refl

module _ (go : Go) {C : Type 0} (ctrl : IController C) where
  -- What a value is set to: a text as it is, all else as JSON, and null not at all.
  abbrev pub value_text : Any → Option Bytes
  value_text (scalar s) = if str_eq s (codes "null") then none else some s
  value_text (text s) = some s
  value_text (array xs) = some (encoded_or go ctrl (array xs) (go.marshal (array xs)))
  value_text (object m) = none

  abbrev end_of_set : Option Bytes × C → End × C
  end_of_set (none, c) = (all_set, c)
  end_of_set (some err, c) = (stopped_at_error, c)

  -- The controller's SetVar; a value without a text is a panic.
  abbrev pub set_one : Bytes → Option Bytes → C → End × C
  set_one name none c = (stopped_by_panic, c)
  set_one name (some s) c = end_of_set (ctrl.set_var name s c)

  -- One leaf after the other, up to the first that is not set.
  unfoldable pub set_leaves : List (List Bytes × Any) → C → End × C
  set_leaves [] c = (all_set, c)
  set_leaves ((path, v) ∷ rest) c =
      after (set_one (name_of path) (value_text v) c) (set_leaves rest)

  ended-set_text :
      (name s : Bytes) (c : C) → ended (set_text go ctrl name s c) ≡ set_one name (some s) c
  ended-set_text name s c = split_set (ctrl.set_var name s c)
    where
      split_set : (x : Option Bytes × C) → ended (set_result name x.0, x.1) ≡ end_of_set x
      split_set (none, d) = refl
      split_set (some err, d) = refl

  ended-set_scalar :
      (name s : Bytes) (c : C)
      → ended (set_scalar go ctrl name s c) ≡ set_one name (value_text (scalar s)) c
  unfolding set_scalar
  ended-set_scalar name s c = elim (Bool-cases (str_eq s (codes "null"))) [
    | inl e ↦ rw e refl
    | inr e ↦ rw e (ended-set_text name s c)
  ]

  set_leaves-append :
      (xs ys : List (List Bytes × Any)) (c : C)
      → set_leaves (xs ++ ys) c ≡ after (set_leaves xs c) (set_leaves ys)
  unfolding set_leaves
  set_leaves-append [] ys c = refl
  set_leaves-append (x ∷ xs) ys c =
      after_pointwise (set_one (name_of x.0) (value_text x.1) c) _ _ (set_leaves-append xs ys)
      ∙ sym (after_assoc (set_one (name_of x.0) (value_text x.1) c) (set_leaves xs) (set_leaves ys))

  after_set :
      (path : List Bytes) (key : Bytes) (v : Option Bytes) (x : SetJson × C) (c : C)
      (more : C → SetJson × C) (rest : C → End × C)
      → ended x ≡ set_one (dotted (name_of path) ++ key) v c
      → ((d : C) → ended (more d) ≡ rest d)
      → ended (then_set x more) ≡ after (set_one (name_of (path ++ key ∷ [])) v c) rest
  after_set path key v x c more rest e h =
      ended-then_set x more
      ∙ ap (λ y. after y (λ d. ended (more d)))
          (e ∙ ap (λ name. set_one name v c) (sym (name_of-last path key)))
      ∙ after_pointwise _ _ _ h

  -- setJson, under the name that some words make: it sets the leaves of the object by SetVar, each under
  -- its words with dots between them, empty words in front left out, in the order in which the
  -- ranges meet them, up to the first that is refused or panics. A text is set as it is, all else as
  -- JSON, and null is a panic.
  pub set_json-set_leaves :
      (obj : Fields) (path : List Bytes) (c : C)
      → ended (set_json go ctrl (name_of path) obj c) ≡ set_leaves (leaves path obj) c
  unfolding set_json leaves set_leaves
  set_json-set_leaves no_fields path c = refl
  set_json-set_leaves (field key (object t) obj) path c =
      let name = dotted (name_of path) ++ key in
      ended-then_set _ (set_json go ctrl (name_of path) obj)
      ∙ ap (λ x. after x (λ d. ended (set_json go ctrl (name_of path) obj d)))
          (ended-with_context name (set_json go ctrl name t c)
            ∙ ap (λ n. ended (set_json go ctrl n t c)) (sym (name_of-last path key))
            ∙ set_json-set_leaves t (path ++ key ∷ []) c)
      ∙ after_pointwise (set_leaves (leaves (path ++ key ∷ []) t) c) _ _
          (set_json-set_leaves obj path)
      ∙ sym (set_leaves-append (leaves (path ++ key ∷ []) t) (leaves path obj) c)
  set_json-set_leaves (field key (scalar s) obj) path c =
      after_set path key (value_text (scalar s)) _ c (set_json go ctrl (name_of path) obj) _
        (ended-set_scalar (dotted (name_of path) ++ key) s c) (set_json-set_leaves obj path)
  set_json-set_leaves (field key (text s) obj) path c =
      after_set path key (some s) _ c (set_json go ctrl (name_of path) obj) _
        (ended-set_text (dotted (name_of path) ++ key) s c) (set_json-set_leaves obj path)
  set_json-set_leaves (field key (array xs) obj) path c =
      after_set path key (value_text (array xs)) _ c (set_json go ctrl (name_of path) obj) _
        (ended-set_text (dotted (name_of path) ++ key) _ c) (set_json-set_leaves obj path)
