-- ===== src/Http/Nested/Reads.antt =====
-- httpapi.go, `insertNested`: the tree as a map from paths to values.
use vss.Prelude.{
  Bytes, List, [], ◌∷◌, ◌≡◌, refl, sym, false, Option, none, some, str_eq, str_eq_sym,
  if◌then◌else◌, is_nil, All, Bool-cases, inl, inr, ◌∙◌, eq_of_str_eq,
}
use vss.Storage.Values.{path_eq}
use vss.Http.Nested.{
  Any, scalar, text, array, object, Fields, no_fields, get_field, put_field, get_field-put_field,
  value_word, with_value, map_of, insert_nested,
}

-- The value of a node is its own, or stands in its map under `_value`.
abbrev pub own_value : Option Any → Option Any
own_value none = none
own_value (some (object m)) = get_field value_word m
own_value (some (scalar s)) = some (scalar s)
own_value (some (text s)) = some (text s)
own_value (some (array xs)) = some (array xs)

-- The value at the end of a path.
unfoldable pub read : List Bytes → Fields → Option Any
read [] node = none
read (last ∷ []) node = own_value (get_field last node)
read (key ∷ q ∷ parts) node = read (q ∷ parts) (map_of (get_field key node))

-- A word of a name: not empty, and not the one that stands for the value.
abbrev pub IsWord : Bytes → Type 0
IsWord w = (is_nil w ≡ false) × (str_eq value_word w ≡ false)

-- A value that is no map.
abbrev pub IsLeaf : Any → Type 0
IsLeaf (object m) = ⊥
IsLeaf (scalar s) = Unit
IsLeaf (text s) = Unit
IsLeaf (array xs) = Unit

own_value-with_value :
    (v : Any) (o : Option Any) → IsLeaf v → own_value (some (with_value v o)) ≡ some v
unfolding str_eq
own_value-with_value (object m) o h = absurd h
own_value-with_value (scalar s) none h = refl
own_value-with_value (scalar s) (some (object m)) h = rw get_field-put_field (refl)
own_value-with_value (scalar s) (some (scalar t)) h = refl
own_value-with_value (scalar s) (some (text t)) h = refl
own_value-with_value (scalar s) (some (array ys)) h = refl
own_value-with_value (text s) none h = refl
own_value-with_value (text s) (some (object m)) h = rw get_field-put_field (refl)
own_value-with_value (text s) (some (scalar t)) h = refl
own_value-with_value (text s) (some (text t)) h = refl
own_value-with_value (text s) (some (array ys)) h = refl
own_value-with_value (array xs) none h = refl
own_value-with_value (array xs) (some (object m)) h = rw get_field-put_field (refl)
own_value-with_value (array xs) (some (scalar t)) h = refl
own_value-with_value (array xs) (some (text t)) h = refl
own_value-with_value (array xs) (some (array ys)) h = refl

-- A word does not see what stands under `_value`.
read-value_word :
    (w : Bytes) (r : List Bytes) (v : Any) (m : Fields)
    → str_eq value_word w ≡ false
    → read (w ∷ r) (put_field value_word v m) ≡ read (w ∷ r) m
unfolding read
read-value_word w [] v m h = rw (get_field-put_field value_word w v m, h) refl
read-value_word w (q ∷ r) v m h = rw (get_field-put_field value_word w v m, h) refl

own_value-map_of : (o : Option Any) → get_field value_word (map_of o) ≡ own_value o
unfolding get_field str_eq
own_value-map_of none = refl
own_value-map_of (some (object m)) = refl
own_value-map_of (some (scalar s)) = refl
own_value-map_of (some (text s)) = refl
own_value-map_of (some (array xs)) = refl

-- Below a value that is no map there is nothing.
leaf_reads :
    (w : Bytes) (r : List Bytes) (v : Any)
    → IsLeaf v
    → str_eq value_word w ≡ false
    → read (w ∷ r) (map_of (some v)) ≡ read (w ∷ r) no_fields
unfolding put_field
leaf_reads w r (object m) l h = absurd l
leaf_reads w r (scalar s) l h = read-value_word w r (scalar s) no_fields h
leaf_reads w r (text s) l h = read-value_word w r (text s) no_fields h
leaf_reads w r (array xs) l h = read-value_word w r (array xs) no_fields h

-- What is below a map stays below it.
read-map_of :
    (w : Bytes) (r : List Bytes) (v : Any) (o : Option Any)
    → IsLeaf v
    → str_eq value_word w ≡ false
    → read (w ∷ r) (map_of (some (with_value v o))) ≡ read (w ∷ r) (map_of o)
read-map_of w r v none l h = leaf_reads w r v l h
read-map_of w r v (some (object m)) l h = read-value_word w r v m h
read-map_of w r v (some (scalar s)) l h =
    leaf_reads w r v l h ∙ sym (leaf_reads w r (scalar s) tt h)
read-map_of w r v (some (text s)) l h = leaf_reads w r v l h ∙ sym (leaf_reads w r (text s) tt h)
read-map_of w r v (some (array xs)) l h =
    leaf_reads w r v l h ∙ sym (leaf_reads w r (array xs) tt h)

-- What stands under `_value` is left alone by a path of words.
value_word-insert_nested :
    (w : Bytes) (p : List Bytes) (v : Any) (fs : Fields)
    → IsWord w
    → get_field value_word (insert_nested (w ∷ p) v fs) ≡ get_field value_word fs
unfolding insert_nested
value_word-insert_nested w [] v fs (n, h) =
    rw (n, get_field-put_field w value_word, str_eq_sym w value_word, h) refl
value_word-insert_nested w (q ∷ p) v fs (n, h) =
    rw (n, get_field-put_field w value_word, str_eq_sym w value_word, h) refl

-- What a path reads when its first word is followed.
abbrev pub follow : List Bytes → Option Any → Option Any
follow [] o = own_value o
follow (w ∷ r) o = read (w ∷ r) (map_of o)

read-cons : (w : Bytes) (r : List Bytes) (fs : Fields) → read (w ∷ r) fs ≡ follow r (get_field w fs)
unfolding read
read-cons w [] fs = refl
read-cons w (q ∷ r) fs = refl

-- What stands at the first word of a path afterwards.
abbrev pub below : List Bytes → Any → Option Any → Any
below [] v o = with_value v o
below (w ∷ r) v o = object (insert_nested (w ∷ r) v (map_of o))

get_field-insert_nested :
    (w x : Bytes) (p : List Bytes) (v : Any) (fs : Fields)
    → is_nil w ≡ false
    → get_field x (insert_nested (w ∷ p) v fs)
      ≡ (if str_eq w x then some (below p v (get_field w fs)) else get_field x fs)
unfolding insert_nested
get_field-insert_nested w x [] v fs n = rw n (get_field-put_field w x _ fs)
get_field-insert_nested w x (q ∷ p) v fs n = rw n (get_field-put_field w x _ fs)

follow-below :
    (p q : List Bytes) (v : Any) (o : Option Any)
    → IsLeaf v
    → All IsWord p
    → All IsWord q
    → follow q (some (below p v o)) ≡ (if path_eq p q then some v else follow q o)
unfolding path_eq
follow-below [] [] v o l hp hq = own_value-with_value v o l
follow-below [] (y ∷ r) v o l hp (hy, hr) = read-map_of y r v o l (hy.1)
follow-below (a ∷ p) [] v o l (ha, hp) hq =
    value_word-insert_nested a p v (map_of o) ha ∙ own_value-map_of o
follow-below (a ∷ p) (y ∷ r) v o l (ha, hp) (hy, hr) =
    let here = get_field-insert_nested a y p v (map_of o) (ha.0) in
    let deeper = follow-below p r v (get_field a (map_of o)) l hp hr in
    rw (read-cons y r (insert_nested (a ∷ p) v (map_of o)), here, read-cons y r (map_of o))
      (elim (Bool-cases (str_eq a y)) [
        | inl e ↦ rw (e, deeper, eq_of_str_eq a y e) refl
        | inr e ↦ rw e refl
      ])

-- Inserting at a path of words sets what that path reads, and nothing else.
pub read-insert_nested :
    (p q : List Bytes) (v : Any) (fs : Fields) (w x : Bytes)
    → IsLeaf v
    → IsWord w
    → IsWord x
    → All IsWord p
    → All IsWord q
    → read (x ∷ q) (insert_nested (w ∷ p) v fs)
      ≡ (if path_eq (w ∷ p) (x ∷ q) then some v else read (x ∷ q) fs)
unfolding path_eq
read-insert_nested p q v fs w x l hw hx hp hq =
    let here = get_field-insert_nested w x p v fs (hw.0) in
    let deeper = follow-below p q v (get_field w fs) l hp hq in
    rw (read-cons x q (insert_nested (w ∷ p) v fs), here, read-cons x q fs)
      (elim (Bool-cases (str_eq w x)) [
        | inl e ↦ rw (e, deeper, eq_of_str_eq w x e) refl
        | inr e ↦ rw e refl
      ])
