-- ===== src/Controller/Names/Below.antt =====
-- controller.go, resolveWildCardsgetAllChildNames: it lists the names below a name, and no others.
use vss.Prelude.{
  ℕ, zero, suc, Bytes, List, [], ◌∷◌, ◌++◌, ◌≡◌, refl, sym, Bool, Option, none, some, inl, inr,
  subst, false, true, ◌||◌, not, ◌==◌, arith, Bool-cases,
}
use mathlib.Core.List.Memᴰ
use mathlib.Core.List.{Memᴰ}
use mathlib.Core.List.Memᴰ.{head, tail}
use vss.Storage.Interface.{IStorage}
use vss.Controller.Reading.{full_name}
use vss.Controller.VarHelper.{set_controlled_var_name}
use vss.Controller.VarFlags.{shown_childs, get_child_names}
use vss.Controller.Names.{both, in_front, each_child, all_child_names, childs_of}

some_list : {xs ys : List Bytes} → some xs ≡ some ys → xs ≡ ys
some_list h = cc

both-eq-some :
    (o p : Option (List Bytes)) (l : List Bytes)
    → both o p ≡ some l
    → (xs : List Bytes) × (ys : List Bytes) × (o ≡ some xs) × (p ≡ some ys) × (xs ++ ys ≡ l)
both-eq-some none p l h = cc
both-eq-some (some xs) none l h = cc
both-eq-some (some xs) (some ys) l h = (xs, ys, refl, refl, cc)

in_front-eq-some :
    (x : Bytes) (o : Option (List Bytes)) (l : List Bytes)
    → in_front x o ≡ some l
    → (xs : List Bytes) × (o ≡ some xs) × (x ∷ xs ≡ l)
in_front-eq-some x none l h = cc
in_front-eq-some x (some xs) l h = (xs, refl, cc)

-- Without raw access, a name that starts with an underscore is the program's own.
pub is_visible : Bool → Bytes → Bool
is_visible raw [] = false
is_visible raw (c ∷ ch) = raw || not (c == b'_')

shown_visible :
    (raw : Bool) (c : ℕ) (ch : Bytes) (rest : List Bytes)
    → is_visible raw (c ∷ ch) ≡ true
    → shown_childs raw ((c ∷ ch) ∷ rest) ≡ (c ∷ ch) ∷ shown_childs raw rest
unfolding shown_childs is_visible
shown_visible true c ch rest v = refl
shown_visible false c ch rest v = ground arith

shown_hidden :
    (raw : Bool) (c : ℕ) (ch : Bytes) (rest : List Bytes)
    → is_visible raw (c ∷ ch) ≡ false
    → shown_childs raw ((c ∷ ch) ∷ rest) ≡ shown_childs raw rest
unfolding shown_childs is_visible
shown_hidden true c ch rest v = cc
shown_hidden false c ch rest v = ground arith

shown_nil : (raw : Bool) (rest : List Bytes) → shown_childs raw ([] ∷ rest) ≡ shown_childs raw rest
unfolding shown_childs
shown_nil raw rest = refl

shown_childs-Mem :
    (raw : Bool) (ch : Bytes) (chs : List Bytes)
    → Memᴰ ch chs
    → is_visible raw ch ≡ true
    → Memᴰ ch (shown_childs raw chs)
shown_childs-Mem raw ch [] m v = absurd (Memᴰ.not-nil m)
shown_childs-Mem raw ch ([] ∷ rest) m v = elim (Memᴰ.cases_cons m) [
  | inl e ↦ let q : false ≡ true = unfold is_visible in rw e at v in cc
  | inr d ↦ rw (shown_nil raw rest) (shown_childs-Mem raw ch rest d v)
]
shown_childs-Mem raw ch ((c ∷ k) ∷ rest) m v = elim (Bool-cases (is_visible raw (c ∷ k))) [
  | inl w ↦ rw (shown_visible raw c k rest w) (elim (Memᴰ.cases_cons m) [
    | inl e ↦ head e
    | inr d ↦ tail (shown_childs-Mem raw ch rest d v)
  ])
  | inr w ↦ rw (shown_hidden raw c k rest w) (elim (Memᴰ.cases_cons m) [
    | inl e ↦ let q : is_visible raw (c ∷ k) ≡ true = rw e at v in cc
    | inr d ↦ shown_childs-Mem raw ch rest d v
  ])
]

Mem-shown_childs :
    (raw : Bool) (ch : Bytes) (chs : List Bytes)
    → Memᴰ ch (shown_childs raw chs)
    → Memᴰ ch chs × (is_visible raw ch ≡ true)
Mem-shown_childs raw ch [] m = unfold shown_childs in absurd (Memᴰ.not-nil m)
Mem-shown_childs raw ch ([] ∷ rest) m =
    let (d, v) = Mem-shown_childs raw ch rest (subst (λ l. Memᴰ ch l) (shown_nil raw rest) m) in
    (tail d, v)
Mem-shown_childs raw ch ((c ∷ k) ∷ rest) m = elim (Bool-cases (is_visible raw (c ∷ k))) [
  | inl w ↦ elim (Memᴰ.cases_cons (subst (λ l. Memᴰ ch l) (shown_visible raw c k rest w) m)) [
    | inl e ↦ (head e, rw e w)
    | inr d ↦ let (d', v) = Mem-shown_childs raw ch rest d in (tail d', v)
  ]
  | inr w ↦
      let (d, v) =
        Mem-shown_childs raw ch rest (subst (λ l. Memᴰ ch l) (shown_hidden raw c k rest w) m) in
      (tail d, v)
]

module _ {S : Type 0} (db : IStorage S) (raw : Bool) (s : S) where
  -- The names of the storage's nodes one step below a name's node that a client may see.
  pub record IsChild (parent ch : Bytes) : Type 0 where
    pub stored : Memᴰ ch (db.get_child_names (set_controlled_var_name raw parent) s)
    pub visible : is_visible raw ch ≡ true

  -- A name lies below its parent and below whatever the parent lies below.
  pub data IsBelow : Bytes → Bytes → Type 0 where
    child_of : (parent ch : Bytes) → IsChild parent ch → IsBelow parent (full_name parent ch)
    deeper_than :
        (parent ch name : Bytes)
        → IsChild parent ch
        → IsBelow (full_name parent ch) name
        → IsBelow parent name

  childs_of-IsChild : (parent ch : Bytes) → Memᴰ ch (childs_of db raw parent s) → IsChild parent ch
  unfolding get_child_names
  childs_of-IsChild parent ch m =
      let (d, v) = Mem-shown_childs raw ch _ m in record { stored = d; visible = v }

  IsChild-childs_of : (parent ch : Bytes) → IsChild parent ch → Memᴰ ch (childs_of db raw parent s)
  unfolding get_child_names
  IsChild-childs_of parent ch h = shown_childs-Mem raw ch _ h.stored h.visible

  each_child-IsBelow :
      (deeper : Bytes → Option (List Bytes)) (parent name : Bytes) (chs l : List Bytes)
      → each_child db raw deeper parent chs ≡ some l
      → ((ch : Bytes) → Memᴰ ch chs → IsChild parent ch)
      → ((full : Bytes) (xs : List Bytes)
          → deeper full ≡ some xs
          → Memᴰ name xs
          → IsBelow full name)
      → Memᴰ name l
      → IsBelow parent name
  unfolding each_child
  each_child-IsBelow deeper parent name [] l e f h m =
      let q : [] ≡ l = some_list e in absurd (Memᴰ.not-nil (subst (λ k. Memᴰ name k) (sym q) m))
  each_child-IsBelow deeper parent name (ch ∷ chs) l e f h m =
      let (xs, ys, p, q, r) = both-eq-some _ _ l e in
      let (zs, t, u) = in_front-eq-some (full_name parent ch) _ xs p in
      elim (Memᴰ.append_cases xs (subst (λ k. Memᴰ name k) (sym r) m)) [
        | inl d ↦ elim (Memᴰ.cases_cons (subst (λ k. Memᴰ name k) (sym u) d)) [
          | inl g ↦ subst (λ n. IsBelow parent n) (sym g) (child_of parent ch (f ch (head refl)))
          | inr g ↦ deeper_than parent ch name (f ch (head refl)) (h (full_name parent ch) zs t g)
        ]
        | inr d ↦ each_child-IsBelow deeper parent name chs ys q (λ k g. f k (tail g)) h d
      ]

  -- What is listed lies below.
  pub all_child_names-IsBelow :
      (depth : ℕ) (parent name : Bytes) (l : List Bytes)
      → all_child_names db raw depth parent s ≡ some l
      → Memᴰ name l
      → IsBelow parent name
  unfolding all_child_names
  all_child_names-IsBelow zero parent name l e m = cc
  all_child_names-IsBelow (suc depth) parent name l e m =
      each_child-IsBelow _ parent name (childs_of db raw parent s) l e (childs_of-IsChild parent)
        (λ full xs f g. all_child_names-IsBelow depth full name xs f g) m

  -- Each child is listed, and so is what the recursive call for it lists.
  each_child-Mem :
      (deeper : Bytes → Option (List Bytes)) (parent ch : Bytes) (chs l : List Bytes)
      → each_child db raw deeper parent chs ≡ some l
      → Memᴰ ch chs
      → (zs : List Bytes) × (deeper (full_name parent ch) ≡ some zs)
        × ((n : Bytes) → Memᴰ n (full_name parent ch ∷ zs) → Memᴰ n l)
  unfolding each_child
  each_child-Mem deeper parent ch [] l e m = absurd (Memᴰ.not-nil m)
  each_child-Mem deeper parent ch (k ∷ chs) l e m =
      let (xs, ys, p, q, r) = both-eq-some _ _ l e in
      let (zs, t, u) = in_front-eq-some (full_name parent k) _ xs p in
      let later = each_child-Mem deeper parent ch chs ys q in
      elim (Memᴰ.cases_cons m) [
        | inl g ↦ (
          zs,
          rw g t,
          λ n d.
              subst (λ v. Memᴰ n v) r
                (Memᴰ.append_left ys
                  (subst (λ v. Memᴰ n v) u (subst (λ v. Memᴰ n (full_name parent v ∷ zs)) g d))),
        )
        | inr g ↦
            let (zs', t', f) = later g in
            (zs', t', λ n d. subst (λ v. Memᴰ n v) r (Memᴰ.append_right xs (f n d)))
      ]

  -- What lies below is listed.
  pub all_child_names-Mem :
      (depth : ℕ) (parent name : Bytes) (l : List Bytes)
      → all_child_names db raw depth parent s ≡ some l
      → IsBelow parent name
      → Memᴰ name l
  unfolding all_child_names
  all_child_names-Mem zero parent name l e b = cc
  all_child_names-Mem (suc depth) _ _ l e (child_of parent ch m) =
      let (zs, t, f) =
        each_child-Mem _ parent ch (childs_of db raw parent s) l e
          (IsChild-childs_of parent ch m) in
      f (full_name parent ch) (head refl)
  all_child_names-Mem (suc depth) _ _ l e (deeper_than parent ch name m b) =
      let (zs, t, f) =
        each_child-Mem _ parent ch (childs_of db raw parent s) l e
          (IsChild-childs_of parent ch m) in
      f name (tail (all_child_names-Mem depth (full_name parent ch) name zs t b))
