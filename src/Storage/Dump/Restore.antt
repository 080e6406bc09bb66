-- ===== src/Storage/Dump/Restore.antt =====
-- The lines of a dump, loaded one after the other.
use vss.Prelude.{
  ℕ, Bytes, List, [], ◌∷◌, ◌++◌, append_assoc, ◌≡◌, refl, sym, ap, ◌∙◌, true, false, ◌||◌, is_nil,
  if◌then◌else◌, arith, Bool-cases, inl, inr,
}
use vss.Text.{
  contains, split, split-append, split_lacking, cut_at_first, is_space, is_nil-trim_space,
}
use vss.Storage.Tree.{RamNode, ram_node, Childs, no_childs, child}
use vss.Storage.Keys.{key_path, key_path_step, key_path_parts}
use vss.Storage.Scroll.{scroll_edit-edit_at}
use vss.Storage.Values.{path_eq, value_at-assign}
use vss.Storage.Db.{fuel}
use vss.Storage.Tree.{changed}
use vss.Storage.Dump.{prefix_of, line_of, dump_childs, fill, fill_key, load_line, load_lines}
use vss.Storage.Dump.Good.{IsName, IsLine, IsGood}
use vss.Storage.Dump.Change.{text_at, change, own_text, change_child, change_none}

contains-append : (b : ℕ) (s t : Bytes) → contains (s ++ t) b ≡ (contains s b || contains t b)
unfolding contains
contains-append b [] t = refl
contains-append b (c ∷ s) t = rw (contains-append b s t) (ground arith)

-- A prefix of the lines' names, and the path that it is for.
pub record IsPrefixOf (prefix : Bytes) (pre : List Bytes) : Type 0 where
  pub no_equals : contains prefix b'=' ≡ false
  pub no_end : contains prefix b'\n' ≡ false
  pub parts : (s : Bytes) → contains s b'.' ≡ false → split b'.' (prefix ++ s) ≡ pre ++ s ∷ []

own : Bytes → Bytes → RamNode → RamNode
own key v m = if is_nil v then m else fill_key key v m

-- The tree after the lines for the childs.
pub restore : Bytes → Childs → RamNode → RamNode
unfolding own
restore prefix no_childs m = m
restore prefix (child k (ram_node t v ds) cs) m =
    restore prefix cs (restore (prefix_of (prefix ++ k)) ds (own (prefix ++ k) v m))

load_line_own :
    (name v : Bytes) (m : RamNode)
    → contains name b'=' ≡ false
    → load_line (name ++ b'=' ∷ v) m ≡ fill_key name v m
unfolding load_line
load_line_own name v m h =
    rw
      (
        is_nil-trim_space b'=' (name ++ b'=' ∷ v) (unfold is_space in refl) holds,
        cut_at_first b'=' name v h,
      )
      refl
  where
    holds : contains (name ++ b'=' ∷ v) b'=' ≡ true
    holds = rw (contains-append b'=' name (b'=' ∷ v)) (unfold contains in ground arith)

load_lines_behind :
    (line rest : Bytes) (m : RamNode)
    → contains line b'\n' ≡ false
    → load_lines (split b'\n' (line ++ b'\n' ∷ rest)) m
      ≡ load_lines (split b'\n' rest) (load_line line m)
load_lines_behind line rest m h =
    rw (split-append b'\n' line rest, split_lacking b'\n' line h) (unfold load_lines in refl)

-- One line in front of others.
load_lines-line_of :
    (name v rest : Bytes) (m : RamNode)
    → contains name b'=' ≡ false
    → contains name b'\n' ≡ false
    → IsLine v
    → load_lines (split b'\n' (line_of name v ++ rest)) m
      ≡ load_lines (split b'\n' rest) (own name v m)
unfolding own
load_lines-line_of name v rest m h k l = elim (Bool-cases (is_nil v)) [
  | inl e ↦ rw e refl
  | inr e ↦
      rw (e, line_shape)
        (load_lines_behind (name ++ b'=' ∷ v) rest m (whole k)
          ∙ ap (λ n. load_lines (split b'\n' rest) n) (load_line_own name v m h))
]
  where
    line_shape : (name ++ b'=' ∷ (v ++ b'\n' ∷ [])) ++ rest ≡ (name ++ b'=' ∷ v) ++ b'\n' ∷ rest
    line_shape =
        rw
          (
            append_assoc name (b'=' ∷ (v ++ b'\n' ∷ [])) rest,
            append_assoc v (b'\n' ∷ []) rest,
            append_assoc name (b'=' ∷ v) (b'\n' ∷ rest),
          )
          refl

    whole : contains name b'\n' ≡ false → contains (name ++ b'=' ∷ v) b'\n' ≡ false
    whole k = rw (contains-append b'\n' name (b'=' ∷ v), k) (unfold contains in rw l refl)

prefix_of_name : (s : Bytes) → is_nil s ≡ false → prefix_of s ≡ s ++ b'.' ∷ []
prefix_of_name [] h = cc
prefix_of_name (c ∷ s) h = refl

is_nil_behind : (s k : Bytes) → is_nil k ≡ false → is_nil (s ++ k) ≡ false
is_nil_behind [] k h = h
is_nil_behind (c ∷ s) k h = refl

-- The prefix of a child's own childs.
child-IsPrefixOf :
    (prefix k : Bytes) (pre : List Bytes)
    → IsPrefixOf prefix pre
    → IsName k
    → IsPrefixOf (prefix_of (prefix ++ k)) (pre ++ k ∷ [])
child-IsPrefixOf prefix k pre p (n, d, e, l) =
    rw (prefix_of_name (prefix ++ k) (is_nil_behind prefix k n)) (record {
      no_equals = lacks b'=' p.no_equals e (unfold contains in refl);
      no_end = lacks b'\n' p.no_end l (unfold contains in refl);
      parts = λ s h.
          rw
            (
              append_assoc (prefix ++ k) (b'.' ∷ []) s,
              split-append b'.' (prefix ++ k) s,
              p.parts k d,
              split_lacking b'.' s h,
            )
            refl;
    })
  where
    lacks :
        (b : ℕ)
        → contains prefix b ≡ false
        → contains k b ≡ false
        → contains (b'.' ∷ []) b ≡ false
        → contains ((prefix ++ k) ++ b'.' ∷ []) b ≡ false
    lacks b x y z =
        rw (contains-append b (prefix ++ k) (b'.' ∷ []), contains-append b prefix k, x, y) z

-- The lines of the childs, in front of others.
pub load_lines-dump_childs :
    (prefix : Bytes) (pre : List Bytes) (cs : Childs) (rest : Bytes) (m : RamNode)
    → IsPrefixOf prefix pre
    → IsGood cs
    → load_lines (split b'\n' (dump_childs prefix cs ++ rest)) m
      ≡ load_lines (split b'\n' rest) (restore prefix cs m)
unfolding dump_childs restore IsGood
load_lines-dump_childs prefix pre no_childs rest m p g = refl
load_lines-dump_childs prefix pre (child k (ram_node t v ds) cs) rest m p (n, l, a, d, g) =
    rw
      (
        append_assoc (line_of (prefix ++ k) v)
            (dump_childs (prefix_of (prefix ++ k)) ds ++ dump_childs prefix cs) rest,
        append_assoc (dump_childs (prefix_of (prefix ++ k)) ds) (dump_childs prefix cs) rest,
      )
      (load_lines-line_of (prefix ++ k) v _ m (lacks b'=' p.no_equals n.2)
          (lacks b'\n' p.no_end n.3) l
        ∙ load_lines-dump_childs (prefix_of (prefix ++ k)) (pre ++ k ∷ []) ds _
            (own (prefix ++ k) v m) (child-IsPrefixOf prefix k pre p n) d
        ∙ load_lines-dump_childs prefix pre cs rest _ p g)
  where
    lacks :
        (b : ℕ)
        → contains prefix b ≡ false
        → contains k b ≡ false
        → contains (prefix ++ k) b ≡ false
    lacks b x y = rw (contains-append b prefix k, x) y

text_at-fill_key :
    (q : List Bytes) (key v : Bytes) (m : RamNode)
    → text_at q (fill_key key v m) ≡ (if path_eq q (key_path key) then v else text_at q m)
unfolding text_at
text_at-fill_key q key v m =
    rw
      (
        scroll_edit-edit_at (fuel key) key false (fill v) m (omega arith),
        key_path_step key,
        value_at-assign changed,
      )
      (ground arith)

text_at-own :
    (q pre : List Bytes) (prefix k v : Bytes) (m : RamNode)
    → IsPrefixOf prefix pre
    → IsName k
    → text_at q (own (prefix ++ k) v m) ≡ own_text (pre ++ k ∷ []) v q (text_at q m)
unfolding own
text_at-own q pre prefix [] v m p n = cc
text_at-own q pre prefix (c ∷ k) v m p n = elim (Bool-cases (is_nil v)) [
  | inl e ↦ rw e refl
  | inr e ↦
      rw
        (
          e,
          text_at-fill_key q (prefix ++ c ∷ k) v m,
          key_path_parts (prefix ++ c ∷ k) pre c k (p.parts (c ∷ k) n.1),
        )
        refl
]

-- The text at each path after the lines are loaded.
pub text_at-restore :
    (prefix : Bytes) (pre : List Bytes) (cs : Childs) (q : List Bytes) (m : RamNode)
    → IsPrefixOf prefix pre
    → IsGood cs
    → text_at q (restore prefix cs m) ≡ change pre cs q (text_at q m)
unfolding restore IsGood
text_at-restore prefix pre no_childs q m p g = sym (change_none pre q _)
text_at-restore prefix pre (child k (ram_node t v ds) cs) q m p (n, l, a, d, g) =
    text_at-restore prefix pre cs q _ p g
    ∙ ap (λ old. change pre cs q old)
        (text_at-restore (prefix_of (prefix ++ k)) (pre ++ k ∷ []) ds q _
            (child-IsPrefixOf prefix k pre p n) d
          ∙ ap (λ old. change (pre ++ k ∷ []) ds q old) (text_at-own q pre prefix k v m p n))
    ∙ change_child pre k t v ds cs q (text_at q m) a
