-- ===== src/Http/Handlers/PostGet.antt =====
-- httpapi.go: a value that is posted is the one that is got.
use vss.Prelude.{
  ℕ, Bytes, codes, [], ◌∷◌, ◌++◌, ◌≡◌, refl, false, none, arith, str_eq, is_nil, if◌then◌else◌,
}
use vss.DynamicVar.{to_lower}
use vss.Text.{contains_text, has_prefix}
use vss.Vstp.Commands.{IController}
use vss.Http.Requests.{
  Go, Request, answer, no_content, trim_wildcard_base, has_suffix, below_base, plain_line,
  join_lines, var_name, exporter_of,
}
use vss.Http.Handlers.{handle_path, handle_get_by_name, handle_post_by_name}
use vss.Http.Exports.{plain_answer}

abbrev pub post : Bytes → Bytes → Request
post path body = record {
  method = codes "POST";
  path = path;
  query = λ key. [];
  header = λ key. [];
  body = body;
}

-- A GET whose header Accept is text/plain.
abbrev pub get_plain : Bytes → Request
get_plain path = record {
  method = codes "GET";
  path = path;
  query = λ key. [];
  header = λ key. if str_eq key (codes "Accept") then codes "text/plain" else [];
  body = [];
}

has_prefix_longer : (s : Bytes) (c : ℕ) → has_prefix s (s ++ c ∷ []) ≡ false
unfolding has_prefix
has_prefix_longer [] c = refl
has_prefix_longer (d ∷ s) c = ground (arith, has_prefix_longer s c)

own_line :
    (name val : Bytes)
    → has_suffix b'*' name ≡ false
    → plain_line false name (name, val) ≡ name ++ b'=' ∷ val
unfolding plain_line trim_wildcard_base below_base
own_line name val h = rw (h, has_prefix_longer name b'.') (ground arith)

-- When the controller takes a value and gives it back under its name alone, a POST of the value is
-- answered 204, and a GET of the same path as plain text then gives the line name=value. The name is not
-- empty and does not end with a star.
pub handle_path-post :
    (go : Go) {C : Type 0} (ctrl : IController C) (path val : Bytes) (c d : C)
    → is_nil (var_name path) ≡ false
    → has_suffix b'*' (var_name path) ≡ false
    → ctrl.set_var (var_name path) val c ≡ (none, d)
    → ctrl.get_vars (var_name path) d ≡ (none, (var_name path, val) ∷ [])
    → (handle_path go ctrl (post path val) c ≡ (no_content, d))
      × (handle_path go ctrl (get_plain path) d
          ≡ (answer 200 (codes "text/plain; charset=utf-8") (var_name path ++ b'=' ∷ val), d))
unfolding handle_path handle_post_by_name handle_get_by_name str_eq to_lower contains_text
    exporter_of plain_answer join_lines
handle_path-post go ctrl path val c d n w s g =
    (rw (n, s) refl, rw (n, g, own_line (var_name path) val w) refl)
