-- ===== src/Tests/Confs.antt =====
-- The configuration of sources/misc/confs at concrete inputs.
use vss.Prelude.{
  Bytes, codes, List, [], ◌∷◌, ◌≡◌, refl, Option, none, some, All, str_eq, if◌then◌else◌, is_nil,
}
use vss.Prelude.Dict.{find, store}
use vss.Text.{cut, has_prefix, trim_space, trim_left, trim_right, is_space}
use vss.Confs.{
  Source, Item, ConfItem, ConfOption, with_possible_names, with_default_value, with_validation,
  new_conf_item, apply_options, apply_option, replace_all,
}
use vss.Confs.Sources.{
  command_line_source, env_source, file_source, find_in, find_env, read_args, read_lines, read_line,
  new_file_source, underscored, to_upper,
}

abbrev getenv : Bytes → Bytes
getenv name = if str_eq name (codes "VSS_MAX_KEY_LENGTH") then codes "99" else []

abbrev not_empty : Item → Option Bytes
not_empty i = if is_nil i.the_value then some (codes "empty") else none

abbrev options : List ConfOption
options =
    with_possible_names (codes "max-key-length" ∷ codes "VSS_MAX_KEY_LENGTH" ∷ [])
    ∷ with_default_value (codes "255")
    ∷ with_validation not_empty
    ∷ []

abbrev before : List Source
before = command_line_source (codes "db-driver=ramcacheddb" ∷ []) ∷ []

abbrev behind : List Source
behind = file_source (some (codes "max-key-length = 7" ∷ [])) ∷ []

command_line_lacks :
    All
      (λ s. s.find_value (new_conf_item (codes "maxKeyLength") options).item.possible_names ≡ none)
      before
unfolding new_conf_item apply_options apply_option find_in read_args cut find store underscored
    str_eq
command_line_lacks = (refl, tt)

env_has :
    (env_source getenv).find_value
      (new_conf_item (codes "maxKeyLength") options).item.possible_names
    ≡ some (codes "99", codes "VSS_MAX_KEY_LENGTH")
unfolding new_conf_item apply_options apply_option find_env underscored to_upper str_eq
env_has = refl

no_item : ◌≡◌ {A = Option ConfItem} (find str_eq (codes "maxKeyLength") []) none
unfolding find
no_item = refl

file_line :
    new_file_source (some (codes "# a comment" ∷ codes " max-key-length = 7 " ∷ []))
    ≡ (codes "max-key-length", codes "7") ∷ []
unfolding new_file_source read_lines read_line cut store trim_space trim_left trim_right is_space
    has_prefix
file_line = refl

place_holder : replace_all 0 (codes "%D%") (codes "/var") (codes "%D%/db") ≡ codes "/var/db"
unfolding replace_all has_prefix
place_holder = refl
