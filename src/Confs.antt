-- ===== src/Confs.antt =====
-- misc/confs/confs.go: the configuration items, and how each gets its value from the sources.
-- A map is a list with one entry for each key; the validation of an item reads the item.
pub mod Sources
pub mod Valid
pub mod Resolve
use vss.Prelude.{
  ℕ, zero, suc, ◌+◌, ◌-◌, Bytes, codes, List, [], ◌∷◌, ◌++◌, Bool, true, false, ◌&&◌, ◌||◌, Option,
  none, some, str_eq, leb, if◌then◌else◌, length,
}
use vss.Prelude.Dict.{find, store}
use vss.Text.{has_prefix}

-- IConfsSource, in its state when the configuration is made.
pub record Source : Type 0 where
  pub find_value : List Bytes → Option (Bytes × Bytes)
  pub source_info : Bytes

-- ConfItem, but for its ValidateFunc.
pub record Item : Type 0 where
  pub name : Bytes
  pub possible_names : List Bytes
  pub default_value : Bytes
  pub the_value : Bytes
  pub value_map : List (Bytes × Bytes)
  pub used_name : Bytes
  pub info : Bytes

-- ValidateFunc gives none, or its error's text.
pub record ConfItem : Type 0 where
  pub item : Item
  pub validate : Item → Option Bytes

pub record Confs : Type 0 where
  pub items : List (Bytes × ConfItem)
  pub sources : List Source
  pub place_holders : List (Bytes × Bytes)

-- NewConfs
abbrev pub new_confs : List Source → Confs
new_confs sources = record { items = []; sources = sources; place_holders = [] }

-- strings.ToLower of an ASCII text.
unfoldable pub to_lower : Bytes → Bytes
to_lower [] = []
to_lower (c ∷ s) =
    let rest = to_lower s in if leb b'A' c && leb c b'Z' then (c + 32) ∷ rest else c ∷ rest

-- strings.ReplaceAll for a text `old` that is not empty; the first argument is how many bytes of one
-- found are still to be passed.
unfoldable pub replace_all : ℕ → Bytes → Bytes → Bytes → Bytes
replace_all skip old new [] = []
replace_all (suc skip) old new (c ∷ s) = replace_all skip old new s
replace_all zero old new (c ∷ s) =
    let found = replace_all (length old - 1) old new s in
    let rest = replace_all zero old new s in
    if has_prefix (c ∷ s) old then new ++ found else c ∷ rest

unfoldable pub apply_place_holders : List (Bytes × Bytes) → Bytes → Bytes
apply_place_holders [] value = value
apply_place_holders ((name, v) ∷ place_holders) value =
    apply_place_holders place_holders (replace_all zero name v value)

-- The options of an item: WithPossibleNames, WithDefaultValue, WithValueMap and WithValidationFunc.
pub data ConfOption : Type 0 where
  with_possible_names : List Bytes → ConfOption
  with_default_value : Bytes → ConfOption
  with_value_map : List (Bytes × Bytes) → ConfOption
  with_validation : (Item → Option Bytes) → ConfOption

-- AddValueMap
unfoldable pub add_value_map : List (Bytes × Bytes) → List (Bytes × Bytes) → List (Bytes × Bytes)
add_value_map [] m = m
add_value_map ((k, v) ∷ values) m = add_value_map values (store str_eq (to_lower k) v m)

unfoldable pub apply_option : ConfOption → ConfItem → ConfItem
apply_option (with_possible_names ns) c = record {
  item = record c.item { possible_names = ns };
  validate = c.validate;
}
apply_option (with_default_value v) c = record {
  item = record c.item { default_value = v };
  validate = c.validate;
}
apply_option (with_value_map m) c = record {
  item = record c.item { value_map = add_value_map m c.item.value_map };
  validate = c.validate;
}
apply_option (with_validation f) c = record { item = c.item; validate = f }

unfoldable pub apply_options : List ConfOption → ConfItem → ConfItem
apply_options [] c = c
apply_options (o ∷ options) c = apply_options options (apply_option o c)

-- NewConfItem
unfoldable pub new_conf_item : Bytes → List ConfOption → ConfItem
new_conf_item name options = apply_options options (record {
  item = record {
    name = name;
    possible_names = [];
    default_value = [];
    the_value = [];
    value_map = [];
    used_name = name ++ codes " (default value, no source)";
    info = codes "No source";
  };
  validate = λ i. none;
})

-- Value
abbrev mapped : Bytes → Option Bytes → Bytes
mapped the_value none = the_value
mapped the_value (some v) = v

unfoldable pub value : ConfItem → Bytes
value c = mapped c.item.the_value (find str_eq (to_lower c.item.the_value) c.item.value_map)

-- ValidateThisValue, which reads the item and not the value that it is given.
unfoldable pub validate_this_value : Bytes → ConfItem → Option Bytes
validate_this_value v c = c.validate c.item

abbrev with_value : Bytes → ConfItem → ConfItem
with_value v c = record { item = record c.item { the_value = v }; validate = c.validate }

abbrev changed_unless : Option Bytes → Bytes → ConfItem → Option Bytes × ConfItem
changed_unless (some err) v c = (some err, c)
changed_unless none v c = (none, with_value v c)

-- ChangeCurrentValue
unfoldable pub change_current_value : Bytes → Bool → ConfItem → Option Bytes × ConfItem
change_current_value v true c = changed_unless (validate_this_value v c) v c
change_current_value v false c = (none, with_value v c)

abbrev default_of : List (Bytes × Bytes) → ConfItem → ConfItem
default_of place_holders c = with_value (apply_place_holders place_holders c.item.default_value) c

abbrev value_of_source :
    List (Bytes × Bytes) → Source → Option (Bytes × Bytes) → ConfItem → ConfItem → ConfItem
value_of_source place_holders source none c rest = rest
value_of_source place_holders source (some (v, found_name)) c rest = record {
  item = record c.item {
    the_value = apply_place_holders place_holders v;
    used_name = found_name;
    info = source.source_info;
  };
  validate = c.validate;
}

-- The loop of CreateConfig over the sources, and the default value if none has one.
unfoldable pub from_sources : List Source → List (Bytes × Bytes) → ConfItem → ConfItem
from_sources [] place_holders c = default_of place_holders c
from_sources (source ∷ sources) place_holders c =
    value_of_source place_holders source (source.find_value c.item.possible_names) c
      (from_sources sources place_holders c)

abbrev pub unless_invalid : Option Bytes → List (Bytes × Bytes) → ConfItem → ConfItem
unless_invalid none place_holders c = c
unless_invalid (some err) place_holders c = default_of place_holders c

abbrev with_item : Bytes → ConfItem → Confs → Confs
with_item name c confs = record confs { items = store str_eq name c confs.items }

abbrev create_unless :
    Option ConfItem → Bytes → List ConfOption → Confs → ConfItem × Option Bytes × Confs
create_unless (some c) name options confs = (c, none, confs)
create_unless none name options confs =
    let c = from_sources confs.sources confs.place_holders (new_conf_item name options) in
    let error = validate_this_value c.item.the_value c in
    let final = unless_invalid error confs.place_holders c in
    (final, error, with_item name final confs)

-- CreateConfig
unfoldable pub create_config : Bytes → List ConfOption → Confs → ConfItem × Option Bytes × Confs
create_config name options confs = create_unless (find str_eq name confs.items) name options confs

-- AddNewSource
unfoldable pub add_new_source : Source → Confs → Confs
add_new_source source confs = record confs { sources = confs.sources ++ source ∷ [] }

unfoldable pub store_all : List (Bytes × Bytes) → List (Bytes × Bytes) → List (Bytes × Bytes)
store_all [] m = m
store_all ((k, v) ∷ values) m = store_all values (store str_eq k v m)

-- AddPlaceHolders
unfoldable pub add_place_holders : List (Bytes × Bytes) → Confs → Confs
add_place_holders values confs = record confs {
  place_holders = store_all values confs.place_holders;
}

-- slices.Contains
unfoldable pub contains_name : List Bytes → Bytes → Bool
contains_name [] name = false
contains_name (n ∷ possible_names) name = str_eq n name || contains_name possible_names name

unfoldable pub find_by_param : Bytes → List (Bytes × ConfItem) → Option ConfItem
find_by_param param [] = none
find_by_param param ((name, c) ∷ items) =
    if contains_name c.item.possible_names param then some c else find_by_param param items

-- FindConfByParamName
unfoldable pub find_conf_by_param_name : Bytes → Confs → Option ConfItem
find_conf_by_param_name param confs = find_by_param param confs.items
