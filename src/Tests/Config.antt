-- ===== src/Tests/Config.antt =====
-- The configuration on a concrete machine.
use counterpoint.Prelude.Trim.{trim_space}
use counterpoint.Prelude.{
  refl, false, ◌-◌, Option, take, length, ◌≡◌, ◌↔◌, ◌⊎◌, true, [], ◌∷◌, none, some, ok,
}
use counterpoint.Prelude.Text.{eq_text, Bytes, codes}
use counterpoint.Config.{
  absolute, effort_accepted, lookup, text, effort_of, contains_text, parse, regular, read, path_of,
  Machine, Config, Fields, object, present, load,
}
use counterpoint.Config.Loaded.{IsDefault, IsConfigured, load_iff}

-- The text between two quotes.
unquoted : Bytes → Option Bytes
unquoted [] = none
unquoted (_ ∷ s) = some (take (length s - 1) s)

-- A file that sets the effort and the state file.
abbrev machine : Machine
machine = record {
  env_path = codes "/c";
  user_config_dir = none;
  is_abs = λ _. true;
  join = λ _. [];
  stat = λ _. present (record { is_dir = false; is_regular = true; size = 4 });
  open_file = λ _. present (record {
    info = some (record { is_dir = false; is_regular = true; size = 4 });
    content = some (codes "file");
  });
  document = λ _.
      object ((codes "review_effort", codes "\"low\"") ∷ (codes "state_file", codes "\"/s\"") ∷ []);
  at_end = λ _. true;
  string_of = λ raw. unquoted raw;
}

abbrev config : Config
config = record {
  review_effort = codes "low";
  state_file = codes "/s";
  checkout_dir = [];
  path = codes "/c";
}

config_loaded : load machine ≡ ok config
unfolding load path_of read regular parse contains_text eq_text effort_of text lookup trim_space
    unquoted effort_accepted absolute
config_loaded = refl

load_iff_example : (load machine ≡ ok config) ↔ (
    ((path : Bytes) × IsDefault machine config path)
    ⊎ ((raw : Bytes) × (fields : Fields) × IsConfigured machine config raw fields))
load_iff_example = load_iff machine config
