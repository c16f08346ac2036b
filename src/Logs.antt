-- ===== src/Logs.antt =====
-- controllers/utils/log.go: the settings of the logger, their validation, and the logger that is made of
-- them; and controllers/utils/env_cache.go, the cache of environment variables.
use Prim.Native.String.{◌++◌}
use altershield_operator.Base.{
  String, Bool, true, false, List, [], ◌∷◌, Option, none, some, if◌then◌else◌, ◌==◌, ◌⊎◌, inl, inr,
}
use altershield_operator.Base.Int.{ℤ, pos, ltb_ℤ}
use altershield_operator.Base.Labels.{lookup, insert}
use altershield_operator.Base.Text.{split, join}

pub data Level : Type 0 where
  info_level debug_level : Level

-- The variables of the package that the flags change.
pub record LogSettings : Type 0 where
  pub log_dir : String
  pub log_file : String
  pub log_level : String
  pub max_size : ℤ
  pub max_backups : ℤ
  pub max_age : ℤ

-- Their values after `init`, from the home directory of the current user, where there is one.
unfoldable pub initial_settings : Option String → LogSettings
initial_settings home = record {
  log_dir = elim home [ none ↦ "/tmp/logs/appname" | some dir ↦ dir ++ "/logs/appname" ];
  log_file = "altershield-operator.log";
  log_level = "info";
  max_size = pos 200;
  max_backups = pos 10;
  max_age = pos 7;
}

-- `userName` after `init`, from the name of the current user, where there is one: each backslash becomes
-- an underscore.
unfoldable pub user_name : Option String → String
unfolding split join
user_name none = "unknown-user"
user_name (some name) = join "_" (split "\\" "" name)

-- The value of a flag, by its type.
pub data FlagValue : Type 0 where
  text_flag : String → FlagValue
  number_flag : ℤ → FlagValue

-- The flags that `initFlags` registers, with their defaults. A flag that is parsed sets its variable, but
-- the program parses none.
unfoldable pub init_flags : LogSettings → List (String × FlagValue)
init_flags s =
    ("zap-log-dir", text_flag s.log_dir)
    ∷ ("zap-log-file", text_flag s.log_file)
    ∷ ("zap-log-level", text_flag s.log_level)
    ∷ ("zap-max-size", number_flag s.max_size)
    ∷ ("zap-max-backups", number_flag s.max_backups)
    ∷ ("zap-max-age", number_flag s.max_age)
    ∷ []

-- `levelMap`
abbrev pub level_map : List (String × Level)
level_map =
    ("info", info_level)
    ∷ ("INFO", info_level)
    ∷ ("debug", debug_level)
    ∷ ("DEBUG", debug_level)
    ∷ []

-- The errors of `validate`, each with the value that its message prints.
pub data Invalid : Type 0 where
  level_not_supported : String → Invalid
  max_size_negative max_backups_negative max_age_negative : ℤ → Invalid

-- `validate`
unfoldable pub validate : LogSettings → Option Invalid
unfolding lookup
validate s = elim (lookup s.log_level level_map) [
  | none ↦ some (level_not_supported s.log_level)
  | some level ↦
      if ltb_ℤ s.max_size (pos 0)
      then some (max_size_negative s.max_size)
      else if ltb_ℤ s.max_backups (pos 0)
      then some (max_backups_negative s.max_backups)
      else if ltb_ℤ s.max_age (pos 0)
      then some (max_age_negative s.max_age)
      else none
]

-- What the logger is made of: the file that is rotated, its bounds, the level, and whether the encoder
-- is the one for development.
pub record Logger : Type 0 where
  pub file_name : String
  pub max_size : ℤ
  pub max_backups : ℤ
  pub max_age : ℤ
  pub level : Option Level
  pub development : Bool

abbrev is_debug : Option Level → Bool
is_debug (some debug_level) = true
is_debug _ = false

-- `LogInit`, with `filepath.Join` given.
unfoldable pub log_init : (String → String → String) → LogSettings → Invalid ⊎ Logger
unfolding validate lookup
log_init join s = elim (validate s) [
  | some e ↦ inl e
  | none ↦ inr (record {
    file_name = join s.log_dir s.log_file;
    max_size = s.max_size;
    max_backups = s.max_backups;
    max_age = s.max_age;
    level = lookup s.log_level level_map;
    development = is_debug (lookup s.log_level level_map);
  })
]

-- `EnvCache.Get`, in an environment that gives each variable its value or the empty text: the value and
-- the cache after it.
unfoldable pub get_env :
    (String → String) → String → List (String × String) → String × List (String × String)
unfolding lookup insert
get_env environment key cache = elim (lookup key cache) [
  | some value ↦ (value, cache)
  | none ↦
      if environment key == ""
      then ("", cache)
      else (environment key, insert key (environment key) cache)
]
