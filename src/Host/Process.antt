-- ===== src/Host/Process.antt =====
-- crates/agentmesh-host/src/process.rs: the checks of the plugin's path and its command, on Unix.
pub mod Env
use agentmesh_private.Common.{
  Text, bytes, Bool, true, false, not, Option, none, some, List, [], ◌∷◌, ◌++◌, if◌then◌else◌,
}
use agentmesh_private.Common.Map.{Map, insert}
use agentmesh_private.Common.Results.{Result, ok, err}

-- `Path::is_absolute`, `std::fs::metadata` with `is_file`, and `std::env::var`.
pub record System : Type 0 where
  pub is_absolute : Text → Bool
  pub metadata : Text → Option Bool
  pub var : Text → Option Text

pub data PluginPathError : Type 0 where
  not_absolute not_found not_file : PluginPathError

abbrev pub file_only : Option Bool → Text → Result PluginPathError Text
file_only none path = err not_found
file_only (some false) path = err not_file
file_only (some true) path = ok path

-- `PluginPath::resolve`; a `PluginPath` is its path.
unfoldable pub resolve : System → Text → Result PluginPathError Text
resolve system path =
    if not (system.is_absolute path)
    then err not_absolute
    else file_only (system.metadata path) path

-- What `Command` is told: the program, the environment, and whether a dropped child is killed. The
-- three standard streams are pipes.
pub record Command : Type 0 where
  pub program : Text
  pub env : Map Text
  pub kill_on_drop : Bool

-- `if let Ok(val) = std::env::var(key) { cmd.env(key, val); }`.
abbrev pub set_var : Text → Option Text → Map Text → Map Text
set_var key none env = env
set_var key (some val) env = insert key val env

unfoldable pub restore : System → List Text → Map Text → Map Text
restore system [] env = env
restore system (key ∷ keys) env = restore system keys (set_var key (system.var key) env)

abbrev pub baseline : List Text
baseline = bytes "PATH" ∷ bytes "HOME" ∷ bytes "LANG" ∷ bytes "LC_ALL" ∷ bytes "TZ" ∷ []

-- `build_plugin_command`; `SpawnError` is its text.
unfoldable pub build_plugin_command : System → Text → List Text → Result Text Command
build_plugin_command system plugin allowlisted_env_keys = ok (record {
  program = plugin;
  env = restore system allowlisted_env_keys (restore system baseline []);
  kill_on_drop = true;
})
