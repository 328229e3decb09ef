-- ===== src/Startup.antt =====
-- The choice of the mode in src/startup.rs. The arguments that `env::args()` yields are an argument
-- here; `launch_app` gives a child the arguments `spawn_args`.
mod Launch
mod Modes
pub mod Tests
use text.Mathlib.Text.{◌==◌ as str_eq}
use profiler_rs.Prelude.{
  List, [], ◌∷◌, Bool, true, false, Option, none, some, String, ◌||◌, if◌then◌else◌,
}

pub data StartupMode : Type 0 where
  profiler_service app : StartupMode

abbrev pub profiler_service_flag : String
profiler_service_flag = "--profiler-service"

-- The loop of `get_token_from_args`, with `is_token_string`.
pub token_loop : Bool → List String → Option String
token_loop is_token_string [] = none
token_loop true (argument ∷ rest) = some argument
token_loop false (argument ∷ rest) = token_loop (str_eq argument profiler_service_flag) rest

pub get_token_from_args : List String → Option String
unfolding token_loop
get_token_from_args args = token_loop false args

pub deduce_startup_mode : List String → StartupMode
deduce_startup_mode [] = app
deduce_startup_mode (argument ∷ rest) =
    if str_eq argument profiler_service_flag then profiler_service else deduce_startup_mode rest

-- `Command::new(path).arg("--profiler-service").arg(token)`: the arguments of the child, its path
-- first.
pub spawn_args : (path token : String) → List String
spawn_args path token = path ∷ profiler_service_flag ∷ token ∷ []
