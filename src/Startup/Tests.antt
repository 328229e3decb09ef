-- ===== src/Startup/Tests.antt =====
-- The theorems on src/startup.rs at concrete arguments.
use profiler_rs.Prelude.{◌≡◌, ◌≢◌, some, true, false, [], ◌∷◌, sym}
use text.Mathlib.TextEquality.{eq_iff}
use profiler_rs.Startup.{
  profiler_service, profiler_service_flag, deduce_startup_mode, get_token_from_args,
}
use profiler_rs.Startup.Modes.{startup_cases}

pub no_flag : "/usr/bin/profiler" ≢ profiler_service_flag
no_flag e =
    let same : true ≡ false = sym ((eq_iff "/usr/bin/profiler" profiler_service_flag).1 e) in cc

startup_cases_example :
    (deduce_startup_mode ("/usr/bin/profiler" ∷ profiler_service_flag ∷ "token" ∷ [])
      ≡ profiler_service)
    × (get_token_from_args ("/usr/bin/profiler" ∷ profiler_service_flag ∷ "token" ∷ [])
        ≡ some "token")
startup_cases_example = (startup_cases ("/usr/bin/profiler" ∷ []) (no_flag, tt)).2 "token" []
