-- ===== src/Startup/Modes.antt =====
-- The two readers of the arguments in src/startup.rs, against each other and against `launch_app`.
use text.Mathlib.Text.{◌==◌ as str_eq}
use text.Mathlib.TextEquality.{eq_iff}
use profiler_rs.Prelude.{
  List, [], ◌∷◌, ◌++◌, ◌≡◌, refl, ◌≢◌, false, none, some, String, arith, All, append-nil, sym, ap,
  ◌∙◌,
}
use profiler_rs.Startup.{
  profiler_service, app, profiler_service_flag, token_loop, get_token_from_args,
  deduce_startup_mode, spawn_args,
}

is_not : (a : String) → a ≢ profiler_service_flag → str_eq a profiler_service_flag ≡ false
is_not a h = ground (arith, eq_iff a profiler_service_flag)

skip_mode :
    (before rest : List String)
    → All (λ a. a ≢ profiler_service_flag) before
    → deduce_startup_mode (before ++ rest) ≡ deduce_startup_mode rest
unfolding deduce_startup_mode
skip_mode [] rest h = refl
skip_mode (a ∷ before) rest h = rw (is_not a h.0) (skip_mode before rest h.1)

skip_token :
    (before rest : List String)
    → All (λ a. a ≢ profiler_service_flag) before
    → token_loop false (before ++ rest) ≡ token_loop false rest
unfolding token_loop
skip_token [] rest h = refl
skip_token (a ∷ before) rest h = rw (is_not a h.0, token_loop) (skip_token before rest h.1)

-- Behind arguments that are not the flag, at the flag: the mode is the service, and the token is the
-- argument that follows, whatever it is, or none at the end. With no flag the mode is the app, and
-- there is no token.
pub startup_cases :
    (before : List String)
    → All (λ a. a ≢ profiler_service_flag) before
    → ((deduce_startup_mode before ≡ app) × (get_token_from_args before ≡ none))
      × ((deduce_startup_mode (before ++ profiler_service_flag ∷ []) ≡ profiler_service)
          × (get_token_from_args (before ++ profiler_service_flag ∷ []) ≡ none))
      × ((token : String) (rest : List String)
          → let args = before ++ profiler_service_flag ∷ token ∷ rest in
            (deduce_startup_mode args ≡ profiler_service) × (get_token_from_args args ≡ some token))
unfolding get_token_from_args deduce_startup_mode token_loop
startup_cases before h = (
  (
    ap deduce_startup_mode (sym (append-nil before)) ∙ skip_mode before [] h,
    ap (token_loop false) (sym (append-nil before)) ∙ skip_token before [] h,
  ),
  (skip_mode before _ h ∙ refl, skip_token before _ h ∙ refl),
  λ token rest. (skip_mode before _ h ∙ refl, skip_token before _ h ∙ refl),
)

-- A child that the app spawns runs as the profiler service and finds its token, unless the path of
-- the executable is the flag itself.
pub spawn_args-token :
    (path token : String)
    → path ≢ profiler_service_flag
    → (deduce_startup_mode (spawn_args path token) ≡ profiler_service)
      × (get_token_from_args (spawn_args path token) ≡ some token)
unfolding spawn_args
spawn_args-token path token h = (startup_cases (path ∷ []) (h, tt)).2 token []
