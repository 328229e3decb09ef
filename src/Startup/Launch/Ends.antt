-- ===== src/Startup/Launch/Ends.antt =====
-- Where the two processes of src/startup.rs stand when they have come as far as they can.
use profiler_rs.Ipc.{Ipc, IsDocumented, NeverFails}
use profiler_rs.Prelude.{
  ℕ, ◌+◌, ◌≤◌, ◌<◌, arith, ◌≡◌, ◌≢◌, refl, List, Option, none, some, String, ◌⊎◌, inl, inr, ap, ◌∙◌,
  subst,
}
use profiler_rs.Startup.{StartupMode, profiler_service, app, deduce_startup_mode, spawn_args}
use profiler_rs.Startup.Launch.{
  ToProfilerService, hello, opening, connecting, introducing, listening, greeted, service_panicked,
  App, starting, spawning, accepting, greeting, waiting, finished, app_panicked, Process,
  service_process, app_process, start, launch, spawned, System,
}
use profiler_rs.Startup.Launch.ServiceSide.{Fits}
use profiler_rs.Startup.Launch.Handshake.{SystemFits, Greeted-hello}
use profiler_rs.Startup.Launch.AppSide.{child_cases}
use profiler_rs.Startup.Launch.Gains.{working_os, app_rank, child_rank}

module _ (I : Ipc ToProfilerService) (d : IsDocumented I) (n : NeverFails I d) where
  open I use {World, Server, Bootstrap, Sender, Receiver}

  -- The invariant, when no process has panicked.
  abbrev pub IsSound : System I → Type 0
  IsSound s =
      SystemFits I d s
      × (s.app ≢ app_panicked)
      × (s.child ≢ some (service_process service_panicked))

  abbrev pub rank : System I → ℕ
  rank s = app_rank I s.app + child_rank I s.child

  abbrev pub AllDone : System I → Type 0
  AllDone s = (s.app ≡ finished) × (s.child ≡ some (service_process (greeted (hello 7))))

  app_top : (a : App I) → (app_rank I a < 5) ⊎ (a ≡ finished)
  app_top starting = inl (omega arith)
  app_top (spawning _ _ _) = inl (omega arith)
  app_top (accepting _) = inl (omega arith)
  app_top (greeting _) = inl (omega arith)
  app_top waiting = inl (omega arith)
  app_top app_panicked = inl (omega arith)
  app_top finished = inr refl

  app_rank_le : (a : App I) → app_rank I a ≤ 5
  app_rank_le a = elim (app_top a) [
    | inl h ↦ omega arith
    | inr e ↦ omega (arith, ap (app_rank I) e)
  ]

  child_top :
      (c : Option (Process I))
      → (child_rank I c < 4) ⊎ ((m : ToProfilerService) × (c ≡ some (service_process (greeted m))))
  child_top none = inl (omega arith)
  child_top (some (app_process _)) = inl (omega arith)
  child_top (some (service_process (opening _))) = inl (omega arith)
  child_top (some (service_process (connecting _ _ _))) = inl (omega arith)
  child_top (some (service_process (introducing _ _ _))) = inl (omega arith)
  child_top (some (service_process (listening _))) = inl (omega arith)
  child_top (some (service_process service_panicked)) = inl (omega arith)
  child_top (some (service_process (greeted m))) = inr (m, refl)

  child_rank_le : (c : Option (Process I)) → child_rank I c ≤ 4
  child_rank_le c = elim (child_top c) [
    | inl h ↦ omega arith
    | inr (m, e) ↦ omega (arith, ap (child_rank I) e)
  ]

  -- Both processes stand at their end.
  pub rank-AllDone : (s : System I) → SystemFits I d s → 9 ≤ rank s → AllDone s
  rank-AllDone s h r = elim (app_top s.app) [
    | inl low ↦ absurd (omega (arith, child_rank_le s.child))
    | inr ends ↦ elim (child_top s.child) [
      | inl low ↦ absurd (omega (arith, app_rank_le s.app))
      | inr (m, e) ↦
          let is = Greeted-hello I d (subst (λ c. Fits I d s.app c s.world) e h) in
          (ends, e ∙ ap (λ x. some (service_process (greeted x))) is)
    ]
  ]

  pub finished_child :
      (c : Option (Process I)) (w : World)
      → Fits I d finished c w
      → c ≢ some (service_process service_panicked)
      → 4 ≤ child_rank I c
  finished_child none w h fine = elim h [ ]
  finished_child (some (app_process _)) w h fine = elim h [ ]
  finished_child (some (service_process (opening _))) w h fine = elim h [ ]
  finished_child (some (service_process (connecting _ _ _))) w h fine = elim h.1 [ ]
  finished_child (some (service_process (introducing _ _ _))) w h fine = elim h.1 [ ]
  finished_child (some (service_process (listening _))) w h fine = elim h [ ]
  finished_child (some (service_process (greeted m))) w h fine = omega arith
  finished_child (some (service_process service_panicked)) w h fine = absurd (fine refl)

  start_fine :
      (m : StartupMode) (args : List String)
      → some (start I m args) ≢ some (service_process service_panicked)
  unfolding start
  start_fine profiler_service args e = cc
  start_fine app args e = cc

  -- A spawn takes no child away.
  abbrev pub Keeps : Option (Process I) → Option (Process I) → Type 0
  Keeps c c' = (c' ≢ some (service_process service_panicked)) × (child_rank I c ≤ child_rank I c')

  pub spawned-Keeps :
      (path : String) (a : App I) (c : Option (Process I)) (w : World)
      → Fits I d a c w
      → c ≢ some (service_process service_panicked)
      → Keeps c (spawned I (working_os path) a c)
  unfolding spawned launch
  spawned-Keeps path (spawning exe s token) c w h fine =
      elim (child_cases I d (spawning exe s token) c w h) [
        | inl e ↦ (
          start_fine (deduce_startup_mode (spawn_args exe token)) (spawn_args exe token),
          omega (arith, ap (child_rank I) e),
        )
        | inr p ↦ elim p [ ]
      ]
  spawned-Keeps path starting c w h fine = (fine, omega arith)
  spawned-Keeps path (accepting _) c w h fine = (fine, omega arith)
  spawned-Keeps path (greeting _) c w h fine = (fine, omega arith)
  spawned-Keeps path waiting c w h fine = (fine, omega arith)
  spawned-Keeps path finished c w h fine = (fine, omega arith)
  spawned-Keeps path app_panicked c w h fine = (fine, omega arith)
