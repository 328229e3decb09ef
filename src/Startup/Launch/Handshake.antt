-- ===== src/Startup/Launch/Handshake.antt =====
-- The handshake of src/startup.rs: what the service receives, and how the two processes end.
use profiler_rs.Ipc.{Ipc, IsDocumented}
use profiler_rs.Prelude.{◌≡◌, ◌≢◌, List, [], ◌∷◌, Option, none, some, String, subst}
use profiler_rs.Startup.{profiler_service_flag}
use profiler_rs.Startup.Launch.{
  ToProfilerService, hello, Os, opening, connecting, introducing, listening, greeted,
  service_panicked, App, finished, Process, service_process, app_process, child_step, System,
  initial, Mover, app_moves, child_moves, step, run,
}
use profiler_rs.Startup.Launch.ServiceSide.{
  Early, Alone, begins, Listening, Greeted, waits, done, lost, Fits, service_step-Fits,
}
use profiler_rs.Startup.Launch.AppSide.{app_step-Fits}

module _ (I : Ipc ToProfilerService) (d : IsDocumented I) where
  open I use {World, Server, Bootstrap, Sender, Receiver}

  child_step-Fits :
      (a : App I) (c : Option (Process I)) (w : World)
      → Fits I d a c w
      → Fits I d a (child_step I c w).0 (child_step I c w).1
  unfolding child_step
  child_step-Fits a none w h = h
  child_step-Fits a (some (app_process _)) w h = h
  child_step-Fits a (some (service_process s)) w h = service_step-Fits I d a s w h

  abbrev pub SystemFits : System I → Type 0
  SystemFits s = Fits I d s.app s.child s.world

  module _ (os : Os)
      (other : (path : String) → os.current_exe ≡ some path → path ≢ profiler_service_flag) where
    pub step-Fits : (s : System I) (m : Mover) → SystemFits s → SystemFits (step I os s m)
    unfolding step
    step-Fits s app_moves h = app_step-Fits I d os s.app s.child s.world other h
    step-Fits s child_moves h = child_step-Fits s.app s.child s.world h

    pub run-Fits : (s : System I) (ms : List Mover) → SystemFits s → SystemFits (run I os s ms)
    unfolding run
    run-Fits s [] h = h
    run-Fits s (m ∷ ms) h = run-Fits (step I os s m) ms (step-Fits s m h)

  pub initial-Fits : (w : World) → SystemFits (initial I w)
  unfolding initial
  initial-Fits w = begins

  -- Where the service stands with its hello when the app is here.
  abbrev pub IsSafe : App I → Option (Process I) → Type 0
  IsSafe a none = a ≢ finished
  IsSafe a (some (app_process _)) = ⊥
  IsSafe a (some (service_process (opening _))) = a ≢ finished
  IsSafe a (some (service_process (connecting _ _ _))) = a ≢ finished
  IsSafe a (some (service_process (introducing _ _ _))) = a ≢ finished
  IsSafe a (some (service_process (listening _))) = a ≢ finished
  IsSafe a (some (service_process (greeted m))) = m ≡ hello 7
  IsSafe a (some (service_process service_panicked)) = Unit

  pub Greeted-hello : {m : ToProfilerService} {a : App I} → Greeted I d m a → m ≡ hello 7
  Greeted-hello (waits e) = e
  Greeted-hello (done e) = e
  Greeted-hello (lost e) = e

  Early-finished : {P : Server → Type 0} {a : App I} → Early I d P a → a ≢ finished
  Early-finished p e = elim (subst (Early I d _) e p) [ ]

  Fits-IsSafe : (a : App I) (c : Option (Process I)) (w : World) → Fits I d a c w → IsSafe a c
  Fits-IsSafe a none w h = λ e. elim (subst (λ x. Alone I d x w) e h) [ ]
  Fits-IsSafe a (some (service_process (opening _))) w h = Early-finished h
  Fits-IsSafe a (some (service_process (connecting _ _ _))) w h = Early-finished h.1
  Fits-IsSafe a (some (service_process (introducing _ _ _))) w h = Early-finished h.1
  Fits-IsSafe a (some (service_process (listening rx))) w h =
      λ e. elim (subst (Listening I d rx w) e h) [ ]
  Fits-IsSafe a (some (service_process (greeted m))) w h = Greeted-hello h
  Fits-IsSafe a (some (service_process service_panicked)) w h = tt
  Fits-IsSafe a (some (app_process _)) w h = elim h [ ]

  -- When the channels between processes behave as documented and the path of the executable is not
  -- the flag, then in every interleaving of the app with its child, whichever calls fail: the child
  -- is a profiler service; all that it ever receives is the hello with 7; and when the app has
  -- finished, the service has received it or has panicked.
  pub run-IsSafe :
      (os : Os) (w : World) (ms : List Mover)
      → ((path : String) → os.current_exe ≡ some path → path ≢ profiler_service_flag)
      → let s = run I os (initial I w) ms in IsSafe s.app s.child
  run-IsSafe os w ms other =
      let s = run I os (initial I w) ms in
      Fits-IsSafe s.app s.child s.world (run-Fits os other (initial I w) ms (initial-Fits w))
