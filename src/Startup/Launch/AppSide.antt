-- ===== src/Startup/Launch/AppSide.antt =====
-- The steps of the app of src/startup.rs, against what is in the channels.
use profiler_rs.Ipc.{Ipc, Poll, arrived, not_yet, broken, IsDocumented}
use profiler_rs.Prelude.{
  ◌≡◌, ◌≢◌, refl, [], ◌∷◌, ◌++◌, Bool, true, false, Option, none, some, String, ◌⊎◌, inl, inr, ap,
  sym, ◌∙◌, if◌then◌else◌, subst,
}
use profiler_rs.Startup.{profiler_service_flag, spawn_args}
use profiler_rs.Startup.Launch.{
  ToProfilerService, hello, Os, opening, connecting, introducing, listening, greeted,
  service_panicked, App, starting, spawning, accepting, greeting, waiting, finished, app_panicked,
  Process, service_process, app_process, start, launch, served, serve, accepted, has_exited,
  after_wait, app_step, spawned,
}
use profiler_rs.Startup.Launch.ServiceSide.{
  Early, accepts, gave_up, Alone, serves, failed, Listening, introduced, found, sent_hello, left,
  waits, done, lost, HasSpawned, still_accepting, still_greeting, still_waiting, has_finished,
  has_panicked, Fits, Early-HasSpawned, Listening-HasSpawned, Greeted-HasSpawned,
}
use profiler_rs.Startup.Modes.{spawn_args-token}

module _ (I : Ipc ToProfilerService) (d : IsDocumented I) where
  open I use {World, Server, Bootstrap, Sender, Receiver}

  served-Alone :
      (path : String) (w w' : World) (o : Option (Server × String))
      → path ≢ profiler_service_flag
      → I.new_server w ≡ (o, w')
      → Alone I d (served I path o) w'
  unfolding served
  served-Alone path w w' none other call = failed
  served-Alone path w w' (some (s, token)) other call =
      let (named, empty) = d.new_server-some w w' s token call in serves other empty named

  serve-Alone :
      (exe : Option String) (w : World)
      → ((path : String) → exe ≡ some path → path ≢ profiler_service_flag)
      → Alone I d (serve I exe w).0 (serve I exe w).1
  unfolding serve
  serve-Alone none w other = failed
  serve-Alone (some path) w other =
      served-Alone path w (I.new_server w).1 (I.new_server w).0 (other path refl) refl

  -- The child runs as the service, with its token among its arguments.
  launch-spawn_args :
      (path token : String)
      → path ≢ profiler_service_flag
      → launch I (spawn_args path token) ≡ service_process (opening (spawn_args path token))
  unfolding launch start
  launch-spawn_args path token other =
      ap (λ m. start I m (spawn_args path token)) (spawn_args-token path token other).0

  spawned-Fits :
      (path token : String) (s : Server) (w : World) (spawns : Bool)
      → Alone I d (spawning path s token) w
      → Fits I d
          (if spawns then accepting s else app_panicked)
          (if spawns then some (launch I (spawn_args path token)) else none)
          w
  spawned-Fits path token s w false p = failed
  spawned-Fits path token s w true (serves other empty named) =
      subst (λ c. Fits I d (accepting s) (some c) w) (sym (launch-spawn_args path token other))
        (accepts (empty, (spawn_args-token path token other).1 ∙ ap some (sym named)))

  -- The app waits for the service's sender.
  accepted-Early :
      (s : Server) (P : Server → Type 0) (w w' : World) (p : Poll Sender)
      → I.accept s w ≡ (p, w')
      → d.offered s w ≡ []
      → (d.offered s w' ≡ [] → P s)
      → Early I d P (accepted I s p)
  unfolding accepted
  accepted-Early s P w w' (arrived x) call empty keeps = cc (d.accept-arrived s w w' x call)
  accepted-Early s P w w' not_yet call empty keeps =
      accepts (keeps (d.accept-not_yet s w w' call).1)
  accepted-Early s P w w' broken call empty keeps = gave_up

  accepted-Listening :
      (s : Server) (rx : Receiver) (w w' : World) (p : Poll Sender)
      → I.accept s w ≡ (p, w')
      → Listening I d rx w (accepting s)
      → Listening I d rx w' (accepted I s p)
  unfolding accepted
  accepted-Listening s rx w w' (arrived x') call (introduced x at ends empty) =
      let first = d.accept-arrived s w w' x' call in
      let same : x ≡ x' = cc in
      found (ap d.receiver_of (sym same) ∙ ends)
        (d.accept_quiet s w w' (arrived x') call rx ∙ empty)
  accepted-Listening s rx w w' not_yet call (introduced x at ends empty) =
      let nothing = (d.accept-not_yet s w w' call).0 in cc
  accepted-Listening s rx w w' broken call (introduced x at ends empty) =
      left (inl (d.accept_quiet s w w' broken call rx ∙ empty))

  accepted-HasSpawned : (s : Server) (p : Poll Sender) → HasSpawned I d (accepted I s p)
  unfolding accepted
  accepted-HasSpawned s (arrived x) = still_greeting
  accepted-HasSpawned s not_yet = still_accepting
  accepted-HasSpawned s broken = has_panicked

  accepted-Fits :
      (s : Server) (c : Option (Process I)) (w w' : World) (p : Poll Sender)
      → I.accept s w ≡ (p, w')
      → Fits I d (accepting s) c w
      → Fits I d (accepted I s p) c w'
  accepted-Fits s none w w' p call h = elim h [ ]
  accepted-Fits s (some (service_process (greeted _))) w w' p call h = elim h [ ]
  accepted-Fits s (some (app_process _)) w w' p call h = elim h [ ]
  accepted-Fits s (some (service_process (opening args))) w w' p call (accepts (empty, given)) =
      accepted-Early s _ w w' p call empty (λ none_in. (none_in, given))
  accepted-Fits s (some (service_process (connecting args tx rx))) w w' p call
        ((ends, quiet), accepts (empty, given)) =
      (
        (ends, d.accept_quiet s w w' p call rx ∙ quiet),
        accepted-Early s _ w w' p call empty (λ none_in. (none_in, given)),
      )
  accepted-Fits s (some (service_process (introducing tx rx b))) w w' p call
        ((ends, quiet), accepts (empty, is)) =
      (
        (ends, d.accept_quiet s w w' p call rx ∙ quiet),
        accepted-Early s _ w w' p call empty (λ none_in. (none_in, is)),
      )
  accepted-Fits s (some (service_process (listening rx))) w w' p call l =
      accepted-Listening s rx w w' p call l
  accepted-Fits s (some (service_process service_panicked)) w w' p call h = accepted-HasSpawned s p

  -- The app sends its hello.
  sent-Fits :
      (x : Sender) (c : Option (Process I)) (w w' : World) (sent : Bool)
      → I.send x (hello 7) w ≡ (sent, w')
      → Fits I d (greeting x) c w
      → Fits I d (if sent then waiting else app_panicked) c w'
  sent-Fits x none w w' sent call h = elim h [ ]
  sent-Fits x (some (service_process (opening _))) w w' sent call h = elim h [ ]
  sent-Fits x (some (app_process _)) w w' sent call h = elim h [ ]
  sent-Fits x (some (service_process (connecting _ _ _))) w w' sent call h = elim h.1 [ ]
  sent-Fits x (some (service_process (introducing _ _ _))) w w' sent call h = elim h.1 [ ]
  sent-Fits x (some (service_process (greeted _))) w w' sent call h = elim h [ ]
  sent-Fits x (some (service_process (listening rx))) w w' true call (found ends empty) =
      sent_hello (
        subst (λ r. d.queued r w' ≡ d.queued r w ++ hello 7 ∷ []) ends
          (d.send-queued x (hello 7) w w' call)
        ∙ ap (λ l. l ++ hello 7 ∷ []) empty)
  sent-Fits x (some (service_process (listening rx))) w w' false call (found ends empty) =
      left (inl (d.send-failed x (hello 7) w w' call rx ∙ empty))
  sent-Fits x (some (service_process service_panicked)) w w' true call h = still_waiting
  sent-Fits x (some (service_process service_panicked)) w w' false call h = has_panicked

  -- The app waits for the child to exit.
  waited-Fits :
      (c : Option (Process I)) (w : World) (ends : Bool)
      → Fits I d waiting c w
      → Fits I d (after_wait I (has_exited I c) ends) c w
  unfolding after_wait has_exited
  waited-Fits none w ends h = elim h [ ]
  waited-Fits (some (service_process (opening _))) w ends h = elim h [ ]
  waited-Fits (some (app_process _)) w ends h = elim h [ ]
  waited-Fits (some (service_process (connecting _ _ _))) w ends h = elim h.1 [ ]
  waited-Fits (some (service_process (introducing _ _ _))) w ends h = elim h.1 [ ]
  waited-Fits (some (service_process (listening rx))) w ends (sent_hello full) = sent_hello full
  waited-Fits (some (service_process (greeted m))) w true (waits e) = done e
  waited-Fits (some (service_process (greeted m))) w false (waits e) = lost e
  waited-Fits (some (service_process service_panicked)) w true h = has_finished
  waited-Fits (some (service_process service_panicked)) w false h = has_panicked

  pub child_cases :
      (a : App I) (c : Option (Process I)) (w : World)
      → Fits I d a c w
      → (c ≡ none) ⊎ HasSpawned I d a
  child_cases a none w h = inl refl
  child_cases a (some (service_process (opening _))) w h = inr (Early-HasSpawned I d h)
  child_cases a (some (service_process (connecting _ _ _))) w h = inr (Early-HasSpawned I d h.1)
  child_cases a (some (service_process (introducing _ _ _))) w h = inr (Early-HasSpawned I d h.1)
  child_cases a (some (service_process (listening _))) w h = inr (Listening-HasSpawned I d h)
  child_cases a (some (service_process (greeted _))) w h = inr (Greeted-HasSpawned I d h)
  child_cases a (some (service_process service_panicked)) w h = inr h
  child_cases a (some (app_process _)) w h = elim h [ ]

  pub app_step-Fits :
      (os : Os) (a : App I) (c : Option (Process I)) (w : World)
      → ((path : String) → os.current_exe ≡ some path → path ≢ profiler_service_flag)
      → Fits I d a c w
      → let r = app_step I os c a w in Fits I d r.0 (spawned I os a c) r.1
  unfolding app_step spawned
  app_step-Fits os starting c w other h = elim (child_cases starting c w h) [
    | inl e ↦
        let r = serve I os.current_exe w in
        subst (λ x. Fits I d r.0 x r.1) (sym e) (serve-Alone os.current_exe w other)
    | inr p ↦ elim p [ ]
  ]
  app_step-Fits os (spawning path s token) c w other h =
      elim (child_cases (spawning path s token) c w h) [
        | inl e ↦
            subst
              (λ x.
                Fits I d (if os.spawns then accepting s else app_panicked)
                  (if os.spawns then some (launch I (spawn_args path token)) else x) w)
              (sym e)
              (spawned-Fits path token s w os.spawns
                (subst (λ x. Fits I d (spawning path s token) x w) e h))
        | inr p ↦ elim p [ ]
      ]
  app_step-Fits os (accepting s) c w other h =
      accepted-Fits s c w (I.accept s w).1 (I.accept s w).0 refl h
  app_step-Fits os (greeting x) c w other h =
      sent-Fits x c w (I.send x (hello 7) w).1 (I.send x (hello 7) w).0 refl h
  app_step-Fits os waiting c w other h = waited-Fits c w os.waits h
  app_step-Fits os finished c w other h = h
  app_step-Fits os app_panicked c w other h = h
