-- ===== src/Startup/Launch/Gains.antt =====
-- How far the two processes of src/startup.rs have come, and what brings each one forward when no call
-- fails.
use profiler_rs.Ipc.{Ipc, Poll, arrived, not_yet, broken, IsDocumented, NeverFails}
use profiler_rs.Prelude.{
  ℕ, suc, ◌≤◌, arith, ◌≡◌, ◌≢◌, refl, List, [], true, Option, none, some, String, ◌⊎◌, inl, inr, ap,
  sym, ◌∙◌, if◌then◌else◌, subst, eq_of_some,
}
use profiler_rs.Startup.{get_token_from_args}
use profiler_rs.Startup.Launch.{
  ToProfilerService, hello, Os, opening, connecting, introducing, listening, greeted,
  service_panicked, App, starting, spawning, accepting, greeting, waiting, finished, app_panicked,
  Process, service_process, app_process, opened, connected, connect_with, heard, service_step,
  served, serve, accepted, has_exited, after_wait, app_step, child_step,
}
use profiler_rs.Startup.Launch.ServiceSide.{
  Early, accepts, gave_up, Listening, introduced, found, sent_hello, left, NoneOffered, Fits,
}

-- The app finds its path, can spawn a process and wait for it.
abbrev pub working_os : String → Os
working_os path = record { current_exe = some path; spawns = true; waits = true }

module _ (I : Ipc ToProfilerService) where
  -- How far a process has come.
  abbrev pub app_rank : App I → ℕ
  app_rank starting = 0
  app_rank (spawning _ _ _) = 1
  app_rank (accepting _) = 2
  app_rank (greeting _) = 3
  app_rank waiting = 4
  app_rank finished = 5
  app_rank app_panicked = 0

  abbrev pub child_rank : Option (Process I) → ℕ
  child_rank none = 0
  child_rank (some (app_process _)) = 0
  child_rank (some (service_process (opening _))) = 0
  child_rank (some (service_process (connecting _ _ _))) = 1
  child_rank (some (service_process (introducing _ _ _))) = 2
  child_rank (some (service_process (listening _))) = 3
  child_rank (some (service_process (greeted _))) = 4
  child_rank (some (service_process service_panicked)) = 0

  -- A child that only a move of the app can bring forward.
  abbrev pub IsBlocked : App I → Option (Process I) → Type 0
  IsBlocked a none = Unit
  IsBlocked a (some (app_process _)) = ⊥
  IsBlocked a (some (service_process (opening _))) = ⊥
  IsBlocked a (some (service_process (connecting _ _ _))) = ⊥
  IsBlocked a (some (service_process (introducing _ _ _))) = ⊥
  IsBlocked a (some (service_process (listening _))) = a ≢ waiting
  IsBlocked a (some (service_process (greeted _))) = Unit
  IsBlocked a (some (service_process service_panicked)) = ⊥

  abbrev pub AppGain : App I → Option (Process I) → App I → Type 0
  AppGain a c a' =
      (a' ≢ app_panicked)
      × (app_rank a ≤ app_rank a')
      × (IsBlocked a c → (suc (app_rank a) ≤ app_rank a') ⊎ (a ≡ finished))

  abbrev pub ChildGain : App I → Option (Process I) → Option (Process I) → Type 0
  ChildGain a c c' =
      (c' ≢ some (service_process service_panicked))
      × (child_rank c ≤ child_rank c')
      × ((suc (child_rank c) ≤ child_rank c') ⊎ IsBlocked a c')

module _ (I : Ipc ToProfilerService) (d : IsDocumented I) (n : NeverFails I d) where
  open I use {World, Server, Bootstrap, Sender, Receiver}

  accepted-AppGain :
      (s : Server) (c : Option (Process I)) (w w' : World) (p : Poll Sender)
      → I.accept s w ≡ (p, w')
      → Fits I d (accepting s) c w
      → p ≢ broken
      → AppGain I (accepting s) c (accepted I s p)
  unfolding accepted
  accepted-AppGain s c w w' (arrived x) call h sound =
      (λ e. cc, omega arith, λ b. inl (omega arith))
  accepted-AppGain s c w w' broken call h sound = absurd (sound refl)
  accepted-AppGain s c w w' not_yet call h sound = (λ e. cc, omega arith, stuck c h)
    where
      stuck :
          (c : Option (Process I))
          → Fits I d (accepting s) c w
          → IsBlocked I (accepting s) c
          → (3 ≤ 2) ⊎ ◌≡◌ {A = App I} (accepting s) finished
      stuck (some (service_process (listening rx))) (introduced x at _ _) b =
          let nothing = (d.accept-not_yet s w w' call).0 in cc
      stuck none h b = elim h [ ]
      stuck (some (service_process (greeted _))) h b = elim h [ ]
      stuck (some (service_process (opening _))) h b = absurd b
      stuck (some (service_process (connecting _ _ _))) h b = absurd b
      stuck (some (service_process (introducing _ _ _))) h b = absurd b
      stuck (some (service_process service_panicked)) h b = absurd b
      stuck (some (app_process _)) h b = absurd b

  waited-AppGain :
      (c : Option (Process I)) (w : World)
      → Fits I d waiting c w
      → AppGain I waiting c (after_wait I (has_exited I c) true)
  unfolding after_wait has_exited
  waited-AppGain none w h = elim h [ ]
  waited-AppGain (some (app_process _)) w h = elim h [ ]
  waited-AppGain (some (service_process (opening _))) w h = elim h [ ]
  waited-AppGain (some (service_process (connecting _ _ _))) w h = elim h.1 [ ]
  waited-AppGain (some (service_process (introducing _ _ _))) w h = elim h.1 [ ]
  waited-AppGain (some (service_process (listening _))) w h =
      (λ e. cc, omega arith, λ b. absurd (b refl))
  waited-AppGain (some (service_process (greeted _))) w h =
      (λ e. cc, omega arith, λ b. inl (omega arith))
  waited-AppGain (some (service_process service_panicked)) w h =
      (λ e. cc, omega arith, λ b. absurd b)

  pub app_step-AppGain :
      (path : String) (a : App I) (c : Option (Process I)) (w : World)
      → Fits I d a c w
      → a ≢ app_panicked
      → AppGain I a c (app_step I (working_os path) c a w).0
  unfolding app_step serve served
  app_step-AppGain path starting c w h well =
      let (s, token, w', call) = n.serves w in
      subst (AppGain I starting c) (sym (ap (λ r. served I path r.0) call))
        (λ e. cc, omega arith, λ b. inl (omega arith))
  app_step-AppGain path (spawning _ s _) c w h well = (λ e. cc, omega arith, λ b. inl (omega arith))
  app_step-AppGain path (accepting s) c w h well =
      accepted-AppGain s c w (I.accept s w).1 (I.accept s w).0 refl h (n.accepts s w)
  app_step-AppGain path (greeting x) c w h well =
      let (w', call) = n.sends x (hello 7) w in
      subst (AppGain I (greeting x) c)
        (sym (ap (λ r. (if r.0 then waiting else app_panicked)) call))
        (λ e. cc, omega arith, λ b. inl (omega arith))
  app_step-AppGain path waiting c w h well = waited-AppGain c w h
  app_step-AppGain path finished c w h well = (λ e. cc, omega arith, λ b. inr refl)
  app_step-AppGain path app_panicked c w h well = absurd (well refl)

  connect_with-ChildGain :
      (a : App I) (args : List String) (tx : Sender) (rx : Receiver) (o : Option String) (w : World)
      → get_token_from_args args ≡ o
      → Early I d (NoneOffered I d w args) a
      → a ≢ app_panicked
      → ChildGain I a
          (some (service_process (connecting args tx rx)))
          (some (service_process (connect_with I tx rx o w).0))
  unfolding connect_with connected
  connect_with-ChildGain a args tx rx none w given gave_up well = absurd (well refl)
  connect_with-ChildGain a args tx rx none w given (accepts (_, found_token)) well = cc
  connect_with-ChildGain a args tx rx (some token) w given gave_up well = absurd (well refl)
  connect_with-ChildGain a args tx rx (some token) w given (accepts {s} (empty, named)) well =
      let (b, w', call) = n.connects s w empty in
      let is = eq_of_some (sym named ∙ given) in
      subst
        (λ r.
          ChildGain I a (some (service_process (connecting args tx rx))) (some (service_process r)))
        (sym (ap (λ r. connected I tx rx r.0) (ap (λ t. I.connect t w) (sym is) ∙ call)))
        (λ e. cc, omega arith, inl (omega arith))

  heard-ChildGain :
      (a : App I) (rx : Receiver) (w w' : World) (p : Poll ToProfilerService)
      → I.recv rx w ≡ (p, w')
      → Listening I d rx w a
      → p ≢ broken
      → ChildGain I a
          (some (service_process (listening rx)))
          (some (service_process (heard I rx p)))
  unfolding heard
  heard-ChildGain a rx w w' (arrived m) call l sound = (λ e. cc, omega arith, inl (omega arith))
  heard-ChildGain a rx w w' broken call l sound = absurd (sound refl)
  heard-ChildGain a rx w w' not_yet call l sound =
      (λ e. cc, omega arith, inr (stuck l (d.recv-not_yet rx w w' call).0))
    where
      stuck : {a : App I} → Listening I d rx w a → d.queued rx w ≡ [] → a ≢ waiting
      stuck (introduced _ _ _ _) empty e = cc
      stuck (found _ _) empty e = cc
      stuck (sent_hello full) empty e = cc
      stuck (left _) empty e = cc

  pub child_step-ChildGain :
      (a : App I) (c : Option (Process I)) (w : World)
      → Fits I d a c w
      → a ≢ app_panicked
      → c ≢ some (service_process service_panicked)
      → ChildGain I a c (child_step I c w).0
  unfolding child_step service_step opened
  child_step-ChildGain a none w h well fine = (λ e. cc, omega arith, inr tt)
  child_step-ChildGain a (some (app_process _)) w h well fine = elim h [ ]
  child_step-ChildGain a (some (service_process (opening args))) w h well fine =
      let (tx, rx, w', call) = n.opens w in
      subst (λ r. ChildGain I a (some (service_process (opening args))) (some (service_process r)))
        (sym (ap (λ r. opened I args r.0) call)) (λ e. cc, omega arith, inl (omega arith))
  child_step-ChildGain a (some (service_process (connecting args tx rx))) w h well fine =
      connect_with-ChildGain a args tx rx (get_token_from_args args) w refl h.1 well
  child_step-ChildGain a (some (service_process (introducing tx rx b))) w h well fine =
      let (w', call) = n.introduces b tx w in
      subst
        (λ r.
          ChildGain I a (some (service_process (introducing tx rx b))) (some (service_process r)))
        (sym (ap (λ r. (if r.0 then listening rx else service_panicked)) call))
        (λ e. cc, omega arith, inl (omega arith))
  child_step-ChildGain a (some (service_process (listening rx))) w h well fine =
      heard-ChildGain a rx w (I.recv rx w).1 (I.recv rx w).0 refl h (n.receives rx w)
  child_step-ChildGain a (some (service_process (greeted m))) w h well fine =
      (λ e. cc, omega arith, inr tt)
  child_step-ChildGain a (some (service_process service_panicked)) w h well fine =
      absurd (fine refl)
