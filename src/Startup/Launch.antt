-- ===== src/Startup/Launch.antt =====
-- `launch`, `launch_profiler_service` and `launch_app` of src/startup.rs: two processes, each between
-- two of its calls, and the world of their channels. Which process goes on next is not determined.
mod AppSide
mod Handshake
mod Ends
mod Gains
mod Progress
mod Tests
mod ServiceSide
use profiler_rs.Ipc.{Ipc, Poll, arrived, not_yet, broken}
use profiler_rs.Prelude.{
  ℕ, List, [], ◌∷◌, Bool, true, false, Option, none, some, String, if◌then◌else◌,
}
use profiler_rs.Startup.{
  StartupMode, profiler_service, app, get_token_from_args, deduce_startup_mode, spawn_args,
}

pub data ToProfilerService : Type 0 where
  hello : ℕ → ToProfilerService

-- What the operating system says when the app asks for its path, spawns a child and waits for it.
pub record Os : Type 0 where
  pub current_exe : Option String
  pub spawns : Bool
  pub waits : Bool

pub data Mover : Type 0 where
  app_moves child_moves : Mover

module _ (I : Ipc ToProfilerService) where
  open I use {World, Server, Bootstrap, Sender, Receiver}

  -- `launch_profiler_service` in front of each call; `greeted` is its end.
  pub data Service : Type 0 where
    opening : (args : List String) → Service
    connecting : (args : List String) → Sender → Receiver → Service
    introducing : Sender → Receiver → Bootstrap → Service
    listening : Receiver → Service
    greeted : ToProfilerService → Service
    service_panicked : Service

  -- `launch_app` in front of each call; `finished` is its end.
  pub data App : Type 0 where
    starting : App
    spawning : (path : String) → Server → (token : String) → App
    accepting : Server → App
    greeting : Sender → App
    waiting finished app_panicked : App

  pub data Process : Type 0 where
    service_process : Service → Process
    app_process : App → Process

  pub start : StartupMode → List String → Process
  start profiler_service args = service_process (opening args)
  start app args = app_process starting

  pub launch : List String → Process
  unfolding start
  launch args = start (deduce_startup_mode args) args

  -- How the service goes on with the result of a call.
  pub opened : List String → Option (Sender × Receiver) → Service
  opened args none = service_panicked
  opened args (some (tx, rx)) = connecting args tx rx

  pub connected : Sender → Receiver → Option Bootstrap → Service
  connected tx rx none = service_panicked
  connected tx rx (some b) = introducing tx rx b

  pub connect_with : Sender → Receiver → Option String → World → Service × World
  unfolding connected
  connect_with tx rx none w = (service_panicked, w)
  connect_with tx rx (some token) w = let (o, w') = I.connect token w in (connected tx rx o, w')

  pub heard : Receiver → Poll ToProfilerService → Service
  heard rx (arrived m) = greeted m
  heard rx not_yet = listening rx
  heard rx broken = service_panicked

  pub service_step : Service → World → Service × World
  unfolding opened connect_with heard
  service_step (opening args) w = let (o, w') = I.channel w in (opened args o, w')
  service_step (connecting args tx rx) w = connect_with tx rx (get_token_from_args args) w
  service_step (introducing tx rx b) w =
      let (sent, w') = I.introduce b tx w in (if sent then listening rx else service_panicked, w')
  service_step (listening rx) w = let (p, w') = I.recv rx w in (heard rx p, w')
  service_step (greeted m) w = (greeted m, w)
  service_step service_panicked w = (service_panicked, w)

  -- How the app goes on with the result of a call.
  pub served : (path : String) → Option (Server × String) → App
  served path none = app_panicked
  served path (some (server, token)) = spawning path server token

  pub serve : Option String → World → App × World
  unfolding served
  serve none w = (app_panicked, w)
  serve (some path) w = let (o, w') = I.new_server w in (served path o, w')

  pub accepted : Server → Poll Sender → App
  accepted server (arrived x) = greeting x
  accepted server not_yet = accepting server
  accepted server broken = app_panicked

  -- A process that has returned or panicked has an exit code.
  pub has_exited : Option Process → Bool
  has_exited none = false
  has_exited (some (service_process (greeted _))) = true
  has_exited (some (service_process service_panicked)) = true
  has_exited (some (service_process (opening _))) = false
  has_exited (some (service_process (connecting _ _ _))) = false
  has_exited (some (service_process (introducing _ _ _))) = false
  has_exited (some (service_process (listening _))) = false
  has_exited (some (app_process finished)) = true
  has_exited (some (app_process app_panicked)) = true
  has_exited (some (app_process starting)) = false
  has_exited (some (app_process (spawning _ _ _))) = false
  has_exited (some (app_process (accepting _))) = false
  has_exited (some (app_process (greeting _))) = false
  has_exited (some (app_process waiting)) = false

  pub after_wait : (exited waits : Bool) → App
  after_wait false waits = waiting
  after_wait true true = finished
  after_wait true false = app_panicked

  pub app_step : Os → Option Process → App → World → App × World
  unfolding serve accepted after_wait
  app_step os child starting w = serve os.current_exe w
  app_step os child (spawning path server token) w =
      (if os.spawns then accepting server else app_panicked, w)
  app_step os child (accepting server) w =
      let (p, w') = I.accept server w in (accepted server p, w')
  app_step os child (greeting x) w =
      let (sent, w') = I.send x (hello 7) w in (if sent then waiting else app_panicked, w')
  app_step os child waiting w = (after_wait (has_exited child) os.waits, w)
  app_step os child finished w = (finished, w)
  app_step os child app_panicked w = (app_panicked, w)

  -- `spawn`, with the arguments of the child; no other call of the app makes a process.
  pub spawned : Os → App → Option Process → Option Process
  unfolding launch
  spawned os (spawning path server token) child =
      if os.spawns then some (launch (spawn_args path token)) else child
  spawned os starting child = child
  spawned os (accepting _) child = child
  spawned os (greeting _) child = child
  spawned os waiting child = child
  spawned os finished child = child
  spawned os app_panicked child = child

  -- A child that is itself an app would start a child of its own, which is left out here.
  pub child_step : Option Process → World → Option Process × World
  unfolding service_step
  child_step none w = (none, w)
  child_step (some (app_process a)) w = (some (app_process a), w)
  child_step (some (service_process s)) w =
      let (s', w') = service_step s w in (some (service_process s'), w')

  pub record System : Type 0 where
    pub app : App
    pub child : Option Process
    pub world : World

  pub initial : World → System
  initial w = record { app = starting; child = none; world = w }

  pub step : Os → System → Mover → System
  unfolding app_step spawned child_step
  step os s app_moves =
      let (a, w) = app_step os s.child s.app s.world in
      record { app = a; child = spawned os s.app s.child; world = w }
  step os s child_moves =
      let (c, w) = child_step s.child s.world in record s { child = c; world = w }

  pub run : Os → System → List Mover → System
  run os s [] = s
  run os s (m ∷ ms) = run os (step os s m) ms
