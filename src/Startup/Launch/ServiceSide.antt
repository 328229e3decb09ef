-- ===== src/Startup/Launch/ServiceSide.antt =====
-- The two processes of src/startup.rs and what is in their channels, in every interleaving.
use profiler_rs.Ipc.{Ipc, Poll, arrived, not_yet, broken, IsDocumented}
use profiler_rs.Prelude.{
  ◌≡◌, ◌≢◌, refl, List, [], ◌∷◌, ◌++◌, Bool, true, false, Option, none, some, String, ◌⊎◌, inl, inr,
  ap, sym, ◌∙◌, if◌then◌else◌, subst, eq_of_some,
}
use profiler_rs.Startup.{profiler_service_flag, get_token_from_args}
use profiler_rs.Startup.Launch.{
  ToProfilerService, hello, Service, opening, connecting, introducing, listening, greeted,
  service_panicked, App, starting, spawning, accepting, greeting, waiting, finished, app_panicked,
  Process, service_process, app_process, opened, connected, connect_with, heard, service_step,
}

module _ (I : Ipc ToProfilerService) (d : IsDocumented I) where
  open I use {World, Server, Bootstrap, Sender, Receiver}

  -- Before the service has introduced itself, an app that has not panicked waits to accept it.
  pub data Early (P : Server → Type 0) : App I → Type 0 where
    accepts : {s : Server} → P s → Early P (accepting s)
    gave_up : Early P app_panicked

  -- Before the app has spawned the service.
  pub data Alone : App I → World → Type 0 where
    begins : {w : World} → Alone starting w
    serves :
        {path token : String} {s : Server} {w : World}
        → path ≢ profiler_service_flag
        → d.offered s w ≡ []
        → d.token_of s ≡ token
        → Alone (spawning path s token) w
    failed : {w : World} → Alone app_panicked w

  -- While the service waits for its hello.
  pub data Listening (rx : Receiver) (w : World) : App I → Type 0 where
    introduced :
        {s : Server} (x : Sender)
        → d.offered s w ≡ x ∷ []
        → d.receiver_of x ≡ rx
        → d.queued rx w ≡ []
        → Listening rx w (accepting s)
    found : {x : Sender} → d.receiver_of x ≡ rx → d.queued rx w ≡ [] → Listening rx w (greeting x)
    sent_hello : d.queued rx w ≡ hello 7 ∷ [] → Listening rx w waiting
    left : (d.queued rx w ≡ []) ⊎ (d.queued rx w ≡ hello 7 ∷ []) → Listening rx w app_panicked

  -- Once the service has its hello.
  pub data Greeted (m : ToProfilerService) : App I → Type 0 where
    waits : m ≡ hello 7 → Greeted m waiting
    done : m ≡ hello 7 → Greeted m finished
    lost : m ≡ hello 7 → Greeted m app_panicked

  pub data HasSpawned : App I → Type 0 where
    still_accepting : {s : Server} → HasSpawned (accepting s)
    still_greeting : {x : Sender} → HasSpawned (greeting x)
    still_waiting : HasSpawned waiting
    has_finished : HasSpawned finished
    has_panicked : HasSpawned app_panicked

  abbrev pub NoneOffered : World → List String → Server → Type 0
  NoneOffered w args s = (d.offered s w ≡ []) × (get_token_from_args args ≡ some (d.token_of s))

  abbrev pub IsFresh : World → Sender → Receiver → Type 0
  IsFresh w tx rx = (d.receiver_of tx ≡ rx) × (d.queued rx w ≡ [])

  abbrev pub Fits : App I → Option (Process I) → World → Type 0
  Fits a none w = Alone a w
  Fits a (some (app_process _)) w = ⊥
  Fits a (some (service_process (opening args))) w = Early (NoneOffered w args) a
  Fits a (some (service_process (connecting args tx rx))) w =
      IsFresh w tx rx × Early (NoneOffered w args) a
  Fits a (some (service_process (introducing tx rx b))) w =
      IsFresh w tx rx × Early (λ s. (d.offered s w ≡ []) × (d.server_of b ≡ s)) a
  Fits a (some (service_process (listening rx))) w = Listening rx w a
  Fits a (some (service_process (greeted m))) w = Greeted m a
  Fits a (some (service_process service_panicked)) w = HasSpawned a

  Early-mono :
      {P Q : Server → Type 0} {a : App I} → ((s : Server) → P s → Q s) → Early P a → Early Q a
  Early-mono h (accepts {s} p) = accepts (h s p)
  Early-mono h gave_up = gave_up

  pub Early-HasSpawned : {P : Server → Type 0} {a : App I} → Early P a → HasSpawned a
  Early-HasSpawned (accepts _) = still_accepting
  Early-HasSpawned gave_up = has_panicked

  pub Listening-HasSpawned :
      {rx : Receiver} {w : World} {a : App I} → Listening rx w a → HasSpawned a
  Listening-HasSpawned (introduced _ _ _ _) = still_accepting
  Listening-HasSpawned (found _ _) = still_greeting
  Listening-HasSpawned (sent_hello _) = still_waiting
  Listening-HasSpawned (left _) = has_panicked

  pub Greeted-HasSpawned : {m : ToProfilerService} {a : App I} → Greeted m a → HasSpawned a
  Greeted-HasSpawned (waits _) = still_waiting
  Greeted-HasSpawned (done _) = has_finished
  Greeted-HasSpawned (lost _) = has_panicked

  -- The service opens its channel.
  opened-Fits :
      (a : App I) (args : List String) (w w' : World) (o : Option (Sender × Receiver))
      → I.channel w ≡ (o, w')
      → Early (NoneOffered w args) a
      → Fits a (some (service_process (opened I args o))) w'
  unfolding opened
  opened-Fits a args w w' none call p = Early-HasSpawned p
  opened-Fits a args w w' (some (tx, rx)) call p =
      let (ends, empty, kept) = d.channel-some w w' tx rx call in
      ((ends, empty), Early-mono (λ s q. (kept s ∙ q.0, q.1)) p)

  -- The service looks up its token and connects.
  connected-Fits :
      (a : App I) (args : List String) (tx : Sender) (rx : Receiver) (token : String) (w w' : World)
      (o : Option Bootstrap)
      → I.connect token w ≡ (o, w')
      → get_token_from_args args ≡ some token
      → IsFresh w tx rx
      → Early (NoneOffered w args) a
      → Fits a (some (service_process (connected I tx rx o))) w'
  unfolding connected
  connected-Fits a args tx rx token w w' none call given fresh p = Early-HasSpawned p
  connected-Fits a args tx rx token w w' (some b) call given (ends, empty) p =
      let (kept, same) = d.connect_quiet token w w' (some b) call in
      (
        (ends, same rx ∙ empty),
        Early-mono
            (λ s q. (
              kept s ∙ q.0,
              d.tokens (d.server_of b) s
                  (d.connect-some token w w' b call ∙ eq_of_some (sym given ∙ q.1)),
            ))
            p,
      )

  connect_with-Fits :
      (a : App I) (args : List String) (tx : Sender) (rx : Receiver) (o : Option String) (w : World)
      → get_token_from_args args ≡ o
      → IsFresh w tx rx
      → Early (NoneOffered w args) a
      → let r = connect_with I tx rx o w in Fits a (some (service_process r.0)) r.1
  unfolding connect_with
  connect_with-Fits a args tx rx none w given fresh p = Early-HasSpawned p
  connect_with-Fits a args tx rx (some token) w given fresh p =
      connected-Fits a args tx rx token w (I.connect token w).1 (I.connect token w).0 refl given
        fresh p

  -- The service sends its sender.
  introduced-Fits :
      (a : App I) (tx : Sender) (rx : Receiver) (b : Bootstrap) (w w' : World) (sent : Bool)
      → I.introduce b tx w ≡ (sent, w')
      → IsFresh w tx rx
      → Early (λ s. (d.offered s w ≡ []) × (d.server_of b ≡ s)) a
      → Fits a (some (service_process (if sent then listening rx else service_panicked))) w'
  introduced-Fits a tx rx b w w' false call fresh p = Early-HasSpawned p
  introduced-Fits a tx rx b w w' true call (ends, empty) p = arrives p
    where
      arrives :
          {a : App I}
          → Early (λ s. (d.offered s w ≡ []) × (d.server_of b ≡ s)) a
          → Listening rx w' a
      arrives (accepts (none_in, is)) =
          introduced tx
            (subst (λ t. d.offered t w' ≡ d.offered t w ++ tx ∷ []) is
                (d.introduce-offered b tx w w' call)
              ∙ ap (λ l. l ++ tx ∷ []) none_in)
            ends (d.introduce_quiet b tx w w' true call rx ∙ empty)
      arrives gave_up = left (inl (d.introduce_quiet b tx w w' true call rx ∙ empty))

  -- The service waits for the hello.
  heard-Fits :
      (a : App I) (rx : Receiver) (w w' : World) (p : Poll ToProfilerService)
      → I.recv rx w ≡ (p, w')
      → Listening rx w a
      → Fits a (some (service_process (heard I rx p))) w'
  unfolding heard
  heard-Fits a rx w w' broken call l = Listening-HasSpawned l
  heard-Fits a rx w w' (arrived m) call l = arrives l (d.recv-arrived rx w w' m call)
    where
      arrives : {a : App I} → Listening rx w a → d.queued rx w ≡ m ∷ d.queued rx w' → Greeted m a
      arrives (introduced _ _ _ empty) q = cc
      arrives (found _ empty) q = cc
      arrives (sent_hello full) q = waits cc
      arrives (left (inl empty)) q = cc
      arrives (left (inr full)) q = lost cc
  heard-Fits a rx w w' not_yet call l =
      stays l (d.recv-not_yet rx w w' call) (d.recv_quiet rx w w' not_yet call)
    where
      stays :
          {a : App I}
          → Listening rx w a
          → (d.queued rx w ≡ []) × (d.queued rx w' ≡ [])
          → ((s : Server) → d.offered s w' ≡ d.offered s w)
          → Listening rx w' a
      stays (introduced {s} x at ends _) (_, empty) kept = introduced x (kept s ∙ at) ends empty
      stays (found ends _) (_, empty) kept = found ends empty
      stays (sent_hello full) (none_in, _) kept = cc
      stays (left _) (_, empty) kept = left (inl empty)

  pub service_step-Fits :
      (a : App I) (s : Service I) (w : World)
      → Fits a (some (service_process s)) w
      → let r = service_step I s w in Fits a (some (service_process r.0)) r.1
  unfolding service_step
  service_step-Fits a (opening args) w p =
      opened-Fits a args w (I.channel w).1 (I.channel w).0 refl p
  service_step-Fits a (connecting args tx rx) w (fresh, p) =
      connect_with-Fits a args tx rx (get_token_from_args args) w refl fresh p
  service_step-Fits a (introducing tx rx b) w (fresh, p) =
      introduced-Fits a tx rx b w (I.introduce b tx w).1 (I.introduce b tx w).0 refl fresh p
  service_step-Fits a (listening rx) w p = heard-Fits a rx w (I.recv rx w).1 (I.recv rx w).0 refl p
  service_step-Fits a (greeted m) w p = p
  service_step-Fits a service_panicked w p = p
