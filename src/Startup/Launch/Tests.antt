-- ===== src/Startup/Launch/Tests.antt =====
-- The theorems on the two processes of src/startup.rs with channels in memory.
use profiler_rs.Ipc.{Ipc, Poll, arrived, not_yet, broken, IsDocumented, NeverFails}
use profiler_rs.Prelude.{
  ℕ, ◌≡◌, ◌≢◌, refl, List, [], ◌∷◌, ◌++◌, true, some, String, ap, sym, ◌∙◌, subst, eq_of_some,
}
use profiler_rs.Startup.{profiler_service_flag}
use profiler_rs.Startup.Launch.{
  ToProfilerService, hello, greeted, finished, service_process, app_moves, child_moves, initial,
  run,
}
use profiler_rs.Startup.Launch.Handshake.{IsSafe, run-IsSafe}
use profiler_rs.Startup.Launch.Gains.{working_os}
use profiler_rs.Startup.Launch.Progress.{rounds, run-rounds}
use profiler_rs.Startup.Tests.{no_flag}

-- One channel and one server.
record Memory : Type 0 where
  offers : List ℕ
  queue : List ToProfilerService

take_offer : Memory → List ℕ → Poll ℕ × Memory
take_offer w [] = (not_yet, w)
take_offer w (x ∷ xs) = (arrived x, record w { offers = xs })

take_message : Memory → List ToProfilerService → Poll ToProfilerService × Memory
take_message w [] = (not_yet, w)
take_message w (m ∷ ms) = (arrived m, record w { queue = ms })

abbrev memory_ipc : Ipc ToProfilerService
memory_ipc = record {
  World = Memory;
  Server = String;
  Bootstrap = String;
  Sender = ℕ;
  Receiver = ℕ;
  new_server = λ w. (some ("token", "token"), record w { offers = [] });
  accept = λ s w. take_offer w w.offers;
  connect = λ token w. (some token, w);
  introduce = λ b x w. (true, record w { offers = w.offers ++ x ∷ [] });
  channel = λ w. (some (0, 0), record w { queue = [] });
  send = λ x m w. (true, record w { queue = w.queue ++ m ∷ [] });
  recv = λ r w. take_message w w.queue;
}

abbrev blank : Memory
blank = record { offers = []; queue = [] }

taken_offer :
    (w w' : Memory) (os : List ℕ) (p : Poll ℕ)
    → w.offers ≡ os
    → take_offer w os ≡ (p, w')
    → (p ≢ broken) × (w'.queue ≡ w.queue)
unfolding take_offer
taken_offer w w' [] p at e = (λ b. cc, ap (λ r. r.1.queue) (sym e))
taken_offer w w' (x ∷ xs) p at e = (λ b. cc, ap (λ r. r.1.queue) (sym e))

offer-arrived :
    (w w' : Memory) (os : List ℕ) (x : ℕ)
    → w.offers ≡ os
    → take_offer w os ≡ (arrived x, w')
    → w.offers ≡ x ∷ w'.offers
unfolding take_offer
offer-arrived w w' [] x at e = cc
offer-arrived w w' (y ∷ ys) x at e =
    let first : y ≡ x = cc in let rest : ys ≡ w'.offers = ap (λ r. r.1.offers) e in cc

offer-not_yet :
    (w w' : Memory) (os : List ℕ)
    → w.offers ≡ os
    → take_offer w os ≡ (not_yet, w')
    → (w.offers ≡ []) × (w'.offers ≡ [])
unfolding take_offer
offer-not_yet w w' [] at e = (at, ap (λ r. r.1.offers) (sym e) ∙ at)
offer-not_yet w w' (y ∷ ys) at e = cc

taken_message :
    (w w' : Memory) (ms : List ToProfilerService) (p : Poll ToProfilerService)
    → w.queue ≡ ms
    → take_message w ms ≡ (p, w')
    → (p ≢ broken) × (w'.offers ≡ w.offers)
unfolding take_message
taken_message w w' [] p at e = (λ b. cc, ap (λ r. r.1.offers) (sym e))
taken_message w w' (m ∷ ms) p at e = (λ b. cc, ap (λ r. r.1.offers) (sym e))

message-arrived :
    (w w' : Memory) (ms : List ToProfilerService) (m : ToProfilerService)
    → w.queue ≡ ms
    → take_message w ms ≡ (arrived m, w')
    → w.queue ≡ m ∷ w'.queue
unfolding take_message
message-arrived w w' [] m at e = cc
message-arrived w w' (y ∷ ys) m at e =
    let first : y ≡ m = cc in let rest : ys ≡ w'.queue = ap (λ r. r.1.queue) e in cc

message-not_yet :
    (w w' : Memory) (ms : List ToProfilerService)
    → w.queue ≡ ms
    → take_message w ms ≡ (not_yet, w')
    → (w.queue ≡ []) × (w'.queue ≡ [])
unfolding take_message
message-not_yet w w' [] at e = (at, ap (λ r. r.1.queue) (sym e) ∙ at)
message-not_yet w w' (y ∷ ys) at e = cc

memory-IsDocumented : IsDocumented memory_ipc
memory-IsDocumented = record {
  token_of = λ s. s;
  server_of = λ b. b;
  receiver_of = λ x. x;
  offered = λ s w. w.offers;
  queued = λ r w. w.queue;
  tokens = λ s t e. e;
  new_server-some = λ w w' s token e. (cc, ap (λ r. r.1.offers) (sym e));
  channel-some =
      λ w w' tx rx e. (cc, ap (λ r. r.1.queue) (sym e), λ s. ap (λ r. r.1.offers) (sym e));
  channel-none = λ w w' e. cc;
  connect-some = λ token w w' b e. cc;
  connect_quiet =
      λ token w w' o e. (λ s. ap (λ r. r.1.offers) (sym e), λ r. ap (λ r. r.1.queue) (sym e));
  introduce-offered = λ b x w w' e. ap (λ r. r.1.offers) (sym e);
  introduce_quiet = λ b x w w' sent e r. ap (λ r. r.1.queue) (sym e);
  accept-arrived = λ s w w' x e. offer-arrived w w' w.offers x refl e;
  accept-not_yet = λ s w w' e. offer-not_yet w w' w.offers refl e;
  accept_quiet = λ s w w' p e r. (taken_offer w w' w.offers p refl e).1;
  send-queued = λ x m w w' e. ap (λ r. r.1.queue) (sym e);
  send-failed = λ x m w w' e r. cc;
  recv-arrived = λ r w w' m e. message-arrived w w' w.queue m refl e;
  recv-not_yet = λ r w w' e. message-not_yet w w' w.queue refl e;
  recv_quiet = λ r w w' p e s. (taken_message w w' w.queue p refl e).1;
}

memory-NeverFails : NeverFails memory_ipc memory-IsDocumented
unfolding memory-IsDocumented
memory-NeverFails = record {
  serves = λ w. ("token", "token", record w { offers = [] }, refl);
  opens = λ w. (0, 0, record w { queue = [] }, refl);
  connects = λ s w e. (s, w, refl);
  introduces = λ b x w. (record w { offers = w.offers ++ x ∷ [] }, refl);
  accepts = λ s w. (taken_offer w (take_offer w w.offers).1 w.offers _ refl refl).0;
  sends = λ x m w. (record w { queue = w.queue ++ m ∷ [] }, refl);
  receives = λ r w. (taken_message w (take_message w w.queue).1 w.queue _ refl refl).0;
}

found_path :
    (p : String) → (working_os "/usr/bin/profiler").current_exe ≡ some p → p ≢ profiler_service_flag
found_path p e = subst (λ q. q ≢ profiler_service_flag) (eq_of_some e) no_flag

run-IsSafe_example :
    let s = run memory_ipc (working_os "/usr/bin/profiler") (initial memory_ipc blank) (
      app_moves ∷ app_moves ∷ child_moves ∷ child_moves ∷ child_moves ∷ app_moves ∷ app_moves
      ∷ child_moves ∷ []) in
    IsSafe memory_ipc memory-IsDocumented s.app s.child
run-IsSafe_example =
    run-IsSafe memory_ipc memory-IsDocumented (working_os "/usr/bin/profiler") blank
      (app_moves ∷ app_moves ∷ child_moves ∷ child_moves ∷ child_moves ∷ app_moves ∷ app_moves
        ∷ child_moves ∷ [])
      found_path

run-rounds_example :
    let t =
      run memory_ipc
        (working_os "/usr/bin/profiler")
        (run memory_ipc
          (working_os "/usr/bin/profiler")
          (initial memory_ipc blank)
          (app_moves ∷ app_moves ∷ app_moves ∷ []))
        (rounds 9) in
    (t.app ≡ finished) × (t.child ≡ some (service_process (greeted (hello 7))))
run-rounds_example =
    run-rounds memory_ipc memory-IsDocumented memory-NeverFails "/usr/bin/profiler" no_flag blank
      (app_moves ∷ app_moves ∷ app_moves ∷ [])
