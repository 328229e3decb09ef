-- ===== src/OutputJson.antt =====
-- examples/output-json.rs: the calls that `main` makes of the core once its threads run, among whatever
-- the other threads send and the buffer thread handles.
mod Count
mod Order
mod Tests
use profiler_rs.Core.{
  MainThreadCore, Request, ask_sample_count, ask_serialize, ask_one_sample, CoreState, ready,
  awaiting, confused, disconnected, System, initial, Produced, Event, producing, asking, handling,
  receiving, step,
}
use profiler_rs.Json.{Json}
use profiler_rs.Prelude.{ℕ, List, [], ◌∷◌, ◌++◌, replicate}

-- The loop of waits, the count that is printed, the profile.
abbrev pub requests : (waits : ℕ) → List Request
requests waits = replicate waits ask_one_sample ++ ask_sample_count ∷ ask_serialize ∷ []

abbrev pub main_requests : List Request
main_requests = requests 100

-- Who goes on next: `main`, a thread that sends, or the buffer thread.
pub data Turn (J : Json) : Type 0 where
  main_moves : MainThreadCore → Turn J
  sends : Produced J → Turn J
  handles : (now : ℕ) → Turn J

module _ (J : Json) where
  pub record Program : Type 0 where
    pub system : System J
    pub rest : List Request

  unfoldable pub start : (entry_lifetime : ℕ) → (script : List Request) → Program
  start entry_lifetime script = record { system = initial J entry_lifetime; rest = script }

  -- `main` makes its next call, or goes on waiting for the reply of the last one.
  unfoldable pub main_step :
      (pid : ℕ) → MainThreadCore → CoreState J → List Request → System J → Program
  main_step pid c ready [] s = record { system = s; rest = [] }
  main_step pid c ready (r ∷ rs) s = record { system = step J pid s (asking c r); rest = rs }
  main_step pid c (awaiting _ _) rs s = record { system = step J pid s receiving; rest = rs }
  main_step pid c confused rs s = record { system = s; rest = rs }
  main_step pid c disconnected rs s = record { system = s; rest = rs }

  unfoldable pub take_turn : (pid : ℕ) → Program → Turn J → Program
  unfolding main_step
  take_turn pid p (main_moves c) = main_step pid c p.system.core p.rest p.system
  take_turn pid p (sends x) = record p { system = step J pid p.system (producing x) }
  take_turn pid p (handles now) = record p { system = step J pid p.system (handling now) }

  unfoldable pub run_main : (pid : ℕ) → Program → List (Turn J) → Program
  run_main pid p [] = p
  run_main pid p (t ∷ ts) = run_main pid (take_turn pid p t) ts
