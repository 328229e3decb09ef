-- ===== src/Core/Covers.antt =====
-- The counts that `get_sample_count` of src/core.rs returns, against the calls of
-- `wait_for_one_sample` that returned before, as the test `can_register_samples` expects them.
use profiler_rs.BufferThread.{SerializationMessage}
use profiler_rs.Core.{
  MainThreadCore, Request, Answer, counted, profiled, sampled, accept, CoreState, ready, awaiting,
  confused, disconnected, BufferState, alive, gone, System, initial, produce, ask, buffer_round,
  finish, receive, Event, producing, asking, handling, receiving, step, run,
}
use profiler_rs.Core.Moves.{Inv, sampled_in}
use profiler_rs.Core.Quiet.{IsQuiet-kept, produce-IsQuiet, buffer_round-IsQuiet}
use profiler_rs.Core.Rounds.{initial-Inv, step-Inv}
use profiler_rs.Json.{Json}
use profiler_rs.Prelude.{ℕ, ◌≤◌, ◌≡◌, List, refl, [], ◌∷◌, Option, none, some, arith}

module _ (J : Json) where
  -- Every count is at least the number of waits for one sample that had returned before it.
  abbrev pub AreCovered : List (ℕ × Answer J) → Type 0
  AreCovered [] = Unit
  AreCovered ((_, counted size) ∷ rest) = (sampled_in J rest ≤ size) × AreCovered rest
  AreCovered ((_, profiled _) ∷ rest) = AreCovered rest
  AreCovered ((_, sampled) ∷ rest) = AreCovered rest

  -- Also for the request that is open.
  abbrev Covers : CoreState J → List (ℕ × Answer J) → Type 0
  Covers core answers =
      ((r : Request) (asked : ℕ) → core ≡ awaiting r asked → sampled_in J answers ≤ asked)
      × AreCovered answers

  abbrev pub SystemCovers : System J → Type 0
  SystemCovers s = Covers s.core s.answers

  ask-Covers :
      (core : CoreState J) (buffer : BufferState J) (c : MainThreadCore) (r : Request)
      (s : System J)
      → Inv J s
      → SystemCovers s
      → SystemCovers (ask J core buffer c r s)
  unfolding ask
  ask-Covers ready (alive _) c r s i (_, covered) =
      (λ r' asked e. let same : s.sent_samples ≡ asked = cc in omega (arith, i.waited), covered)
  ask-Covers ready gone c r s i (_, covered) = (λ r' asked e. cc, covered)
  ask-Covers (awaiting _ _) buffer c r s i h = h
  ask-Covers confused buffer c r s i h = h
  ask-Covers disconnected buffer c r s i h = h

  finish-Covers :
      (s : System J) (asked : ℕ) (rest : List (SerializationMessage J)) (o : Option (Answer J))
      → Inv J (finish J s asked rest o)
      → sampled_in J s.answers ≤ asked
      → AreCovered s.answers
      → SystemCovers (finish J s asked rest o)
  unfolding finish
  finish-Covers s asked rest none i h covered = (λ r a e. cc, covered)
  finish-Covers s asked rest (some (counted size)) i h covered =
      (λ r a e. cc, (omega (arith, i.right.0), covered))
  finish-Covers s asked rest (some (profiled _)) i h covered = (λ r a e. cc, covered)
  finish-Covers s asked rest (some sampled) i h covered = (λ r a e. cc, covered)

  receive-Covers :
      (core : CoreState J) (buffer : BufferState J) (replies : List (SerializationMessage J))
      (s : System J)
      → s.core ≡ core
      → Inv J (receive J core buffer replies s)
      → SystemCovers s
      → SystemCovers (receive J core buffer replies s)
  unfolding receive
  receive-Covers (awaiting r asked) buffer (m ∷ rest) s at i (bound, covered) =
      finish-Covers s asked rest (accept J r m) i (bound r asked at) covered
  receive-Covers (awaiting r asked) gone [] s at i (_, covered) = (λ r a e. cc, covered)
  receive-Covers (awaiting r asked) (alive _) [] s at i c = c
  receive-Covers ready _ _ s at i c = c
  receive-Covers confused _ _ s at i c = c
  receive-Covers disconnected _ _ s at i c = c

  pub step-Covers :
      (pid : ℕ) (s : System J) (e : Event J)
      → Inv J s
      → SystemCovers s
      → SystemCovers (step J pid s e)
  unfolding step
  step-Covers pid s (producing p) i c =
      IsQuiet-kept J Covers s (produce J s.buffer p s) (produce-IsQuiet J s.buffer p s) c
  step-Covers pid s (asking core r) i c = ask-Covers s.core s.buffer core r s i c
  step-Covers pid s (handling now) i c =
      IsQuiet-kept J Covers s (buffer_round J pid now s.buffer s.queue s)
        (buffer_round-IsQuiet J pid now s.buffer s.queue s) c
  step-Covers pid s receiving i c =
      receive-Covers s.core s.buffer s.replies s refl (step-Inv J pid s receiving i) c

  covers_from :
      (pid : ℕ) (s : System J) (es : List (Event J))
      → Inv J s
      → SystemCovers s
      → SystemCovers (run J pid s es)
  unfolding run
  covers_from pid s [] i c = c
  covers_from pid s (e ∷ es) i c =
      covers_from pid (step J pid s e) es (step-Inv J pid s e i) (step-Covers pid s e i c)

  pub initial-Covers : (life : ℕ) → SystemCovers (initial J life)
  unfolding initial
  initial-Covers life = (λ r a e. cc, tt)

  -- In every interleaving of the core with the other threads, each `get_sample_count` that returns,
  -- returns at least the number of calls of `wait_for_one_sample` that had returned before.
  pub run-AreCovered :
      (pid life : ℕ) (es : List (Event J)) → AreCovered (run J pid (initial J life) es).answers
  run-AreCovered pid life es =
      (covers_from pid (initial J life) es (initial-Inv J life) (initial-Covers life)).1
