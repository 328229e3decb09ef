-- ===== src/Core/Progress.antt =====
-- Whether a request of the core in src/core.rs returns when the buffer thread goes on.
use profiler_rs.BufferThread.{BufferThread, BufferThreadMessage, SerializationMessage}
use profiler_rs.Core.{
  MainThreadCore, Request, ask_sample_count, ask_serialize, ask_one_sample, request_message, ready,
  awaiting, disconnected, BufferState, alive, System, initial, produce, buffer_round, finish,
  receive, Event, producing, asking, handling, receiving, step, run,
}
use profiler_rs.Core.Protocol.{Pending, queued, waiting, answered, lost}
use profiler_rs.Core.Requests.{IsSilent}
use profiler_rs.Json.{Json}
use profiler_rs.Prelude.{
  ℕ, ◌+◌, ◌-◌, ◌≤◌, ◌≡◌, refl, List, [], ◌∷◌, ◌++◌, arith, sym, ◌∙◌, ◌⊎◌, inl, inr, subst, length,
  true, All,
}
use profiler_rs.Core.Moves.{Inv}
use profiler_rs.Core.Silence.{
  IsSilentBehind, length-IsSilentBehind, IsSilentBehind-All, produce-IsSilentBehind,
  buffer_round-IsSilentBehind,
}
use profiler_rs.Core.Quiet.{produce-IsQuiet, buffer_round-IsQuiet}
use profiler_rs.Core.Rounds.{initial-Inv, step-Inv, run-Inv}

module _ (J : Json) where
  -- What the core has no part in: what other threads send, and the rounds of the buffer thread.
  abbrev pub IsOther : Event J → Type 0
  IsOther (producing _) = Unit
  IsOther (handling _) = Unit
  IsOther (asking _ _) = ⊥
  IsOther receiving = ⊥

  -- The rounds of the buffer thread among the events.
  abbrev pub handlings : List (Event J) → ℕ
  handlings [] = 0
  handlings (handling _ ∷ es) = 1 + handlings es
  handlings (producing _ ∷ es) = handlings es
  handlings (asking _ _ ∷ es) = handlings es
  handlings (receiving ∷ es) = handlings es

  -- The buffer thread comes past what was in its queue, and the core stays where it is.
  pass :
      (pid n : ℕ) (s : System J) (es : List (Event J))
      → Inv J s
      → All IsOther es
      → IsSilentBehind J n s.queue
      → n ≤ handlings es
      → let t = run J pid s es in Inv J t × (t.core ≡ s.core) × All (IsSilent J) t.queue
  unfolding run step
  pass pid n s [] i o q h =
      let none_in_front : n ≡ 0 = omega arith in
      (
        i,
        refl,
        IsSilentBehind-All J s.queue (subst (λ k. IsSilentBehind J k s.queue) none_in_front q),
      )
  pass pid n s (producing p ∷ es) i o q h =
      let (i', same, silent) =
        pass pid n (produce J s.buffer p s) es (step-Inv J pid s (producing p) i) o.1
          (produce-IsSilentBehind J n s.buffer p s q) h in
      (i', same ∙ (produce-IsQuiet J s.buffer p s).0, silent)
  pass pid n s (handling now ∷ es) i o q h =
      let (i', same, silent) =
        pass pid (n - 1) (buffer_round J pid now s.buffer s.queue s) es
          (step-Inv J pid s (handling now) i) o.1
          (buffer_round-IsSilentBehind J pid now n s.buffer s.queue s i.pending refl q)
          (omega arith) in
      (i', same ∙ (buffer_round-IsQuiet J pid now s.buffer s.queue s).0, silent)
  pass pid n s (asking _ _ ∷ es) i o q h = absurd o.0
  pass pid n s (receiving ∷ es) i o q h = absurd o.0

  -- The thread waits for one sample, and no message in its queue asks for anything else.
  abbrev pub WaitsForSample : System J → Type 0
  WaitsForSample s =
      (b : BufferThread J) × (s.buffer ≡ alive b)
      × (b.is_waiting_for_one_sample ≡ true)
      × All (IsSilent J) s.queue

  -- A request is no silent message.
  request_message-loud : (c : MainThreadCore) (r : Request) → ¬ IsSilent J (request_message J c r)
  unfolding request_message
  request_message-loud c ask_sample_count h = h
  request_message-loud c ask_serialize h = h
  request_message-loud c ask_one_sample h = h

  loud_in_front :
      (m : BufferThreadMessage J) (pre post : List (BufferThreadMessage J))
      → ¬ IsSilent J m
      → ¬ All (IsSilent J) (pre ++ m ∷ post)
  loud_in_front m [] post loud h = loud h.0
  loud_in_front m (_ ∷ pre) post loud h = loud_in_front m pre post loud h.1

  -- The core takes the reply, when no request is in the queue.
  settles :
      {r : Request} {asked : ℕ} {buffer : BufferState J} {queue : List (BufferThreadMessage J)}
      {replies : List (SerializationMessage J)} (s : System J)
      → Pending J (awaiting r asked) buffer queue replies
      → All (IsSilent J) queue
      → let t = receive J (awaiting r asked) buffer replies s in
        (t.core ≡ ready)
        ⊎ (t.core ≡ disconnected)
        ⊎ ((r ≡ ask_one_sample)
            × (t ≡ s)
            × ((b : BufferThread J) × (buffer ≡ alive b) × (b.is_waiting_for_one_sample ≡ true)))
  unfolding receive finish
  settles {r} s (queued c pre post e _ _ _ _) silent = absurd (
      loud_in_front (request_message J c r) pre post (request_message-loud c r)
        (subst (All (IsSilent J)) e silent))
  settles s (waiting {b} _ w) silent = inr (inr (refl, refl, (b, refl, w)))
  settles s (answered a accepted _ _ _) silent = inl (rw accepted refl)
  settles s lost silent = inr (inl refl)

  last_round :
      (r : Request) (asked : ℕ) (t : System J)
      → Inv J t
      → t.core ≡ awaiting r asked
      → All (IsSilent J) t.queue
      → let u = receive J t.core t.buffer t.replies t in
        (u.core ≡ ready) ⊎ (u.core ≡ disconnected) ⊎ ((r ≡ ask_one_sample) × WaitsForSample u)
  last_round r asked t i at silent =
      subst
        (λ c.
          let u = receive J c t.buffer t.replies t in
          (u.core ≡ ready) ⊎ (u.core ≡ disconnected) ⊎ ((r ≡ ask_one_sample) × WaitsForSample u))
        (sym at)
        (elim (settles t (subst (λ c. Pending J c t.buffer t.queue t.replies) at i.pending)
          silent) [
            | inl e ↦ inl e
            | inr (inl e) ↦ inr (inl e)
            | inr (inr (is, same, (b, here, w))) ↦
                inr (inr (is, subst WaitsForSample (sym same) (b, here, w, silent)))
          ])

  run-append :
      (pid : ℕ) (s : System J) (es : List (Event J)) (e : Event J)
      → run J pid s (es ++ e ∷ []) ≡ step J pid (run J pid s es) e
  unfolding run
  run-append pid s [] e = refl
  run-append pid s (d ∷ es) e = run-append pid (step J pid s d) es e

  -- In every interleaving, a request that is open returns at the next receive of the core, once the
  -- buffer thread has made as many rounds as there were messages in its queue, whatever the other
  -- threads send before, between and after these rounds; or the core panics since its channel is
  -- disconnected; `wait_for_one_sample` alone may go on waiting, and then the buffer thread waits for a
  -- sample, and nothing but markers and samples (or a clearing of markers) is in its queue.
  pub run-settles :
      (pid life asked : ℕ) (es others : List (Event J)) (r : Request)
      → let s = run J pid (initial J life) es in
        s.core ≡ awaiting r asked
        → All IsOther others
        → length s.queue ≤ handlings others
        → let t = run J pid s (others ++ receiving ∷ []) in
          (t.core ≡ ready) ⊎ (t.core ≡ disconnected) ⊎ ((r ≡ ask_one_sample) × WaitsForSample t)
  unfolding step
  run-settles pid life asked es others r begun other enough =
      let s = run J pid (initial J life) es in
      let (i, same, silent) =
        pass pid (length s.queue) s others (run-Inv J pid (initial J life) es (initial-Inv J life))
          other (length-IsSilentBehind J (length s.queue) s.queue (omega arith)) enough in
      subst Settled (sym (run-append pid s others receiving))
        (last_round r asked (run J pid s others) i (same ∙ begun) silent)
    where
      Settled : System J → Type 0
      Settled t =
          (t.core ≡ ready) ⊎ (t.core ≡ disconnected) ⊎ ((r ≡ ask_one_sample) × WaitsForSample t)
