-- ===== src/Core/Rounds.antt =====
-- The rounds of the buffer thread and the replies to the core (src/core.rs, src/buffer_thread.rs), and
-- runs of all the parts.
use profiler_rs.BufferThread.{
  BufferThread, BufferThreadMessage, SerializationMessage, serialize, sample_count,
  one_sample_received, handle, new,
}
use profiler_rs.Core.{
  Request, ask_sample_count, ask_serialize, ask_one_sample, Answer, counted, profiled, sampled,
  accept, CoreState, ready, awaiting, confused, disconnected, BufferState, alive, gone, System,
  initial, listens, after_handle, buffer_round, finish, receive, Event, producing, asking, handling,
  receiving, step, run,
}
use profiler_rs.Core.Protocol.{
  samples_in, received_of, received_in, IsRight, Pending, idle, answered, lost, down, Handled,
  handle-Pending,
}
use profiler_rs.Core.Requests.{count}
use profiler_rs.Json.{Json}
use profiler_rs.Prelude.{ℕ, ◌≤◌, ◌≡◌, refl, List, [], ◌∷◌, some, arith, ap, sym, inl, inr, subst}
use profiler_rs.TimeExpiringBuffer
use profiler_rs.Core.Moves.{Inv, sampled_of, received_in-append, produce-Inv, ask-Inv}

module _ (J : Json) where
  -- A round of the buffer thread.
  Handled-Inv :
      (s : System J) (pid now : ℕ) (b : BufferThread J) (m : BufferThreadMessage J)
      (rest : List (BufferThreadMessage J))
      → s.buffer ≡ alive b
      → s.queue ≡ m ∷ rest
      → Inv J s
      → Handled J pid now s.core b m rest s.replies
      → Inv J (after_handle J s rest (handle J pid now (listens J s.core) b m))
  unfolding after_handle
  Handled-Inv s pid now b m rest here head i (inl (b', sent, run, p, n, few)) =
      let total = ap (samples_in J) head in
      subst (λ r. Inv J (after_handle J s rest r)) (sym run)
        (record {
          pending = p;
          counted = λ c e.
              let same : b' ≡ c = cc in
              omega (arith, i.counted b here, total, n, ap (count J) same);
          right = i.right;
          waited = omega (arith, i.waited, total, few, received_in-append J s.replies sent);
        })
  Handled-Inv s pid now b m rest here head i (inr (fault, run, p)) =
      subst (λ r. Inv J (after_handle J s rest r)) (sym run)
        (record {
          pending = p;
          counted = λ c e. cc;
          right = i.right;
          waited = omega (arith, i.waited);
        })

  pub buffer_round-Inv :
      (s : System J) (pid now : ℕ) (buffer : BufferState J) (queue : List (BufferThreadMessage J))
      → s.buffer ≡ buffer
      → s.queue ≡ queue
      → Inv J s
      → Inv J (buffer_round J pid now buffer queue s)
  unfolding buffer_round
  buffer_round-Inv s pid now gone queue here head i = i
  buffer_round-Inv s pid now (alive b) [] here head i = i
  buffer_round-Inv s pid now (alive b) (m ∷ rest) here head i =
      Handled-Inv s pid now b m rest here head i (
        handle-Pending J pid now (
          subst (λ x. Pending J s.core x (m ∷ rest) s.replies) here
            (subst (λ q. Pending J s.core s.buffer q s.replies) head i.pending)))

  -- The core takes a reply.
  reply_cases :
      {buffer : BufferState J} {queue : List (BufferThreadMessage J)} {r : Request} {asked : ℕ}
      {m : SerializationMessage J} {rest : List (SerializationMessage J)}
      → Pending J (awaiting r asked) buffer queue (m ∷ rest)
      → (a : Answer J) × (accept J r m ≡ some a)
        × IsRight J asked a
        × Pending J ready buffer queue rest
  reply_cases (answered a accepted right quiet w) = (a, accepted, right, idle quiet w)

  gone_down :
      {queue : List (BufferThreadMessage J)} {replies : List (SerializationMessage J)} {r : Request}
      {asked : ℕ}
      → Pending J (awaiting r asked) gone queue replies
      → Pending J disconnected gone queue replies
  gone_down lost = down

  lost_down :
      {r : Request} {asked : ℕ} (s : System J)
      → Pending J (awaiting r asked) s.buffer s.queue s.replies
      → s.buffer ≡ gone
      → Pending J disconnected s.buffer s.queue s.replies
  lost_down {r} {asked} s p here =
      subst (λ x. Pending J disconnected x s.queue s.replies) (sym here)
        (gone_down (subst (λ x. Pending J (awaiting r asked) x s.queue s.replies) here p))

  accept-sampled_of :
      (r : Request) (m : SerializationMessage J) (a : Answer J)
      → accept J r m ≡ some a
      → sampled_of J a ≤ received_of J m
  unfolding accept
  accept-sampled_of ask_sample_count (sample_count n) a e =
      let same : counted n ≡ a = cc in omega (arith, ap (sampled_of J) same)
  accept-sampled_of ask_sample_count (serialize _) a e = cc
  accept-sampled_of ask_sample_count one_sample_received a e = cc
  accept-sampled_of ask_serialize (serialize v) a e =
      let same : profiled v ≡ a = cc in omega (arith, ap (sampled_of J) same)
  accept-sampled_of ask_serialize (sample_count _) a e = cc
  accept-sampled_of ask_serialize one_sample_received a e = cc
  accept-sampled_of ask_one_sample one_sample_received a e =
      let same : sampled ≡ a = cc in omega (arith, ap (sampled_of J) same)
  accept-sampled_of ask_one_sample (serialize _) a e = cc
  accept-sampled_of ask_one_sample (sample_count _) a e = cc

  receive-Inv :
      (s : System J) (core : CoreState J) (buffer : BufferState J)
      (replies : List (SerializationMessage J))
      → s.core ≡ core
      → s.buffer ≡ buffer
      → s.replies ≡ replies
      → Inv J s
      → Inv J (receive J core buffer replies s)
  unfolding receive finish
  receive-Inv s (awaiting r asked) buffer (m ∷ rest) at here head i =
      let (a, accepted, right, p) = reply_cases (
        subst (λ x. Pending J (awaiting r asked) s.buffer s.queue x) head
          (subst (λ x. Pending J x s.buffer s.queue s.replies) at i.pending)) in
      subst (λ o. Inv J (finish J s asked rest o)) (sym accepted)
        (record {
          pending = p;
          counted = i.counted;
          right = (right, i.right);
          waited =
              omega (arith, i.waited, ap (received_in J) head, accept-sampled_of r m a accepted);
        })
  receive-Inv s (awaiting r asked) gone [] at here head i = record {
    pending = lost_down s (subst (λ x. Pending J x s.buffer s.queue s.replies) at i.pending) here;
    counted = i.counted;
    right = i.right;
    waited = i.waited;
  }
  receive-Inv s (awaiting r asked) (alive _) [] at here head i = i
  receive-Inv s ready _ _ at here head i = i
  receive-Inv s confused _ _ at here head i = i
  receive-Inv s disconnected _ _ at here head i = i

  pub initial-Inv : (life : ℕ) → Inv J (initial J life)
  unfolding initial new TimeExpiringBuffer.new
  initial-Inv life = record {
    pending = idle tt refl;
    counted = λ b e. let same : new J life ≡ b = cc in omega (arith, ap (count J) same);
    right = tt;
    waited = omega arith;
  }

  pub step-Inv : (pid : ℕ) (s : System J) (e : Event J) → Inv J s → Inv J (step J pid s e)
  unfolding step
  step-Inv pid s (producing p) i = produce-Inv J s s.buffer p refl i
  step-Inv pid s (asking c r) i = ask-Inv J s s.core s.buffer c r refl refl i
  step-Inv pid s (handling now) i = buffer_round-Inv s pid now s.buffer s.queue refl refl i
  step-Inv pid s receiving i = receive-Inv s s.core s.buffer s.replies refl refl refl i

  pub run-Inv : (pid : ℕ) (s : System J) (es : List (Event J)) → Inv J s → Inv J (run J pid s es)
  unfolding run
  run-Inv pid s [] i = i
  run-Inv pid s (e ∷ es) i = run-Inv pid (step J pid s e) es (step-Inv pid s e i)
