-- ===== src/Core/Moves.antt =====
-- The invariant of the core, the channels and the buffer thread (src/core.rs, src/buffer_thread.rs), and
-- the messages that the core and the other threads send.
use profiler_rs.BufferThread.{
  BufferThread, BufferThreadMessage, add_marker, add_sample, SerializationMessage,
}
use profiler_rs.Core.{
  MainThreadCore, Request, ask_sample_count, ask_serialize, ask_one_sample, request_message, Answer,
  counted, profiled, sampled, CoreState, ready, awaiting, confused, disconnected, BufferState,
  alive, gone, System, Produced, marker, sample, produce, ask,
}
use profiler_rs.Core.Protocol.{
  samples_in, received_in, IsRight, Pending, idle, queued, waiting, answered,
}
use profiler_rs.Core.Requests.{IsSilent, samples_of, count}
use profiler_rs.Json.{Json}
use profiler_rs.Prelude.{
  ℕ, ◌+◌, ◌≤◌, ◌≡◌, refl, List, [], ◌∷◌, ◌++◌, arith, All, All-append, ap, sym, ◌∙◌, subst,
  append_assoc,
}

module _ (J : Json) where
  pub samples_in-snoc :
      (q : List (BufferThreadMessage J)) (m : BufferThreadMessage J)
      → samples_in J (q ++ m ∷ []) ≡ samples_in J q + samples_of J m
  samples_in-snoc [] m = omega arith
  samples_in-snoc (p ∷ q) m = omega (arith, samples_in-snoc q m)

  pub received_in-append :
      (xs ys : List (SerializationMessage J))
      → received_in J (xs ++ ys) ≡ received_in J xs + received_in J ys
  received_in-append [] ys = omega arith
  received_in-append (x ∷ xs) ys = omega (arith, received_in-append xs ys)

  abbrev pub sampled_of : Answer J → ℕ
  sampled_of sampled = 1
  sampled_of (counted _) = 0
  sampled_of (profiled _) = 0

  -- The waits for one sample that have returned.
  abbrev pub sampled_in : List (ℕ × Answer J) → ℕ
  sampled_in [] = 0
  sampled_in ((_, a) ∷ rest) = sampled_of a + sampled_in rest

  -- Every answer is right, and belongs to a request made when so many samples had been sent.
  abbrev pub AreRight : List (ℕ × Answer J) → Type 0
  AreRight = All (λ p. IsRight J p.0 p.1)

  pub record Inv (s : System J) : Type 0 where
    pub pending : Pending J s.core s.buffer s.queue s.replies
    pub counted :
        (b : BufferThread J)
        → s.buffer ≡ alive b
        → count J b + samples_in J s.queue ≡ s.sent_samples
    pub right : AreRight s.answers
    pub waited :
        sampled_in s.answers + received_in J s.replies + samples_in J s.queue ≤ s.sent_samples

  -- A message without a reply joins the queue.
  produce-Pending :
      {core : CoreState J} {b : BufferThread J} {queue : List (BufferThreadMessage J)}
      {replies : List (SerializationMessage J)} (m : BufferThreadMessage J)
      → IsSilent J m
      → Pending J core (alive b) queue replies
      → Pending J core (alive b) (queue ++ m ∷ []) replies
  produce-Pending {queue} m h (idle quiet w) =
      idle (All-append (IsSilent J) queue (m ∷ []) quiet (h, tt)) w
  produce-Pending m h (queued c pre post e before after w n) =
      queued c pre (post ++ m ∷ []) (ap (λ l. l ++ m ∷ []) e ∙ append_assoc pre _ (m ∷ [])) before
        (All-append (IsSilent J) post (m ∷ []) after (h, tt)) w n
  produce-Pending {queue} m h (waiting quiet w) =
      waiting (All-append (IsSilent J) queue (m ∷ []) quiet (h, tt)) w
  produce-Pending {queue} m h (answered a accepted right quiet w) =
      answered a accepted right (All-append (IsSilent J) queue (m ∷ []) quiet (h, tt)) w

  queue-Pending :
      (s : System J) (b : BufferThread J) (m : BufferThreadMessage J)
      → IsSilent J m
      → s.buffer ≡ alive b
      → Pending J s.core s.buffer s.queue s.replies
      → Pending J s.core s.buffer (s.queue ++ m ∷ []) s.replies
  queue-Pending s b m h here p =
      subst (λ x. Pending J s.core x (s.queue ++ m ∷ []) s.replies) (sym here)
        (produce-Pending m h (subst (λ x. Pending J s.core x s.queue s.replies) here p))

  pub produce-Inv :
      (s : System J) (buffer : BufferState J) (p : Produced J)
      → s.buffer ≡ buffer
      → Inv s
      → Inv (produce J buffer p s)
  unfolding produce
  produce-Inv s gone p e i = i
  produce-Inv s (alive b) (marker tid v) e i = record {
    pending = queue-Pending s b (add_marker tid v) tt e i.pending;
    counted = λ b' e'. omega (arith, i.counted b' e', samples_in-snoc s.queue (add_marker tid v));
    right = i.right;
    waited = omega (arith, i.waited, samples_in-snoc s.queue (add_marker tid v));
  }
  produce-Inv s (alive b) (sample tid v) e i = record {
    pending = queue-Pending s b (add_sample tid v) tt e i.pending;
    counted = λ b' e'. omega (arith, i.counted b' e', samples_in-snoc s.queue (add_sample tid v));
    right = i.right;
    waited = omega (arith, i.waited, samples_in-snoc s.queue (add_sample tid v));
  }

  -- The core sends a request.
  ask-Pending :
      {b : BufferThread J} {queue : List (BufferThreadMessage J)}
      {replies : List (SerializationMessage J)} (c : MainThreadCore) (r : Request) (asked : ℕ)
      → count J b + samples_in J queue ≡ asked
      → Pending J ready (alive b) queue replies
      → Pending J (awaiting r asked) (alive b) (queue ++ request_message J c r ∷ []) replies
  ask-Pending {queue} c r asked n (idle quiet w) = queued c queue [] refl quiet tt w n

  -- A core that is ready finds the buffer thread there.
  ready_gone :
      {queue : List (BufferThreadMessage J)} {replies : List (SerializationMessage J)}
      → ¬ Pending J ready gone queue replies
  ready_gone p = elim p [ ]

  samples_of-request_message :
      (c : MainThreadCore) (r : Request) → samples_of J (request_message J c r) ≡ 0
  unfolding request_message
  samples_of-request_message c ask_sample_count = refl
  samples_of-request_message c ask_serialize = refl
  samples_of-request_message c ask_one_sample = refl

  pub ask-Inv :
      (s : System J) (core : CoreState J) (buffer : BufferState J) (c : MainThreadCore)
      (r : Request)
      → s.core ≡ core
      → s.buffer ≡ buffer
      → Inv s
      → Inv (ask J core buffer c r s)
  unfolding ask
  ask-Inv s ready (alive b) c r at here i =
      let grown = samples_in-snoc s.queue (request_message J c r) in
      let silent = samples_of-request_message c r in
      record {
        pending =
            subst
              (λ x.
                Pending J (awaiting r s.sent_samples) x (s.queue ++ request_message J c r ∷ [])
                  s.replies)
              (sym here)
              (ask-Pending c r s.sent_samples (i.counted b here) (
                subst (λ x. Pending J x (alive b) s.queue s.replies) at
                  (subst (λ x. Pending J s.core x s.queue s.replies) here i.pending)));
        counted = λ b' e'. omega (arith, i.counted b' e', grown, silent);
        right = i.right;
        waited = omega (arith, i.waited, grown, silent);
      }
  ask-Inv s ready gone c r at here i = absurd (
      ready_gone (
        subst (λ x. Pending J x gone s.queue s.replies) at
          (subst (λ x. Pending J s.core x s.queue s.replies) here i.pending)))
  ask-Inv s (awaiting _ _) buffer c r at here i = i
  ask-Inv s confused buffer c r at here i = i
  ask-Inv s disconnected buffer c r at here i = i
