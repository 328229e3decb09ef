-- ===== src/Core/Silence.antt =====
-- What the buffer thread of src/core.rs still has in front of the messages that ask for no reply.
use profiler_rs.BufferThread.{
  BufferThread, BufferThreadMessage, add_marker, add_sample, SerializationMessage, handle,
}
use profiler_rs.Core.{
  CoreState, BufferState, alive, gone, System, listens, Produced, marker, sample, produce,
  after_handle, buffer_round,
}
use profiler_rs.Core.Protocol.{Pending, lost, down}
use profiler_rs.Core.Requests.{IsSilent}
use profiler_rs.Json.{Json}
use profiler_rs.Prelude.{
  ℕ, ◌-◌, ◌≤◌, ◌≡◌, refl, List, [], ◌∷◌, ◌++◌, ok, err, arith, sym, ◌∙◌, subst, Result, length,
  zero, suc, All,
}
use profiler_rs.SamplesSerializer.{Fault}

module _ (J : Json) where
  -- Behind the first messages of a queue stand only some that ask for no reply.
  abbrev pub IsSilentBehind : ℕ → List (BufferThreadMessage J) → Type 0
  IsSilentBehind n [] = Unit
  IsSilentBehind zero (m ∷ ms) = IsSilent J m × IsSilentBehind zero ms
  IsSilentBehind (suc n) (m ∷ ms) = IsSilentBehind n ms

  pub length-IsSilentBehind :
      (n : ℕ) (queue : List (BufferThreadMessage J)) → length queue ≤ n → IsSilentBehind n queue
  length-IsSilentBehind n [] h = tt
  length-IsSilentBehind zero (m ∷ ms) h = absurd (omega arith)
  length-IsSilentBehind (suc n) (m ∷ ms) h = length-IsSilentBehind n ms (omega arith)

  IsSilentBehind-snoc :
      (n : ℕ) (queue : List (BufferThreadMessage J)) (m : BufferThreadMessage J)
      → IsSilent J m
      → IsSilentBehind n queue
      → IsSilentBehind n (queue ++ m ∷ [])
  IsSilentBehind-snoc zero [] m h q = (h, tt)
  IsSilentBehind-snoc (suc n) [] m h q = tt
  IsSilentBehind-snoc zero (x ∷ xs) m h q = (q.0, IsSilentBehind-snoc zero xs m h q.1)
  IsSilentBehind-snoc (suc n) (x ∷ xs) m h q = IsSilentBehind-snoc n xs m h q

  pub IsSilentBehind-All :
      (queue : List (BufferThreadMessage J)) → IsSilentBehind zero queue → All (IsSilent J) queue
  IsSilentBehind-All [] q = tt
  IsSilentBehind-All (m ∷ ms) q = (q.0, IsSilentBehind-All ms q.1)

  -- Once a message is off the queue, one less is in front.
  IsSilentBehind-rest :
      (n : ℕ) (m : BufferThreadMessage J) (rest : List (BufferThreadMessage J))
      → IsSilentBehind n (m ∷ rest)
      → IsSilentBehind (n - 1) rest
  IsSilentBehind-rest zero m rest q = q.1
  IsSilentBehind-rest (suc n) m rest q =
      let same : suc n - 1 ≡ n = omega arith in subst (λ k. IsSilentBehind k rest) (sym same) q

  pub produce-IsSilentBehind :
      (n : ℕ) (buffer : BufferState J) (p : Produced J) (s : System J)
      → IsSilentBehind n s.queue
      → IsSilentBehind n (produce J buffer p s).queue
  unfolding produce
  produce-IsSilentBehind n (alive _) (marker tid m) s q =
      IsSilentBehind-snoc n s.queue (add_marker tid m) tt q
  produce-IsSilentBehind n (alive _) (sample tid v) s q =
      IsSilentBehind-snoc n s.queue (add_sample tid v) tt q
  produce-IsSilentBehind n gone p s q = q

  after_handle-IsSilentBehind :
      (n : ℕ) (s : System J) (rest : List (BufferThreadMessage J))
      (o : Result (BufferThread J × List (SerializationMessage J)) Fault)
      → IsSilentBehind n rest
      → IsSilentBehind n (after_handle J s rest o).queue
  unfolding after_handle
  after_handle-IsSilentBehind n s rest (ok _) q = q
  after_handle-IsSilentBehind n s rest (err _) q = tt

  gone_empty :
      {core : CoreState J} {queue : List (BufferThreadMessage J)}
      {replies : List (SerializationMessage J)}
      → Pending J core gone queue replies
      → queue ≡ []
  gone_empty lost = refl
  gone_empty down = refl

  pub buffer_round-IsSilentBehind :
      (pid now n : ℕ) (buffer : BufferState J) (queue : List (BufferThreadMessage J)) (s : System J)
      → Pending J s.core buffer queue s.replies
      → s.queue ≡ queue
      → IsSilentBehind n queue
      → IsSilentBehind (n - 1) (buffer_round J pid now buffer queue s).queue
  unfolding buffer_round
  buffer_round-IsSilentBehind pid now n gone queue s p e q =
      subst (IsSilentBehind (n - 1)) (sym (e ∙ gone_empty p)) tt
  buffer_round-IsSilentBehind pid now n (alive b) [] s p e q =
      subst (IsSilentBehind (n - 1)) (sym e) tt
  buffer_round-IsSilentBehind pid now n (alive b) (m ∷ rest) s p e q =
      after_handle-IsSilentBehind (n - 1) s rest (handle J pid now (listens J s.core) b m)
        (IsSilentBehind-rest n m rest q)
