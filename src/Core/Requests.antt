-- ===== src/Core/Requests.antt =====
-- What the buffer thread does with each kind of message that the core and the other threads of
-- src/core.rs send: the reply, the wait for one sample, and the number of samples.
use profiler_rs.BufferThread.{
  BufferThread, CoreInfoForSerialization, BufferThreadMessage, add_marker, add_sample,
  clear_expired_markers, serialize_buffer, get_sample_count, waiting_for_one_sample,
  SerializationMessage, serialize, sample_count, one_sample_received, serialize_buffer_value, send,
  handle,
}
use profiler_rs.Json.{Json}
use profiler_rs.Prelude.{
  ℕ, ◌+◌, ◌≡◌, refl, List, [], ◌∷◌, Bool, true, false, ok, err, arith, length, length-append, ◌⊎◌,
  inl, inr, Result-cases,
}
use profiler_rs.SamplesSerializer.{Fault}
use profiler_rs.TimeExpiringBuffer.{push_back, push_back_at, remove_expired, len}

module _ (J : Json) where
  -- A message that asks for no reply.
  abbrev pub IsSilent : BufferThreadMessage J → Type 0
  IsSilent (add_marker _ _) = Unit
  IsSilent (add_sample _ _) = Unit
  IsSilent clear_expired_markers = Unit
  IsSilent (serialize_buffer _) = ⊥
  IsSilent get_sample_count = ⊥
  IsSilent waiting_for_one_sample = ⊥

  -- The samples in a message.
  abbrev pub samples_of : BufferThreadMessage J → ℕ
  samples_of (add_sample _ _) = 1
  samples_of (add_marker _ _) = 0
  samples_of clear_expired_markers = 0
  samples_of (serialize_buffer _) = 0
  samples_of get_sample_count = 0
  samples_of waiting_for_one_sample = 0

  abbrev pub count : BufferThread J → ℕ
  count b = length b.samples.buffer

  -- A message without a reply, handled by a thread that waits as `waits` says.
  pub record Absorbed (pid now : ℕ) (b : BufferThread J) (m : BufferThreadMessage J)
      (sent : List (SerializationMessage J)) (waits : Bool) : Type 0 where
    pub after : BufferThread J
    pub run : handle J pid now true b m ≡ ok (after, sent)
    pub flag : after.is_waiting_for_one_sample ≡ waits
    pub counted : count after ≡ count b + samples_of m

  pub quiet-Absorbed :
      (pid now : ℕ) (b : BufferThread J) (m : BufferThreadMessage J)
      → IsSilent m
      → b.is_waiting_for_one_sample ≡ false
      → Absorbed pid now b m [] false
  unfolding handle send push_back push_back_at
  quiet-Absorbed pid now b (add_marker tid v) h w = record {
    after = record b { markers = push_back now b.markers tid v };
    run = refl;
    flag = w;
    counted = omega arith;
  }
  quiet-Absorbed pid now b (add_sample tid v) h w = record {
    after = record b { samples = push_back now b.samples tid v };
    run = rw w refl;
    flag = w;
    counted = length-append b.samples.buffer _;
  }
  quiet-Absorbed pid now b clear_expired_markers h w = record {
    after = record b { markers = remove_expired now b.markers };
    run = refl;
    flag = w;
    counted = omega arith;
  }
  quiet-Absorbed pid now b (serialize_buffer _) h w = absurd h
  quiet-Absorbed pid now b get_sample_count h w = absurd h
  quiet-Absorbed pid now b waiting_for_one_sample h w = absurd h

  pub waiting-Absorbed :
      (pid now : ℕ) (b : BufferThread J) (m : BufferThreadMessage J)
      → IsSilent m
      → b.is_waiting_for_one_sample ≡ true
      → ((samples_of m ≡ 0) × Absorbed pid now b m [] true)
        ⊎ ((samples_of m ≡ 1) × Absorbed pid now b m (one_sample_received ∷ []) false)
  unfolding handle send push_back push_back_at
  waiting-Absorbed pid now b (add_marker tid v) h w = inl (
    refl,
    record {
      after = record b { markers = push_back now b.markers tid v };
      run = refl;
      flag = w;
      counted = omega arith;
    },
  )
  waiting-Absorbed pid now b (add_sample tid v) h w = inr (
    refl,
    record {
      after = record b {
        samples = push_back now b.samples tid v;
        is_waiting_for_one_sample = false;
      };
      run = rw w refl;
      flag = refl;
      counted = length-append b.samples.buffer _;
    },
  )
  waiting-Absorbed pid now b clear_expired_markers h w = inl (
    refl,
    record {
      after = record b { markers = remove_expired now b.markers };
      run = refl;
      flag = w;
      counted = omega arith;
    },
  )
  waiting-Absorbed pid now b (serialize_buffer _) h w = absurd h
  waiting-Absorbed pid now b get_sample_count h w = absurd h
  waiting-Absorbed pid now b waiting_for_one_sample h w = absurd h

  pub handle-get_sample_count :
      (pid now : ℕ) (b : BufferThread J)
      → handle J pid now true b get_sample_count ≡ ok (b, sample_count (count b) ∷ [])
  unfolding handle send len
  handle-get_sample_count pid now b = refl

  pub handle-waiting_for_one_sample :
      (pid now : ℕ) (b : BufferThread J)
      → handle J pid now true b waiting_for_one_sample
        ≡ ok (record b { is_waiting_for_one_sample = true }, [])
  unfolding handle
  handle-waiting_for_one_sample pid now b = refl

  pub handle-serialize_buffer :
      (pid now : ℕ) (b : BufferThread J) (info : CoreInfoForSerialization)
      → ((v : J.Value) × (handle J pid now true b (serialize_buffer info)
            ≡ ok (b, serialize v ∷ [])))
        ⊎ ((fault : Fault) × (handle J pid now true b (serialize_buffer info) ≡ err fault))
  unfolding handle send
  handle-serialize_buffer pid now b info =
      elim (Result-cases (serialize_buffer_value J pid b info)) [
        | inl (fault, e) ↦ inr (fault, rw (e, handle) refl)
        | inr (v, e) ↦ inl (v, rw (e, handle) refl)
      ]
