-- ===== src/BufferThread/Serializing.antt =====
-- When `serialize_buffer` of src/buffer_thread.rs returns a profile, and when the buffer thread panics.
use profiler_rs.Json.{Json}
use profiler_rs.Prelude.{
  ℕ, suc, ◌≡◌, refl, inl, inr, List, [], ◌∷◌, true, ok, err, ◌>>=◌, length, All, ap, sym, ◌∙◌,
}
use profiler_rs.SamplesSerializer.{panicked}
use profiler_rs.SamplesSerializer.Outcome.{FirstHasFrame, first_cases, new_outcome}
use profiler_rs.SamplesSerializer.Tables.Rows.{serialize_samples-new}
use profiler_rs.TimeExpiringBuffer.{iter_thread}
use profiler_rs.BufferThread.Contents.{if_cases}
use profiler_rs.SamplesSerializer.Tables.{samples_table}
use profiler_rs.BufferThread.{
  SerializationMessage, serialize, ThreadInfo, CoreInfoForSerialization, BufferThreadMessage,
  add_marker, add_sample, clear_expired_markers, serialize_buffer, get_sample_count,
  waiting_for_one_sample, BufferThread, thread_object, thread_value, thread_values, profile,
  serialize_buffer_value, send, handle,
}

module _ (J : Json) where
  open J use {Value}

  -- The thread's first sample in the buffer, if it has one, has a frame.
  abbrev pub IsSerializable : BufferThread J → ThreadInfo → Type 0
  IsSerializable b info = FirstHasFrame (iter_thread b.samples info.id)

  pub thread_value-ok :
      (pid start : ℕ) (b : BufferThread J) (info : ThreadInfo)
      → IsSerializable b info
      → (v : Value) × (thread_value J pid b start info ≡ ok v)
  unfolding thread_value
  thread_value-ok pid start b info h =
      let (s, run) = (new_outcome start b.samples info.id).0 h in
      let (rows, run', _, _) = serialize_samples-new J start b.samples info.id s run in
      (thread_object J pid b start info s (samples_table J rows), rw (run, thread_value) (rw run'))

  thread_value-panics :
      (pid start : ℕ) (b : BufferThread J) (info : ThreadInfo)
      → ¬ IsSerializable b info
      → thread_value J pid b start info ≡ err panicked
  unfolding thread_value
  thread_value-panics pid start b info h =
      rw ((new_outcome start b.samples info.id).1 h, thread_value)

  thread_values-ok :
      (pid start : ℕ) (b : BufferThread J) (infos : List ThreadInfo)
      → All (IsSerializable b) infos
      → (vs : List Value) × (thread_values J pid b start infos ≡ ok vs) × (length vs ≡ length infos)
  unfolding thread_values
  thread_values-ok pid start b [] h = ([], refl, refl)
  thread_values-ok pid start b (info ∷ infos) h =
      let (v, run) = thread_value-ok pid start b info h.0 in
      let (vs, run', len) = thread_values-ok pid start b infos h.1 in
      (v ∷ vs, rw (run, thread_values) (rw run'), ap suc len)

  thread_values-panics :
      (pid start : ℕ) (b : BufferThread J) (infos : List ThreadInfo)
      → ¬ All (IsSerializable b) infos
      → thread_values J pid b start infos ≡ err panicked
  unfolding thread_values
  thread_values-panics pid start b [] h = absurd (h tt)
  thread_values-panics pid start b (info ∷ infos) h =
      elim (first_cases (iter_thread b.samples info.id)) [
        | inl good ↦
            let (v, run) = thread_value-ok pid start b info good in
            rw (run, thread_values)
              (rw (thread_values-panics pid start b infos (λ rest. h (good, rest))))
        | inr bad ↦ rw (thread_value-panics pid start b info bad, thread_values)
      ]

  -- `SerializeBuffer` gives a profile with one value for each registered thread if the first sample of
  -- each of them that has samples has a frame; otherwise it panics, whichever thread it is.
  pub serialize_buffer_outcome :
      (pid : ℕ) (b : BufferThread J) (core_info : CoreInfoForSerialization)
      → (All (IsSerializable b) core_info.thread_infos
          → (threads : List Value) × (serialize_buffer_value J pid b core_info
              ≡ ok (profile J core_info.sampling_interval threads))
            × (length threads ≡ length core_info.thread_infos))
        × (¬ All (IsSerializable b) core_info.thread_infos
            → serialize_buffer_value J pid b core_info ≡ err panicked)
  unfolding serialize_buffer_value
  serialize_buffer_outcome pid b core_info = (returns, panics)
    where
      returns :
          All (IsSerializable b) core_info.thread_infos
          → (threads : List Value) × (serialize_buffer_value J pid b core_info
              ≡ ok (profile J core_info.sampling_interval threads))
            × (length threads ≡ length core_info.thread_infos)
      returns h =
          let (vs, run, len) =
            thread_values-ok pid core_info.start_time b core_info.thread_infos h in
          (vs, rw (run, serialize_buffer_value), len)

      panics :
          ¬ All (IsSerializable b) core_info.thread_infos
          → serialize_buffer_value J pid b core_info ≡ err panicked
      panics h = rw (
        thread_values-panics pid core_info.start_time b core_info.thread_infos h,
        serialize_buffer_value,
      )

  ok-ne-err : {x : BufferThread J × List (SerializationMessage J)} → ok x ≡ err panicked → ⊥
  ok-ne-err e = cc

  -- While the core listens, the buffer thread handles every message without a panic, but for a
  -- `SerializeBuffer` with a thread whose first sample has no frame.
  pub handle_outcome :
      (pid now : ℕ) (b : BufferThread J) (m : BufferThreadMessage J)
      → handle J pid now true b m ≡ err panicked
      → (core_info : CoreInfoForSerialization) × (m ≡ serialize_buffer core_info)
        × (¬ All (IsSerializable b) core_info.thread_infos)
  unfolding handle send
  handle_outcome pid now b (add_marker tid m) e = cc
  handle_outcome pid now b (add_sample tid s) e = elim (if_cases b.is_waiting_for_one_sample e) [
    | inl (_, e') ↦ cc
    | inr (_, e') ↦ cc
  ]
  handle_outcome pid now b clear_expired_markers e = cc
  handle_outcome pid now b (serialize_buffer info) e = (
    info,
    refl,
    λ h.
        let (vs, run, _) = (serialize_buffer_outcome pid b info).0 h in
        let e' : (serialize_buffer_value J pid b info >>= λ v. ok (b, serialize v ∷ []))
            ≡ err panicked =
          e in
        let sent : ok (b, serialize (profile J info.sampling_interval vs) ∷ []) ≡ err panicked =
          ap (λ m. m >>= λ v. ok (b, serialize v ∷ [])) (sym run) ∙ e' in
        ok-ne-err sent,
  )
  handle_outcome pid now b get_sample_count e = cc
  handle_outcome pid now b waiting_for_one_sample e = cc
