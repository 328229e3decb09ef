-- ===== src/BufferThread.antt =====
-- src/buffer_thread.rs: the thread that keeps the markers and samples. Each message is handled at the
-- time that the clock shows, while the core either still listens or is gone.
pub mod Contents
pub mod Profiles
mod Serializing
pub mod Strings
mod Tests
mod Waiting
use profiler_rs.Json.{Json}
use profiler_rs.Markers.{Marker, serialize_markers_in_buffer}
use profiler_rs.Prelude.{
  ℕ, List, [], ◌∷◌, ◌++◌, Bool, true, false, Result, ok, err, ◌>>=◌, String, map, if◌then◌else◌,
}
use profiler_rs.SamplesSerializer
use profiler_rs.SamplesSerializer.{Sample, SamplesSerializer, Fault, panicked}
use profiler_rs.SamplesSerializer.Tables.{
  serialize_samples, serialize_stack_table, serialize_frame_table,
}
use profiler_rs.StringTable
use profiler_rs.TimeExpiringBuffer
use profiler_rs.TimeExpiringBuffer.{TimeExpiringBuffer, push_back, remove_expired, len}

-- `ThreadInfo` of src/core.rs.
pub record ThreadInfo : Type 0 where
  pub id : ℕ
  pub name : String

pub record CoreInfoForSerialization : Type 0 where
  pub start_time : ℕ
  pub sampling_interval : ℕ
  pub thread_infos : List ThreadInfo

module _ (J : Json) where
  open J use {Value, null, number, string, array, object}

  pub data BufferThreadMessage : Type 0 where
    add_marker : ℕ → Marker J → BufferThreadMessage
    add_sample : ℕ → Sample → BufferThreadMessage
    clear_expired_markers : BufferThreadMessage
    serialize_buffer : CoreInfoForSerialization → BufferThreadMessage
    get_sample_count waiting_for_one_sample : BufferThreadMessage

  -- `SerializationMessage` of src/core.rs.
  pub data SerializationMessage : Type 0 where
    serialize : Value → SerializationMessage
    sample_count : ℕ → SerializationMessage
    one_sample_received : SerializationMessage

  -- The fields that change, and the local variable of `start`.
  pub record BufferThread : Type 0 where
    pub markers : TimeExpiringBuffer (Marker J)
    pub samples : TimeExpiringBuffer Sample
    pub is_waiting_for_one_sample : Bool

  unfoldable pub new : (entry_lifetime : ℕ) → BufferThread
  new entry_lifetime = record {
    markers = TimeExpiringBuffer.new entry_lifetime;
    samples = TimeExpiringBuffer.new entry_lifetime;
    is_waiting_for_one_sample = false;
  }

  -- The object of one thread. Its string table is filled by the markers, then by the frame table.
  pub thread_object :
      (pid : ℕ)
      → BufferThread
      → (start_time : ℕ) → ThreadInfo
      → SamplesSerializer
      → (samples : Value) → Value
  thread_object pid b start_time info samples_serializer samples =
      let (markers, t) =
        serialize_markers_in_buffer J b.markers start_time StringTable.new info.id in
      let (frame_table, t') = serialize_frame_table J samples_serializer t in
      object (
        ("registerTime", number 0)
        ∷ ("unregisterTime", null)
        ∷ ("name", string info.name)
        ∷ ("processType", string "default")
        ∷ ("tid", number info.id)
        ∷ ("pid", number pid)
        ∷ ("markers", markers)
        ∷ ("samples", samples)
        ∷ ("stackTable", serialize_stack_table J samples_serializer)
        ∷ ("frameTable", frame_table)
        ∷ ("stringTable", StringTable.serialize J t')
        ∷ [])

  pub thread_value : (pid : ℕ) → BufferThread → (start_time : ℕ) → ThreadInfo → Result Value Fault
  thread_value pid b start_time info = do
    samples_serializer ← SamplesSerializer.new start_time b.samples info.id
    samples ← serialize_samples J samples_serializer info.id
    ok (thread_object pid b start_time info samples_serializer samples)

  unfoldable pub thread_values :
      (pid : ℕ) → BufferThread → (start_time : ℕ) → List ThreadInfo → Result (List Value) Fault
  unfolding thread_value
  thread_values pid b start_time [] = ok []
  thread_values pid b start_time (info ∷ rest) = do
    value ← thread_value pid b start_time info
    values ← thread_values pid b start_time rest
    ok (value ∷ values)

  category : (name color : String) → Value
  category name color = object (
      ("name", string name)
      ∷ ("color", string color)
      ∷ ("subcategories", array (string "Other" ∷ []))
      ∷ [])

  -- The profile around the values of the threads.
  unfoldable pub profile : (sampling_interval : ℕ) → List Value → Value
  unfolding category
  profile sampling_interval threads = object (
      (
        "meta",
        object (
            ("version", number 19)
            ∷ ("startTime", number 0)
            ∷ ("shutdownTime", null)
            ∷ (
              "categories",
              array (
                  category "Other" "grey"
                  ∷ category "Idle" "transparent"
                  ∷ category "Layout" "purple"
                  ∷ category "JavaScript" "yellow"
                  ∷ category "GC / CC" "orange"
                  ∷ category "Network" "lightblue"
                  ∷ category "Graphics" "green"
                  ∷ category "DOM" "blue"
                  ∷ []),
            )
            ∷ ("interval", number sampling_interval)
            ∷ ("product", string "Rust Profiler")
            ∷ []),
      )
      ∷ ("libs", array [])
      ∷ ("pausedRanges", array [])
      ∷ ("processes", array [])
      ∷ ("threads", array threads)
      ∷ [])

  unfoldable pub serialize_buffer_value :
      (pid : ℕ) → BufferThread → CoreInfoForSerialization → Result Value Fault
  serialize_buffer_value pid b core_info = do
    threads ← thread_values pid b core_info.start_time core_info.thread_infos
    ok (profile core_info.sampling_interval threads)

  -- `serialization_sender.send(…).unwrap()`.
  unfoldable pub send :
      (core_alive : Bool)
      → BufferThread
      → SerializationMessage
      → Result (BufferThread × List SerializationMessage) Fault
  send core_alive b message = if core_alive then ok (b, message ∷ []) else err panicked

  -- One round of the loop of `start`.
  unfoldable pub handle :
      (pid now : ℕ)
      → (core_alive : Bool) → BufferThread
      → BufferThreadMessage
      → Result (BufferThread × List SerializationMessage) Fault
  unfolding send
  handle pid now core_alive b (add_marker tid marker) =
      ok (record b { markers = push_back now b.markers tid marker }, [])
  handle pid now core_alive b (add_sample tid sample) =
      let samples = push_back now b.samples tid sample in
      if b.is_waiting_for_one_sample
      then send core_alive (record b { samples = samples; is_waiting_for_one_sample = false })
          one_sample_received
      else ok (record b { samples = samples }, [])
  handle pid now core_alive b clear_expired_markers =
      ok (record b { markers = remove_expired now b.markers }, [])
  handle pid now core_alive b (serialize_buffer core_info) = do
    value ← serialize_buffer_value pid b core_info
    send core_alive b (serialize value)
  handle pid now core_alive b get_sample_count = send core_alive b (sample_count (len b.samples))
  handle pid now core_alive b waiting_for_one_sample =
      ok (record b { is_waiting_for_one_sample = true }, [])

  -- A message with the time at which it is handled and whether the core listens then.
  pub record Delivery : Type 0 where
    pub now : ℕ
    pub core_alive : Bool
    pub message : BufferThreadMessage

  -- The loop, over the messages until the channel closes: the state at its end, and what was sent.
  unfoldable pub run :
      (pid : ℕ)
      → BufferThread
      → List Delivery
      → Result (BufferThread × List SerializationMessage) Fault
  run pid b [] = ok (b, [])
  run pid b (d ∷ ds) = do
    (b', sent) ← handle pid d.now d.core_alive b d.message
    (b'', more) ← run pid b' ds
    ok (b'', sent ++ more)
