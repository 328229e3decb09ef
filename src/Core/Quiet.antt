-- ===== src/Core/Quiet.antt =====
-- The moves of the system of src/core.rs in which the core has no part: what other threads send, and the
-- rounds of the buffer thread.
use profiler_rs.BufferThread.{BufferThread, BufferThreadMessage, SerializationMessage, handle}
use profiler_rs.Core.{
  Answer, CoreState, BufferState, alive, gone, System, listens, Produced, marker, sample, produce,
  after_handle, buffer_round,
}
use profiler_rs.Json.{Json}
use profiler_rs.Prelude.{ℕ, ◌≡◌, refl, List, [], ◌∷◌, Result, ok, err, sym, subst}
use profiler_rs.SamplesSerializer.{Fault}

module _ (J : Json) where
  abbrev pub IsQuiet : System J → System J → Type 0
  IsQuiet s t = (t.core ≡ s.core) × (t.answers ≡ s.answers)

  pub IsQuiet-kept :
      (P : CoreState J → List (ℕ × Answer J) → Type 0) (s t : System J)
      → IsQuiet s t
      → P s.core s.answers
      → P t.core t.answers
  IsQuiet-kept P s t (core, answers) h =
      subst (λ c. P c t.answers) (sym core) (subst (P s.core) (sym answers) h)

  pub produce-IsQuiet :
      (buffer : BufferState J) (p : Produced J) (s : System J) → IsQuiet s (produce J buffer p s)
  unfolding produce
  produce-IsQuiet (alive _) (marker _ _) s = (refl, refl)
  produce-IsQuiet (alive _) (sample _ _) s = (refl, refl)
  produce-IsQuiet gone p s = (refl, refl)

  after_handle-IsQuiet :
      (s : System J) (rest : List (BufferThreadMessage J))
      (o : Result (BufferThread J × List (SerializationMessage J)) Fault)
      → IsQuiet s (after_handle J s rest o)
  unfolding after_handle
  after_handle-IsQuiet s rest (ok _) = (refl, refl)
  after_handle-IsQuiet s rest (err _) = (refl, refl)

  pub buffer_round-IsQuiet :
      (pid now : ℕ) (buffer : BufferState J) (queue : List (BufferThreadMessage J)) (s : System J)
      → IsQuiet s (buffer_round J pid now buffer queue s)
  unfolding buffer_round
  buffer_round-IsQuiet pid now gone queue s = (refl, refl)
  buffer_round-IsQuiet pid now (alive b) [] s = (refl, refl)
  buffer_round-IsQuiet pid now (alive b) (m ∷ rest) s =
      after_handle-IsQuiet s rest (handle J pid now (listens J s.core) b m)
