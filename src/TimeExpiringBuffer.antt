-- ===== src/TimeExpiringBuffer.antt =====
-- src/time_expiring_buffer.rs: entries with a creation time, oldest first. A `VecDeque` is a list
-- whose head is the front. An `Instant` is a number of nanoseconds on the monotonic clock and a
-- `Duration` a number of nanoseconds; the clock that `Instant::now()` reads is an argument.
pub mod Expiry
pub mod History
mod Tests
use profiler_rs.Prelude.{ℕ, ◌-◌, List, [], ◌∷◌, ◌++◌, Bool, ltb, ◌==◌, if◌then◌else◌, keep, length}

pub record BufferEntry {ℓ} (A : Type ℓ) : Type ℓ where
  pub tid : ℕ
  pub created_at : ℕ
  pub value : A

pub record TimeExpiringBuffer {ℓ} (A : Type ℓ) : Type ℓ where
  pub buffer : List (BufferEntry A)
  pub entry_lifetime : ℕ

-- `Instant::duration_since`, which saturates at zero.
abbrev pub duration_since : ℕ → ℕ → ℕ
duration_since now earlier = now - earlier

module _ {ℓ} {A : Type ℓ} where
  unfoldable pub new : ℕ → TimeExpiringBuffer A
  new entry_lifetime = record { buffer = []; entry_lifetime = entry_lifetime }

  unfoldable pub push_back_at : TimeExpiringBuffer A → A → ℕ → ℕ → TimeExpiringBuffer A
  push_back_at b value created_at tid = record b {
    buffer = b.buffer ++ record { tid = tid; created_at = created_at; value = value } ∷ [];
  }

  unfoldable pub push_back : (now : ℕ) → TimeExpiringBuffer A → ℕ → A → TimeExpiringBuffer A
  push_back now b tid value = push_back_at b value now tid

  -- The test of the loop in `remove_expired`.
  is_expired : (now entry_lifetime : ℕ) → BufferEntry A → Bool
  is_expired now entry_lifetime item = ltb entry_lifetime (duration_since now item.created_at)

  -- The loop: pop the front while it is expired, stop at the first entry that is not.
  pop_expired : (now entry_lifetime : ℕ) → List (BufferEntry A) → List (BufferEntry A)
  pop_expired now entry_lifetime [] = []
  pop_expired now entry_lifetime (item ∷ rest) =
      if is_expired now entry_lifetime item
      then pop_expired now entry_lifetime rest
      else item ∷ rest

  unfoldable pub remove_expired : (now : ℕ) → TimeExpiringBuffer A → TimeExpiringBuffer A
  unfolding pop_expired is_expired
  remove_expired now b = record b { buffer = pop_expired now b.entry_lifetime b.buffer }

  unfoldable pub iter_thread : TimeExpiringBuffer A → ℕ → List (BufferEntry A)
  iter_thread b tid = keep (λ entry. entry.tid == tid) b.buffer

  unfoldable pub len : TimeExpiringBuffer A → ℕ
  len b = length b.buffer
