-- ===== src/MacSampler.antt =====
-- `MacOsSampler` of src/sampler_mac.rs: suspend a thread, read its registers, walk its stack, resume
-- it. The kernel and the panic hook are part of the state.
mod Balance
mod Calls
mod Tests
use profiler_rs.NativeStack.{NativeStack}
use profiler_rs.Prelude.{ℕ, ◌+◌, ◌-◌, ◌≡◌, ◌≢◌, Result, ok, err, ◌>>=◌, ◌==◌, if◌then◌else◌}
use profiler_rs.SamplerThread.{
  SuspendAndSampleError, could_not_suspend_thread, could_not_get_registers,
}
use profiler_rs.StackWalk.{Registers, Memory, WalkFault, critical_frame_pointer_stack_walk}

-- The calls of the Mach kernel that the sampler makes. A call returns a code, 0 for success. Mach
-- documents that a thread has a count of its suspensions, and runs while it is 0: `thread_suspend`
-- adds one to it, `thread_resume` takes one off, and a call that fails changes no count.
pub record Kernel : Type 1 where
  pub World : Type 0
  pub thread_suspend : (tid : ℕ) → World → ℕ × World
  pub thread_get_state : (tid : ℕ) → World → (ℕ × Registers) × World
  pub thread_resume : (tid : ℕ) → World → ℕ × World
  pub memory : World → Memory
  pub suspend_count : (tid : ℕ) → World → ℕ
  pub thread_suspend-ok :
      (tid t : ℕ) (w : World)
      → (thread_suspend tid w).0 ≡ 0
      → suspend_count t (thread_suspend tid w).1
        ≡ (if t == tid then suspend_count t w + 1 else suspend_count t w)
  pub thread_suspend-err :
      (tid t : ℕ) (w : World)
      → (thread_suspend tid w).0 ≢ 0
      → suspend_count t (thread_suspend tid w).1 ≡ suspend_count t w
  pub thread_get_state-count :
      (tid t : ℕ) (w : World) → suspend_count t (thread_get_state tid w).1 ≡ suspend_count t w
  pub thread_resume-ok :
      (tid t : ℕ) (w : World)
      → (thread_resume tid w).0 ≡ 0
      → suspend_count t (thread_resume tid w).1
        ≡ (if t == tid then suspend_count t w - 1 else suspend_count t w)

-- The hook that the program had, the default that `take_hook` leaves, or the sampler's.
pub data PanicHook : Type 0 where
  program : ℕ → PanicHook
  default abort_at_once : PanicHook

pub check_kern_return : (kern_return : ℕ) → Result (Unit {0}) (Unit {0})
check_kern_return kern_return = if kern_return == 0 then ok tt else err tt

module _ (K : Kernel) where
  open K use {World}

  pub record Process : Type 0 where
    pub hook : PanicHook
    pub world : World

  -- `panic::take_hook` and `panic::set_hook`.
  pub take_hook : Process → PanicHook × Process
  take_hook p = (p.hook, record p { hook = default })

  pub set_hook : PanicHook → Process → Process
  set_hook hook p = record p { hook = hook }

  pub suspend_thread : (tid : ℕ) → World → Result (Unit {0}) (Unit {0}) × World
  unfolding check_kern_return
  suspend_thread tid w =
      let (kern_return, w') = K.thread_suspend tid w in (check_kern_return kern_return, w')

  pub get_registers : (tid : ℕ) → World → Result Registers (Unit {0}) × World
  unfolding check_kern_return
  get_registers tid w =
      let ((kern_return, registers), w') = K.thread_get_state tid w in
      (check_kern_return kern_return >>= λ _. ok registers, w')

  pub resume_thread : (tid : ℕ) → World → Result (Unit {0}) (Unit {0}) × World
  unfolding check_kern_return
  resume_thread tid w =
      let (kern_return, w') = K.thread_resume tid w in (check_kern_return kern_return, w')

  -- How the call ends: it returns, or the process is aborted or killed by a fault.
  pub data End : Type 0 where
    returned : Result NativeStack SuspendAndSampleError → Process → End
    aborted : End
    crashed : WalkFault → End

  -- `resume_thread` and what follows it.
  pub after_resume :
      PanicHook
      → Result NativeStack SuspendAndSampleError
      → Result (Unit {0}) (Unit {0}) × World
      → End
  after_resume current_hook native_stack (err _, w) = aborted
  after_resume current_hook native_stack (ok _, w) =
      returned native_stack (record { hook = current_hook; world = w })

  module _ (stack_address_min stacksize : ℕ) where
    -- The `match` on the registers.
    pub sample_stack :
        World
        → Result Registers (Unit {0})
        → Result (Result NativeStack SuspendAndSampleError) WalkFault
    sample_stack w (err _) = ok (err could_not_get_registers)
    sample_stack w (ok registers) =
        critical_frame_pointer_stack_walk (K.memory w) stack_address_min stacksize registers
        >>= λ native_stack. ok (ok native_stack)

    pub after_registers : (tid : ℕ) → PanicHook → Result Registers (Unit {0}) × World → End
    unfolding sample_stack
    after_registers tid current_hook (registers, w) = elim (sample_stack w registers) [
      | err fault ↦ crashed fault
      | ok native_stack ↦ after_resume current_hook native_stack (resume_thread tid w)
    ]

    pub after_suspend : (tid : ℕ) → PanicHook → Result (Unit {0}) (Unit {0}) × World → End
    after_suspend tid current_hook (err _, w) =
        returned (err could_not_suspend_thread) (record { hook = current_hook; world = w })
    after_suspend tid current_hook (ok _, w) =
        after_registers tid current_hook (get_registers tid w)

    pub suspend_and_sample_thread : (tid : ℕ) → Process → End
    unfolding take_hook set_hook
    suspend_and_sample_thread tid p =
        let (current_hook, p') = take_hook p in
        let p'' = set_hook abort_at_once p' in
        after_suspend tid current_hook (suspend_thread tid p''.world)
