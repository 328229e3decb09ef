-- ===== src/MacSampler/Calls.antt =====
-- The calls of `suspend_and_sample_thread` in src/sampler_mac.rs, and how it ends.
use profiler_rs.NativeStack.{NativeStack}
use profiler_rs.Prelude.{
  ℕ, ◌+◌, ◌*◌, ◌≡◌, ◌≢◌, refl, Result, ok, err, ◌==◌, Bool-cases, ◌⊎◌, inl, inr, ap, sym, subst,
  ◌∙◌, arith, eq_of_==,
}
use profiler_rs.SamplerThread.{
  SuspendAndSampleError, could_not_suspend_thread, could_not_get_registers,
}
use profiler_rs.StackWalk.{Registers, critical_frame_pointer_stack_walk}
use profiler_rs.StackWalk.Rounds.{IsMapped}
use profiler_rs.StackWalk.Chains.{critical_frame_pointer_stack_walk-Chain}
use profiler_rs.MacSampler.{
  Kernel, PanicHook, check_kern_return, Process, take_hook, set_hook, suspend_thread, get_registers,
  resume_thread, End, returned, aborted, after_resume, sample_stack, after_registers, after_suspend,
  suspend_and_sample_thread,
}

pub kern_cases :
    (code : ℕ)
    → ((code ≡ 0) × (check_kern_return code ≡ ok tt))
      ⊎ ((code ≢ 0) × (check_kern_return code ≡ err tt))
unfolding check_kern_return
kern_cases code = elim (Bool-cases (code == 0)) [
  | inl e ↦ inl (eq_of_== code 0 e, rw e refl)
  | inr e ↦ inr (ground arith, rw e refl)
]

module _ (K : Kernel) (stack_min stacksize : ℕ) where
  open K use {World, suspend_count}

  -- The three calls in their order, each in the state that the one before leaves.
  abbrev pub suspended : ℕ → World → ℕ × World
  suspended tid w = K.thread_suspend tid w

  abbrev pub read : ℕ → World → (ℕ × Registers) × World
  read tid w = K.thread_get_state tid (suspended tid w).1

  abbrev pub resumed : ℕ → World → ℕ × World
  resumed tid w = K.thread_resume tid (read tid w).1

  process : PanicHook → World → Process K
  process hook w = record { hook = hook; world = w }

  -- The call ends as the resuming does: by aborting the process, or by returning the result with the
  -- hook that was there before.
  abbrev pub EndsWith : ℕ → Process K → Result NativeStack SuspendAndSampleError → End K → Type 0
  EndsWith tid p r end =
      (((resumed tid p.world).0 ≢ 0) × (end ≡ aborted))
      ⊎ (((resumed tid p.world).0 ≡ 0)
          × (end ≡ returned r (record { hook = p.hook; world = (resumed tid p.world).1 })))

  pub after_resume-EndsWith :
      (tid : ℕ) (p : Process K) (r : Result NativeStack SuspendAndSampleError)
      → EndsWith tid p r (after_resume K p.hook r (resume_thread K tid (read tid p.world).1))
  unfolding after_resume resume_thread
  after_resume-EndsWith tid p r = elim (kern_cases (resumed tid p.world).0) [
    | inl (good, e) ↦ inr (good, rw e refl)
    | inr (bad, e) ↦ inl (bad, rw e refl)
  ]

  pub after_suspend_bad :
      (tid : ℕ) (p : Process K)
      → (suspended tid p.world).0 ≢ 0
      → suspend_and_sample_thread K stack_min stacksize tid p
        ≡ returned
            (err could_not_suspend_thread)
            (record { hook = p.hook; world = (suspended tid p.world).1 })
  unfolding suspend_and_sample_thread take_hook set_hook after_suspend suspend_thread
  after_suspend_bad tid p bad = elim (kern_cases (suspended tid p.world).0) [
    | inl (good, e) ↦ absurd (bad good)
    | inr (_, e) ↦ rw e refl
  ]

  pub after_suspend_good :
      (tid : ℕ) (p : Process K)
      → (suspended tid p.world).0 ≡ 0
      → suspend_and_sample_thread K stack_min stacksize tid p
        ≡ after_registers K stack_min stacksize tid p.hook
            (get_registers K tid (suspended tid p.world).1)
  unfolding suspend_and_sample_thread take_hook set_hook after_suspend suspend_thread
  after_suspend_good tid p good = elim (kern_cases (suspended tid p.world).0) [
    | inl (_, e) ↦ rw e refl
    | inr (bad, e) ↦ absurd (bad good)
  ]

  registers_cases :
      (tid : ℕ) (w : World)
      → (((read tid w).0.0 ≢ 0)
          × (get_registers K tid (suspended tid w).1 ≡ (err tt, (read tid w).1)))
        ⊎ (((read tid w).0.0 ≡ 0)
            × (get_registers K tid (suspended tid w).1 ≡ (ok (read tid w).0.1, (read tid w).1)))
  unfolding get_registers
  registers_cases tid w = elim (kern_cases (read tid w).0.0) [
    | inl (good, e) ↦ inr (good, rw e refl)
    | inr (bad, e) ↦ inl (bad, rw e refl)
  ]

  after_registers_bad :
      (tid : ℕ) (hook : PanicHook) (w : World)
      → after_registers K stack_min stacksize tid hook (err tt, w)
        ≡ after_resume K hook (err could_not_get_registers) (resume_thread K tid w)
  unfolding after_registers sample_stack
  after_registers_bad tid hook w = refl

  after_registers_good :
      (tid : ℕ) (hook : PanicHook) (w : World) (registers : Registers) (s : NativeStack)
      → critical_frame_pointer_stack_walk (K.memory w) stack_min stacksize registers ≡ ok s
      → after_registers K stack_min stacksize tid hook (ok registers, w)
        ≡ after_resume K hook (ok s) (resume_thread K tid w)
  unfolding after_registers sample_stack
  after_registers_good tid hook w registers s run = rw (run, sample_stack, after_registers) refl

  -- The stack is mapped when it is walked.
  abbrev pub StackIsMapped : ℕ → Process K → Type 0
  StackIsMapped tid p =
      IsMapped (K.memory (read tid p.world).1) stack_min (stack_min + stacksize * 8)

  unread-EndsWith :
      (tid : ℕ) (p : Process K)
      → (suspended tid p.world).0 ≡ 0
      → (read tid p.world).0.0 ≢ 0
      → EndsWith tid p
          (err could_not_get_registers)
          (suspend_and_sample_thread K stack_min stacksize tid p)
  unread-EndsWith tid p good bad = elim (registers_cases tid p.world) [
    | inl (_, e) ↦
        subst (EndsWith tid p (err could_not_get_registers))
          (sym (
            after_suspend_good tid p good
            ∙ (ap (after_registers K stack_min stacksize tid p.hook) e
                ∙ after_registers_bad tid p.hook (read tid p.world).1)))
          (after_resume-EndsWith tid p (err could_not_get_registers))
    | inr (read_ok, _) ↦ absurd (bad read_ok)
  ]

  sampled-EndsWith :
      (tid : ℕ) (p : Process K)
      → StackIsMapped tid p
      → (suspended tid p.world).0 ≡ 0
      → (read tid p.world).0.0 ≡ 0
      → (s : NativeStack) × (critical_frame_pointer_stack_walk
            (K.memory (read tid p.world).1)
            stack_min
            stacksize
            (read tid p.world).0.1
          ≡ ok s)
        × EndsWith tid p (ok s) (suspend_and_sample_thread K stack_min stacksize tid p)
  sampled-EndsWith tid p mapped good read_ok =
      let w = (read tid p.world).1 in
      let registers = (read tid p.world).0.1 in
      let (s, _, _, walked, _, _) =
        critical_frame_pointer_stack_walk-Chain (K.memory w) stack_min stacksize registers mapped in
      elim (registers_cases tid p.world) [
        | inl (bad, _) ↦ absurd (bad read_ok)
        | inr (_, e) ↦ (
          s,
          walked,
          subst (EndsWith tid p (ok s))
              (sym (
                after_suspend_good tid p good
                ∙ (ap (after_registers K stack_min stacksize tid p.hook) e
                    ∙ after_registers_good tid p.hook w registers s walked)))
              (after_resume-EndsWith tid p (ok s)),
        )
      ]

  -- When the stack is mapped: if the thread cannot be suspended, the call returns that error, and the
  -- suspension that failed is all that it did. If it can, the thread is resumed whether or not its
  -- registers were read; the process is aborted if that fails, and otherwise the call returns, with
  -- the panic hook that was there before, the error of the registers or the stack that the walk gives.
  pub suspend_and_sample_thread_cases :
      (tid : ℕ) (p : Process K)
      → StackIsMapped tid p
      → ((suspended tid p.world).0 ≢ 0
          → suspend_and_sample_thread K stack_min stacksize tid p
            ≡ returned
                (err could_not_suspend_thread)
                (record { hook = p.hook; world = (suspended tid p.world).1 }))
        × ((suspended tid p.world).0 ≡ 0
            → (read tid p.world).0.0 ≢ 0
            → EndsWith tid p
                (err could_not_get_registers)
                (suspend_and_sample_thread K stack_min stacksize tid p))
        × ((suspended tid p.world).0 ≡ 0
            → (read tid p.world).0.0 ≡ 0
            → (s : NativeStack) × (critical_frame_pointer_stack_walk
                  (K.memory (read tid p.world).1)
                  stack_min
                  stacksize
                  (read tid p.world).0.1
                ≡ ok s)
              × EndsWith tid p (ok s) (suspend_and_sample_thread K stack_min stacksize tid p))
  suspend_and_sample_thread_cases tid p mapped =
      (after_suspend_bad tid p, unread-EndsWith tid p, sampled-EndsWith tid p mapped)
