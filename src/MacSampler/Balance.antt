-- ===== src/MacSampler/Balance.antt =====
-- What a call of `suspend_and_sample_thread` (src/sampler_mac.rs) that returned leaves behind.
use profiler_rs.NativeStack.{NativeStack}
use profiler_rs.Prelude.{
  Result-cases, ℕ, ◌≡◌, ◌≢◌, refl, Result, ◌⊎◌, inl, inr, ap, sym, subst, ◌∙◌, arith,
}
use profiler_rs.SamplerThread.{SuspendAndSampleError}
use profiler_rs.StackWalk.{Registers, WalkFault}
use profiler_rs.MacSampler.{
  Kernel, PanicHook, Process, get_registers, resume_thread, returned, crashed, after_resume,
  sample_stack, after_registers, suspend_and_sample_thread,
}
use profiler_rs.MacSampler.Calls.{
  kern_cases, suspended, read, resumed, EndsWith, after_suspend_bad, after_suspend_good,
  after_resume-EndsWith,
}

module _ (K : Kernel) (stack_min stacksize : ℕ) where
  open K use {World, suspend_count}

  after_registers_ends :
      (tid : ℕ) (hook : PanicHook) (w : World) (registers : Result Registers (Unit {0}))
      → ((fault : WalkFault) × (after_registers K stack_min stacksize tid hook (registers, w)
            ≡ crashed fault))
        ⊎ ((r : Result NativeStack SuspendAndSampleError) × (after_registers K stack_min stacksize
                tid hook
                (registers, w)
              ≡ after_resume K hook r (resume_thread K tid w)))
  unfolding after_registers
  after_registers_ends tid hook w registers =
      elim (Result-cases (sample_stack K stack_min stacksize w registers)) [
        | inl (fault, e) ↦ inl (fault, rw (e, after_registers) refl)
        | inr (r, e) ↦ inr (r, rw (e, after_registers) refl)
      ]

  EndsWith-returned :
      (tid : ℕ) (p p' : Process K) (r r' : Result NativeStack SuspendAndSampleError)
      → EndsWith K stack_min stacksize tid p r (returned r' p')
      → ((resumed K stack_min stacksize tid p.world).0 ≡ 0)
        × (p' ≡ record { hook = p.hook; world = (resumed K stack_min stacksize tid p.world).1 })
  EndsWith-returned tid p p' r r' (inl (_, e)) = cc
  EndsWith-returned tid p p' r r' (inr (good, e)) = (good, cc)

  same_world :
      (tid : ℕ) (p : Process K)
      → after_registers K stack_min stacksize tid p.hook
          (get_registers K tid (suspended K stack_min stacksize tid p.world).1)
        ≡ after_registers K stack_min stacksize tid p.hook (
          (get_registers K tid (suspended K stack_min stacksize tid p.world).1).0,
          (read K stack_min stacksize tid p.world).1,
        )
  unfolding get_registers
  same_world tid p = refl

  -- How a call that returned went.
  returned_cases :
      (tid : ℕ) (p p' : Process K) (r : Result NativeStack SuspendAndSampleError)
      → suspend_and_sample_thread K stack_min stacksize tid p ≡ returned r p'
      → (((suspended K stack_min stacksize tid p.world).0 ≢ 0)
          × (p'
              ≡ record { hook = p.hook; world = (suspended K stack_min stacksize tid p.world).1 }))
        ⊎ (((suspended K stack_min stacksize tid p.world).0 ≡ 0)
            × ((resumed K stack_min stacksize tid p.world).0 ≡ 0)
            × (p'
                ≡ record { hook = p.hook; world = (resumed K stack_min stacksize tid p.world).1 }))
  returned_cases tid p p' r e = elim (kern_cases (suspended K stack_min stacksize tid p.world).0) [
    | inr (bad, _) ↦ let run = after_suspend_bad K stack_min stacksize tid p bad in inl (bad, cc)
    | inl (good, _) ↦
        let begun = after_suspend_good K stack_min stacksize tid p good in
        let read_registers =
          (get_registers K tid (suspended K stack_min stacksize tid p.world).1).0 in
        elim (after_registers_ends tid p.hook (read K stack_min stacksize tid p.world).1
          read_registers) [
            | inl (fault, run) ↦
                let end : crashed fault ≡ returned r p' =
                  sym run ∙ (sym (same_world tid p) ∙ (sym begun ∙ e)) in
                cc
            | inr (r', run) ↦
                let end = sym run ∙ (sym (same_world tid p) ∙ (sym begun ∙ e)) in
                let (good', is) = EndsWith-returned tid p p' r' r (
                  subst (EndsWith K stack_min stacksize tid p r') end
                    (after_resume-EndsWith K stack_min stacksize tid p r')) in
                inr (good, good', is)
          ]
  ]

  -- When the call returns, whatever it returns and whatever the stack holds, the panic hook is the one
  -- that was there before, and every thread is suspended as often as before: no thread stays stopped.
  pub suspend_and_sample_thread-balance :
      (tid : ℕ) (p p' : Process K) (r : Result NativeStack SuspendAndSampleError)
      → suspend_and_sample_thread K stack_min stacksize tid p ≡ returned r p'
      → (p'.hook ≡ p.hook) × ((t : ℕ) → suspend_count t p'.world ≡ suspend_count t p.world)
  suspend_and_sample_thread-balance tid p p' r e = elim (returned_cases tid p p' r e) [
    | inl (bad, is) ↦ (
      ap (λ q. q.hook) is,
      λ t. ap (λ q. suspend_count t q.world) is ∙ K.thread_suspend-err tid t p.world bad,
    )
    | inr (good, good', is) ↦ (
      ap (λ q. q.hook) is,
      λ t.
          ap (λ q. suspend_count t q.world) is
          ∙ ground (
            arith,
            K.thread_suspend-ok tid t p.world good,
            K.thread_get_state-count tid t (suspended K stack_min stacksize tid p.world).1,
            K.thread_resume-ok tid t (read K stack_min stacksize tid p.world).1 good',
          ),
    )
  ]
