-- ===== src/MacSampler/Tests.antt =====
-- The theorems on `suspend_and_sample_thread` (src/sampler_mac.rs) with a kernel that counts
-- suspensions.
use profiler_rs.NativeStack.{NativeStack}
use profiler_rs.MacSampler.{
  Kernel, program, check_kern_return, Process, take_hook, set_hook, suspend_thread, get_registers,
  resume_thread, returned, after_resume, sample_stack, after_registers, after_suspend,
  suspend_and_sample_thread,
}
use profiler_rs.MacSampler.Balance.{suspend_and_sample_thread-balance}
use profiler_rs.MacSampler.Calls.{EndsWith, suspend_and_sample_thread_cases}
use profiler_rs.Prelude.{ℕ, ◌+◌, ◌-◌, ◌≡◌, refl, some, ok, err, ◌==◌, if◌then◌else◌}
use profiler_rs.SamplerThread.{could_not_get_registers}
use profiler_rs.StackWalk.{Registers, critical_frame_pointer_stack_walk}

abbrev registers : Registers
registers = record { instruction_ptr = 0x4246000; stack_ptr = 0x400; frame_ptr = 0x410 }

-- The state is how often each thread is suspended; reading registers gives the code.
abbrev counting_kernel : (code : ℕ) → Kernel
counting_kernel code = record {
  World = ℕ → ℕ;
  thread_suspend = λ tid w. (0, λ t. if t == tid then w t + 1 else w t);
  thread_get_state = λ tid w. ((code, registers), w);
  thread_resume = λ tid w. (0, λ t. if t == tid then w t - 1 else w t);
  memory = λ w a. some 0;
  suspend_count = λ t w. w t;
  thread_suspend-ok = λ tid t w h. refl;
  thread_suspend-err = λ tid t w h. absurd (h refl);
  thread_get_state-count = λ tid t w. refl;
  thread_resume-ok = λ tid t w h. refl;
}

abbrev process : (code : ℕ) → Process (counting_kernel code)
process code = record { hook = program 1; world = λ t. 0 }

abbrev resumed_process : Process (counting_kernel 5)
resumed_process = record {
  hook = program 1;
  world = λ t. if t == 3 then (if t == 3 then 0 + 1 else 0) - 1 else (if t == 3 then 0 + 1 else 0);
}

registers_fail :
    suspend_and_sample_thread (counting_kernel 5) 0x400 0xc0 3 (process 5)
    ≡ returned (err could_not_get_registers) resumed_process
unfolding suspend_and_sample_thread take_hook set_hook suspend_thread check_kern_return
    after_suspend get_registers after_registers sample_stack resume_thread after_resume
registers_fail = refl

suspend_and_sample_thread-balance_example :
    (resumed_process.hook ≡ program 1) × ((t : ℕ) → resumed_process.world t ≡ 0)
suspend_and_sample_thread-balance_example =
    suspend_and_sample_thread-balance (counting_kernel 5) 0x400 0xc0 3 (process 5) resumed_process
      (err could_not_get_registers) registers_fail

suspend_and_sample_thread_cases_example :
    (s : NativeStack) × (critical_frame_pointer_stack_walk (λ a. some 0) 0x400 0xc0 registers
      ≡ ok s)
    × EndsWith
        (counting_kernel 0)
        0x400
        0xc0
        3
        (process 0)
        (ok s)
        (suspend_and_sample_thread (counting_kernel 0) 0x400 0xc0 3 (process 0))
suspend_and_sample_thread_cases_example =
    (suspend_and_sample_thread_cases (counting_kernel 0) 0x400 0xc0 3 (process 0)
        (λ a from to. (0, refl))).2
      refl refl
