-- ===== src/NativeStack/Capacity.antt =====
-- `NativeStack` of src/sampler.rs as a list of frames, and its capacity.
use profiler_rs.Address
use profiler_rs.Address.{ProcessMemoryAddress}
use profiler_rs.Prelude.{
  ℕ, suc, ◌-◌, ◌≤◌, ◌<◌, ◌≡◌, refl, List, [], ◌∷◌, ◌++◌, true, false, ok, err, arith, ltb, length,
  set, replicate, set-append_mid, length-append, sym, ap, ap₂, lt→ltb, le→ltb, ◌∙◌, append_assoc,
}
use profiler_rs.NativeStack.{NativeStack, max_native_frames, new, add_register_to_stack}

-- An array that holds a list and is null behind it.
abbrev pub padded : List ProcessMemoryAddress → List ProcessMemoryAddress
padded xs = xs ++ replicate (max_native_frames - length xs) Address.null

-- The stack holds these instruction pointers and these stack pointers, leaf first.
pub record Holds (ips sps : List ProcessMemoryAddress) (s : NativeStack) : Type 0 where
  pub instruction_ptrs : s.instruction_ptrs ≡ padded ips
  pub stack_ptrs : s.stack_ptrs ≡ padded sps
  pub count : s.count ≡ length ips
  pub paired : length sps ≡ length ips
  pub fits : length ips ≤ max_native_frames

pub new-Holds : Holds [] [] new
unfolding new max_native_frames
new-Holds = record {
  instruction_ptrs = refl;
  stack_ptrs = refl;
  count = refl;
  paired = refl;
  fits = omega arith;
}

pub set-padded :
    (xs : List ProcessMemoryAddress) (v : ProcessMemoryAddress)
    → length xs < max_native_frames
    → set (padded xs) (length xs) v ≡ padded (xs ++ v ∷ [])
set-padded xs v h =
    let room : max_native_frames - length xs ≡ suc (max_native_frames - length (xs ++ v ∷ [])) =
      omega (arith, length-append xs (v ∷ [])) in
    ap (λ k. set (xs ++ replicate k Address.null) (length xs) v) room
    ∙ (set-append_mid xs Address.null v _ ∙ sym (append_assoc xs (v ∷ []) _))

-- While there is room, `add_register_to_stack` succeeds and appends the two pointers; on a full
-- stack it fails and changes nothing.
pub add_register_to_stack-Holds :
    (ips sps : List ProcessMemoryAddress) (s : NativeStack) (ip sp : ℕ)
    → Holds ips sps s
    → let (r, s') = add_register_to_stack s ip sp in
      (length ips < max_native_frames
        → (r ≡ ok tt) × Holds (ips ++ Address.new ip ∷ []) (sps ++ Address.new sp ∷ []) s')
      × (length ips ≡ max_native_frames → (r ≡ err tt) × (s' ≡ s))
unfolding add_register_to_stack
add_register_to_stack-Holds ips sps s ip sp h = (with_room, when_full)
  where
    with_room :
        length ips < max_native_frames
        → ((add_register_to_stack s ip sp).0 ≡ ok tt)
          × Holds
              (ips ++ Address.new ip ∷ [])
              (sps ++ Address.new sp ∷ [])
              (add_register_to_stack s ip sp).1
    with_room room =
        let test : ltb s.count max_native_frames ≡ true = lt→ltb _ _ (omega arith) in
        let room' : length sps < max_native_frames = omega arith in
        rw test (
          refl,
          record {
            instruction_ptrs =
                ap₂ (λ l i. set l i (Address.new ip)) h.instruction_ptrs h.count
                ∙ set-padded ips (Address.new ip) room;
            stack_ptrs =
                ap₂ (λ l i. set l i (Address.new sp)) h.stack_ptrs (h.count ∙ sym h.paired)
                ∙ set-padded sps (Address.new sp) room';
            count = omega (arith, length-append ips (Address.new ip ∷ []));
            paired = omega (
              arith,
              length-append ips (Address.new ip ∷ []),
              length-append sps (Address.new sp ∷ []),
            );
            fits = omega (arith, length-append ips (Address.new ip ∷ []));
          },
        )

    when_full :
        length ips ≡ max_native_frames
        → ((add_register_to_stack s ip sp).0 ≡ err tt) × ((add_register_to_stack s ip sp).1 ≡ s)
    when_full full =
        let test : ltb s.count max_native_frames ≡ false = le→ltb _ _ (omega arith) in
        rw test (refl, refl)
