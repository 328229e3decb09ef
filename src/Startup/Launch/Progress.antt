-- ===== src/Startup/Launch/Progress.antt =====
-- The handshake of src/startup.rs, when no call fails: neither process waits for ever.
use profiler_rs.Ipc.{Ipc, IsDocumented, NeverFails}
use profiler_rs.Prelude.{
  ℕ, zero, suc, ◌+◌, ◌≤◌, arith, ◌≡◌, ◌≢◌, refl, List, [], ◌∷◌, some, String, ◌⊎◌, inl, inr, ap,
  subst, eq_of_some,
}
use profiler_rs.Startup.{profiler_service_flag}
use profiler_rs.Startup.Launch.{
  ToProfilerService, hello, greeted, finished, service_process, System, initial, Mover, app_moves,
  child_moves, step, run,
}
use profiler_rs.Startup.Launch.ServiceSide.{Fits}
use profiler_rs.Startup.Launch.Handshake.{step-Fits, initial-Fits}
use profiler_rs.Startup.Launch.Gains.{
  working_os, app_rank, child_rank, IsBlocked, AppGain, ChildGain, app_step-AppGain,
  child_step-ChildGain,
}
use profiler_rs.Startup.Launch.Ends.{rank, IsSound, finished_child, spawned-Keeps, rank-AllDone}

-- Rounds in which the child moves and then the app.
abbrev pub rounds : ℕ → List Mover
rounds zero = []
rounds (suc k) = child_moves ∷ app_moves ∷ rounds k

module _ (I : Ipc ToProfilerService) (d : IsDocumented I) (n : NeverFails I d) where
  open I use {World, Server, Bootstrap, Sender, Receiver}

  module _ (path : String) (other : path ≢ profiler_service_flag) where
    finds : (p : String) → (working_os path).current_exe ≡ some p → p ≢ profiler_service_flag
    finds p e = subst (λ q. q ≢ profiler_service_flag) (eq_of_some e) other

    one_round : System I → System I
    one_round s = step I (working_os path) (step I (working_os path) s child_moves) app_moves

    app_moves-IsSound :
        (s : System I)
        → IsSound I d n s
        → let t = step I (working_os path) s app_moves in
          IsSound I d n t
          × AppGain I s.app s.child t.app
          × (child_rank I s.child ≤ child_rank I t.child)
    unfolding step
    app_moves-IsSound s (h, well, fine) =
        let gain = app_step-AppGain I d n path s.app s.child s.world h well in
        let (fine', kept) = spawned-Keeps I d n path s.app s.child s.world h fine in
        ((step-Fits I d (working_os path) finds s app_moves h, gain.0, fine'), gain, kept)

    child_moves-IsSound :
        (s : System I)
        → IsSound I d n s
        → let t = step I (working_os path) s child_moves in
          IsSound I d n t × ChildGain I s.app s.child t.child × (s.app ≡ t.app)
    unfolding step
    child_moves-IsSound s (h, well, fine) =
        let gain = child_step-ChildGain I d n s.app s.child s.world h well fine in
        ((step-Fits I d (working_os path) finds s child_moves h, well, gain.0), gain, refl)

    round-IsSound :
        (s : System I)
        → IsSound I d n s
        → IsSound I d n (one_round s)
          × ((suc (rank I d n s) ≤ rank I d n (one_round s)) ⊎ (9 ≤ rank I d n (one_round s)))
    unfolding one_round
    round-IsSound s sound =
        let s' = step I (working_os path) s child_moves in
        let (sound', (_, child_kept, child_gain), same) = child_moves-IsSound s sound in
        let (sound'', (_, app_kept, app_gain), kept) = app_moves-IsSound s' sound' in
        let rank_kept = ap (app_rank I) same in
        (
          sound'',
          elim child_gain [
            | inl more ↦ inl (omega arith)
            | inr blocked ↦ elim (app_gain (subst (λ a. IsBlocked I a s'.child) same blocked)) [
              | inl more ↦ inl (omega arith)
              | inr ends ↦
                  let four =
                    finished_child I d n s'.child s'.world
                      (subst (λ a. Fits I d a s'.child s'.world) ends sound'.0) sound'.2 in
                  inr (omega (arith, ap (app_rank I) ends))
            ]
          ],
        )

    rounds-IsSound :
        (k : ℕ) (s : System I)
        → IsSound I d n s
        → 9 ≤ rank I d n s + k
        → let t = run I (working_os path) s (rounds k) in IsSound I d n t × (9 ≤ rank I d n t)
    unfolding run one_round
    rounds-IsSound zero s sound far = (sound, omega arith)
    rounds-IsSound (suc k) s sound far =
        let (sound', gain) = round-IsSound s sound in
        rounds-IsSound k (one_round s) sound'
          (elim gain [ inl more ↦ omega arith | inr top ↦ omega arith ])

    step-IsSound :
        (s : System I) (m : Mover) → IsSound I d n s → IsSound I d n (step I (working_os path) s m)
    step-IsSound s app_moves sound = (app_moves-IsSound s sound).0
    step-IsSound s child_moves sound = (child_moves-IsSound s sound).0

    run-IsSound :
        (s : System I) (ms : List Mover)
        → IsSound I d n s
        → IsSound I d n (run I (working_os path) s ms)
    unfolding run
    run-IsSound s [] sound = sound
    run-IsSound s (m ∷ ms) sound =
        run-IsSound (step I (working_os path) s m) ms (step-IsSound s m sound)

    initial-IsSound : (w : World) → IsSound I d n (initial I w)
    unfolding initial
    initial-IsSound w = (initial-Fits I d w, λ e. cc, λ e. cc)

    -- When no call fails and the path of the executable is not the flag, then from wherever the two
    -- processes have come to, in any interleaving, nine rounds in which the child and then the app
    -- moves bring both to their end, with the service greeted by the hello with 7.
    pub run-rounds :
        (w : World) (ms : List Mover)
        → let t = run I (working_os path) (run I (working_os path) (initial I w) ms) (rounds 9) in
          (t.app ≡ finished) × (t.child ≡ some (service_process (greeted (hello 7))))
    run-rounds w ms =
        let s = run I (working_os path) (initial I w) ms in
        let (sound, top) =
          rounds-IsSound 9 s (run-IsSound (initial I w) ms (initial-IsSound w)) (omega arith) in
        rank-AllDone I d n (run I (working_os path) s (rounds 9)) sound.0 top
