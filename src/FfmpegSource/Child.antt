-- ===== src/FfmpegSource/Child.antt =====
-- `TerminateChild` of daemon/src/ffmpeg_source.cpp, and how descriptors and children leave their lists.
use vcames.Common.{ℕ, zero, suc, ◌<◌, ◌≡◌, refl, ◌≢◌, some, List, [], ◌∷◌, arith}
use vcames.V4l2Sink.{without}
use vcames.FfmpegSource.{
  Process, forget, kills, sigterm, sigkill, WaitAnswer, reaped, no_child, pending, wait_for_end,
  wait_politely, terminate_child,
}

pub without-tail :
    (fd other : ℕ) (files : List ℕ)
    → other ≢ fd
    → without fd (other ∷ files) ≡ other ∷ without fd files
unfolding without
without-tail fd other files differs = ground arith

-- The child is gone, and nothing else has changed but for the signals.
pub record IsWaited (child : ℕ) (p q : Process) : Type 0 where
  pub same_files : q.open_files ≡ p.open_files
  pub gone : q.children ≡ without child p.children

wait_for_end-IsWaited :
    (child : ℕ) (answers : List WaitAnswer) (p q : Process)
    → wait_for_end child answers p ≡ some q
    → IsWaited child p q
unfolding wait_for_end forget
wait_for_end-IsWaited child [] p q h = cc
wait_for_end-IsWaited child (pending ∷ answers) p q h = wait_for_end-IsWaited child answers p q h
wait_for_end-IsWaited child (reaped _ ∷ answers) p q h =
    let e : forget child p ≡ q = cc in rw (← e) (record { same_files = refl; gone = refl })
wait_for_end-IsWaited child (no_child ∷ answers) p q h =
    let e : forget child p ≡ q = cc in rw (← e) (record { same_files = refl; gone = refl })

after_kill :
    (child : ℕ) (p q : Process) → IsWaited child (kills child sigkill p) q → IsWaited child p q
after_kill child p q w = record { same_files = w.same_files; gone = w.gone }

wait_politely-IsWaited :
    (attempts child : ℕ) (answers : List WaitAnswer) (p q : Process)
    → wait_politely attempts child answers p ≡ some q
    → IsWaited child p q
unfolding wait_politely forget
wait_politely-IsWaited zero child answers p q h =
    after_kill child p q (wait_for_end-IsWaited child answers (kills child sigkill p) q h)
wait_politely-IsWaited (suc n) child [] p q h = cc
wait_politely-IsWaited (suc n) child (pending ∷ answers) p q h =
    wait_politely-IsWaited n child answers p q h
wait_politely-IsWaited (suc n) child (reaped _ ∷ answers) p q h =
    let e : forget child p ≡ q = cc in rw (← e) (record { same_files = refl; gone = refl })
wait_politely-IsWaited (suc n) child (no_child ∷ answers) p q h =
    let e : forget child p ≡ q = cc in rw (← e) (record { same_files = refl; gone = refl })

pub terminate_child-IsWaited :
    (child : ℕ) (answers : List WaitAnswer) (p q : Process)
    → 0 < child
    → terminate_child child answers p ≡ some q
    → IsWaited child p q
unfolding terminate_child
terminate_child-IsWaited zero answers p q above h = absurd (omega (arith, above))
terminate_child-IsWaited (suc pid) answers p q above h =
    let w = wait_politely-IsWaited 20 (suc pid) answers (kills (suc pid) sigterm p) q h in
    record { same_files = w.same_files; gone = w.gone }
