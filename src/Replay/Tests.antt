-- ===== src/Replay/Tests.antt =====
-- The detector on short runs, and the theorems at inputs that meet their hypotheses.
use tun_safe.Base.{ℕ, ◌≡◌, ◌≤◌, refl, true, false, List, [], ◌∷◌, arith}
use tun_safe.Replay.{init, run, check_replay, window_size, mark, advance, clear}
use tun_safe.Replay.Window
use tun_safe.Replay.Window.{empty}
use tun_safe.Replay.Refine.{run-init_refines, check_replay_refines, init-Tracks, view, Agrees}
use tun_safe.Replay.Once.{accepted, run-init_once}

abbrev arrivals : List ℕ
arrivals = 5 ∷ 3 ∷ 5 ∷ 4000 ∷ 1985 ∷ 1986 ∷ 3 ∷ 4000 ∷ []

run-arrivals : run init arrivals ≡ true ∷ true ∷ false ∷ true ∷ false ∷ true ∷ false ∷ false ∷ []
unfolding run init check_replay mark advance clear
run-arrivals = refl

run-init_refines_example : run init arrivals ≡ Window.run window_size empty arrivals
run-init_refines_example = run-init_refines arrivals (omega arith)

run-init_once_example : accepted 5 arrivals (run init arrivals) ≤ 1
run-init_once_example = run-init_once 5 arrivals (omega arith)

check_replay_refines_example :
    Agrees (check_replay init 70) (Window.step window_size (view init []) 70)
unfolding init
check_replay_refines_example = check_replay_refines init 70 [] init-Tracks (omega arith)
