-- ===== src/Replay/Once.antt =====
-- No counter is accepted twice.
use tun_safe.Base.{
  ℕ, ◌+◌, ◌≤◌, ◌<◌, Bool, ◌&&◌, List, [], ◌∷◌, All, arith, ◌==◌, if◌then◌else◌, ℕ_discrete,
}
use tun_safe.Replay.{init, run, window_size, reject_after_messages}
use tun_safe.Replay.Window
use tun_safe.Replay.Window.{Window, empty, mem, accepts, step}
use tun_safe.Replay.Refine.{run-init_refines}

-- How often `n` arrives with a positive verdict.
unfoldable pub accepted : ℕ → List ℕ → List Bool → ℕ
accepted n [] vs = 0
accepted n (m ∷ ms) [] = 0
accepted n (m ∷ ms) (v ∷ vs) = (if v && (n == m) then 1 else 0) + accepted n ms vs

room : ℕ → List ℕ → ℕ
room n seen = if mem n seen then 0 else 1

room-step :
    (n m : ℕ) (w : Window)
    → let (w', verdict) = step window_size w m in
      (if verdict && (n == m) then 1 else 0) + room n w'.seen ≤ room n w.seen
unfolding room step mem
room-step n m w = elim (ℕ_discrete n m) [ yes e ↦ rw e (ground arith) | no ne ↦ ground arith ]

Window_once :
    (n : ℕ) (w : Window) (ns : List ℕ) → accepted n ns (Window.run window_size w ns) ≤ room n w.seen
unfolding accepted Window.run room
Window_once n w [] = omega arith
Window_once n w (m ∷ ms) = omega (arith, room-step n m w, Window_once n (step window_size w m).0 ms)

room-empty : (n : ℕ) → room n [] ≤ 1
unfolding room mem
room-empty n = omega arith

-- However packets with counters below REJECT_AFTER_MESSAGES are ordered and repeated, a new detector
-- accepts each counter at most once.
pub run-init_once :
    (n : ℕ) (ns : List ℕ)
    → All (λ m. m < reject_after_messages) ns
    → accepted n ns (run init ns) ≤ 1
run-init_once n ns h =
    rw (run-init_refines ns h) (omega (arith, Window_once n empty ns, room-empty n))
