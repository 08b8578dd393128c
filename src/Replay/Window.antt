-- ===== src/Replay/Window.antt =====
-- What RFC 6479 asks of the detector, with no bitmap: the numbers accepted so far, and the next one
-- expected.
use tun_safe.Base.{
  ℕ, ◌+◌, max, Bool, true, false, ◌&&◌, ◌||◌, not, List, [], ◌∷◌, ltb, ◌==◌, if◌then◌else◌,
}

pub record Window : Type 0 where
  pub next : ℕ
  pub seen : List ℕ

abbrev pub empty : Window
empty = record { next = 0; seen = [] }

-- Is `n` among the numbers?
unfoldable pub mem : ℕ → List ℕ → Bool
mem n [] = false
mem n (m ∷ ms) = n == m || mem n ms

module _ (size : ℕ) where
  -- A number is accepted if it is not `size` or more behind the next one expected, and was not
  -- accepted before.
  unfoldable pub accepts : Window → ℕ → Bool
  accepts w n = ltb w.next (n + size) && not (mem n w.seen)

  unfoldable pub step : Window → ℕ → Window × Bool
  unfolding accepts
  step w n =
      if accepts w n
      then (record { next = max w.next (n + 1); seen = n ∷ w.seen }, true)
      else (w, false)

  unfoldable pub run : Window → List ℕ → List Bool
  run w [] = []
  run w (n ∷ ns) = let (w', verdict) = step w n in verdict ∷ run w' ns
