-- ===== src/Replay/Ring.antt =====
-- The ring of words: which slots `clear` empties, and what it keeps.
use tun_safe.Base.{
  ℕ, zero, suc, ◌+◌, ◌-◌, ◌%◌, ◌^◌, ◌<◌, ◌≡◌, ◌≢◌, ◌∙◌, refl, List, [], ◌∷◌, arith, length, get_or,
  set, length-set, get_or-set_self, get_or-set_ne, dec_lt,
}
use tun_safe.Replay.{bitmap_size, clear}

pub length-clear : (bitmap : List ℕ) (p k : ℕ) → length (clear bitmap p k) ≡ length bitmap
unfolding clear
length-clear bitmap p zero = refl
length-clear bitmap p (suc k) =
    length-clear (set bitmap ((p + suc k) % 2 ^ 64 % bitmap_size) 0) p k ∙ length-set bitmap _ 0

set_zero : (bitmap : List ℕ) (j i : ℕ) → get_or bitmap i 0 ≡ 0 → get_or (set bitmap j 0) i 0 ≡ 0
set_zero [] j i h = refl
set_zero (x ∷ xs) zero zero h = refl
set_zero (x ∷ xs) zero (suc i) h = h
set_zero (x ∷ xs) (suc j) zero h = h
set_zero (x ∷ xs) (suc j) (suc i) h = set_zero xs j i h

clear_zero :
    (bitmap : List ℕ) (p k i : ℕ) → get_or bitmap i 0 ≡ 0 → get_or (clear bitmap p k) i 0 ≡ 0
unfolding clear
clear_zero bitmap p zero i h = h
clear_zero bitmap p (suc k) i h =
    clear_zero (set bitmap ((p + suc k) % 2 ^ 64 % bitmap_size) 0) p k i (set_zero bitmap _ i h)

-- `start` is the first slot that is emptied, which is prev_slot + 1 with no wrap.
module _ (p start : ℕ) (starts : p ≡ (start + 2 ^ 64 - 1) % 2 ^ 64) (small : start < 2 ^ 63) where
  wraps : (k : ℕ) → (p + suc k) % 2 ^ 64 % bitmap_size ≡ (start + k) % bitmap_size
  wraps k = omega arith

  pub clear_miss :
      (bitmap : List ℕ) (k i : ℕ)
      → ((t : ℕ) → t < k → (start + t) % bitmap_size ≢ i)
      → get_or (clear bitmap p k) i 0 ≡ get_or bitmap i 0
  unfolding clear
  clear_miss bitmap zero i h = refl
  clear_miss bitmap (suc k) i h =
      clear_miss (set bitmap ((p + suc k) % 2 ^ 64 % bitmap_size) 0) k i (λ t l. h t (omega arith))
      ∙ get_or-set_ne bitmap _ i 0 0 (λ e. h k (omega arith) (omega (arith, wraps k)))

  pub clear_hit :
      (bitmap : List ℕ) (k t : ℕ)
      → length bitmap ≡ bitmap_size
      → t < k
      → get_or (clear bitmap p k) ((start + t) % bitmap_size) 0 ≡ 0
  unfolding clear
  clear_hit bitmap zero t full h = absurd (omega arith)
  clear_hit bitmap (suc k) t full h =
      let j = (p + suc k) % 2 ^ 64 % bitmap_size in
      elim (dec_lt t k) [
        | yes l ↦ clear_hit (set bitmap j 0) k t (length-set bitmap j 0 ∙ full) l
        | no l ↦
            let e : (start + t) % bitmap_size ≡ j = omega (arith, wraps k) in
            rw e (clear_zero (set bitmap j 0) p k j (get_or-set_self bitmap j 0 0 (omega arith)))
      ]
