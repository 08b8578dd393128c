-- ===== src/Replay/Refine.antt =====
-- The ring of words holds exactly the accepted numbers of the window, so the detector decides as
-- the window does.
use tun_safe.Base.{
  ℕ, ◌+◌, ◌-◌, ◌/◌, ◌%◌, ◌^◌, ◌<◌, ◌≤◌, ◌≡◌, ◌≢◌, ◌∙◌, refl, sym, ap, ap₂, subst, max, min, bit_or,
  Bool, true, false, ◌||◌, not, List, [], ◌∷◌, arith, length, get_or, length-set, get_or-set_self,
  get_or-set_ne, dec_lt, ℕ_discrete, ltb, leb, ◌==◌, ==_refl, if◌then◌else◌, inl, inr, Bool-cases,
  lt→ltb, leb→le, All,
}
use tun_safe.Base.Bits.{bit, bit-zero, bit-bit_or_self, bit-bit_or_ne, tested_clear, tested_set}
use tun_safe.Replay.{
  bitmap_size, window_size, reject_after_messages, ReplayDetector, init, clear, prev_slot_of,
  advance, mark, check_replay, run,
}
use tun_safe.Replay.Window
use tun_safe.Replay.Window.{Window, empty, mem, step}
use tun_safe.Replay.Ring.{length-clear, clear_miss, clear_hit}

-- The first slot after the last number before `next`.
abbrev slots : ℕ → ℕ
slots next = (next + 31) / 32

abbrev digit : Bool → ℕ
digit b = if b then 1 else 0

-- The ring holds one bit for each number in its 64 newest slots: whether it was accepted.
abbrev Held : ℕ → List ℕ → List ℕ → Type 0
Held next seen bitmap =
    (m : ℕ)
    → m / 32 < slots next
    → slots next ≤ m / 32 + 64
    → bit (get_or bitmap (m / 32 % bitmap_size) 0) (m % 32) ≡ digit (mem m seen)

pub record Tracks (next : ℕ) (seen bitmap : List ℕ) : Type 0 where
  pub full : length bitmap ≡ bitmap_size
  pub small : next ≤ reject_after_messages
  pub below : (m : ℕ) → mem m seen ≡ true → m < next
  pub held : Held next seen bitmap

not_seen :
    {next : ℕ} {seen bitmap : List ℕ}
    → Tracks next seen bitmap
    → (m : ℕ) → next ≤ m
    → mem m seen ≡ false
not_seen {seen = seen} t m h = elim (Bool-cases (mem m seen)) [
  | inl old ↦ absurd (omega (arith, t.below m old))
  | inr new ↦ new
]

emptied : ReplayDetector → ℕ → ℕ
emptied d n = min (n / 32 + 1 - slots d.expected_seq_nr) bitmap_size

-- `advance` empties the slots up to that of `n`, at most the whole ring.
advance_lem :
    (d : ReplayDetector) (n : ℕ)
    → d.expected_seq_nr ≤ n
    → n < reject_after_messages
    → (advance d n).bitmap ≡ clear d.bitmap (prev_slot_of d.expected_seq_nr) (emptied d n)
unfolding advance emptied clear
advance_lem d n h l = ground arith

expected-advance :
    (d : ReplayDetector) (n : ℕ) → n < reject_after_messages → (advance d n).expected_seq_nr ≡ n + 1
unfolding advance
expected-advance d n l = omega arith

module _ (d : ReplayDetector) (n : ℕ) (seen : List ℕ) (t : Tracks d.expected_seq_nr seen d.bitmap)
    (ahead : d.expected_seq_nr ≤ n) (l : n < reject_after_messages) where
  abbrev start : ℕ
  start = slots d.expected_seq_nr

  starts : prev_slot_of d.expected_seq_nr ≡ (start + 2 ^ 64 - 1) % 2 ^ 64
  starts = omega (arith, t.small)

  kept :
      (s : ℕ)
      → s < start
      → n / 32 + 1 ≤ s + 64
      → get_or (clear d.bitmap (prev_slot_of d.expected_seq_nr) (emptied d n)) (s % bitmap_size) 0
        ≡ get_or d.bitmap (s % bitmap_size) 0
  unfolding emptied
  kept s h k =
      clear_miss _ start starts (omega (arith, t.small)) d.bitmap _ _
        (λ j hj. omega (arith, t.small))

  gone :
      (s : ℕ)
      → start ≤ s
      → s ≤ n / 32
      → n / 32 + 1 ≤ s + 64
      → get_or (clear d.bitmap (prev_slot_of d.expected_seq_nr) (emptied d n)) (s % bitmap_size) 0
        ≡ 0
  unfolding emptied
  gone s h k w =
      let e : s % bitmap_size ≡ (start + (s - start) % 64) % bitmap_size = omega arith in
      rw e (
        clear_hit _ start starts (omega (arith, t.small)) d.bitmap _ ((s - start) % 64) t.full
          (omega arith))

  advance-Held : Held (n + 1) seen (advance d n).bitmap
  advance-Held m h k = rw (advance_lem d n ahead l) (elim (dec_lt (m / 32) start) [
    | yes old ↦ rw (kept (m / 32) old (omega arith)) (t.held m old (omega arith))
    | no new ↦ rw (
      gone (m / 32) (omega arith) (omega arith) (omega arith),
      bit-zero,
      not_seen t m (omega arith),
    )
  ])

  pub advance-Tracks : Tracks (n + 1) seen (advance d n).bitmap
  advance-Tracks = record {
    full = rw (advance_lem d n ahead l) (length-clear d.bitmap _ _ ∙ t.full);
    small = omega arith;
    below = λ m e. omega (arith, t.below m e);
    held = advance-Held;
  }

abbrev marked : ℕ → List ℕ → List ℕ
marked n seen = if mem n seen then seen else n ∷ seen

mem-marked : (m n : ℕ) (seen : List ℕ) → mem m (marked n seen) ≡ (m == n || mem m seen)
unfolding mem
mem-marked m n seen = elim (Bool-cases (mem n seen)) [
  | inl old ↦
      rw old (elim (ℕ_discrete m n) [ yes e ↦ rw (e, old, ==_refl n) | no ne ↦ ground arith ])
  | inr new ↦ rw new
]

module _ (d : ReplayDetector) (n : ℕ) (seen : List ℕ) (t : Tracks d.expected_seq_nr seen d.bitmap)
    (behind : n < d.expected_seq_nr) (inside : slots d.expected_seq_nr ≤ n / 32 + 64) where
  abbrev word : ℕ
  word = get_or d.bitmap (n / 32 % bitmap_size) 0

  pub verdict-mark : (mark d n).1 ≡ not (mem n seen)
  unfolding mark
  verdict-mark = elim (Bool-cases (mem n seen)) [
    | inl old ↦ rw old (tested_set (n % 32) word (t.held n (omega arith) inside ∙ ap digit old))
    | inr new ↦ rw new (tested_clear (n % 32) word (t.held n (omega arith) inside ∙ ap digit new))
  ]

  differs : (m : ℕ) → m ≢ n → mem m seen ≡ (m == n || mem m seen)
  differs m ne = ground arith

  same_slot :
      (m : ℕ)
      → m / 32 ≡ n / 32
      → bit (get_or (mark d n).0.bitmap (m / 32 % bitmap_size) 0) (m % 32)
        ≡ digit (m == n || mem m seen)
  unfolding mark
  same_slot m e =
      rw
        (
          e,
          get_or-set_self d.bitmap (n / 32 % bitmap_size) (bit_or word (2 ^ (n % 32))) 0
              (omega (arith, t.full)),
        )
        (elim (ℕ_discrete m n) [
          | yes same ↦ rw (same, bit-bit_or_self (n % 32) word, ==_refl n)
          | no ne ↦
              rw (bit-bit_or_ne (n % 32) (m % 32) word (omega arith), ← e)
                (t.held m (omega arith) (omega arith) ∙ ap digit (differs m ne))
        ])

  other_slot :
      (m : ℕ)
      → m / 32 ≢ n / 32
      → m / 32 < slots d.expected_seq_nr
      → slots d.expected_seq_nr ≤ m / 32 + 64
      → bit (get_or (mark d n).0.bitmap (m / 32 % bitmap_size) 0) (m % 32)
        ≡ digit (m == n || mem m seen)
  unfolding mark
  other_slot m ne h k =
      rw
        (get_or-set_ne d.bitmap (n / 32 % bitmap_size) (m / 32 % bitmap_size)
          (bit_or word (2 ^ (n % 32))) 0 (omega arith))
        (t.held m h k ∙ ap digit (differs m (λ e. ne (ap (λ j. j / 32) e))))

  below_marked : (m : ℕ) → (m == n || mem m seen) ≡ true → m < d.expected_seq_nr
  below_marked m e = elim (ℕ_discrete m n) [
    | yes same ↦ omega arith
    | no ne ↦ t.below m (differs m ne ∙ e)
  ]

  pub mark-Tracks : Tracks d.expected_seq_nr (marked n seen) (mark d n).0.bitmap
  unfolding mark
  mark-Tracks = record {
    full = length-set d.bitmap _ _ ∙ t.full;
    small = t.small;
    below = λ m e. below_marked m (sym (mem-marked m n seen) ∙ e);
    held = λ m h k. rw (mem-marked m n seen) (elim (ℕ_discrete (m / 32) (n / 32)) [
      | yes e ↦ same_slot m e
      | no ne ↦ other_slot m ne h k
    ]);
  }

-- What one call promises: the verdict of the window, and a ring that tracks the new window.
pub record Agrees (out : ReplayDetector × Bool) (spec : Window × Bool) : Type 0 where
  pub verdict : out.1 ≡ spec.1
  pub next : out.0.expected_seq_nr ≡ spec.0.next
  pub tracks : Tracks spec.0.next spec.0.seen out.0.bitmap

abbrev pub view : ReplayDetector → List ℕ → Window
view d seen = record { next = d.expected_seq_nr; seen = seen }

-- `mark`, on a number of the window.
mark_refines :
    (d : ReplayDetector) (n : ℕ) (seen : List ℕ)
    → Tracks d.expected_seq_nr seen d.bitmap
    → n < d.expected_seq_nr
    → d.expected_seq_nr < n + window_size
    → Agrees (mark d n) (step window_size (view d seen) n)
unfolding step mark
mark_refines d n seen t behind near = rw (lt→ltb _ _ near) (elim (Bool-cases (mem n seen)) [
  | inl old ↦ rw old (record {
    verdict = verdict-mark d n seen t behind (omega arith) ∙ ap not old;
    next = refl;
    tracks = subst (λ s. Tracks d.expected_seq_nr s (mark d n).0.bitmap) (rw old) kept_up;
  })
  | inr new ↦ rw new (record {
    verdict = verdict-mark d n seen t behind (omega arith) ∙ ap not new;
    next = grows;
    tracks =
        subst (λ e. Tracks e (n ∷ seen) (mark d n).0.bitmap) grows
          (subst (λ s. Tracks d.expected_seq_nr s (mark d n).0.bitmap) (rw new) kept_up);
  })
])
  where
    kept_up : Tracks d.expected_seq_nr (marked n seen) (mark d n).0.bitmap
    kept_up = mark-Tracks d n seen t behind (omega arith)

    grows : d.expected_seq_nr ≡ max d.expected_seq_nr (n + 1)
    grows = omega arith

-- On a number at or past the next one expected, the window accepts at once.
step_ahead :
    (next n : ℕ) (seen : List ℕ)
    → next ≤ n + 1
    → mem n seen ≡ false
    → step window_size (record { next = next; seen = seen }) n
      ≡ (record { next = n + 1; seen = n ∷ seen }, true)
unfolding step
step_ahead next n seen h new =
    let grows : max next (n + 1) ≡ n + 1 = omega arith in
    rw (lt→ltb next (n + window_size) (omega arith), new, grows)

check_replay_ahead :
    (d : ReplayDetector) (n : ℕ) (seen : List ℕ)
    → Tracks d.expected_seq_nr seen d.bitmap
    → d.expected_seq_nr ≤ n
    → n < reject_after_messages
    → Agrees (mark (advance d n) n) (step window_size (view d seen) n)
check_replay_ahead d n seen t ahead l =
    let e = expected-advance d n l in
    let new = not_seen t n ahead in
    let tracks : Tracks (advance d n).expected_seq_nr seen (advance d n).bitmap =
      rw e (advance-Tracks d n seen t ahead l) in
    subst (Agrees (mark (advance d n) n))
      (step_ahead (advance d n).expected_seq_nr n seen (omega (arith, e)) new
        ∙ sym (step_ahead d.expected_seq_nr n seen (omega arith) new))
      (mark_refines (advance d n) n seen tracks (omega (arith, e)) (omega (arith, e)))

-- On a detector that tracks a window of seen counters, and for a counter below REJECT_AFTER_MESSAGES,
-- CheckReplay decides as the window does, on every branch, and keeps tracking it.
pub check_replay_refines :
    (d : ReplayDetector) (n : ℕ) (seen : List ℕ)
    → Tracks d.expected_seq_nr seen d.bitmap
    → n < reject_after_messages
    → Agrees (check_replay d n) (step window_size (view d seen) n)
unfolding check_replay
check_replay_refines d n seen t l = elim (Bool-cases (leb d.expected_seq_nr n)) [
  | inl ahead ↦ rw ahead (check_replay_ahead d n seen t (leb→le _ _ ahead) l)
  | inr behind ↦ rw behind (elim (Bool-cases (leb ((n + window_size) % 2 ^ 64) d.expected_seq_nr)) [
    | inl old ↦ rw old (refused (leb→le _ _ old))
    | inr near ↦ rw near (mark_refines d n seen t (ground arith) (ground arith))
  ])
]
  where
    refused :
        (n + window_size) % 2 ^ 64 ≤ d.expected_seq_nr
        → Agrees (d, false) (step window_size (view d seen) n)
    refused h =
        let far : ltb d.expected_seq_nr (n + window_size) ≡ false = ground arith in
        unfold step in rw far (record { verdict = refl; next = refl; tracks = t })

pub init-Tracks : Tracks 0 [] (let d = init in d.bitmap)
unfolding init mem
init-Tracks = record {
  full = refl;
  small = omega arith;
  below = λ m e. cc;
  held = λ m h k. absurd (omega arith);
}

run_refines :
    (d : ReplayDetector) (seen ns : List ℕ)
    → Tracks d.expected_seq_nr seen d.bitmap
    → All (λ n. n < reject_after_messages) ns
    → run d ns ≡ Window.run window_size (view d seen) ns
unfolding run Window.run
run_refines d seen [] t h = refl
run_refines d seen (n ∷ ns) t h =
    let d' = (check_replay d n).0 in
    let w = (step window_size (view d seen) n).0 in
    let a = check_replay_refines d n seen t h.0 in
    let tracks : Tracks d'.expected_seq_nr w.seen d'.bitmap =
      subst (λ e. Tracks e w.seen d'.bitmap) (sym a.next) a.tracks in
    ap₂ (λ v vs. v ∷ vs) a.verdict
      (run_refines d' w.seen ns tracks h.1
        ∙ ap (λ e. Window.run window_size (record { next = e; seen = w.seen }) ns) a.next)

-- Over any sequence of packets whose counters are below REJECT_AFTER_MESSAGES, in any order, a new
-- detector gives the verdicts of the window of 2016 numbers: a counter is accepted exactly when it
-- is not 2016 or more behind the next one expected and was not accepted before.
pub run-init_refines :
    (ns : List ℕ)
    → All (λ n. n < reject_after_messages) ns
    → run init ns ≡ Window.run window_size empty ns
unfolding init
run-init_refines ns h = run_refines init [] ns init-Tracks h
