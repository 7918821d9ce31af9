-- ===== src/Acquisition/Lag.antt =====
-- The buffers that the interrupt routine of Core/empty.c arms, beside the buffers that
-- `thread_downsampling` of Core/dws_user.c reads. Transfer `k` is the `k`-th that the set-up and
-- the interrupts have started; its end wakes round `k` of the thread.
use plhr_firmware.Common.{
  ℕ, zero, suc, ◌+◌, ◌-◌, ◌%◌, ◌^◌, ◌≤◌, ◌<◌, ◌≡◌, ◌≢◌, refl, ap, ◌∙◌, List, [], ◌∷◌, length,
  get_or, arith, length-append, get_or-append_left, get_or-append_right, ℕ_discrete,
}
use plhr_firmware.Acquisition.{Select, primary, Mode, Call, State, set_up}
use plhr_firmware.Acquisition.Isr.{
  transfers, interrupts, HasStopped, stopped, armed, interrupts-IsAt,
}
use plhr_firmware.Downsampling.{Args, Shared, Input, start, rounds}
use plhr_firmware.Downsampling.Cursor.{rounds-IsAt}

-- The buffer that transfer `k` fills.
abbrev pub buffer_of : List Call → ℕ → ℕ
buffer_of cs k = (get_or (transfers cs) k (primary, 0)).1

length-armed : (modes : ℕ → Select → Mode) (n : ℕ) → length (armed modes n) ≡ n
length-armed modes zero = refl
length-armed modes (suc n) = omega (
  arith,
  length-append (armed modes n) ((stopped (modes n), (n + 3) % 2 ^ 16 % 30) ∷ []),
  length-armed modes n,
)

get_or-armed :
    (modes : ℕ → Select → Mode) (n k : ℕ)
    → k < n
    → (get_or (armed modes n) k (primary, 0)).1 ≡ (k + 3) % 2 ^ 16 % 30
get_or-armed modes zero k h = absurd (omega arith)
get_or-armed modes (suc n) k h = elim (ℕ_discrete k n) [
  | yes e ↦ rw e (
      let at_end : length (armed modes n) + 0 ≡ n = omega (arith, length-armed modes n) in
      ap (λ (x : Select × ℕ). x.1)
        (rw at_end at (
          get_or-append_right (armed modes n) ((stopped (modes n), (n + 3) % 2 ^ 16 % 30) ∷ []) 0
            (primary, 0))))
  | no ne ↦
      ap (λ (x : Select × ℕ). x.1)
        (get_or-append_left (armed modes n) ((stopped (modes n), (n + 3) % 2 ^ 16 % 30) ∷ []) k
          (primary, 0) (omega (arith, length-armed modes n)))
      ∙ get_or-armed modes n k (omega arith)
]

module _ (modes : ℕ → Select → Mode) (channel : ℕ) (s : State) (h : (k : ℕ) → HasStopped (modes k))
    (none_yet : s.calls ≡ []) (no_post : s.dws_posts ≡ 0) where
  -- The driver calls of the set-up and `n` interrupts.
  abbrev calls_after : ℕ → List Call
  calls_after n = (interrupts modes channel n (set_up channel s)).calls

  pub buffer_of-interrupts :
      (n k : ℕ) → k < n → buffer_of (calls_after n) (suc (suc k)) ≡ (k + 3) % 2 ^ 16 % 30
  buffer_of-interrupts n k hk =
      ap (λ (ts : List (Select × ℕ)). (get_or ts (suc (suc k)) (primary, 0)).1)
        (interrupts-IsAt modes channel s n h none_yet no_post).list
      ∙ get_or-armed modes n k hk

  buffer_of-first : (n : ℕ) → (buffer_of (calls_after n) 0 ≡ 0) × (buffer_of (calls_after n) 1 ≡ 1)
  buffer_of-first n =
      let list = (interrupts-IsAt modes channel s n h none_yet no_post).list in
      (
        ap (λ (ts : List (Select × ℕ)). (get_or ts 0 (primary, 0)).1) list,
        ap (λ (ts : List (Select × ℕ)). (get_or ts 1 (primary, 0)).1) list,
      )

  module _ (to_nanoseconds : ℕ → ℕ) (a : Args) (inputs : ℕ → Input) (others : ℕ → Shared → Shared)
      (shared : Shared) (thirty : a.dma_num_buffers ≡ 30) where
    -- The buffer that round `k` of the thread reads.
    abbrev read_in : ℕ → ℕ
    read_in k = (rounds to_nanoseconds a inputs others k (start, shared)).0.cnt_buffer_in

    read_in_lem : (k : ℕ) → read_in k ≡ k % 30
    read_in_lem k =
        (rounds-IsAt to_nanoseconds a inputs others shared k (omega arith)).input
        ∙ ap (λ (m : ℕ). k % m) thirty

    -- From round 3 to the wrap of `cnt_dma_write`, the thread reads the buffer of the transfer
    -- before the one that woke it, and not the buffer of that transfer.
    pub reads_previous :
        (n k : ℕ)
        → 3 ≤ k
        → k < n + 2
        → k < 2 ^ 16 - 1
        → (buffer_of (calls_after n) (k - 1) ≡ read_in k)
          × (buffer_of (calls_after n) k ≢ read_in k)
    reads_previous n zero lo hk hi = absurd (omega arith)
    reads_previous n (suc zero) lo hk hi = absurd (omega arith)
    reads_previous n (suc (suc zero)) lo hk hi = absurd (omega arith)
    reads_previous n (suc (suc (suc k))) lo hk hi =
        let e : suc (suc (suc k)) - 1 ≡ suc (suc k) = omega arith in
        rw (read_in_lem (suc (suc (suc k))), e)
          (
            omega (arith, buffer_of-interrupts n k (omega arith)),
            omega (arith, buffer_of-interrupts n (suc k) (omega arith)),
          )

    -- Buffer 2, which round 2 of the thread reads, is the buffer of none of the transfers 0 to 30.
    pub buffer_two_skipped :
        (n k : ℕ) → k < n + 2 → k ≤ 30 → (read_in 2 ≡ 2) × (buffer_of (calls_after n) k ≢ read_in 2)
    buffer_two_skipped n zero hk hi =
        rw (read_in_lem 2) (refl, omega (arith, (buffer_of-first n).0))
    buffer_two_skipped n (suc zero) hk hi =
        rw (read_in_lem 2) (refl, omega (arith, (buffer_of-first n).1))
    buffer_two_skipped n (suc (suc k)) hk hi =
        rw (read_in_lem 2) (refl, omega (arith, buffer_of-interrupts n k (omega arith)))

    -- Past the wrap of the uint16_t `cnt_dma_write`, the thread reads a buffer that was filled
    -- fifteen transfers ago.
    reads_stale_after_wrap :
        (n k : ℕ)
        → 2 ^ 16 + 15 ≤ k
        → k < n + 2
        → k < 2 ^ 17 - 1
        → buffer_of (calls_after n) (k - 15) ≡ read_in k
    reads_stale_after_wrap n k lo hk hi =
        let e : k - 15 ≡ suc (suc (k - 17)) = omega arith in
        rw (read_in_lem k, e) (omega (arith, buffer_of-interrupts n (k - 17) (omega arith)))
