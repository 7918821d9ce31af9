-- ===== src/Downsampling/Cursor.antt =====
-- Where `thread_downsampling` stands after `n` rounds: its counters are the number of rounds, taken
-- apart.
use native.Mathlib.Nat.{mod-add-mod, mod-eq_of_lt}
use native.Mathlib.Numerals.{add-one}
use plhr_firmware.Common.{ℕ, zero, suc, ◌+◌, ◌*◌, ◌/◌, ◌%◌, ◌^◌, ◌<◌, ◌≡◌, ap, subst, arith}
use plhr_firmware.Downsampling.{
  Args, Shared, Dws, Input, start, synchronise, fill, advance, iteration, rounds,
}

pub record IsAt (a : Args) (n : ℕ) (d : Dws) : Type 0 where
  pub input : d.cnt_buffer_in ≡ n % a.dma_num_buffers
  pub slot : d.cnt_buffer_out ≡ n % 78
  pub count : d.data_buffer_count ≡ n % 2 ^ 64
  pub message : d.n_msg ≡ n / 78 % 10
  pub posts : d.mqtt_posts ≡ n / 78
  pub pointer : d.base ≡ n % a.dma_num_buffers * a.size_buffer_in

pub start-IsAt : (a : Args) → 0 < a.dma_num_buffers → IsAt a 0 start
unfolding start
start-IsAt a h =
    let first : 0 % a.dma_num_buffers ≡ 0 = mod-eq_of_lt {n = 0} {m = a.dma_num_buffers} h in
    omega (arith, ap (λ (t : ℕ). t * a.size_buffer_in) first)

advance-IsAt : (a : Args) (n : ℕ) (d : Dws) → IsAt a n d → IsAt a (n + 1) (advance a d)
unfolding advance
advance-IsAt a n d v =
    let next : (d.cnt_buffer_in + 1) % a.dma_num_buffers ≡ (n + 1) % a.dma_num_buffers =
      rw v.input (mod-add-mod n a.dma_num_buffers 1) in
    record {
      input = next;
      slot = ground arith;
      count = ground arith;
      message = ground arith;
      posts = ground arith;
      pointer = ap (λ (t : ℕ). t * a.size_buffer_in) next;
    }

-- The counters do not depend on what is copied.
fill-IsAt : (a : Args) (i : Input) (n : ℕ) (d : Dws) → IsAt a n d → IsAt a n (fill a i d)
unfolding fill
fill-IsAt a i n d v = omega arith

module _ (to_nanoseconds : ℕ → ℕ) where
  pub synchronise-IsAt :
      (a : Args) (i : Input) (n : ℕ) (d : Dws) (s : Shared)
      → IsAt a n d
      → IsAt a n (synchronise to_nanoseconds i (d, s)).0
  unfolding synchronise
  synchronise-IsAt a i n d s v = ground arith

  pub iteration-IsAt :
      (a : Args) (i : Input) (n : ℕ) (d : Dws) (s : Shared)
      → IsAt a n d
      → IsAt a (n + 1) (iteration to_nanoseconds a i (d, s)).0
  unfolding iteration
  iteration-IsAt a i n d s v =
      let d' = (synchronise to_nanoseconds i (d, s)).0 in
      advance-IsAt a n (fill a i d') (fill-IsAt a i n d' (synchronise-IsAt a i n d s v))

  -- After `n` rounds, whatever the inputs and the other threads, the thread has counted `n` buffers
  -- (modulo 2 ^ 64), reads DMA buffer `n % dma_num_buffers`, fills slot `n % 78` of message
  -- `n / 78 % 10`, and has posted `n / 78` full messages.
  pub rounds-IsAt :
      (a : Args) (inputs : ℕ → Input) (others : ℕ → Shared → Shared) (s : Shared) (n : ℕ)
      → 0 < a.dma_num_buffers
      → IsAt a n (rounds to_nanoseconds a inputs others n (start, s)).0
  unfolding rounds
  rounds-IsAt a inputs others s zero h = start-IsAt a h
  rounds-IsAt a inputs others s (suc n) h =
      let (d, s') = rounds to_nanoseconds a inputs others n (start, s) in
      subst (λ k. IsAt a k (iteration to_nanoseconds a (inputs n) (d, others n s')).0) (add-one n)
        (iteration-IsAt a (inputs n) n d (others n s') (rounds-IsAt a inputs others s n h))
