-- ===== src/Pipeline/Published.antt =====
-- What the sender has published, whatever the order of the threads.
use plhr_firmware.Common.{ℕ, ◌+◌, ◌*◌, ◌/◌, ◌≤◌, ◌<◌, ◌≡◌, false, length, get_or, arith}
use plhr_firmware.Messages.{zero_message}
use plhr_firmware.Samples.{rate}
use plhr_firmware.Downsampling.{Args, Shared, Input}
use plhr_firmware.Pipeline.{Pipe, created, Step, Reach, here, later}
use plhr_firmware.Pipeline.Invariant.{
  IsComplete, IsSound, created-IsSound, downsample-IsSound, take-IsSound, send-IsSound,
}

module _ (to_nanoseconds : ℕ → ℕ) (a : Args) (inputs : ℕ → Input)
    (room : a.size_buffer_in / (rate * 2) * 3 ≤ 150) where
  Step-IsSound :
      {p q : Pipe} → IsSound a inputs p → Step to_nanoseconds a inputs p q → IsSound a inputs q
  Step-IsSound {p} v Step.transfer_ends = record {
    cursor = v.cursor;
    retains = v.retains;
    order = v.order;
    transferred = omega (arith, v.transferred);
    posted = v.posted;
    taken = v.taken;
    logged = v.logged;
    header = v.header;
    published = v.published;
  }
  Step-IsSound {p} v (Step.time_comes s) = record {
    cursor = v.cursor;
    retains = v.retains;
    order = v.order;
    transferred = v.transferred;
    posted = v.posted;
    taken = v.taken;
    logged = v.logged;
    header = v.header;
    published = v.published;
  }
  Step-IsSound {p} v (Step.downsamples h) = downsample-IsSound a inputs to_nanoseconds room p v h
  Step-IsSound {p} v (Step.takes id_device off more) = take-IsSound a inputs p id_device v off more
  Step-IsSound {p} v (Step.sends answer on) = send-IsSound a inputs p answer v on

  pub Reach-IsSound :
      (s : Shared)
      → 0 < a.dma_num_buffers
      → {p : Pipe} → Reach to_nanoseconds a inputs (created s) p
      → IsSound a inputs p
  Reach-IsSound s dma here = created-IsSound a inputs s dma
  Reach-IsSound s dma (later r st) = Step-IsSound (Reach-IsSound s dma r) st

  -- In every order of the steps of the two threads, message `j` that the sender publishes has the
  -- header of a data message with the number `j` (modulo 2 ^ 32), and was full: of the `n` rounds
  -- that the downsampling thread had made by then, 78 filled it. Its buffer `i` is that of the last
  -- of the `n` rounds that wrote the slot, which is round `78 * j + i` unless the ring of ten
  -- messages had come round: it has the number of that round, and unpacks to the averages of that
  -- round's DMA buffer. Where the sender waits and there is no post left for it, it has published
  -- every full message. (A buffer must have room for three bytes for each sixteen samples.)
  pub published_messages :
      (s : Shared) (p : Pipe)
      → 0 < a.dma_num_buffers
      → Reach to_nanoseconds a inputs (created s) p
      → ((j : ℕ)
          → j < length p.sender.published
          → IsComplete a inputs
              (get_or p.rounds_at j 0)
              j
              (get_or p.sender.published j zero_message))
        × (p.sending ≡ false
            → p.send_pends ≡ p.dws.mqtt_posts
            → length p.sender.published ≡ p.dws_pends / 78)
  published_messages s p dma r =
      let v = Reach-IsSound s dma r in
      (
        v.published,
        λ off none_left.
            let taken : p.send_pends ≡ length p.sender.published + 0 = rw off at v.taken in
            omega (arith, taken, none_left, v.cursor.posts),
      )
