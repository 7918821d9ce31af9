-- ===== src/Downsampling/Headers.antt =====
-- `thread_downsampling` writes two fields of a message's header, and leaves the others.
use plhr_firmware.Common.{
  ℕ, ◌<◌, ◌≡◌, refl, ◌∙◌, List, get_or, set, length, length-set, Bool-cases, ◌==◌, inl, inr, arith,
}
use plhr_firmware.Messages.{DataBuffer, MsgData, zero_buffer}
use plhr_firmware.Samples.{pack_buffer}
use plhr_firmware.Downsampling.{
  Args, Shared, Dws, Input, take_time, synchronise, fill, advance, iteration, modify_buffer,
}
use plhr_firmware.Downsampling.Slots.{message_at, modify-keeps}

module _ {ℓ} {A : Type ℓ} (g : MsgData → A)
    (keeps : (m : MsgData) (corr rtc : ℕ) (bs : List DataBuffer)
      → g (record m { corr_buffer_id = corr; rtc_value = rtc; buffers = bs }) ≡ g m) where
  synchronise-keeps :
      (to_nanoseconds : ℕ → ℕ) (i : Input) (d : Dws) (s : Shared)
      → length d.messages ≡ 10
      → d.n_msg < 10
      → let d' = (synchronise to_nanoseconds i (d, s)).0 in
        (d'.n_msg ≡ d.n_msg)
        × (length d'.messages ≡ 10)
        × ((m : ℕ) → g (message_at d'.messages m) ≡ g (message_at d.messages m))
  unfolding synchronise take_time
  synchronise-keeps to_nanoseconds i d s l h = elim (Bool-cases (s.status_time_sync == 0)) [
    | inl e ↦ rw e (refl, l, λ _. refl)
    | inr e ↦ rw e (
      refl,
      length-set d.messages d.n_msg _ ∙ l,
      λ m.
          modify-keeps g (λ x. record x { corr_buffer_id = d.data_buffer_count })
            (λ x. keeps x d.data_buffer_count x.rtc_value x.buffers) d.messages d.n_msg m
            (omega (arith, l)),
    )
  ]

  fill-keeps :
      (a : Args) (i : Input) (d : Dws)
      → length d.messages ≡ 10
      → d.n_msg < 10
      → (m : ℕ) → g (message_at (fill a i d).messages m) ≡ g (message_at d.messages m)
  unfolding fill
  fill-keeps a i d l h m =
      modify-keeps g (λ x. modify_buffer d.cnt_buffer_out store (head x))
        (λ x.
          keeps x d.data_buffer_sync d.time_synchro_us (
            set x.buffers d.cnt_buffer_out (store (get_or x.buffers d.cnt_buffer_out zero_buffer))))
        d.messages d.n_msg m (omega (arith, l))
    where
      head : MsgData → MsgData
      head x = record x { corr_buffer_id = d.data_buffer_sync; rtc_value = d.time_synchro_us }

      store : DataBuffer → DataBuffer
      store b = record {
        buffer_id = d.data_buffer_count;
        bytes = pack_buffer i.memory d.base a.size_buffer_in b.bytes;
      }

  -- A round keeps what does not depend on the two fields and on the buffers, in every message.
  pub iteration-keeps :
      (to_nanoseconds : ℕ → ℕ) (a : Args) (i : Input) (d : Dws) (s : Shared)
      → length d.messages ≡ 10
      → d.n_msg < 10
      → (m : ℕ)
      → g (message_at (iteration to_nanoseconds a i (d, s)).0.messages m)
        ≡ g (message_at d.messages m)
  unfolding iteration advance
  iteration-keeps to_nanoseconds a i d s l h m =
      let (at, long, same) = synchronise-keeps to_nanoseconds i d s l h in
      let d' = (synchronise to_nanoseconds i (d, s)).0 in
      fill-keeps a i d' long (omega (arith, at)) m ∙ same m
