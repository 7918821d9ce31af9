-- ===== src/Examples/Pipelines.antt =====
-- The theorem about the two threads of Core/dws_user.c and Core/mqtt_user.c at a concrete run.
use plhr_firmware.Common.{
  some, List, [], ℤ, ℕ, zero, suc, ◌+◌, ◌*◌, ◌/◌, ◌<◌, ◌≡◌, refl, false, length, get_or, arith, pos,
}
use plhr_firmware.Messages.{zero_message}
use plhr_firmware.Mqtt.Context.{connected, Context, initial}
use plhr_firmware.Sending.Transport.{send_all}
use plhr_firmware.Sending.Transport.OverMqtt.{over_mqtt, payloads}
use plhr_firmware.Pipeline.Received.{IsReceived, messages_arrive_over_mqtt}
use plhr_firmware.Downsampling.{Args, Shared, Input}
use plhr_firmware.Pipeline.{
  Pipe, created, downsample, take_message, send_message, Step, Reach, here, later,
}
use plhr_firmware.Pipeline.Invariant.{IsComplete}
use plhr_firmware.Pipeline.Published.{Reach-IsSound, published_messages}

abbrev ring : Args
ring = record { dma_num_buffers = 30; size_buffer_in = 800 }

abbrev ramp : ℕ → ℕ
ramp k = k * 100

abbrev quarter : ℕ → ℕ
quarter f = f / 4

abbrev samples : ℕ → Input
samples k = record { memory = ramp; tv_sec = k; tv_nsec = 0 }

abbrev no_time : Shared
no_time = record { status_time_sync = 0; sntp_time = 0 }

abbrev transferred : Pipe → Pipe
transferred p = record p { dws_posts = p.dws_posts + 1 }

-- A transfer and a round, `n` times.
filled : ℕ → Pipe
unfolding downsample created
filled zero = created no_time
filled (suc n) = downsample quarter ring (samples (filled n).dws_pends) (transferred (filled n))

filled-counts :
    (n : ℕ)
    → ((filled n).dws_pends ≡ n)
      × ((filled n).dws_posts ≡ n)
      × ((filled n).send_pends ≡ 0)
      × ((filled n).sending ≡ false)
unfolding filled
filled-counts zero = (refl, refl, refl, refl)
filled-counts (suc n) =
    let (a, b, c, d) = filled-counts n in (omega (arith, a), omega (arith, b), c, d)

filled-Reach : (n : ℕ) → Reach quarter ring samples (created no_time) (filled n)
unfolding filled
filled-Reach zero = here
filled-Reach (suc n) =
    let (a, b, _, _) = filled-counts n in
    later (later (filled-Reach n) Step.transfer_ends) (Step.downsamples (omega (arith, a, b)))

-- The first message is taken after 80 rounds, and published.
abbrev sent : Pipe
sent = send_message (pos 0) (take_message 7 (filled 80))

sent-Reach : Reach quarter ring samples (created no_time) sent
unfolding take_message
sent-Reach =
    let (a, _, c, d) = filled-counts 80 in
    let v =
      Reach-IsSound quarter ring samples (omega arith) no_time (omega arith) (filled-Reach 80) in
    later (later (filled-Reach 80) (Step.takes 7 d (omega (arith, v.cursor.posts, a, c))))
      (Step.sends (pos 0) refl)

published_messages_example :
    ((j : ℕ)
      → j < length sent.sender.published
      → IsComplete ring samples
          (get_or sent.rounds_at j 0)
          j
          (get_or sent.sender.published j zero_message))
    × (sent.sending ≡ false
        → sent.send_pends ≡ sent.dws.mqtt_posts
        → length sent.sender.published ≡ sent.dws_pends / 78)
published_messages_example =
    published_messages quarter ring samples (omega arith) no_time sent (omega arith) sent-Reach

-- The run has published.
sent-published : length sent.sender.published ≡ 1
unfolding take_message send_message
sent-published =
    let (_, _, c, _) = filled-counts 80 in
    let v = Reach-IsSound quarter ring samples (omega arith) no_time (omega arith) sent-Reach in
    let taken : sent.send_pends ≡ length sent.sender.published + 0 = v.taken in
    omega (arith, taken, c)

abbrev on_broker : Context
on_broker = record initial { module_state = connected; mutex = some false }

abbrev no_error : List ℕ → ℤ
no_error p = pos 0

messages_arrive_over_mqtt_example :
    (c : Context) × (send_all (over_mqtt 7 no_error (omega arith)) sent.sender.published on_broker
      ≡ some c)
    × (length (payloads c.calls) ≡ length sent.sender.published)
    × ((j : ℕ)
        → j < length sent.sender.published
        → IsReceived ring samples (get_or sent.rounds_at j 0) j (get_or (payloads c.calls) j []))
messages_arrive_over_mqtt_example =
    messages_arrive_over_mqtt quarter ring samples (omega arith) no_time sent (omega arith)
      sent-Reach 7 no_error (omega arith) on_broker (refl, refl) refl
