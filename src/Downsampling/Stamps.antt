-- ===== src/Downsampling/Stamps.antt =====
-- The two fields of a message's header that tell when its samples were taken: the time of a
-- synchronisation, and the buffer that was the next one then.
use plhr_firmware.Common.{
  ℕ, zero, suc, ◌+◌, ◌/◌, ◌%◌, ◌^◌, ◌≤◌, ◌<◌, ◌≡◌, ◌≢◌, ◌⊎◌, inl, inr, refl, sym, ap, subst, ◌∙◌,
  length, length-set, arith, ℕ_discrete, ==_iff, ==_ne,
}
use plhr_firmware.Samples.{pack_buffer}
use plhr_firmware.Messages.{MsgData}
use plhr_firmware.Downsampling.{
  Args, Shared, Dws, Input, start, synchro_time, take_time, synchronise, fill, advance, iteration,
  rounds, modify_message, modify_buffer,
}
use plhr_firmware.Downsampling.Cursor.{IsAt, synchronise-IsAt, rounds-IsAt}
use plhr_firmware.Downsampling.Slots.{message_at, message_at-modify}

-- What `fill` does to a message, and what `take_time` does.
abbrev filled : Args → Input → Dws → MsgData → MsgData
filled a i d m =
    modify_buffer d.cnt_buffer_out
      (λ b. record {
        buffer_id = d.data_buffer_count;
        bytes = pack_buffer i.memory d.base a.size_buffer_in b.bytes;
      })
      (record m { corr_buffer_id = d.data_buffer_sync; rtc_value = d.time_synchro_us })

abbrev timed : Dws → MsgData → MsgData
timed d m = record m { corr_buffer_id = d.data_buffer_count }

fill-header :
    (a : Args) (i : Input) (n : ℕ) (d : Dws)
    → IsAt a n d
    → length d.messages ≡ 10
    → let d' = fill a i d in
      (length d'.messages ≡ 10)
      × ((message_at d'.messages (n / 78 % 10)).rtc_value ≡ d.time_synchro_us)
      × ((message_at d'.messages (n / 78 % 10)).corr_buffer_id ≡ d.data_buffer_sync)
unfolding fill
fill-header a i n d at l =
    let here : n / 78 % 10 ≡ d.n_msg = omega (arith, at.message) in
    elim (message_at-modify d.messages d.n_msg (n / 78 % 10) (filled a i d)
      (omega (arith, l, at.message))) [
        | inl (_, w) ↦ (
          length-set d.messages d.n_msg _ ∙ l,
          ap (λ (x : MsgData). x.rtc_value) w,
          ap (λ (x : MsgData). x.corr_buffer_id) w,
        )
        | inr (ne, _) ↦ absurd (ne here)
      ]

modify_elsewhere :
    (d : Dws) (f : MsgData → MsgData) (m : ℕ)
    → length d.messages ≡ 10
    → d.n_msg < 10
    → m ≢ d.n_msg
    → message_at (modify_message d.n_msg f d.messages) m ≡ message_at d.messages m
modify_elsewhere d f m l h ne = elim (message_at-modify d.messages d.n_msg m f (omega (arith, l))) [
  | inl (e, _) ↦ absurd (ne e)
  | inr (_, w) ↦ w
]

-- A round leaves the messages other than the one at hand.
iteration_elsewhere :
    (to_nanoseconds : ℕ → ℕ) (a : Args) (i : Input) (n : ℕ) (d : Dws) (s : Shared) (m : ℕ)
    → IsAt a n d
    → length d.messages ≡ 10
    → m ≢ n / 78 % 10
    → message_at (iteration to_nanoseconds a i (d, s)).0.messages m ≡ message_at d.messages m
unfolding iteration synchronise take_time fill advance
iteration_elsewhere to_nanoseconds a i n d s m at l ne =
    let off : m ≢ d.n_msg = λ e. ne (e ∙ at.message) in
    let low : d.n_msg < 10 = omega (arith, at.message) in
    elim (ℕ_discrete s.status_time_sync 0) [
      | yes e ↦
          rw ((==_iff s.status_time_sync 0).1 e) (modify_elsewhere d (filled a i d) m l low off)
      | no e ↦ rw (==_ne s.status_time_sync 0 e) (
          let d1 = (take_time to_nanoseconds i (d, s)).0 in
          modify_elsewhere d1 (filled a i d1) m (length-set d.messages d.n_msg _ ∙ l) low off
          ∙ modify_elsewhere d (timed d) m l low off)
    ]

iteration-flag :
    (to_nanoseconds : ℕ → ℕ) (a : Args) (i : Input) (d : Dws) (s : Shared)
    → s.status_time_sync ≤ 1
    → (iteration to_nanoseconds a i (d, s)).1.status_time_sync ≡ 0
unfolding iteration synchronise take_time
iteration-flag to_nanoseconds a i d s h = ground arith

module _ (to_nanoseconds : ℕ → ℕ) (a : Args) (inputs : ℕ → Input) (others : ℕ → Shared → Shared)
    (shared : Shared) where
  -- The shared words that round `q` finds.
  abbrev pub found : ℕ → Shared
  found q = others q (rounds to_nanoseconds a inputs others q (start, shared)).1

  -- The time that round `q` computes if it finds the flag.
  abbrev pub stamp : ℕ → ℕ
  stamp q = synchro_time to_nanoseconds (found q).sntp_time (inputs q).tv_sec (inputs q).tv_nsec

  -- The pair is that of the last synchronisation before round `n`, or two zeros if there was none.
  abbrev pub IsLatest : ℕ → ℕ → ℕ → Type 0
  IsLatest n rtc corr =
      ((rtc ≡ 0) × (corr ≡ 0) × ((q : ℕ) → q < n → (found q).status_time_sync ≡ 0))
      ⊎ ((q : ℕ) × (q < n)
          × (rtc ≡ stamp q)
          × (corr ≡ q % 2 ^ 64)
          × ((found q).status_time_sync ≢ 0)
          × ((k : ℕ) → q < k → k < n → (found k).status_time_sync ≡ 0))

  IsLatest-kept :
      (n rtc corr : ℕ)
      → IsLatest n rtc corr
      → (found n).status_time_sync ≡ 0
      → IsLatest (suc n) rtc corr
  IsLatest-kept n rtc corr (inl (r, c, none)) off =
      inl (r, c, λ q h. elim (ℕ_discrete q n) [ yes e ↦ rw e off | no ne ↦ none q (omega arith) ])
  IsLatest-kept n rtc corr (inr (q, h, r, c, on, since)) off = inr (
    q,
    omega arith,
    r,
    c,
    on,
    λ k lo hi. elim (ℕ_discrete k n) [ yes e ↦ rw e off | no ne ↦ since k lo (omega arith) ],
  )

  IsLatest-taken :
      (n corr : ℕ)
      → corr ≡ n % 2 ^ 64
      → (found n).status_time_sync ≢ 0
      → IsLatest (suc n) (stamp n) corr
  IsLatest-taken n corr c on = inr (n, omega arith, refl, c, on, λ k lo hi. absurd (omega arith))

  -- The variables of the thread hold the pair, and there are ten messages.
  record Holds (n : ℕ) (d : Dws) : Type 0 where
    pair : IsLatest n d.time_synchro_us d.data_buffer_sync
    messages : length d.messages ≡ 10

  synchronise-Holds :
      (n : ℕ) (d : Dws)
      → IsAt a n d
      → Holds n d
      → Holds (suc n) (synchronise to_nanoseconds (inputs n) (d, found n)).0
  unfolding synchronise take_time
  synchronise-Holds n d at v = elim (ℕ_discrete (found n).status_time_sync 0) [
    | yes e ↦ rw ((==_iff (found n).status_time_sync 0).1 e) (record {
      pair = IsLatest-kept n d.time_synchro_us d.data_buffer_sync v.pair e;
      messages = v.messages;
    })
    | no ne ↦ rw (==_ne (found n).status_time_sync 0 ne) (record {
      pair = IsLatest-taken n d.data_buffer_count at.count ne;
      messages = length-set d.messages d.n_msg _ ∙ v.messages;
    })
  ]

  -- A round that finds the counters at `n`.
  round-Holds :
      (n : ℕ) (d : Dws)
      → IsAt a n d
      → Holds n d
      → let (d', _) = iteration to_nanoseconds a (inputs n) (d, found n) in
        Holds (suc n) d'
        × IsLatest
            (suc n)
            (message_at d'.messages (n / 78 % 10)).rtc_value
            (message_at d'.messages (n / 78 % 10)).corr_buffer_id
  unfolding iteration advance fill
  round-Holds n d at v =
      let d1 = (synchronise to_nanoseconds (inputs n) (d, found n)).0 in
      let v1 = synchronise-Holds n d at v in
      let at1 = synchronise-IsAt to_nanoseconds a (inputs n) n d (found n) at in
      let (long, rtc, corr) = fill-header a (inputs n) n d1 at1 v1.messages in
      (record { pair = v1.pair; messages = long }, rw (rtc, corr) v1.pair)

  rounds-Holds :
      (n : ℕ)
      → 0 < a.dma_num_buffers
      → Holds n (rounds to_nanoseconds a inputs others n (start, shared)).0
  unfolding rounds start
  rounds-Holds zero h = record {
    pair = inl (refl, refl, λ q lt. absurd (omega arith));
    messages = refl;
  }
  rounds-Holds (suc n) h =
      let (d, s) = rounds to_nanoseconds a inputs others n (start, shared) in
      (round-Holds n d (rounds-IsAt to_nanoseconds a inputs others shared n h) (rounds-Holds n h)).0

  -- What message `m` says after `n` rounds.
  abbrev pub header_after : ℕ → ℕ → MsgData
  header_after n m =
      message_at (rounds to_nanoseconds a inputs others n (start, shared)).0.messages m

  header_step :
      (n m : ℕ)
      → 0 < a.dma_num_buffers
      → m ≢ n / 78 % 10
      → header_after (suc n) m ≡ header_after n m
  unfolding rounds
  header_step n m h away =
      let d = (rounds to_nanoseconds a inputs others n (start, shared)).0 in
      iteration_elsewhere to_nanoseconds a (inputs n) n d (found n) m
        (rounds-IsAt to_nanoseconds a inputs others shared n h) (rounds-Holds n h).messages away

  header_kept :
      (n t m : ℕ)
      → 0 < a.dma_num_buffers
      → ((k : ℕ) → k < t → m ≢ (n + k) / 78 % 10)
      → header_after (n + t) m ≡ header_after n m
  header_kept n zero m h away = let e : n + 0 ≡ n = omega arith in ap (λ k. header_after k m) e
  header_kept n (suc t) m h away =
      let e : n + suc t ≡ suc (n + t) = omega arith in
      ap (λ k. header_after k m) e
      ∙ header_step (n + t) m h (away t (omega arith))
      ∙ header_kept n t m h (λ k lt. away k (omega arith))

  -- Where the other threads only raise the flag to 1, every round leaves it down.
  pub rounds-flag :
      ((k : ℕ) (s : Shared) → s.status_time_sync ≤ 1 → (others k s).status_time_sync ≤ 1)
      → shared.status_time_sync ≡ 0
      → (n : ℕ) → (rounds to_nanoseconds a inputs others n (start, shared)).1.status_time_sync ≡ 0
  unfolding rounds
  rounds-flag raise down zero = down
  rounds-flag raise down (suc n) =
      let (d, s) = rounds to_nanoseconds a inputs others n (start, shared) in
      iteration-flag to_nanoseconds a (inputs n) d (others n s)
        (raise n s (omega (arith, rounds-flag raise down n)))

  -- The round that writes the last buffer of a message leaves in its header the time and the buffer
  -- of the last synchronisation up to this round, or two zeros if the flag was never found set,
  -- whatever the other threads do to the shared words; and the header stays so through the next
  -- nine messages. The time is that which `clock_gettime` and the SNTP time gave in the round of
  -- that very buffer.
  pub header_lem :
      (n t : ℕ)
      → 0 < a.dma_num_buffers
      → suc n % 78 ≡ 0
      → t ≤ 702
      → let m = header_after (suc n + t) (n / 78 % 10) in
        IsLatest (suc n) m.rtc_value m.corr_buffer_id
  unfolding rounds
  header_lem n t h full near =
      let d = (rounds to_nanoseconds a inputs others n (start, shared)).0 in
      let (_, latest) =
        round-Holds n d (rounds-IsAt to_nanoseconds a inputs others shared n h)
          (rounds-Holds n h) in
      let same : header_after (suc n + t) (n / 78 % 10) ≡ header_after (suc n) (n / 78 % 10) =
        header_kept (suc n) t (n / 78 % 10) h (λ k lt e. omega (arith, full, e)) in
      subst (λ (m : MsgData). IsLatest (suc n) m.rtc_value m.corr_buffer_id) (sym same) latest
