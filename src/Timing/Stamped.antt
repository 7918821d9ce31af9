-- ===== src/Timing/Stamped.antt =====
-- What the header of a message says about the last SNTP time.
use plhr_firmware.Common.{
  ℕ, zero, suc, ◌+◌, ◌-◌, ◌/◌, ◌%◌, ◌^◌, ◌≤◌, ◌<◌, ◌≡◌, ◌≢◌, inl, inr, refl, ap, ◌∙◌, sym, subst,
  Option, ℕ_discrete, dec_lt, arith,
}
use plhr_firmware.Downsampling.{Args, Shared, Input, start, rounds, synchro_time}
use plhr_firmware.Downsampling.Stamps.{found, header_lem, rounds-flag}
use plhr_firmware.Downsampling.Slots.{message_at}
use plhr_firmware.Watch.{sntp_get_time}
use plhr_firmware.Watch.Words.{words_kept, words_taken}
use plhr_firmware.Timing.{tick, ticks, begun, timed_rounds}

-- The flag is down or up.
abbrev IsFlag : Shared → Type 0
IsFlag s = s.status_time_sync ≤ 1

same_words :
    (s t : Shared) → s.status_time_sync ≡ t.status_time_sync → s.sntp_time ≡ t.sntp_time → s ≡ t
same_words s t p q = λ i. record { status_time_sync = p i; sntp_time = q i }

tick_quiet : (cnt w : ℕ) (answer : Option ℕ) (s : Shared) → cnt % 1800 ≢ 0 → tick cnt w answer s ≡ s
unfolding tick
tick_quiet cnt w answer s ne = let (n, f) = words_kept w answer _ ne in same_words _ s f n

abbrev raised : Option ℕ → Shared
raised answer = record { status_time_sync = 1; sntp_time = sntp_get_time answer }

tick_taken :
    (cnt w : ℕ) (answer : Option ℕ) (s : Shared)
    → cnt % 1800 ≡ 0
    → IsFlag s
    → tick cnt w answer s ≡ raised answer
unfolding tick
tick_taken cnt w answer s e f =
    let (n, u) = words_taken w answer _ e (omega (arith, f)) in same_words _ (raised answer) u n

begun_mono : (pauses : ℕ → ℕ) (k d : ℕ) → begun pauses k ≤ begun pauses (k + d)
begun_mono pauses k zero = let e : k + 0 ≡ k = omega arith in rw e (omega arith)
begun_mono pauses k (suc d) =
    let e : k + suc d ≡ suc (k + d) = omega arith in rw e (omega (arith, begun_mono pauses k d))

begun_le : (pauses : ℕ → ℕ) (k l : ℕ) → k ≤ l → begun pauses k ≤ begun pauses l
begun_le pauses k l h =
    let e : k + (l - k) ≡ l = omega arith in
    subst (λ j. begun pauses k ≤ begun pauses j) e (begun_mono pauses k (l - k))

module _ (wifi : ℕ → ℕ) (answers : ℕ → Option ℕ) where
  ticks_quiet :
      (from n : ℕ) (s : Shared)
      → ((k : ℕ) → k < n → (from + k) % 1800 ≢ 0)
      → ticks wifi answers from n s ≡ s
  unfolding ticks
  ticks_quiet from zero s quiet = refl
  ticks_quiet from (suc n) s quiet =
      tick_quiet (from + n) (wifi (from + n)) (answers (from + n)) (ticks wifi answers from n s)
        (quiet n (omega arith))
      ∙ ticks_quiet from n s (λ k lt. quiet k (omega arith))

  ticks-IsFlag : (from n : ℕ) (s : Shared) → IsFlag s → IsFlag (ticks wifi answers from n s)
  unfolding ticks
  ticks-IsFlag from zero s f = f
  ticks-IsFlag from (suc n) s f =
      let before = ticks-IsFlag from n s f in
      let w = wifi (from + n) in
      let answer = answers (from + n) in
      let u = ticks wifi answers from n s in
      let one : 1 ≤ 1 = omega arith in
      elim (ℕ_discrete ((from + n) % 1800) 0) [
        | yes e ↦ subst IsFlag (sym (tick_taken (from + n) w answer u e before)) one
        | no ne ↦ subst IsFlag (sym (tick_quiet (from + n) w answer u ne)) before
      ]

  -- The last synchronisation counts.
  ticks_taken :
      (from n c : ℕ) (s : Shared)
      → IsFlag s
      → from ≤ c
      → c < from + n
      → c % 1800 ≡ 0
      → from + n ≤ c + 1800
      → ticks wifi answers from n s ≡ raised (answers c)
  unfolding ticks
  ticks_taken from zero c s f lo hi e near = absurd (omega arith)
  ticks_taken from (suc n) c s f lo hi e near =
      let u = ticks wifi answers from n s in
      elim (ℕ_discrete c (from + n)) [
        | yes at ↦
            tick_taken (from + n) (wifi (from + n)) (answers (from + n)) u (omega (arith, at, e))
              (ticks-IsFlag from n s f)
            ∙ ap (λ k. raised (answers k)) (sym at)
        | no ne ↦
            tick_quiet (from + n) (wifi (from + n)) (answers (from + n)) u (λ z. omega (arith, z))
            ∙ ticks_taken from n c s f lo (omega arith) e (omega arith)
      ]

  module _ (to_nanoseconds : ℕ → ℕ) (a : Args) (inputs : ℕ → Input) (pauses : ℕ → ℕ)
      (sntp_time : ℕ) where
    abbrev between : ℕ → Shared → Shared
    between k = ticks wifi answers (begun pauses k) (pauses k)

    abbrev cleared : Shared
    cleared = record { status_time_sync = 0; sntp_time = sntp_time }

    abbrev finds : ℕ → Shared
    finds = found to_nanoseconds a inputs between cleared

    flag_down :
        (n : ℕ) → (rounds to_nanoseconds a inputs between n (start, cleared)).1.status_time_sync ≡ 0
    flag_down n =
        rounds-flag to_nanoseconds a inputs between cleared
          (λ k s f. ticks-IsFlag (begun pauses k) (pauses k) s f) refl n

    -- A round after a pause without a synchronisation, and one after the pause with the last.
    finds_nothing :
        (k c : ℕ)
        → c < begun pauses k
        → begun pauses (suc k) ≤ c + 1800
        → c % 1800 ≡ 0
        → (finds k).status_time_sync ≡ 0
    finds_nothing k c lo hi e =
        ap (λ (s : Shared). s.status_time_sync)
          (ticks_quiet (begun pauses k) (pauses k) _ (λ j lt z. omega (arith, z, e, hi, lo)))
        ∙ flag_down k

    finds_time :
        (q c : ℕ)
        → begun pauses q ≤ c
        → c < begun pauses (suc q)
        → begun pauses (suc q) ≤ c + 1800
        → c % 1800 ≡ 0
        → finds q ≡ raised (answers c)
    finds_time q c lo hi near e =
        ticks_taken (begun pauses q) (pauses q) c _ (omega (arith, flag_down q)) lo hi e near

    -- Second `c`, in the pause before round `q`, is one of those in which `softtimer` asks for the
    -- time, and no later one of those lies before the end of round `n`, which fills a message. The
    -- header of this message then holds the time that round `q` makes of the answer, 0 if the
    -- request failed, and of the clock, and the number of the buffer of round `q`; and it stays so
    -- through the next nine messages.
    pub header_stamped :
        (q n t c : ℕ)
        → 0 < a.dma_num_buffers
        → suc n % 78 ≡ 0
        → t ≤ 702
        → q ≤ n
        → begun pauses q ≤ c
        → c < begun pauses (suc q)
        → begun pauses (suc n) ≤ c + 1800
        → c % 1800 ≡ 0
        → let m =
            message_at
              (timed_rounds wifi answers to_nanoseconds a inputs pauses sntp_time
                (suc n + t)).0.messages
              (n / 78 % 10) in
          (m.rtc_value
            ≡ synchro_time to_nanoseconds
                (sntp_get_time (answers c))
                (inputs q).tv_sec
                (inputs q).tv_nsec)
          × (m.corr_buffer_id ≡ q % 2 ^ 64)
    unfolding timed_rounds
    header_stamped q n t c h full near before lo hi last e =
        let grows = begun_le pauses (suc q) (suc n) (omega arith) in
        let there = finds_time q c lo hi (omega (arith, grows, last)) e in
        let up : (finds q).status_time_sync ≡ 1 = ap (λ (s : Shared). s.status_time_sync) there in
        let time : (finds q).sntp_time ≡ sntp_get_time (answers c) =
          ap (λ (s : Shared). s.sntp_time) there in
        elim (header_lem to_nanoseconds a inputs between cleared n t h full near) [
          | inl (_, _, never) ↦ absurd (omega (arith, up, never q (omega arith)))
          | inr (k, kn, r, b, on, since) ↦ elim (ℕ_discrete k q) [
            | yes at ↦ (
              r
                  ∙ ap
                      (λ j.
                        synchro_time to_nanoseconds (finds j).sntp_time (inputs j).tv_sec
                          (inputs j).tv_nsec)
                      at
                  ∙ ap (λ u. synchro_time to_nanoseconds u (inputs q).tv_sec (inputs q).tv_nsec)
                      time,
              b ∙ ap (λ j. j % 2 ^ 64) at,
            )
            | no ne ↦ absurd (elim (dec_lt k q) [
              | yes below ↦ omega (arith, up, since q below (omega arith))
              | no above ↦ on (
                  finds_nothing k c
                    (omega (arith, hi, begun_le pauses (suc q) k (omega (arith, above, ne))))
                    (omega (arith, last, begun_le pauses (suc k) (suc n) (omega (arith, kn)))) e)
            ])
          ]
        ]
