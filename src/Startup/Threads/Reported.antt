-- ===== src/Startup/Threads/Reported.antt =====
-- Which failures of the creation of threads and semaphores are reported, and what runs in spite of
-- them.
use plhr_firmware.Common.{
  ℕ, ◌≡◌, ◌↔◌, refl, Bool, true, false, List, [], ◌∷◌, ◌++◌, ◌==◌, if◌then◌else◌, sym, ◌∙◌,
  append-nil, arith, Bool-cases, inl, inr,
}
use plhr_firmware.Startup.Threads.{
  Thread, send_data, thread_downsampling, softtimer, test_wifi, Semaphore, dws_semaphore,
  send_data_semaphore, softtimer_thread_semaphore, sync_semaphore, Failure, creation_of,
  detach_state, stack_size, Created, Codes, line_if, create_semaphore, stack_failed, create_thread,
  create_semaphores, create_threads, create_all,
}

-- The items that pass a test.
abbrev pub keep {ℓ} : {A : Type ℓ} → (A → Bool) → List A → List A
keep test [] = []
keep test (x ∷ xs) = if test x then x ∷ keep test xs else keep test xs

append-eq-nil {ℓ} : {A : Type ℓ} (xs ys : List A) → xs ++ ys ≡ [] → (xs ≡ []) × (ys ≡ [])
append-eq-nil [] ys h = (refl, h)
append-eq-nil (x ∷ xs) ys h = absurd (cc h)

line_if-eq-nil : (b : Bool) (f : Failure) → line_if b f ≡ [] → b ≡ false
line_if-eq-nil true f h = absurd (cc h)
line_if-eq-nil false f h = refl

zero_test : (n : ℕ) → (if n == 0 then false else true) ≡ false → n ≡ 0
zero_test n h = ground arith

create_semaphore-silent :
    (s : Semaphore) (found : Bool) (c : Created)
    → ((create_semaphore s found c).printed ≡ []) ↔ ((c.printed ≡ []) × (found ≡ true))
unfolding create_semaphore
create_semaphore-silent s true c = (λ h. (h, refl), λ h. h.0)
create_semaphore-silent s false c =
    (λ h. absurd (cc (append-eq-nil c.printed (creation_of s ∷ []) h).1), λ h. absurd (cc h.1))

create_thread-silent :
    (t : Thread) (a : Codes) (c : Created)
    → ((create_thread t a c).printed ≡ [])
      ↔ ((c.printed ≡ []) × (a.detach ≡ 0) × (stack_failed t a.stack ≡ false) × (a.create ≡ 0))
unfolding create_thread
create_thread-silent t a c = (
  λ h.
      let (before, h1) = append-eq-nil c.printed _ h in
      let (detached, h2) =
        append-eq-nil (line_if (if a.detach == 0 then false else true) (detach_state t)) _ h1 in
      let (stacked, made) = append-eq-nil (line_if (stack_failed t a.stack) (stack_size t)) _ h2 in
      (
        before,
        zero_test a.detach (line_if-eq-nil _ _ detached),
        line_if-eq-nil _ _ stacked,
        zero_test a.create (line_if-eq-nil _ _ made),
      ),
  λ (before, detached, stacked, made). rw (before, detached, stacked, made) refl,
)

create_semaphore-keeps :
    (s : Semaphore) (found : Bool) (c : Created)
    → ((create_semaphore s found c).running ≡ c.running)
      × ((create_semaphore s found c).semaphores ≡ c.semaphores ++ keep (λ _. found) (s ∷ []))
unfolding create_semaphore
create_semaphore-keeps s true c = (refl, refl)
create_semaphore-keeps s false c = (refl, sym (append-nil c.semaphores))

create_thread-keeps :
    (t : Thread) (a : Codes) (c : Created)
    → ((create_thread t a c).running ≡ c.running ++ keep (λ _. a.create == 0) (t ∷ []))
      × ((create_thread t a c).semaphores ≡ c.semaphores)
unfolding create_thread
create_thread-keeps t a c = elim (Bool-cases (a.create == 0)) [
  | inl made ↦ rw made (refl, refl)
  | inr failed ↦ rw failed (sym (append-nil c.running), refl)
]

-- Four additions to a list that is empty first are the four items that pass.
keep-four {ℓ} :
    {A : Type ℓ} (a b c d : A) (p q r s : Bool)
    → ((([] ++ keep (λ _. p) (a ∷ [])) ++ keep (λ _. q) (b ∷ [])) ++ keep (λ _. r) (c ∷ []))
        ++ keep (λ _. s) (d ∷ [])
      ≡ (let tail = if s then d ∷ [] else [] in
          let tail' = if r then c ∷ tail else tail in
          let tail'' = if q then b ∷ tail' else tail' in if p then a ∷ tail'' else tail'')
keep-four a b c d p q r s = ground arith

abbrev pub threads : List Thread
threads = send_data ∷ thread_downsampling ∷ softtimer ∷ test_wifi ∷ []

abbrev pub semaphores : List Semaphore
semaphores = dws_semaphore ∷ send_data_semaphore ∷ softtimer_thread_semaphore ∷ sync_semaphore ∷ []

create_semaphores-keeps :
    (found : Semaphore → Bool)
    → ((create_semaphores found).running ≡ [])
      × ((create_semaphores found).semaphores ≡ keep found semaphores)
unfolding create_semaphores
create_semaphores-keeps found =
    let c0 : Created = record { semaphores = []; running = []; printed = [] } in
    let d = found dws_semaphore in
    let e = found send_data_semaphore in
    let f = found softtimer_thread_semaphore in
    let g = found sync_semaphore in
    let c1 = create_semaphore dws_semaphore d c0 in
    let c2 = create_semaphore send_data_semaphore e c1 in
    let c3 = create_semaphore softtimer_thread_semaphore f c2 in
    let k1 = create_semaphore-keeps dws_semaphore d c0 in
    let k2 = create_semaphore-keeps send_data_semaphore e c1 in
    let k3 = create_semaphore-keeps softtimer_thread_semaphore f c2 in
    let k4 = create_semaphore-keeps sync_semaphore g c3 in
    (
      k4.0 ∙ k3.0 ∙ k2.0 ∙ k1.0,
      rw (k4.1, k3.1, k2.1, k1.1)
          (keep-four dws_semaphore send_data_semaphore softtimer_thread_semaphore sync_semaphore d e
            f g),
    )

create_threads-keeps :
    (codes : Thread → Codes) (c : Created)
    → c.running ≡ []
    → ((create_threads codes c).running ≡ keep (λ t. (codes t).create == 0) threads)
      × ((create_threads codes c).semaphores ≡ c.semaphores)
unfolding create_threads
create_threads-keeps codes c start =
    let c1 = create_thread send_data (codes send_data) c in
    let c2 = create_thread thread_downsampling (codes thread_downsampling) c1 in
    let c3 = create_thread softtimer (codes softtimer) c2 in
    let k1 = create_thread-keeps send_data (codes send_data) c in
    let k2 = create_thread-keeps thread_downsampling (codes thread_downsampling) c1 in
    let k3 = create_thread-keeps softtimer (codes softtimer) c2 in
    let k4 = create_thread-keeps test_wifi (codes test_wifi) c3 in
    (
      rw (k4.0, k3.0, k2.0, k1.0, start)
          (keep-four send_data thread_downsampling softtimer test_wifi
            ((codes send_data).create == 0) ((codes thread_downsampling).create == 0)
            ((codes softtimer).create == 0) ((codes test_wifi).create == 0)),
      k4.1 ∙ k3.1 ∙ k2.1 ∙ k1.1,
    )

create_semaphores-silent :
    (found : Semaphore → Bool)
    → ((create_semaphores found).printed ≡ []) ↔ ((s : Semaphore) → found s ≡ true)
unfolding create_semaphores
create_semaphores-silent found =
    let c0 : Created = record { semaphores = []; running = []; printed = [] } in
    let c1 = create_semaphore dws_semaphore (found dws_semaphore) c0 in
    let c2 = create_semaphore send_data_semaphore (found send_data_semaphore) c1 in
    let c3 = create_semaphore softtimer_thread_semaphore (found softtimer_thread_semaphore) c2 in
    let k1 = create_semaphore-silent dws_semaphore (found dws_semaphore) c0 in
    let k2 = create_semaphore-silent send_data_semaphore (found send_data_semaphore) c1 in
    let k3 =
      create_semaphore-silent softtimer_thread_semaphore (found softtimer_thread_semaphore) c2 in
    let k4 = create_semaphore-silent sync_semaphore (found sync_semaphore) c3 in
    (
      λ h.
          let (h3, f4) = k4.0 h in
          let (h2, f3) = k3.0 h3 in
          let (h1, f2) = k2.0 h2 in
          let (_, f1) = k1.0 h1 in
          λ s. elim s as (λ k. found k ≡ true) [
            | dws_semaphore ↦ f1
            | send_data_semaphore ↦ f2
            | softtimer_thread_semaphore ↦ f3
            | sync_semaphore ↦ f4
          ],
      λ f. k4.1 (
        k3.1 (
          k2.1 (k1.1 (refl, f dws_semaphore), f send_data_semaphore),
          f softtimer_thread_semaphore,
        ),
        f sync_semaphore,
      ),
    )

create_threads-silent :
    (codes : Thread → Codes) (c : Created)
    → ((create_threads codes c).printed ≡ []) ↔ (
        (c.printed ≡ [])
        × ((t : Thread) → ((codes t).detach ≡ 0) × ((codes t).create ≡ 0))
        × ((codes send_data).stack ≡ 0)
        × ((codes thread_downsampling).stack ≡ 0))
unfolding create_threads stack_failed
create_threads-silent codes c =
    let c1 = create_thread send_data (codes send_data) c in
    let c2 = create_thread thread_downsampling (codes thread_downsampling) c1 in
    let c3 = create_thread softtimer (codes softtimer) c2 in
    let k1 = create_thread-silent send_data (codes send_data) c in
    let k2 = create_thread-silent thread_downsampling (codes thread_downsampling) c1 in
    let k3 = create_thread-silent softtimer (codes softtimer) c2 in
    let k4 = create_thread-silent test_wifi (codes test_wifi) c3 in
    (
      λ h.
          let (h3, d4, _, m4) = k4.0 h in
          let (h2, d3, _, m3) = k3.0 h3 in
          let (h1, d2, s2, m2) = k2.0 h2 in
          let (h0, d1, s1, m1) = k1.0 h1 in
          (
            h0,
            λ t. elim t as (λ k. ((codes k).detach ≡ 0) × ((codes k).create ≡ 0)) [
              | send_data ↦ (d1, m1)
              | thread_downsampling ↦ (d2, m2)
              | softtimer ↦ (d3, m3)
              | test_wifi ↦ (d4, m4)
            ],
            zero_test _ s1,
            zero_test _ s2,
          ),
      λ (h0, f, s1, s2).
          let h1 = k1.1 (h0, (f send_data).0, rw s1 refl, (f send_data).1) in
          let h2 = k2.1 (h1, (f thread_downsampling).0, rw s2 refl, (f thread_downsampling).1) in
          let h3 = k3.1 (h2, (f softtimer).0, refl, (f softtimer).1) in
          k4.1 (h3, (f test_wifi).0, refl, (f test_wifi).1),
    )

module _ (found : Semaphore → Bool) (codes : Thread → Codes) where
  -- The threads that run are those whose creation answers 0, and the semaphores those that were
  -- given, whatever else fails. No line is printed exactly where every semaphore was given, every
  -- thread's detach state and creation answered 0, and the stack size of `send_data` and
  -- `thread_downsampling` did: the codes of the stack sizes of `softtimer` and `test_wifi`, which
  -- are errors if they are not 0, are never reported.
  pub create_all_lem :
      ((create_all found codes).running ≡ keep (λ t. (codes t).create == 0) threads)
      × ((create_all found codes).semaphores ≡ keep found semaphores)
      × (((create_all found codes).printed ≡ []) ↔ (
          ((s : Semaphore) → found s ≡ true)
          × ((t : Thread) → ((codes t).detach ≡ 0) × ((codes t).create ≡ 0))
          × ((codes send_data).stack ≡ 0)
          × ((codes thread_downsampling).stack ≡ 0)))
  unfolding create_all
  create_all_lem =
      let (start, given) = create_semaphores-keeps found in
      let (runs, same) = create_threads-keeps codes (create_semaphores found) start in
      let silent = create_threads-silent codes (create_semaphores found) in
      let silent' = create_semaphores-silent found in
      (
        runs,
        same ∙ given,
        (
          λ h. let (h0, made, s1, s2) = silent.0 h in (silent'.0 h0, made, s1, s2),
          λ (f, made, s1, s2). silent.1 (silent'.1 f, made, s1, s2),
        ),
      )

  -- The threads that run once both the semaphores and the threads were created.
  pub running-create_threads :
      (create_threads codes (create_semaphores found)).running
      ≡ keep (λ t. (codes t).create == 0) threads
  unfolding create_all
  running-create_threads = create_all_lem.0
