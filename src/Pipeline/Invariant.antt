-- ===== src/Pipeline/Invariant.antt =====
-- What holds between any two steps of the threads.
use plhr_firmware.Common.{
  ℕ, ◌+◌, ◌*◌, ◌/◌, ◌%◌, ◌^◌, ◌≤◌, ◌<◌, ◌≡◌, refl, sym, ap, subst, ◌∙◌, true, false, [], ◌∷◌, ◌++◌,
  if◌then◌else◌, length, length-append, get_or, get_or-append_left, get_or-append_right,
  get_or-set_self, ℕ_discrete, arith, ℤ,
}
use plhr_firmware.Messages.{MsgData, zero_buffer, zero_message}
use plhr_firmware.Messages.Wire.{AreFull}
use plhr_firmware.Messages.Wire.Reading.{AreFull-each}
use plhr_firmware.Samples.{rate}
use plhr_firmware.Downsampling.{Args, Shared, Input}
use plhr_firmware.Downsampling.Cursor
use plhr_firmware.Downsampling.Cursor.{start-IsAt, iteration-IsAt}
use plhr_firmware.Downsampling.Slots.{message_at, buffer_at, header-IsShaped, header-buffers}
use plhr_firmware.Downsampling.Headers.{iteration-keeps}
use plhr_firmware.Downsampling.Retention.{Holds, Retains, start-Retains, iteration-Retains}
use plhr_firmware.Sending.{first_message, write_header, publish_message}
use plhr_firmware.Sending.Order
use plhr_firmware.Sending.Order.{publish-IsAt, first_message-IsAt}
use plhr_firmware.Sending.Headers.{
  header_of, data_header, write_header-header, write_header-buffers, published-snoc,
}
use plhr_firmware.Pipeline.{Pipe, created, downsample, take_message, send_message}

-- Message `m`, published as number `j` after `n` rounds: it had been filled, and each of its
-- buffers is that of the last round that wrote its slot.
pub record IsComplete (a : Args) (inputs : ℕ → Input) (n j : ℕ) (m : MsgData) : Type 0 where
  pub header : header_of m ≡ data_header (j % 2 ^ 32)
  pub filled : 78 * j + 78 ≤ n
  pub count : length m.buffers ≡ 78
  pub full : AreFull m.buffers
  pub buffers :
      (q i : ℕ)
      → i < 78
      → 780 * q + (78 * j + i) < n
      → n ≤ 780 * q + (78 * j + i) + 780
      → Holds a
          (inputs (780 * q + (78 * j + i)))
          (780 * q + (78 * j + i))
          (get_or m.buffers i zero_buffer)

module _ (a : Args) (inputs : ℕ → Input) where
  pub record IsSound (p : Pipe) : Type 0 where
    pub cursor : Cursor.IsAt a p.dws_pends p.dws
    pub retains : Retains a inputs p.dws_pends p.dws.messages
    pub order : Order.IsAt (length p.sender.published) p.sender
    pub transferred : p.dws_pends ≤ p.dws_posts
    pub posted : p.send_pends ≤ p.dws.mqtt_posts
    pub taken : p.send_pends ≡ length p.sender.published + (if p.sending then 1 else 0)
    pub logged : length p.rounds_at ≡ length p.sender.published
    pub header :
        p.sending ≡ true
        → header_of (message_at p.dws.messages p.sender.n_msg) ≡ data_header p.sender.msg_data_id
    pub published :
        (j : ℕ)
        → j < length p.sender.published
        → IsComplete a inputs (get_or p.rounds_at j 0) j (get_or p.sender.published j zero_message)

  pub created-IsSound : (s : Shared) → 0 < a.dma_num_buffers → IsSound (created s)
  unfolding created
  created-IsSound s h =
      let (none_yet, order) = first_message-IsAt in
      record {
        cursor = start-IsAt a h;
        retains = start-Retains a inputs;
        order = subst (λ j. Order.IsAt j first_message) (sym none_yet) order;
        transferred = omega arith;
        posted = omega arith;
        taken = rw none_yet (omega arith);
        logged = sym none_yet;
        header = λ on. absurd (cc);
        published = λ j h. absurd (omega (arith, none_yet));
      }

  module _ (to_nanoseconds : ℕ → ℕ) (room : a.size_buffer_in / (rate * 2) * 3 ≤ 150) where
    pub downsample-IsSound :
        (p : Pipe)
        → IsSound p
        → p.dws_pends < p.dws_posts
        → IsSound (downsample to_nanoseconds a (inputs p.dws_pends) p)
    unfolding downsample
    downsample-IsSound p v h =
        let at =
          iteration-IsAt to_nanoseconds a (inputs p.dws_pends) p.dws_pends p.dws p.shared
            v.cursor in
        record {
          cursor = at;
          retains =
              iteration-Retains to_nanoseconds a inputs room p.dws_pends p.dws p.shared v.cursor
                v.retains;
          order = v.order;
          transferred = omega arith;
          posted = omega (arith, v.posted, v.cursor.posts, at.posts);
          taken = v.taken;
          logged = v.logged;
          header = λ on.
              iteration-keeps header_of (λ _ _ _ _. refl) to_nanoseconds a (inputs p.dws_pends)
                p.dws p.shared v.retains.shaped.messages (omega (arith, v.cursor.message))
                p.sender.n_msg
              ∙ v.header on;
          published = v.published;
        }

  pub take-IsSound :
      (p : Pipe) (id_device : ℕ)
      → IsSound p
      → p.sending ≡ false
      → p.send_pends < p.dws.mqtt_posts
      → IsSound (take_message id_device p)
  unfolding take_message
  take-IsSound p id_device v off more =
      let f = write_header id_device p.sender.msg_data_id in
      let ms = p.dws.messages in
      let n = p.sender.n_msg in
      let inside : n < 10 = omega (arith, v.order.index) in
      let same = write_header-buffers id_device p.sender.msg_data_id in
      record {
        cursor = record {
          input = v.cursor.input;
          slot = v.cursor.slot;
          count = v.cursor.count;
          message = v.cursor.message;
          posts = v.cursor.posts;
          pointer = v.cursor.pointer;
        };
        retains = record {
          shaped = header-IsShaped ms v.retains.shaped n inside f same;
          kept = λ k h h'.
              subst (Holds a (inputs k) k)
                (ap (λ bs. get_or bs (k % 78) zero_buffer)
                  (sym (header-buffers ms v.retains.shaped n inside f same (k / 78 % 10))))
                (v.retains.kept k h h');
        };
        order = v.order;
        transferred = v.transferred;
        posted = omega arith;
        taken =
            let t : p.send_pends ≡ length p.sender.published + 0 = rw off at v.taken in
            omega (arith, t);
        logged = v.logged;
        header = λ _.
            ap header_of (
              get_or-set_self ms n (f (message_at ms n)) zero_message
                (omega (arith, v.retains.shaped.messages, inside)))
            ∙ write_header-header id_device p.sender.msg_data_id (message_at ms n);
        published = v.published;
      }

  send-IsComplete :
      (p : Pipe)
      → IsSound p
      → p.sending ≡ true
      → IsComplete a inputs p.dws_pends
          (length p.sender.published)
          (message_at p.dws.messages p.sender.n_msg)
  send-IsComplete p v on =
      let j = length p.sender.published in
      let taken : p.send_pends ≡ j + 1 = rw on at v.taken in
      let inside : p.sender.n_msg < 10 = omega (arith, v.order.index) in
      let count = v.retains.shaped.buffers p.sender.n_msg inside in
      record {
        header = v.header on ∙ ap data_header v.order.number;
        filled = omega (arith, taken, v.posted, v.cursor.posts);
        count = count;
        full =
            AreFull-each (message_at p.dws.messages p.sender.n_msg).buffers
              (λ i hi. v.retains.shaped.bytes p.sender.n_msg i inside (omega (arith, count)));
        buffers = λ q i hi h h'.
            let k : ℕ = 780 * q + (78 * j + i) in
            let slot : k % 78 ≡ i = omega arith in
            let message : k / 78 % 10 ≡ p.sender.n_msg = omega (arith, v.order.index) in
            subst (λ n. Holds a (inputs k) k (buffer_at p.dws.messages n i)) message
              (subst (λ s. Holds a (inputs k) k (buffer_at p.dws.messages (k / 78 % 10) s)) slot
                (v.retains.kept k h h'));
      }

  pub send-IsSound :
      (p : Pipe) (answer : ℤ) → IsSound p → p.sending ≡ true → IsSound (send_message answer p)
  unfolding send_message
  send-IsSound p answer v on =
      let s = p.sender in
      let j = length s.published in
      let m = message_at p.dws.messages s.n_msg in
      let s' = (publish_message answer (s, p.dws.messages)).0 in
      let grown : s'.published ≡ s.published ++ m ∷ [] = published-snoc answer s p.dws.messages in
      let one_more : length s'.published ≡ j + 1 =
        rw (grown, length-append s.published (m ∷ [])) refl in
      let taken : p.send_pends ≡ j + 1 = rw on at v.taken in
      record {
        cursor = v.cursor;
        retains = v.retains;
        order =
            subst (λ k. Order.IsAt k s') (sym one_more)
              (publish-IsAt j answer s p.dws.messages v.order);
        transferred = v.transferred;
        posted = v.posted;
        taken = omega (arith, taken, one_more);
        logged = omega (arith, length-append p.rounds_at (p.dws_pends ∷ []), v.logged, one_more);
        header = λ off. absurd (cc);
        published = λ i h. rw grown (elim (ℕ_discrete i j) [
          | yes e ↦
              let last : i ≡ j + 0 = omega (arith, e) in
              let last_round : i ≡ length p.rounds_at + 0 = omega (arith, e, v.logged) in
              subst
                (λ (x : MsgData).
                  IsComplete a inputs (get_or (p.rounds_at ++ p.dws_pends ∷ []) i 0) i x)
                (sym (
                  ap (λ (k : ℕ). get_or (s.published ++ m ∷ []) k zero_message) last
                  ∙ get_or-append_right s.published (m ∷ []) 0 zero_message))
                (subst (λ (n : ℕ). IsComplete a inputs n i m)
                  (sym (
                    ap (λ (k : ℕ). get_or (p.rounds_at ++ p.dws_pends ∷ []) k 0) last_round
                    ∙ get_or-append_right p.rounds_at (p.dws_pends ∷ []) 0 0))
                  (subst (λ (k : ℕ). IsComplete a inputs p.dws_pends k m) (sym e)
                    (send-IsComplete p v on)))
          | no ne ↦
              let before : i < j = omega (arith, h, one_more) in
              rw
                (
                  get_or-append_left s.published (m ∷ []) i zero_message before,
                  get_or-append_left p.rounds_at (p.dws_pends ∷ []) i 0
                      (omega (arith, before, v.logged)),
                )
                (v.published i before)
        ]);
      }
