-- ===== src/Sending/Transport.antt =====
-- What `send_data` asks of the module that takes its messages away, and `mqtt_publish` of
-- Core/mqtt_user.c as such a module.
pub mod OverMqtt
use plhr_firmware.Common.{
  ◌≡◌, refl, ◌∙◌, ap, sym, Option, none, some, List, [], ◌∷◌, ◌++◌, map, append-nil, append_assoc,
  ℕ,
}
use plhr_firmware.Messages.{MsgData}
use plhr_firmware.Messages.Wire.{msg_data_bytes}

-- A module takes a payload in a state in which it is ready, stays ready, and delivers it behind
-- those before.
pub record Transport : Type 1 where
  pub State : Type 0
  pub IsReady : State → Type 0
  pub send : List ℕ → State → Option State
  pub delivered : State → List (List ℕ)
  pub send_lem :
      (p : List ℕ) (s : State)
      → IsReady s
      → (s' : State) × (send p s ≡ some s') × IsReady s' × (delivered s' ≡ delivered s ++ p ∷ [])

module _ (t : Transport) where
  open t use {State, IsReady, send, delivered, send_lem}

  -- The publications of `send_data`, in order: each hands over the bytes of a message.
  pub send_all : List MsgData → State → Option State
  send_all [] s = some s
  send_all (m ∷ ms) s = elim (send (msg_data_bytes m) s) [ none ↦ none | some s' ↦ send_all ms s' ]

  -- All messages are delivered, in order.
  pub send_all-delivers :
      (ms : List MsgData) (s : State)
      → IsReady s
      → (s' : State) × (send_all ms s ≡ some s')
        × IsReady s'
        × (delivered s' ≡ delivered s ++ map msg_data_bytes ms)
  unfolding send_all
  send_all-delivers [] s ready = (s, refl, ready, sym (append-nil (delivered s)))
  send_all-delivers (m ∷ ms) s ready =
      let (s1, runs, ready1, one) = send_lem (msg_data_bytes m) s ready in
      let (s2, runs', ready2, more) = send_all-delivers ms s1 ready1 in
      (
        s2,
        rw (runs, send_all) runs',
        ready2,
        more
            ∙ ap (λ ds. ds ++ map msg_data_bytes ms) one
            ∙ append_assoc (delivered s) (msg_data_bytes m ∷ []) (map msg_data_bytes ms),
      )
