-- ===== src/Terminal/Keys.antt =====
-- The single characters and the texts of Core/uart_term.c: `Message`, `ClearTerm`, `getch` and
-- `putch`.
use plhr_firmware.Common.{
  ℕ, ◌≡◌, refl, ap, ◌∙◌, sym, Option, none, some, List, [], ◌∷◌, ◌++◌, take, length, append_assoc,
  append-nil,
}
use plhr_firmware.Terminal.{strlen}
use plhr_firmware.Terminal.Trimming.{IsText, strlen-text}

-- The UART: the keys that come in, and the bytes that have gone out.
pub record Console : Type 0 where
  pub keys : List ℕ
  pub sent : List ℕ

-- `Message`; none where the array has no zero byte.
pub message : List ℕ → Console → Option Console
message str u = elim (strlen str) [
  | none ↦ none
  | some n ↦ some (record u { sent = u.sent ++ take n str })
]

-- `ClearTerm`, with "\33[2J\r".
pub clear_term : Console → Option Console
unfolding message
clear_term u = message (27 ∷ 91 ∷ 50 ∷ 74 ∷ 13 ∷ 0 ∷ []) u

-- `getch`; none while no key comes.
pub getch : Console → Option (ℕ × Console)
getch u = elim u.keys [ [] ↦ none | ch ∷ keys ↦ some (ch, record u { keys = keys }) ]

-- `putch`.
pub putch : ℕ → Console → Console
putch ch u = record u { sent = u.sent ++ ch ∷ [] }

-- Character by character.
pub put_each : List ℕ → Console → Console
unfolding putch
put_each [] u = u
put_each (ch ∷ text) u = put_each text (putch ch u)

take-text : (text tail : List ℕ) → take (length text) (text ++ tail) ≡ text
take-text [] tail = refl
take-text (c ∷ text) tail = ap (λ t. c ∷ t) (take-text text tail)

put_each_lem : (text : List ℕ) (u : Console) → put_each text u ≡ record u { sent = u.sent ++ text }
unfolding put_each putch
put_each_lem [] u = ap (λ s. record u { sent = s }) (sym (append-nil u.sent))
put_each_lem (c ∷ text) u =
    put_each_lem text (putch c u)
    ∙ ap (λ s. record u { sent = s }) (append_assoc u.sent (c ∷ []) text)

-- `Message` sends the characters before the first zero byte, as `putch` on each of them does, and
-- reads no key.
pub message-put_each :
    (text tail : List ℕ) (u : Console)
    → IsText text
    → message (text ++ 0 ∷ tail) u ≡ some (put_each text u)
unfolding message
message-put_each text tail u h =
    rw (message, strlen-text text tail h, take-text text (0 ∷ tail))
      (ap some (sym (put_each_lem text u)))
