-- ===== src/Examples/Consoles.antt =====
-- The theorems about Core/uart_term.c at concrete inputs.
use plhr_firmware.Common.{
  ℕ, ◌-◌, ◌<◌, ◌≡◌, refl, true, some, List, [], ◌∷◌, ◌++◌, length, replicate, take, arith, ℤ, pos,
  negsuc,
}
use plhr_firmware.Terminal.{Cmd, blocked, returned, is_end, get_cmd, trim_space}
use plhr_firmware.Terminal.Lines.{show_keys, Begins, get_cmd_lem}
use plhr_firmware.Terminal.Trimming.{IsTrimmed, trim_space_lem}

-- An a, two backspaces, a b and a c.
abbrev typed : List ℕ
typed = 97 ∷ 8 ∷ 8 ∷ 98 ∷ 99 ∷ []

abbrev zeros : List ℕ
zeros = replicate 6 0

get_cmd_lem_example :
    (s : Cmd) × Begins 4 zeros (98 ∷ 99 ∷ []) s.buffer
    × (s.echoed ≡ 97 ∷ 8 ∷ 32 ∷ 8 ∷ 8 ∷ 32 ∷ 7 ∷ 98 ∷ 99 ∷ [])
    × (get_cmd 4 zeros typed ≡ blocked s)
    × ((e : ℕ) (rest : List ℕ)
        → is_end e ≡ true
        → 2 < 4
        → (buffer : List ℕ) × Begins 4 zeros (98 ∷ 99 ∷ 0 ∷ []) buffer
          × (get_cmd 4 zeros (typed ++ e ∷ rest)
              ≡ returned
                  (pos 2)
                  (record s { echoed = show_keys [] typed ++ e ∷ []; buffer = buffer })
                  rest))
    × ((c : ℕ) (rest : List ℕ)
        → ◌≡◌ {A = ℕ} 2 4
        → get_cmd 4 zeros (typed ++ c ∷ rest) ≡ returned (negsuc 0) s rest)
get_cmd_lem_example = get_cmd_lem 4 zeros (omega arith) typed (
  omega arith,
  refl,
  (omega arith, refl, (omega arith, refl, (omega arith, refl, (omega arith, refl, tt)))),
)

-- A blank, an x, a blank, a y and two blanks.
abbrev padded : List ℕ
padded = 32 ∷ 120 ∷ 32 ∷ 121 ∷ 32 ∷ 32 ∷ []

trim_space_lem_example :
    (a b : ℕ) × (u zs : List ℕ) × (padded ≡ replicate a 32 ++ (u ++ replicate b 32))
    × IsTrimmed u
    × (trim_space (padded ++ 0 ∷ 7 ∷ []) ≡ some (length u, u ++ 0 ∷ zs))
    × (length (u ++ 0 ∷ zs) ≡ length (padded ++ 0 ∷ 7 ∷ []))
trim_space_lem_example = trim_space_lem padded (7 ∷ []) (
  λ e. absurd (omega (arith, e)),
  (
    λ e. absurd (omega (arith, e)),
    (
      λ e. absurd (omega (arith, e)),
      (
        λ e. absurd (omega (arith, e)),
        (λ e. absurd (omega (arith, e)), (λ e. absurd (omega (arith, e)), tt)),
      ),
    ),
  ),
)

-- `vsnprintf` for a text of 600 letters.
abbrev letters : List ℕ
letters = replicate 600 97

abbrev formats_letters : ℕ → ℤ × List ℕ
formats_letters size = (pos (length letters), take (size - 1) letters)
