-- ===== src/Terminal.antt =====
-- The console of Core/uart_term.c: reading a line with a backspace key, trimming it, and printing a
-- formatted text. The UART is the list of the keys that come in and the list of the bytes that go
-- out; `none` stands for an access outside an array.
pub mod Lines
pub mod Trimming
pub mod Reports
pub mod Keys
use plhr_firmware.Common.{
  ℕ, zero, suc, ◌+◌, ◌-◌, ◌*◌, Bool, true, false, Option, none, some, List, [], ◌∷◌, ◌++◌, ltb, leb,
  ◌==◌, ◌||◌, if◌then◌else◌, length, get_elem?, set, take, drop, ℤ, pos, negsuc,
}

-- The variables of `GetCmd`, and what it has written to the UART.
pub record Cmd : Type 0 where
  pub buffer : List ℕ  -- pcBuffer
  pub len : ℕ  -- iLen
  pub echoed : List ℕ

-- What a call of `GetCmd` comes to: an access outside the array, a wait for a key, or a code, with
-- the keys that are left.
pub data Got : Type 0 where
  fault : Got
  blocked : Cmd → Got
  returned : ℤ → Cmd → List ℕ → Got

-- `*(buffer + i) = v`.
pub store : List ℕ → ℕ → ℕ → Option (List ℕ)
store buffer i v = if ltb i (length buffer) then some (set buffer i v) else none

abbrev pub is_end : ℕ → Bool
is_end c = c == 13 || c == 10

-- The branches for a backspace and for another key.
pub key : ℕ → Cmd → Option Cmd
unfolding store
key c s =
    if c == 8
    then (if s.len == 0
        then some (record s { echoed = s.echoed ++ 8 ∷ 32 ∷ 7 ∷ [] })
        else some (record s { echoed = s.echoed ++ 8 ∷ 32 ∷ 8 ∷ []; len = s.len - 1 }))
    else elim (store s.buffer s.len c) [
      | none ↦ none
      | some buffer ↦
          some (record s { echoed = s.echoed ++ c ∷ []; buffer = buffer; len = s.len + 1 })
    ]

-- The branch for the end of the command.
pub end_line : ℕ → List ℕ → Cmd → Got
unfolding store
end_line c keys s = elim (store s.buffer s.len 0) [
  | none ↦ fault
  | some buffer ↦
      returned (pos s.len) (record s { echoed = s.echoed ++ c ∷ []; buffer = buffer }) keys
]

-- The loop, a round for each key.
pub get_cmd_from : ℕ → List ℕ → Cmd → Got
unfolding key end_line
get_cmd_from size [] s = blocked s
get_cmd_from size (c ∷ keys) s =
    let next : Got = elim (key c s) [ none ↦ fault | some s' ↦ get_cmd_from size keys s' ] in
    if leb size s.len
    then returned (negsuc 0) s keys
    else if is_end c
    then end_line c keys s
    else next

-- `GetCmd(buffer, size)` with the keys that come in.
unfoldable pub get_cmd : ℕ → List ℕ → List ℕ → Got
unfolding get_cmd_from
get_cmd size buffer keys = get_cmd_from size keys (record { buffer = buffer; len = 0; echoed = [] })

-- `strlen`, or `none` where the array has no zero byte.
pub strlen : List ℕ → Option ℕ
strlen [] = none
strlen (c ∷ cs) =
    if c == 0 then some 0 else elim (strlen cs) [ none ↦ none | some n ↦ some (suc n) ]

-- The first loop of `TrimSpace` on the first `n` bytes: how many are left.
pub trim_end : List ℕ → ℕ → ℕ
trim_end buffer zero = zero
trim_end buffer (suc n) =
    let fewer = trim_end buffer n in
    elim (get_elem? buffer n) [ none ↦ suc n | some c ↦ if c == 32 then fewer else suc n ]

-- The second loop: the array from `strData` on.
pub skip_spaces : List ℕ → List ℕ
skip_spaces [] = []
skip_spaces (c ∷ cs) = let fewer = skip_spaces cs in if c == 32 then fewer else c ∷ cs

-- `memmove` of the first `n` bytes to the start of the array.
abbrev pub move_back : ℕ → List ℕ → List ℕ → List ℕ
move_back n from buffer = take n from ++ drop n buffer

-- `TrimSpace` from the write behind the last character on.
pub trim_from : ℕ → List ℕ → Option (ℕ × List ℕ)
unfolding store strlen skip_spaces
trim_from n buffer = elim (store buffer n 0) [
  | none ↦ none
  | some cut ↦ elim (strlen (skip_spaces cut)) [
    | none ↦ none
    | some m ↦
        let moved = move_back (m + 1) (skip_spaces cut) cut in
        elim (strlen moved) [ none ↦ none | some k ↦ some (k, moved) ]
  ]
]

-- `TrimSpace`: its answer, and the array.
unfoldable pub trim_space : List ℕ → Option (ℕ × List ℕ)
unfolding strlen trim_end trim_from
trim_space buffer = elim (strlen buffer) [
  | none ↦ none
  | some zero ↦ some (0, buffer)
  | some (suc n) ↦ trim_from (trim_end buffer (suc n)) buffer
]

-- "Could not reallocate memory\n\r".
abbrev pub realloc_message : List ℕ
realloc_message =
    67 ∷ 111 ∷ 117 ∷ 108 ∷ 100 ∷ 32 ∷ 110 ∷ 111 ∷ 116 ∷ 32 ∷ 114 ∷ 101 ∷ 97 ∷ 108 ∷ 108 ∷ 111 ∷ 99
    ∷ 97 ∷ 116 ∷ 101 ∷ 32 ∷ 109 ∷ 101 ∷ 109 ∷ 111 ∷ 114 ∷ 121 ∷ 10 ∷ 13 ∷ []

-- What a call of `Report` comes to: a wait for the answer to a `realloc` of a size, or its code
-- with the texts that it has printed.
pub data Reported : Type 0 where
  growing : ℕ → Reported
  printed : ℤ → List (List ℕ) → Reported

abbrev pub fits : ℤ → ℕ → Bool
fits (pos n) size = ltb n size
fits (negsuc n) size = false

-- The loop: `vsnprintf size` is the code of the call and the text that it leaves in `size` bytes,
-- and the list holds which `realloc` finds memory.
pub report_from : (ℕ → ℤ × List ℕ) → ℕ → List Bool → Reported
report_from vsnprintf size [] =
    let (ret, text) = vsnprintf size in
    if fits ret size then printed ret (text ∷ []) else growing (size * 2)
report_from vsnprintf size (true ∷ reallocs) =
    let (ret, text) = vsnprintf size in
    let more = report_from vsnprintf (size * 2) reallocs in
    if fits ret size then printed ret (text ∷ []) else more
report_from vsnprintf size (false ∷ reallocs) =
    let (ret, text) = vsnprintf size in
    if fits ret size
    then printed ret (text ∷ [])
    else printed (negsuc 0) (realloc_message ∷ text ∷ [])

-- `Report`; the test is whether `malloc` finds memory.
pub report : (ℕ → ℤ × List ℕ) → Bool → List Bool → Reported
unfolding report_from
report vsnprintf malloc reallocs =
    if malloc then report_from vsnprintf 256 reallocs else printed (negsuc 0) []
