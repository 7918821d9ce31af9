-- ===== src/Terminal/Lines.antt =====
-- `GetCmd` is a line editor: what the keys make of the line, where it ends, and where it has no
-- more room.
use plhr_firmware.Common.{
  ℕ, zero, suc, ◌+◌, ◌-◌, ◌≤◌, ◌<◌, ◌≡◌, refl, sym, ap, ◌∙◌, true, false, some, List, [], ◌∷◌, ◌++◌,
  append-nil, append_assoc, if◌then◌else◌, leb, lt→ltb, ◌==◌, ==_iff, Bool-cases, inl, inr, length,
  length-append, set, length-set, take, length-take, drop, arith, pos, negsuc,
}
use plhr_firmware.Terminal.{
  Cmd, blocked, returned, store, is_end, key, end_line, get_cmd_from, get_cmd,
}

take-set : (xs : List ℕ) (n v : ℕ) → n < length xs → take (suc n) (set xs n v) ≡ take n xs ++ v ∷ []
take-set [] n v h = absurd (omega arith)
take-set (x ∷ xs) zero v h = refl
take-set (x ∷ xs) (suc n) v h = ap (λ r. x ∷ r) (take-set xs n v (omega arith))

drop-set : (xs : List ℕ) (n m v : ℕ) → n < m → drop m (set xs n v) ≡ drop m xs
drop-set xs n zero v h = absurd (omega arith)
drop-set [] n (suc m) v h = refl
drop-set (x ∷ xs) zero (suc m) v h = refl
drop-set (x ∷ xs) (suc n) (suc m) v h = drop-set xs n m v (omega arith)

take-take : (xs : List ℕ) (m n : ℕ) → m ≤ n → take m (take n xs) ≡ take m xs
take-take xs zero n h = refl
take-take xs (suc m) zero h = absurd (omega arith)
take-take [] (suc m) (suc n) h = refl
take-take (x ∷ xs) (suc m) (suc n) h = ap (λ r. x ∷ r) (take-take xs m n (omega arith))

back_lem : (t : List ℕ) → length (take (length t - 1) t) ≡ length t - 1
back_lem t = length-take t (length t - 1) (omega arith)

-- A key on a line: a backspace takes the last character back.
abbrev pub press : List ℕ → ℕ → List ℕ
press t c = if c == 8 then take (length t - 1) t else t ++ c ∷ []

-- What the terminal shows for it: a backspace, a blank and a backspace, or a bell on an empty line.
abbrev pub show_key : List ℕ → ℕ → List ℕ
show_key t c =
    if c == 8 then (if length t == 0 then 8 ∷ 32 ∷ 7 ∷ [] else 8 ∷ 32 ∷ 8 ∷ []) else c ∷ []

abbrev pub line : List ℕ → List ℕ → List ℕ
line t [] = t
line t (c ∷ keys) = line (press t c) keys

abbrev pub show_keys : List ℕ → List ℕ → List ℕ
show_keys t [] = []
show_keys t (c ∷ keys) = show_key t c ++ show_keys (press t c) keys

-- No key ends the command, and each comes while the line is shorter than `size`.
abbrev pub Fits : ℕ → List ℕ → List ℕ → Type 0
Fits size t [] = Unit {0}
Fits size t (c ∷ keys) = (length t < size) × (is_end c ≡ false) × Fits size (press t c) keys

-- `buffer'` begins with `t`, and is `buffer` from `size` on.
pub record Begins (size : ℕ) (buffer t buffer' : List ℕ) : Type 0 where
  pub text : take (length t) buffer' ≡ t
  pub room : length buffer' ≡ length buffer
  pub beyond : drop size buffer' ≡ drop size buffer

-- A write behind the text.
Begins-store :
    (size : ℕ) (buffer t buffer' : List ℕ) (c : ℕ)
    → size ≤ length buffer
    → length t < size
    → Begins size buffer t buffer'
    → (store buffer' (length t) c ≡ some (set buffer' (length t) c))
      × Begins size buffer (t ++ c ∷ []) (set buffer' (length t) c)
unfolding store
Begins-store size buffer t buffer' c fits short b =
    let inside : length t < length buffer' = omega (arith, b.room) in
    let longer : length (t ++ c ∷ []) ≡ suc (length t) = omega (arith, length-append t (c ∷ [])) in
    (
      rw (lt→ltb _ _ inside) refl,
      record {
        text = rw longer (take-set buffer' (length t) c inside ∙ ap (λ r. r ++ c ∷ []) b.text);
        room = length-set buffer' (length t) c ∙ b.room;
        beyond = drop-set buffer' (length t) size c short ∙ b.beyond;
      },
    )

Begins-back :
    (size : ℕ) (buffer t buffer' : List ℕ)
    → Begins size buffer t buffer'
    → Begins size buffer (take (length t - 1) t) buffer'
Begins-back size buffer t buffer' b =
    let shorter = back_lem t in
    record {
      text = rw shorter (
          sym (take-take buffer' (length t - 1) (length t) (omega arith))
          ∙ ap (take (length t - 1)) b.text);
      room = b.room;
      beyond = b.beyond;
    }

Begins-itself : (size : ℕ) (buffer : List ℕ) → Begins size buffer [] buffer
Begins-itself size buffer = record { text = refl; room = refl; beyond = refl }

-- The variables stand for the line `t`.
record Shows (size : ℕ) (buffer t : List ℕ) (s : Cmd) : Type 0 where
  begins : Begins size buffer t s.buffer
  at : s.len ≡ length t

le→leb : (a b : ℕ) → a ≤ b → leb a b ≡ true
le→leb a b h = ground arith

lt→leb-false : (a b : ℕ) → b < a → leb a b ≡ false
lt→leb-false a b h = ground arith

module _ (size : ℕ) (buffer : List ℕ) (fits : size ≤ length buffer) where
  key-Shows :
      (c : ℕ) (t : List ℕ) (s : Cmd)
      → length t < size
      → Shows size buffer t s
      → (s' : Cmd) × (key c s ≡ some s')
        × Shows size buffer (press t c) s'
        × (s'.echoed ≡ s.echoed ++ show_key t c)
  unfolding key
  key-Shows c t s short v = elim (Bool-cases (c == 8)) [
    | inl back ↦ elim (Bool-cases (length t == 0)) [
      | inl empty ↦ (
        record s { echoed = s.echoed ++ 8 ∷ 32 ∷ 7 ∷ [] },
        rw (back, v.at, empty) refl,
        rw back (record {
          begins = Begins-back size buffer t s.buffer v.begins;
          at = omega (arith, v.at, (==_iff _ _).0 empty, back_lem t);
        }),
        rw (back, empty) refl,
      )
      | inr more ↦ (
        record s { echoed = s.echoed ++ 8 ∷ 32 ∷ 8 ∷ []; len = s.len - 1 },
        rw (back, v.at, more) refl,
        rw back (record {
          begins = Begins-back size buffer t s.buffer v.begins;
          at = omega (arith, v.at, back_lem t);
        }),
        rw (back, more) refl,
      )
    ]
    | inr other ↦
        let (stores, begins) = Begins-store size buffer t s.buffer c fits short v.begins in
        let stores' : store s.buffer s.len c ≡ some (set s.buffer (length t) c) = rw v.at stores in
        (
          record s {
            echoed = s.echoed ++ c ∷ [];
            buffer = set s.buffer (length t) c;
            len = s.len + 1;
          },
          rw (other, stores', key) refl,
          rw other (record { begins = begins; at = omega (arith, v.at, length-append t (c ∷ [])) }),
          rw other refl,
        )
  ]

  get_cmd_from-keys :
      (keys t : List ℕ) (s : Cmd)
      → Fits size t keys
      → Shows size buffer t s
      → (s' : Cmd) × ((rest : List ℕ)
          → get_cmd_from size (keys ++ rest) s ≡ get_cmd_from size rest s')
        × Shows size buffer (line t keys) s'
        × (s'.echoed ≡ s.echoed ++ show_keys t keys)
  unfolding get_cmd_from
  get_cmd_from-keys [] t s f v = (s, λ _. refl, v, sym (append-nil s.echoed))
  get_cmd_from-keys (c ∷ keys) t s (short, going, f) v =
      let (s1, runs, v1, shown1) = key-Shows c t s short v in
      let (s2, runs', v2, shown2) = get_cmd_from-keys keys (press t c) s1 f v1 in
      let below : leb size s.len ≡ false = lt→leb-false size s.len (omega (arith, v.at)) in
      (
        s2,
        λ rest. rw (below, going) (rw (runs, get_cmd_from) (runs' rest)),
        v2,
        shown2
            ∙ ap (λ r. r ++ show_keys (press t c) keys) shown1
            ∙ append_assoc s.echoed (show_key t c) (show_keys (press t c) keys),
      )

  -- Keys of which none ends the command, each pressed while the line is shorter than `size`, edit
  -- the line: with them alone `GetCmd` waits for a key. With an end of line behind them it answers
  -- with the length of the line if that is below `size`, and the buffer begins with the line and a
  -- zero byte; with any key behind them it answers -1 if the line has reached `size`. What comes
  -- behind that key is not read. In each case the echo is that of the keys, and nothing is written
  -- from place `size` of the buffer on. (The buffer has `size` bytes or more.)
  pub get_cmd_lem :
      (keys : List ℕ)
      → Fits size [] keys
      → (s : Cmd) × Begins size buffer (line [] keys) s.buffer
        × (s.echoed ≡ show_keys [] keys)
        × (get_cmd size buffer keys ≡ blocked s)
        × ((e : ℕ) (rest : List ℕ)
            → is_end e ≡ true
            → length (line [] keys) < size
            → (buffer' : List ℕ) × Begins size buffer (line [] keys ++ 0 ∷ []) buffer'
              × (get_cmd size buffer (keys ++ e ∷ rest)
                  ≡ returned
                      (pos (length (line [] keys)))
                      (record s { echoed = show_keys [] keys ++ e ∷ []; buffer = buffer' })
                      rest))
        × ((c : ℕ) (rest : List ℕ)
            → length (line [] keys) ≡ size
            → get_cmd size buffer (keys ++ c ∷ rest) ≡ returned (negsuc 0) s rest)
  unfolding get_cmd get_cmd_from end_line
  get_cmd_lem keys f =
      let first : Cmd = record { buffer = buffer; len = 0; echoed = [] } in
      let at_first : Shows size buffer [] first = record {
        begins = Begins-itself size buffer;
        at = refl;
      } in
      let (s, runs, v, shown) = get_cmd_from-keys keys [] first f at_first in
      let t = line [] keys in
      (
        s,
        v.begins,
        shown,
        ap (λ ks. get_cmd_from size ks first) (sym (append-nil keys)) ∙ runs [],
        λ e rest ends short.
            let (stores, begins) = Begins-store size buffer t s.buffer 0 fits short v.begins in
            let stores' : store s.buffer s.len 0 ≡ some (set s.buffer (length t) 0) =
              rw v.at stores in
            let below : leb size s.len ≡ false = lt→leb-false size s.len (omega (arith, v.at)) in
            (
              set s.buffer (length t) 0,
              begins,
              runs (e ∷ rest) ∙ rw (below, ends) (rw (stores', end_line, v.at, shown) refl),
            ),
        λ c rest full.
            let reached : leb size s.len ≡ true = le→leb size s.len (omega (arith, v.at)) in
            runs (c ∷ rest) ∙ rw reached refl,
      )
