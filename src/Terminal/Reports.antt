-- ===== src/Terminal/Reports.antt =====
-- `Report` prints the whole text wherever it gets the memory.
use native.Mathlib.Nat.{pow-suc}
use plhr_firmware.Common.{
  ℕ, zero, suc, ◌-◌, ◌*◌, ◌^◌, ◌≤◌, ◌<◌, ◌≡◌, refl, ap, Bool, true, false, List, [], ◌∷◌, ◌++◌, ltb,
  lt→ltb, length, replicate, take, take_all, dec_lt, arith, ℤ, pos, negsuc,
}
use plhr_firmware.Terminal.{realloc_message, printed, report_from, report}

-- What the C library says of `vsnprintf`, for a format and arguments that give `text`: it leaves as
-- much of the text as there is room for beside the zero byte, and answers with the length of the
-- whole text.
abbrev pub Formats : (ℕ → ℤ × List ℕ) → List ℕ → Type 0
Formats vsnprintf text = (size : ℕ) → vsnprintf size ≡ (pos (length text), take (size - 1) text)

twice : (size k : ℕ) → size * 2 ^ suc k ≡ size * 2 * 2 ^ k
twice size k = omega (arith, ap (λ (t : ℕ). size * t) (pow-suc 2 k))

grows : (size k : ℕ) → size ≤ size * 2 ^ k
grows size zero = omega arith
grows size (suc k) = omega (arith, twice size k, grows (size * 2) k)

module _ (vsnprintf : ℕ → ℤ × List ℕ) (text : List ℕ) (formats : Formats vsnprintf text) where
  -- A round in which the text fits, with any answers.
  report-fits :
      (size : ℕ) (reallocs : List Bool)
      → length text < size
      → report_from vsnprintf size reallocs ≡ printed (pos (length text)) (text ∷ [])
  unfolding report_from
  report-fits size [] h =
      rw (formats size, lt→ltb _ _ h, take_all (size - 1) text (omega arith)) refl
  report-fits size (true ∷ reallocs) h =
      rw (formats size, lt→ltb _ _ h, take_all (size - 1) text (omega arith)) refl
  report-fits size (false ∷ reallocs) h =
      rw (formats size, lt→ltb _ _ h, take_all (size - 1) text (omega arith)) refl

  too_small : (size : ℕ) → size ≤ length text → ltb (length text) size ≡ false
  too_small size h = ground arith

  report_from_lem :
      (k size : ℕ) (rest : List Bool)
      → (length text < size * 2 ^ k
          → report_from vsnprintf size (replicate k true ++ rest)
            ≡ printed (pos (length text)) (text ∷ []))
        × (size * 2 ^ k ≤ length text
            → report_from vsnprintf size (replicate k true ++ false ∷ rest)
              ≡ printed (negsuc 0) (realloc_message ∷ take (size * 2 ^ k - 1) text ∷ []))
  unfolding report_from
  report_from_lem zero size rest =
      let once : size * 1 ≡ size = omega arith in
      rw once (report-fits size rest, λ h. rw (formats size, too_small size h) refl)
  report_from_lem (suc k) size rest = elim (dec_lt (length text) size) [
    | yes small ↦ (
      λ _. report-fits size (true ∷ (replicate k true ++ rest)) small,
      λ h. absurd (omega (arith, grows size (suc k))),
    )
    | no large ↦
        let (good, bad) = report_from_lem k (size * 2) rest in
        rw (twice size k) (
          λ h. rw (formats size, too_small size (omega arith)) (good h),
          λ h. rw (formats size, too_small size (omega arith)) (bad h),
        )
  ]

  -- `Report` prints the whole text, and answers with its length, where `malloc` finds memory and
  -- `realloc` does as often as the 256 bytes have to be doubled for the text and its zero byte. At
  -- the first `realloc` that finds none it prints a message and what had fitted before, and answers
  -- -1; where `malloc` finds none it prints nothing and answers -1. (`vsnprintf` does what the C
  -- library says of it.)
  pub report_lem :
      (k : ℕ) (rest : List Bool)
      → (length text < 256 * 2 ^ k
          → report vsnprintf true (replicate k true ++ rest)
            ≡ printed (pos (length text)) (text ∷ []))
        × (256 * 2 ^ k ≤ length text
            → report vsnprintf true (replicate k true ++ false ∷ rest)
              ≡ printed (negsuc 0) (realloc_message ∷ take (256 * 2 ^ k - 1) text ∷ []))
        × (report vsnprintf false rest ≡ printed (negsuc 0) [])
  unfolding report
  report_lem k rest = let (good, bad) = report_from_lem k 256 rest in (good, bad, refl)
