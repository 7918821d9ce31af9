-- ===== src/Acquisition/Interrupts.antt =====
-- The table of interrupt handlers of Core/interrupt_user.c.
use plhr_firmware.Common.{
  ==_ne, ==_refl, ◌≡◌, refl, ◌≢◌, arith, ℕ, List, [], ◌∷◌, Option, none, some, if◌then◌else◌, ◌==◌,
}

-- `int_handler_t`.
pub record Handler : Type 0 where
  pub interrupt_num : ℕ
  pub handle : ℕ

-- `int_handler`, of `MAX_NUM_INT` entries.
abbrev pub Table : Type 0
Table = List Handler

abbrev pub max_num_int : ℕ
max_num_int = 1

-- `INTERRUPT_NO_ERROR` and the error codes of interrupt_user.h.
pub data Status : Type 0 where
  no_error not_created not_interrupt_size has_not_been_created : Status

-- `interrupt_config`: every number is reset, the handles stay.
pub interrupt_config : Table → Table
interrupt_config [] = []
interrupt_config (h ∷ t) = record h { interrupt_num = 0 } ∷ interrupt_config t

-- The loop of `udma_interrupt_start`: the first free entry is taken.
pub take_entry : ℕ → ℕ → Table → Status × Table
take_entry num handle [] = (not_interrupt_size, [])
take_entry num handle (h ∷ t) =
    if h.interrupt_num == 0
    then (no_error, record { interrupt_num = num; handle = handle } ∷ t)
    else let (s, t') = take_entry num handle t in (s, h ∷ t')

-- `udma_interrupt_start`; `created` is what `HwiP_create` returns.
pub udma_interrupt_start : Option ℕ → ℕ → Table → Status × Table
udma_interrupt_start none num t = (not_created, t)
udma_interrupt_start (some handle) num t = take_entry num handle t

-- `interrupt_user_disable`: the handle that is deleted, if the number is found. The entry stays.
pub interrupt_user_disable : ℕ → Table → Status × Option ℕ × Table
interrupt_user_disable num [] = (has_not_been_created, none, [])
interrupt_user_disable num (h ∷ t) =
    if h.interrupt_num == num
    then (no_error, some h.handle, h ∷ t)
    else let (s, d, t') = interrupt_user_disable num t in (s, d, h ∷ t')

-- No entry is free: every number differs from 0.
abbrev pub IsFull : Table → Type 0
IsFull [] = Unit {0}
IsFull (h ∷ t) = (h.interrupt_num ≢ 0) × IsFull t

take_entry-IsFull :
    (num handle : ℕ) (t : Table) → IsFull t → take_entry num handle t ≡ (not_interrupt_size, t)
unfolding take_entry
take_entry-IsFull num handle [] f = refl
take_entry-IsFull num handle (h ∷ t) (ne, f) =
    rw (==_ne h.interrupt_num 0 ne, take_entry-IsFull num handle t f)

table-disable : (num : ℕ) (t : Table) → (interrupt_user_disable num t).2 ≡ t
unfolding interrupt_user_disable
table-disable num [] = refl
table-disable num (h ∷ t) = ground (arith, table-disable num t)

-- Disabling an interrupt leaves its entry taken: where no entry was free, none is free afterwards,
-- and every later start fails, although its interrupt was created.
pub start_after_disable :
    (num num' handle : ℕ) (t : Table)
    → IsFull t
    → udma_interrupt_start (some handle) num' (interrupt_user_disable num t).2
      ≡ (not_interrupt_size, t)
unfolding udma_interrupt_start
start_after_disable num num' handle t f =
    rw (table-disable num t) (take_entry-IsFull num' handle t f)

-- In a table that was just configured, a start puts its interrupt into the first entry.
pub start-config :
    (num handle : ℕ) (h : Handler) (t : Table)
    → (udma_interrupt_start (some handle) num (interrupt_config (h ∷ t))).1
      ≡ record { interrupt_num = num; handle = handle } ∷ interrupt_config t
unfolding udma_interrupt_start interrupt_config take_entry
start-config num handle h t = refl

-- In a table that was just configured, a start takes the first entry, and a disable of the same
-- interrupt deletes the handle that the start created; both succeed.
pub disable-start :
    (num handle : ℕ) (h : Handler) (t : Table)
    → let (s, t') = udma_interrupt_start (some handle) num (interrupt_config (h ∷ t)) in
      (s ≡ no_error) × (interrupt_user_disable num t' ≡ (no_error, some handle, t'))
unfolding udma_interrupt_start interrupt_config take_entry interrupt_user_disable
disable-start num handle h t = (refl, rw (==_refl num))
