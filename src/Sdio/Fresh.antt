-- ===== src/Sdio/Fresh.antt =====
-- How old the buffer status of rsi/rsi_91x_sdio_ops.c may be.
use si91x_rcp_driver.Prelude.{
  ℕ, ◌+◌, ◌≤◌, ◌<◌, ◌≡◌, ◌⊎◌, inl, inr, true, ◌&&◌, ◌||◌, Option, some, List, [], ◌∷◌, ltb, ◌==◌,
  if◌then◌else◌, arith, length,
}
use si91x_rcp_driver.Tx.State.{mgmt_soft_q}
use si91x_rcp_driver.Sdio.{
  SdioDev, queue_full, queue_not_full, has_bit, take_status, verdict, read_status,
  check_buffer_status,
}

-- Checks for several queues, one after the other.
pub checks : (read : ℕ → Option ℕ) → List ℕ → SdioDev → SdioDev
checks read [] s = s
checks read (q ∷ qs) s = checks read qs (check_buffer_status read q s).1

check_step :
    (read : ℕ → Option ℕ) (q : ℕ) (s : SdioDev)
    → (let s' = (check_buffer_status read q s).1 in
        (s.reads < s'.reads) ⊎ ((s'.reads ≡ s.reads) × (s'.counter + 1 ≡ s.counter)))
unfolding check_buffer_status read_status take_status
check_step read q s = ground arith

reads_grow : (read : ℕ → Option ℕ) (qs : List ℕ) (s : SdioDev) → s.reads ≤ (checks read qs s).reads
unfolding checks
reads_grow read [] s = omega arith
reads_grow read (q ∷ qs) s =
    ground (arith, check_step read q s, reads_grow read qs (check_buffer_status read q s).1)

-- Among more checks in a row than the counter says, at least one reads the register of the device,
-- whatever the queues and the answers: with the counter at 4, as it starts, five are enough.
pub checks-read :
    (read : ℕ → Option ℕ) (qs : List ℕ) (s : SdioDev)
    → s.counter < length qs
    → s.reads < (checks read qs s).reads
unfolding checks
checks-read read [] s lt = elim lt [ ]
checks-read read (q ∷ qs) s lt = elim (check_step read q s) [
  | inl grew ↦ omega (arith, grew, reads_grow read qs (check_buffer_status read q s).1)
  | inr (same, down) ↦
      omega (
        arith,
        same,
        checks-read read qs (check_buffer_status read q s).1 (omega (arith, lt, down)),
      )
]

-- If the register is due and can be read, the check says that the queue is full exactly when the
-- device's bit for its kind of queue is set: bit 2 for the management queue, bit 1 for the queues
-- below it; the answer is not an error, and the counter is 1 or 4.
pub check_buffer_status_lem :
    (read : ℕ → Option ℕ) (q v : ℕ) (s : SdioDev)
    → read s.reads ≡ some v
    → (s.buff_status_updated ≡ true) ⊎ (s.counter ≡ 0)
    → let (status, s') = check_buffer_status read q s in
      (status ≡ (
        if ((q == mgmt_soft_q) && has_bit v 2) || (ltb q mgmt_soft_q && has_bit v 1)
        then queue_full
        else queue_not_full))
      × ((s'.counter ≡ 1) ⊎ (s'.counter ≡ 4))
unfolding check_buffer_status read_status take_status verdict
check_buffer_status_lem read q v s e due = ground (arith, e, due)
