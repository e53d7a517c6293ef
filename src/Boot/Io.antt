-- ===== src/Boot/Io.antt =====
-- What the boot loader code of rsi/rsi_91x_hal.c does to the device, as a trace, and a small monad
-- for code that may fail (a negative return value) or wait for ever.
use si91x_rcp_driver.Prelude.{ℕ, Bool, true, false, Option, none, some, List, ◌∷◌, if◌then◌else◌}

pub data Io : Type 0 where
  look : Io  -- a reading of `blcmd_timer_expired`
  start_timer : (msecs : ℕ) → Io
  stop_timer : Io
  reg_read : (addr : ℕ) → Io
  reg_write : (addr value size : ℕ) → Io
  load : (addr : ℕ) (block_size : ℕ) (bytes : List ℕ) → Io  -- load_data_master_write
  burst : (addr : ℕ) (bytes : List ℕ) → Io  -- write_reg_multiple
  msword : (upper : ℕ) → Io  -- master_access_msword
  reset : Io  -- ta_reset_ops

abbrev pub Trace : Type 0
Trace = List Io

-- The device, the bus and the timer: what they answer, given the trace so far (last entry first).
-- `read` is `none` where `master_reg_read` fails, and `writes`, `loads`, `bursts` and `mswords` say
-- whether a call of the bus goes through. `allocs` tells whether the kernel has a buffer.
pub record Device : Type 0 where
  pub expired : Trace → Bool
  pub read : Trace → ℕ → Option ℕ
  pub writes : Trace → Bool
  pub loads : Trace → Bool
  pub bursts : Trace → Bool
  pub mswords : Trace → Bool
  pub allocs : Trace → Bool

pub data Out (A : Type 0) : Type 0 where
  ok : A → Trace → Out A
  err : (resp : ℕ) → Trace → Out A  -- a negative return value, with what `*cmd_resp` was left at
  stuck : Out A  -- out of fuel

abbrev pub Boot : Type 0 → Type 0
Boot A = Trace → Out A

abbrev pub pure : {A : Type 0} → A → Boot A
pure a tr = ok a tr

abbrev pub fail : {A : Type 0} → Boot A
fail tr = err 0 tr

infixl 5 ◌>>=◌ ◌>>◌
abbrev pub ◌>>=◌ : {A B : Type 0} → Boot A → (A → Boot B) → Boot B
◌>>=◌ m f tr = elim (m tr) [ ok a tr' ↦ f a tr' | err r tr' ↦ err r tr' | stuck ↦ stuck ]

abbrev pub ◌>>◌ : {B : Type 0} → Boot (Unit {0}) → Boot B → Boot B
m >> k = m >>= λ _. k

abbrev pub step : Io → Boot (Unit {0})
step io tr = ok tt (io ∷ tr)

-- Whether a call succeeded, for code that goes on after its failure.
abbrev pub attempt : Boot (Unit {0}) → Boot Bool
attempt m tr = elim (m tr) [ ok a tr' ↦ ok true tr' | err r tr' ↦ ok false tr' | stuck ↦ stuck ]

module _ (d : Device) where
  unfoldable pub timer_expired : Boot Bool
  timer_expired tr = ok (d.expired (look ∷ tr)) (look ∷ tr)

  unfoldable pub master_reg_read : ℕ → Boot ℕ
  master_reg_read addr tr = elim (d.read tr addr) [
    | none ↦ err 0 (reg_read addr ∷ tr)
    | some v ↦ ok v (reg_read addr ∷ tr)
  ]

  unfoldable pub master_reg_write : ℕ → ℕ → ℕ → Boot (Unit {0})
  master_reg_write addr value size tr =
      if d.writes tr
      then ok tt (reg_write addr value size ∷ tr)
      else err 0 (reg_write addr value size ∷ tr)

  unfoldable pub load_data_master_write : ℕ → ℕ → List ℕ → Boot (Unit {0})
  load_data_master_write addr block_size bytes tr =
      if d.loads tr
      then ok tt (load addr block_size bytes ∷ tr)
      else err 0 (load addr block_size bytes ∷ tr)

  unfoldable pub write_reg_multiple : ℕ → List ℕ → Boot (Unit {0})
  write_reg_multiple addr bytes tr =
      if d.bursts tr then ok tt (burst addr bytes ∷ tr) else err 0 (burst addr bytes ∷ tr)

  unfoldable pub master_access_msword : ℕ → Boot (Unit {0})
  master_access_msword upper tr =
      if d.mswords tr then ok tt (msword upper ∷ tr) else err 0 (msword upper ∷ tr)

  -- `kzalloc`; -ENOMEM if there is no buffer.
  unfoldable pub kzalloc : Boot (Unit {0})
  kzalloc tr = if d.allocs tr then ok tt tr else err 0 tr
