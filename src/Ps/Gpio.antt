-- ===== src/Ps/Gpio.antt =====
-- The GPIO handshake of `process_tx_gpio_handshake` (rsi/rsi_91x_ps.c, with
-- CONFIG_ARCH_HAVE_CUSTOM_GPIO_H) and rsi/rsi_91x_gpio.c. `level n` is what the `n`-th reading of the
-- device's pin returns.
use si91x_rcp_driver.Prelude.{
  ℕ, zero, suc, ◌+◌, ◌-◌, ◌*◌, ◌≤◌, ◌<◌, ◌≡◌, refl, ap, Bool, true, false, not, Option, none, some,
  arith, ltb, if◌then◌else◌,
}
use si91x_rcp_driver.Ps.Access.{Access, protocol_tx_access, set_intention}

abbrev pub max_retry_limit : ℕ
max_retry_limit = 30

pub data Handshake : Type 0 where
  awake : (readings : ℕ) → Handshake  -- access granted
  time_out : (readings : ℕ) → Handshake  -- -ETIME

-- `while (1)` in the branch that found the pin low; `n` readings were made. A high reading that is
-- not confirmed by the next goes round without counting as a retry.
unfoldable pub poll : ℕ → (ℕ → Bool) → ℕ → ℕ → Option Handshake
poll zero level n retry_count = none
poll (suc f) level n retry_count =
    let again = poll f level (n + 2) retry_count in
    let retry = poll f level (n + 1) (retry_count + 1) in
    if level n
    then (if level (n + 1) then some (awake (n + 2)) else again)
    else (if ltb max_retry_limit retry_count then some (time_out (n + 1)) else retry)

-- From `retry_to_wake_lmac:` on.
unfoldable pub wake_lmac : ℕ → (ℕ → Bool) → ℕ → Option Handshake
wake_lmac zero level n = none
wake_lmac (suc f) level n =
    let again = wake_lmac f level (n + 2) in
    if not (level n)
    then poll f level (n + 1) 0
    else (if level (n + 1) then some (awake (n + 2)) else again)

-- `set` other than 0: the host's pin goes up, and the device is waited for.
unfoldable pub gpio_set : ℕ → (ℕ → Bool) → ℕ → Access → Option (Handshake × Access)
gpio_set f level id s = elim (wake_lmac f level 0) [
  | none ↦ none
  | some (awake n) ↦
      some (awake n, record (set_intention id true s) { common_hal_tx_access = true })
  | some (time_out n) ↦ some (time_out n, set_intention id true s)
]

-- `set` of 0. The flag says whether the host's pin is pulled down.
unfoldable pub gpio_clear : ℕ → Access → Bool × Access
gpio_clear id s =
    let s₁ = set_intention id false s in
    if not (protocol_tx_access s₁)
    then (true, record s₁ { common_hal_tx_access = false })
    else (false, s₁)

poll_asleep :
    (f : ℕ) (level : ℕ → Bool) (n r k : ℕ)
    → ((i : ℕ) → level i ≡ false)
    → r + k ≡ max_retry_limit + 1
    → k < f
    → poll f level n r ≡ some (time_out (n + k + 1))
unfolding poll
poll_asleep zero level n r k low e lt = elim lt [ ]
poll_asleep (suc f) level n r k low e lt =
    ground (arith, low n, poll_asleep f level (n + 1) (r + 1) (k - 1) low)

wake_lmac_glitch :
    (f : ℕ) (level : ℕ → Bool) (n : ℕ)
    → ((i : ℕ) → level (2 * i) ≡ true)
    → ((i : ℕ) → level (2 * i + 1) ≡ false)
    → wake_lmac f level (2 * n) ≡ none
unfolding wake_lmac
wake_lmac_glitch zero level n hi lo = refl
wake_lmac_glitch (suc f) level n hi lo = ground (
  arith,
  hi n,
  lo n,
  wake_lmac_glitch f level (n + 1) hi lo,
  ap (λ (x : ℕ). wake_lmac f level x) (two n),
)
  where
    two : (k : ℕ) → 2 * k + 2 ≡ 2 * (k + 1)
    two k = omega arith

-- If the device's pin stays low, the handshake gives up after 33 readings with -ETIME: the protocol's
-- intention is set and access stays as it was.
pub gpio_set_asleep :
    (f : ℕ) (level : ℕ → Bool) (id : ℕ) (s : Access)
    → ((i : ℕ) → level i ≡ false)
    → 33 ≤ f
    → gpio_set f level id s ≡ some (time_out 33, set_intention id true s)
unfolding gpio_set wake_lmac
gpio_set_asleep zero level id s low h = absurd (omega arith)
gpio_set_asleep (suc f) level id s low h = ground (arith, low 0, poll_asleep f level 1 0 31 low)

-- If every second reading of the device's pin is high and the one after it low, the handshake never
-- ends, in spite of its limit on retries: no fuel is enough.
pub gpio_set_glitch :
    (f : ℕ) (level : ℕ → Bool) (id : ℕ) (s : Access)
    → ((i : ℕ) → level (2 * i) ≡ true)
    → ((i : ℕ) → level (2 * i + 1) ≡ false)
    → gpio_set f level id s ≡ none
unfolding gpio_set
gpio_set_glitch f level id s hi lo = ground (arith, wake_lmac_glitch f level 0 hi lo)
