-- ===== src/Bus/Sdio/Steps.antt =====
-- The register and block writes over SDIO (rsi/rsi_91x_sdio.c) one by one: what each leaves.
use Prim.Native.Nat.{bit_or}
use si91x_rcp_driver.Prelude.{
  ℕ, ◌+◌, ◌*◌, ◌/◌, ◌%◌, ◌^◌, ◌≤◌, ◌<◌, ◌≡◌, inl, inr, refl, ap, true, false, List, ltb, ◌==◌,
  length, take, length-take, arith, Bool-cases, shl, bit_or-shl,
}
use si91x_rcp_driver.Bus.{Device, Bus, Host, Result, ok, err, Call, ◌>>◌, store, transfer}
use si91x_rcp_driver.Bus.Memory.{Mem, write_at}
use si91x_rcp_driver.Bus.Sdio.{
  writeb, writesb, rsi_sdio_write_register, rsi_sdio_master_access_msword, send_block,
  rsi_sdio_write_register_multiple, sd_request_master,
}

-- The bus refused a transfer.
abbrev pub Refuses : Bus → Type 0
Refuses b = (n : ℕ) × (b.accepts n ≡ false)

-- A call that succeeds leaves `P`; one that fails met a refusal.
unfoldable pub Ends : Bus → (Host → Type 0) → Result → Type 0
Ends b P (ok h) = P h
Ends b P (err h) = Refuses b

-- On a bus that refuses nothing, the call succeeds.
pub Ends-ok :
    (b : Bus) (P : Host → Type 0) (r : Result)
    → ((n : ℕ) → b.accepts n ≡ true)
    → Ends b P r
    → (h : Host) × (r ≡ ok h) × P h
unfolding Ends
Ends-ok b P (ok h) all p = (h, refl, p)
Ends-ok b P (err h) all (n, e) = cc (all n)

pub Ends-then :
    (b : Bus) (P Q : Host → Type 0) (m k : Call) (h : Host)
    → Ends b P (m h)
    → ((h₁ : Host) → P h₁ → Ends b Q (k h₁))
    → Ends b Q ((m >> k) h)
unfolding Ends
Ends-then b P Q m k h first next = Ends-bind (m h) first
  where
    Ends-bind : (r : Result) → Ends b P r → Ends b Q (elim r [ ok h' ↦ k h' | err h' ↦ err h' ])
    Ends-bind (ok h₁) p = next h₁ p
    Ends-bind (err h₁) p = p

-- No write has failed, the registers hold `ms`, and the memory is `m`.
abbrev pub Stands : ℕ → Mem → Host → Type 0
Stands ms m h =
    (h.write_fail ≡ 0) × (h.device.ms_low + h.device.ms_high * 2 ^ 8 ≡ ms) × (h.device.memory ≡ m)

pub transfer-Ends :
    (b : Bus) (effect : Device → Device) (P : Host → Type 0) (h : Host)
    → P (record h { transfers = h.transfers + 1; device = effect h.device })
    → Ends b P (transfer b effect h)
unfolding Ends transfer
transfer-Ends b effect P h p = elim (Bool-cases (b.accepts h.transfers)) [
  | inl e ↦ rw e p
  | inr e ↦ rw e ((h.transfers, e))
]

msword_low :
    (b : Bus) (ms : ℕ) (m : Mem) (h : Host)
    → (h.write_fail ≡ 0) × (h.device.memory ≡ m)
    → Ends b
        (λ h₁. (h₁.write_fail ≡ 0) × (h₁.device.memory ≡ m) × (h₁.device.ms_low ≡ ms % 2 ^ 8))
        (rsi_sdio_write_register b 0 0xFA (ms % 2 ^ 8) h)
unfolding rsi_sdio_write_register writeb
msword_low b ms m h (f, e) = transfer-Ends b _ _ h (f, e, refl)

msword_high :
    (b : Bus) (ms : ℕ) (m : Mem) (h : Host)
    → ms < 2 ^ 16
    → (h.write_fail ≡ 0) × (h.device.memory ≡ m) × (h.device.ms_low ≡ ms % 2 ^ 8)
    → Ends b (Stands ms m) (rsi_sdio_write_register b 0 0xFB (ms / 2 ^ 8 % 2 ^ 8) h)
unfolding rsi_sdio_write_register writeb
msword_high b ms m h lt (f, e, low) = transfer-Ends b _ _ h (f, omega arith, e)

pub msword-Stands :
    (b : Bus) (ms : ℕ) (m : Mem) (h : Host)
    → ms < 2 ^ 16
    → (h.write_fail ≡ 0) × (h.device.memory ≡ m)
    → Ends b (Stands ms m) (rsi_sdio_master_access_msword b ms h)
unfolding rsi_sdio_master_access_msword
msword-Stands b ms m h lt p =
    Ends-then b _ _ (rsi_sdio_write_register b 0 0xFA (ms % 2 ^ 8))
      (rsi_sdio_write_register b 0 0xFB (ms / 2 ^ 8 % 2 ^ 8)) h (msword_low b ms m h p)
      (λ h₁ q. msword_high b ms m h₁ lt q)

-- The address on the bus: the lower half, with the bit of SD_REQUEST_MASTER.
pub bus_address : (a : ℕ) → bit_or (a % 2 ^ 16) sd_request_master ≡ a % 2 ^ 16 + 2 ^ 16
bus_address a =
    let shifted : ◌≡◌ {A = ℕ} sd_request_master (shl 16 1) = refl in
    rw shifted (bit_or-shl 16 (a % 2 ^ 16) 1 (omega arith))

-- A block that stays within 64 KB goes where its address says.
pub writesb-memory :
    (b : Bus) (base : ℕ) (bytes : List ℕ) (m : Mem) (d : Device)
    → base % 2 ^ 16 + length bytes ≤ 2 ^ 16
    → d.ms_low + d.ms_high * 2 ^ 8 ≡ base / 2 ^ 16
    → d.memory ≡ m
    → (d' : Device) × (writesb b (base % 2 ^ 16 + 2 ^ 16) bytes d ≡ d')
      × (d'.ms_low + d'.ms_high * 2 ^ 8 ≡ base / 2 ^ 16)
      × (d'.memory ≡ write_at base bytes m)
unfolding writesb store
writesb-memory b base bytes m d fits ms e = (
  record d { memory = write_at base bytes d.memory },
  ground (arith, whole),
  ms,
  ap (write_at base bytes) e,
)
  where
    whole : (d.ms_low + d.ms_high * 2 ^ 8) * 2 ^ 16 + (base % 2 ^ 16 + 2 ^ 16) % 2 ^ 16 ≡ base
    whole = omega (arith, ms)

pub Ends-weaken :
    (b : Bus) (P Q : Host → Type 0) (r : Result)
    → ((h : Host) → P h → Q h)
    → Ends b P r
    → Ends b Q r
unfolding Ends
Ends-weaken b P Q (ok h) to p = to h p
Ends-weaken b P Q (err h) to p = p

pub Ends-map :
    (b : Bus) (P Q : Host → Type 0) (f g : Host → Host) (r : Result)
    → ((h : Host) → P h → Q (f h))
    → Ends b P r
    → Ends b Q (elim r [ ok h ↦ ok (f h) | err h ↦ err (g h) ])
unfolding Ends
Ends-map b P Q f g (ok h) to p = to h p
Ends-map b P Q f g (err h) to p = p

-- One block of an image.
block-Stands :
    (b : Bus) (base count : ℕ) (buffer : List ℕ) (m : Mem) (h : Host)
    → base % 2 ^ 16 + length (take count buffer) ≤ 2 ^ 16
    → Stands (base / 2 ^ 16) m h
    → Ends b
        (Stands (base / 2 ^ 16) (write_at base (take count buffer) m))
        (send_block b (base % 2 ^ 16 + 2 ^ 16) buffer count h)
unfolding send_block
block-Stands b base count buffer m h fits (f, ms, e) =
    let bytes = take count buffer in
    let (d, at, ms', e') = writesb-memory b base bytes m h.device fits ms e in
    let P : Host → Type 0 = Stands (base / 2 ^ 16) (write_at base bytes m) in
    Ends-map b P P (λ h₁. record h₁ { prev_desc = take 16 buffer })
      (λ h₁. record h₁ { write_fail = 2 }) (transfer b (writesb b (base % 2 ^ 16 + 2 ^ 16) bytes) h)
      (λ h₁ p. p)
      (transfer-Ends b (writesb b (base % 2 ^ 16 + 2 ^ 16) bytes) P h (rw at (f, ms', e')))

pub write_block-Stands :
    (b : Bus) (base count : ℕ) (buffer : List ℕ) (m : Mem) (h : Host)
    → count < 2 ^ 16
    → base % 2 ^ 16 + count ≤ 2 ^ 16
    → Stands (base / 2 ^ 16) m h
    → Ends b (Stands (base / 2 ^ 16) (write_at base (take count buffer) m)) (
        rsi_sdio_write_register_multiple b
          (bit_or (base % 2 ^ 16) sd_request_master)
          buffer
          count
          h)
unfolding rsi_sdio_write_register_multiple
write_block-Stands b base count buffer m h small fits p =
    let zero_fail : h.write_fail ≡ 0 = p.0 in
    let whole : count % 2 ^ 16 ≡ count = omega (arith, small) in
    let one : ltb 1 h.write_fail ≡ false = ground arith in
    let two : (h.write_fail == 1) ≡ false = ground arith in
    rw (bus_address base) (
      rw whole (
        rw one (
          rw two
            (block-Stands b base count buffer m h (omega (arith, length-take count buffer)) p))))
