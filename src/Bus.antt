-- ===== src/Bus.antt =====
-- The device behind the bus, for the transfers of rsi/rsi_91x_sdio.c, rsi/rsi_91x_sdio_ops.c and
-- rsi/rsi_91x_usb.c: its memory, what a transfer does to it, and the driver's calls as functions
-- that may fail.
pub mod Memory
pub mod Sdio
pub mod Usb
pub mod Loaded
pub mod Stopped
pub mod Registers
pub mod Packets
use si91x_rcp_driver.Prelude.{ℕ, ◌+◌, ◌%◌, ◌^◌, Bool, List, leb, if◌then◌else◌, length}
use Memory.{Mem, write_at}

-- The upper half of the address of a transfer, in two registers of the SDIO slave; the memory; and the
-- packets.
pub record Device : Type 0 where
  pub ms_low : ℕ
  pub ms_high : ℕ
  pub memory : Mem
  pub packets : List (ℕ × List ℕ)  -- the other blocks with their addresses, last one first

-- What the kernel's bus and the device do: whether the n-th transfer goes through, what is left of
-- the device by one that does not, and by one that runs over a boundary of 64 KB; what is
-- read beyond such a boundary; and what the other registers do.
pub record Bus : Type 0 where
  pub accepts : ℕ → Bool
  pub refused : ℕ → Device → Device
  pub straddles : ℕ → List ℕ → Device → Device
  pub beyond : ℕ → Device → ℕ
  pub register : (function addr byte : ℕ) → Device → Device

-- The driver's part: `write_fail` and `prev_desc` of struct rsi_91x_sdiodev, `write_fail` of struct
-- rsi_91x_usbdev, `tx_pending_urbs` of struct rsi_hw; the transfers so far; the device.
pub record Host : Type 0 where
  pub write_fail : ℕ
  pub prev_desc : List ℕ
  pub pending : ℕ
  pub transfers : ℕ
  pub device : Device

pub data Result : Type 0 where
  ok : Host → Result
  err : Host → Result

abbrev pub Call : Type 0
Call = Host → Result

infixr 5 ◌>>◌
abbrev pub ◌>>◌ : Call → Call → Call
◌>>◌ m k h = elim (m h) [ ok h' ↦ k h' | err h' ↦ err h' ]

-- A block of bytes that goes to `address` of the device.
unfoldable pub store : Bus → ℕ → List ℕ → Device → Device
store b address bytes d =
    if leb (address % 2 ^ 16 + length bytes) (2 ^ 16)
    then record d { memory = write_at address bytes d.memory }
    else b.straddles address bytes d

-- One transfer, with the effect that it has if it goes through.
unfoldable pub transfer : Bus → (Device → Device) → Call
transfer b effect h =
    if b.accepts h.transfers
    then ok (record h { transfers = h.transfers + 1; device = effect h.device })
    else err (record h { transfers = h.transfers + 1; device = b.refused h.transfers h.device })
