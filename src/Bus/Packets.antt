-- ===== src/Bus/Packets.antt =====
-- A packet for the device over SDIO: `rsi_sdio_host_intf_write_pkt` of rsi/rsi_91x_sdio.c, in the
-- build with multi-block transfers.
use Prim.Native.Nat.{bit_or}
use si91x_rcp_driver.Prelude.{
  ℕ, ◌+◌, ◌*◌, ◌/◌, ◌%◌, ◌^◌, ◌≤◌, ◌<◌, ◌≡◌, ◌≢◌, ◌⊎◌, ◌||◌, List, ◌∷◌, ◌==◌, if◌then◌else◌, take,
  get_or,
}
use si91x_rcp_driver.Bus.{Bus, Call}
use si91x_rcp_driver.Bus.Sdio.{rsi_sdio_write_register_multiple}

abbrev pub rsi_bt_q : ℕ
rsi_bt_q = 2

abbrev pub rsi_bt_mgmt_q : ℕ
rsi_bt_mgmt_q = 6

abbrev pub rsi_bt_data_q : ℕ
rsi_bt_data_q = 7

-- The queue that the second byte of the packet names; those of Bluetooth are one.
unfoldable pub queueno : List ℕ → ℕ
queueno pkt =
    let q = get_or pkt 1 0 / 2 ^ 4 % 2 ^ 4 in
    if q == rsi_bt_data_q || q == rsi_bt_mgmt_q then rsi_bt_q else q

unfoldable pub num_blocks : (block_size len : ℕ) → ℕ
num_blocks block_size len = if len % block_size == 0 then len / block_size else len / block_size + 1

-- `pkt` is the buffer from the packet on, with what stands behind it.
unfoldable pub rsi_sdio_host_intf_write_pkt : Bus → (block_size : ℕ) → List ℕ → (len : ℕ) → Call
rsi_sdio_host_intf_write_pkt b block_size pkt len =
    rsi_sdio_write_register_multiple b
      (bit_or (num_blocks block_size len * block_size) (queueno pkt * 2 ^ 12)) pkt
      (num_blocks block_size len * block_size)

-- The queue that the four upper bits of the second byte name, where 6 and 7, the queues of
-- Bluetooth, stand for 2.
abbrev pub Names : List ℕ → ℕ → Type 0
Names pkt q =
    let n = get_or pkt 1 0 / 16 % 16 in
    (((n ≡ 6) ⊎ (n ≡ 7)) × (q ≡ 2)) ⊎ ((n ≢ 6) × (n ≢ 7) × (q ≡ n))

-- What the device gets: a block whose address names the queue in its upper and the length of the
-- block in its lower twelve bits, and that starts with the packet.
abbrev pub Delivered : (len : ℕ) → List ℕ → List (ℕ × List ℕ) → List (ℕ × List ℕ) → Type 0
Delivered len pkt old new =
    (addr : ℕ) × (bytes : List ℕ) × (new ≡ (addr, bytes) ∷ old)
    × Names pkt (addr / 2 ^ 12)
    × (bytes ≡ take (addr % 2 ^ 12) pkt)
    × (take len bytes ≡ take len pkt)
    × (len ≤ addr % 2 ^ 12)
    × (addr % 2 ^ 12 < len + 256)
