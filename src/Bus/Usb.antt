-- ===== src/Bus/Usb.antt =====
-- Blocks, images and packets over USB (rsi/rsi_91x_usb.c).
pub mod Image
pub mod Failed
use si91x_rcp_driver.Prelude.{
  ℕ, zero, suc, ◌+◌, ◌-◌, ◌*◌, ◌/◌, ◌%◌, ◌^◌, Bool, true, false, ◌&&◌, ◌||◌, List, ◌∷◌, ◌++◌, ltb,
  ◌==◌, if◌then◌else◌, length, take, drop, get_or, replicate, min,
}
use si91x_rcp_driver.Bus.{Device, Bus, Host, Result, ok, err, Call, ◌>>◌, store, transfer}

abbrev pub mgmt_ep : ℕ
mgmt_ep = 1

abbrev pub data_ep : ℕ
data_ep = 2

abbrev pub zigb_ep : ℕ
zigb_ep = 3

-- The queues of the device: RSI_COEX_Q, RSI_ZIGB_Q, RSI_WIFI_MGMT_Q and RSI_WIFI_DATA_Q.
abbrev pub rsi_coex_q : ℕ
rsi_coex_q = 0

abbrev pub rsi_zigb_q : ℕ
rsi_zigb_q = 1

abbrev pub wifi_mgmt_q : ℕ
wifi_mgmt_q = 4

abbrev pub wifi_data_q : ℕ
wifi_data_q = 5

-- A packet on an endpoint.
unfoldable pub bulk : ℕ → List ℕ → Device → Device
bulk endpoint bytes d = record d { packets = (endpoint, bytes) ∷ d.packets }

-- `direct` tells whether the packet goes out without the 128 bytes in front of it: with ZigBee
-- ready, on its endpoint. The count is a `u16`.
unfoldable pub segment : (direct : Bool) → List ℕ → (len : ℕ) → List ℕ
segment direct buf len = if direct then take len buf else replicate 128 0 ++ take len buf

unfoldable pub count_in : Host → Host
count_in h = record h { pending = h.pending + 1 }

-- Three bits of the second byte name the queue.
unfoldable pub endpoint_of : (is_9116 : Bool) → List ℕ → ℕ
endpoint_of is_9116 pkt =
    let q = get_or pkt 1 0 / 2 ^ 4 % 2 ^ 3 in
    if is_9116 && q == rsi_zigb_q
    then zigb_ep
    else if q == wifi_mgmt_q || (q == rsi_coex_q || q == wifi_data_q)
    then mgmt_ep
    else data_ep

module _ (b : Bus) where
  -- The loop: `reg_val` and `index` stay those of the first address. Each round sends a byte at
  -- least, so `count` rounds are enough.
  unfoldable pub write_loop : (rounds address : ℕ) → List ℕ → (count : ℕ) → Call
  write_loop zero address bytes count h = ok h
  write_loop (suc rounds) address bytes count h =
      let rest =
        (transfer b (store b address (take (min count 4096) bytes))
            >> write_loop rounds address (drop (min count 4096) bytes) (count - min count 4096))
          h in
      if count == 0 then ok h else rest

  -- `room` tells whether the buffer could be allocated; `count` is a `u16`.
  unfoldable pub rsi_usb_write_register_multiple :
      (room : Bool) (address : ℕ) → List ℕ → (count : ℕ) → Call
  rsi_usb_write_register_multiple room address bytes count h =
      if room
      then write_loop (count % 2 ^ 16) (address % 2 ^ 32) bytes (count % 2 ^ 16) h
      else err h

  unfoldable pub usb_load_rest :
      (room : ℕ → Bool) (block_size size base_address : ℕ) → List ℕ → Call
  usb_load_rest room block_size size base_address firmware h =
      if size % block_size == 0
      then ok h
      else rsi_usb_write_register_multiple (room 0) base_address (take (size % block_size) firmware)
          (size % block_size) h

  -- The loop of the load, with `left` blocks to go, and `firmware` from `cur_indx` on. `room n` tells
  -- whether the write of the block with `n` to go gets its buffer; `room 0` is that of the rest.
  unfoldable pub usb_load_blocks :
      (room : ℕ → Bool) (block_size size left base_address : ℕ) → List ℕ → Call
  usb_load_blocks room block_size size zero base_address firmware =
      usb_load_rest room block_size size base_address firmware
  usb_load_blocks room block_size size (suc left) base_address firmware =
      rsi_usb_write_register_multiple (room (suc left)) base_address (take block_size firmware)
        block_size
      >> usb_load_blocks room block_size size left ((base_address + block_size) % 2 ^ 32)
          (drop block_size firmware)

  -- `num_blocks` is a `u16`.
  unfoldable pub rsi_usb_load_data_master_write :
      (room : ℕ → Bool) (base_address block_size : ℕ) → List ℕ → Call
  rsi_usb_load_data_master_write room base_address block_size firmware =
      usb_load_blocks room block_size (length firmware) (length firmware / block_size % 2 ^ 16)
        base_address firmware

  unfoldable pub rsi_usb_card_write :
      (zigb_ready is_9116 : Bool) → List ℕ → (len endpoint : ℕ) → Call
  rsi_usb_card_write zigb_ready is_9116 buf len endpoint h =
      let direct = zigb_ready && (if is_9116 then endpoint == zigb_ep else endpoint == data_ep) in
      elim (transfer b (bulk endpoint (segment direct buf len)) (count_in h)) [
        | ok h₁ ↦ ok (record h₁ { pending = h₁.pending - 1 })
        | err h₁ ↦ err (record h₁ { write_fail = 1 })
      ]

  unfoldable pub rsi_write_multiple :
      (zigb_ready is_9116 : Bool) (addr : ℕ) → List ℕ → (count : ℕ) → Call
  rsi_write_multiple zigb_ready is_9116 addr bytes count h =
      if addr == 0
      then err h
      else if h.write_fail == 0
      then rsi_usb_card_write zigb_ready is_9116 bytes (count % 2 ^ 16) addr h
      else err h

  unfoldable pub rsi_usb_host_intf_write_pkt :
      (zigb_ready is_9116 : Bool) → List ℕ → (len : ℕ) → Call
  rsi_usb_host_intf_write_pkt zigb_ready is_9116 pkt len =
      rsi_write_multiple zigb_ready is_9116 (endpoint_of is_9116 pkt) pkt len
