-- ===== src/Rx.antt =====
-- Reception: `rsi_read_pkt` and `rsi_prepare_skb` of rsi/rsi_91x_main.c, with the readers of the
-- descriptor in rsi/rsi_mgmt.h. A received buffer is the list of its bytes; what lies past its end
-- is 0 here. Packets follow one another in it.
pub mod Turns
pub mod Layout
pub mod Stands
pub mod Deliver
pub mod Bounds
use si91x_rcp_driver.Prelude.{
  ℕ, zero, suc, ◌+◌, ◌-◌, ◌*◌, ◌/◌, ◌%◌, ◌^◌, Bool, true, false, not, ◌&&◌, ◌||◌, Option, none,
  some, List, ◌∷◌, ltb, ◌==◌, if◌then◌else◌, get_or,
}

-- The queues of rsi/rsi_main.h
abbrev pub rsi_coex_q : ℕ
rsi_coex_q = 0

abbrev pub rsi_zigb_q : ℕ
rsi_zigb_q = 1

abbrev pub rsi_wifi_mgmt_q : ℕ
rsi_wifi_mgmt_q = 4

abbrev pub rsi_wifi_data_q : ℕ
rsi_wifi_data_q = 5

abbrev pub rsi_bt_mgmt_q : ℕ
rsi_bt_mgmt_q = 6

abbrev pub rsi_bt_data_q : ℕ
rsi_bt_data_q = 7

-- RSI_RCV_BUFFER_LEN * 4
abbrev pub max_pkt_len : ℕ
max_pkt_len = 2000 * 4

-- CONFIG_RSI_COEX_MODE, CONFIG_RSI_BT_ALONE and CONFIG_RSI_ZIGB
pub record Build : Type 0 where
  pub coex_mode : Bool
  pub bt_alone : Bool
  pub zigb : Bool

-- A packet for the network stack: where in the buffer its bytes were copied from, and how many.
pub record Skb : Type 0 where
  pub from : ℕ
  pub len : ℕ
  pub rssi : ℕ
  pub channel : ℕ

-- What reception hands on. A position is that of the descriptor in the buffer.
pub data Call : Type 0 where
  coex_recv_pkt : (at : ℕ) → Call
  mgmt_pkt_recv : (at : ℕ) → Call
  hci_recv_pkt : (at : ℕ) → Call
  zb_attach : Call
  zb_recv_pkt : (at : ℕ) → Call
  check_traffic : Call  -- check_traffic_pwr_save
  indicate : (skb : Skb) (amsdu_bit : ℕ) → Call  -- rsi_indicate_pkt_to_os

-- The rest of the driver and the kernel, given the calls so far: whether the `n`-th buffer of a size
-- is there, the channel connected to, whether power save watches the traffic of a station, and
-- whether the Zigbee module has its two functions.
pub record Env : Type 0 where
  pub alloc : ℕ → (size : ℕ) → Bool
  pub channel : List Call → ℕ
  pub watches : List Call → Bool
  pub has_attach : Bool
  pub has_recv : Bool

-- The variables of the loop, `left` being `rcv_pkt_len`, and what it changes. `calls` has the last
-- call first, and `zb_ready` is `zb_fsm_state == ZB_DEVICE_READY`.
pub record Rx : Type 0 where
  pub index : ℕ
  pub left : ℕ
  pub extended_desc : ℕ
  pub amsdu_bit : ℕ
  pub zb_ready : Bool
  pub allocs : ℕ
  pub calls : List Call

-- How one round ends: `return 0`, `return -EINVAL`, or at the end of the body.
pub data Turn : Type 0 where
  stop : Rx → Turn
  fail : Rx → Turn
  more : Rx → Turn

abbrev pub byte : List ℕ → ℕ → ℕ
byte bytes i = get_or bytes i 0

abbrev pub u16 : List ℕ → ℕ → ℕ
u16 bytes i = byte bytes i + 2 ^ 8 * byte bytes (i + 1)

-- `at` is `addr + offset`.
unfoldable pub get_queueno : List ℕ → ℕ → ℕ
get_queueno bytes at = u16 bytes at / 2 ^ 12 % 2 ^ 3

unfoldable pub get_length : List ℕ → ℕ → ℕ
get_length bytes at = u16 bytes at % 2 ^ 12

unfoldable pub get_extended_desc : List ℕ → ℕ → ℕ
get_extended_desc bytes at = u16 bytes (at + 4) % 2 ^ 8

-- What the word at 28 says of an A-MSDU: `value & BIT(25)`, and then BIT(22) and BIT(23).
unfoldable pub amsdu_of : List ℕ → ℕ → ℕ → ℕ
amsdu_of bytes at old =
    if byte bytes (at + 31) / 2 % 2 == 0
    then old
    else (if byte bytes (at + 30) / 2 ^ 6 % 2 == 1
        then 1
        else (if byte bytes (at + 30) / 2 ^ 7 % 2 == 1 then 3 else 2))

module _ (build : Build) (env : Env) (bytes : List ℕ) where
  -- `pkt_len` is a `u32`, and `payload_offset` a `u8`.
  unfoldable pub prepare_skb : ℕ → ℕ → Rx → Option Skb × Rx
  prepare_skb at pkt_len s =
      let clipped = if ltb max_pkt_len pkt_len then max_pkt_len else pkt_len in
      let len = (clipped + 2 ^ 32 - s.extended_desc) % 2 ^ 32 in
      let skb : Skb = record {
        from = at + (s.extended_desc + 16) % 2 ^ 8;
        len = len;
        rssi = byte bytes (at + 16);
        channel = env.channel s.calls;
      } in
      if pkt_len == 0
      then (none, s)
      else (if env.alloc s.allocs ((len + 16) % 2 ^ 32)
          then (some skb, record s { allocs = s.allocs + 1 })
          else (none, record s { allocs = s.allocs + 1 }))

  -- `index += actual_length; rcv_pkt_len -= actual_length;`, where `index` is a `u32`.
  unfoldable pub advance : ℕ → Rx → Rx
  advance actual_length s = record s {
    index = (s.index + actual_length) % 2 ^ 32;
    left = s.left - actual_length;
  }

  -- The case RSI_WIFI_DATA_Q, after the packet is prepared.
  unfoldable pub indicate_pkt : ℕ → Skb → Rx → Rx
  indicate_pkt at skb s =
      let amsdu = amsdu_of bytes at s.amsdu_bit in
      let before = if env.watches s.calls then check_traffic ∷ s.calls else s.calls in
      record s { amsdu_bit = amsdu; calls = indicate skb amsdu ∷ before }

  unfoldable pub recv_data : ℕ → ℕ → ℕ → Rx → Turn
  recv_data at pkt_len actual_length s =
      let (prepared, s₁) = prepare_skb at pkt_len s in
      elim prepared [
        | none ↦ fail s₁
        | some skb ↦ more (advance actual_length (indicate_pkt at skb s₁))
      ]

  -- The case RSI_ZIGB_Q: ZB_CARD_READY_IND is 0xff.
  unfoldable pub recv_zigb : ℕ → Rx → Rx
  recv_zigb at s =
      if (byte bytes (at + 15) == 0xff) && not s.zb_ready
      then record s {
        zb_ready = true;
        calls = if env.has_attach then zb_attach ∷ s.calls else s.calls;
      }
      else (if s.zb_ready && env.has_recv then record s { calls = zb_recv_pkt at ∷ s.calls } else s)

  unfoldable pub call : Call → Rx → Rx
  call c s = record s { calls = c ∷ s.calls }

  -- The `switch`, down to the test of the loop.
  unfoldable pub dispatch : (queueno pkt_len at actual_length : ℕ) → Rx → Turn
  dispatch queueno pkt_len at actual_length s =
      if queueno == rsi_coex_q
      then more (
          advance actual_length
            (call (if build.coex_mode then coex_recv_pkt at else mgmt_pkt_recv at) s))
      else (if queueno == rsi_wifi_data_q
          then recv_data at pkt_len actual_length s
          else (if queueno == rsi_wifi_mgmt_q
              then more (advance actual_length (call (mgmt_pkt_recv at) s))
              else (if (build.bt_alone || build.coex_mode)
                    && ((queueno == rsi_bt_mgmt_q) || (queueno == rsi_bt_data_q))
                  then more (advance actual_length (call (hci_recv_pkt at) s))
                  else (if (build.coex_mode && build.zigb) && (queueno == rsi_zigb_q)
                      then more (advance actual_length (recv_zigb at s))
                      else fail s))))

  -- `if (queueno == RSI_WIFI_DATA_Q || queueno == RSI_WIFI_MGMT_Q)`
  unfoldable pub set_extended_desc : ℕ → ℕ → Rx → Rx
  set_extended_desc queueno at s =
      if (queueno == rsi_wifi_data_q) || (queueno == rsi_wifi_mgmt_q)
      then record s { extended_desc = get_extended_desc bytes at }
      else s

  -- One round of the loop.
  unfoldable pub read_one : Rx → Turn
  read_one s =
      let actual_length = u16 bytes s.index in
      let offset = u16 bytes (s.index + 2) in
      let at = s.index + offset in
      let queueno = get_queueno bytes at in
      if not (queueno == rsi_zigb_q) && (ltb actual_length (4 + 16) || ltb offset 4)
      then stop s
      else dispatch queueno (get_length bytes at) at actual_length (set_extended_desc queueno at s)

  -- The loop, with fuel. The flag is a return value of 0.
  unfoldable pub read_loop : ℕ → Rx → Option (Bool × Rx)
  read_loop zero s = none
  read_loop (suc f) s = elim (read_one s) [
    | stop s' ↦ some (true, s')
    | fail s' ↦ some (false, s')
    | more s' ↦ elim (s'.left == 0) [ true ↦ some (true, s') | false ↦ read_loop f s' ]
  ]

  -- `rcv_pkt_len` is not negative.
  unfoldable pub read_pkt : (fuel rcv_pkt_len : ℕ) → Rx → Option (Bool × Rx)
  read_pkt fuel rcv_pkt_len s =
      read_loop fuel (record s { index = 0; left = rcv_pkt_len; extended_desc = 0 })
