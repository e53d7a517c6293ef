-- ===== src/Beacon.antt =====
-- The beacon: `rsi_prepare_beacon` of rsi/rsi_91x_hal.c. What mac80211 makes is a buffer and the
-- length of the beacon in it.
pub mod Strip
pub mod Spin
pub mod Frame
use si91x_rcp_driver.Prelude.{
  ℕ, zero, suc, ◌+◌, ◌-◌, ◌*◌, ◌/◌, ◌%◌, ◌^◌, Bool, true, false, not, ◌&&◌, ◌||◌, Option, none,
  some, List, ◌++◌, take, drop, ltb, ◌==◌, if◌then◌else◌,
}
use si91x_rcp_driver.Rx.{byte}
use si91x_rcp_driver.Xmit.{Desc, no_desc, header, or}

abbrev pub beacon_country_ie : ℕ
beacon_country_ie = 7

-- `mac_bcn`, with the `index` of the loop, a `u8`.
pub record Beacon : Type 0 where
  pub buffer : List ℕ
  pub len : ℕ
  pub index : ℕ

-- How a round of the loop ends: the condition fails, it goes round again, or the length of the
-- `memmove` is negative, which it takes for a number near 2 ^ 32.
pub data Turn : Type 0 where
  ended : Beacon → Turn
  more : Beacon → Turn
  overrun : Turn

-- `memmove` of what follows the element of `size` bytes at the index.
unfoldable pub cut : (size : ℕ) → Beacon → Beacon
cut size b =
    let n = b.len - (b.index + size) in
    record b {
      buffer =
          take b.index b.buffer
          ++ (take n (drop (b.index + size) b.buffer) ++ drop (b.index + n) b.buffer);
      len = b.len - size;
    }

unfoldable pub strip_one : Beacon → Turn
strip_one b =
    let ie_len = byte b.buffer (b.index + 1) in
    if ltb b.index b.len
    then (if byte b.buffer b.index == beacon_country_ie
        then (if ltb b.len (b.index + (ie_len + 2)) then overrun else more (cut (ie_len + 2) b))
        else more (record b { index = (b.index + (2 + ie_len)) % 2 ^ 8 }))
    else ended b

-- The loop, with fuel. A result of `none` inside is the overrun.
unfoldable pub strip : ℕ → Beacon → Option (Option Beacon)
strip zero b = none
strip (suc f) b = elim (strip_one b) [
  | ended b' ↦ some (some b')
  | more b' ↦ strip f b'
  | overrun ↦ some none
]

-- What the driver knows of the channel and the mode.
pub record Mode : Type 0 where
  pub ht40_plus : Bool
  pub ht40_minus : Bool
  pub band_2ghz : Bool
  pub p2p_enabled : Bool
  pub acx_module : Bool

-- The words of the descriptor; RSI_WIFI_DATA_Q is 5 and BEACON_HW_Q 11. The caller has cleared them.
unfoldable pub beacon_words : Mode → (tim_offset : ℕ) → Beacon → Desc
beacon_words m tim_offset b =
    let w3 = or (2 ^ 0 + 2 ^ 9 + 2 ^ 11 + 2 ^ 15 + 2 ^ 2) (2 ^ 0) in
    record no_desc {
      w2 = 24 * 2 ^ 8;
      w3 = if byte b.buffer (tim_offset + 2) == 0 then or w3 (2 ^ 10 + 2 ^ 11) else w3;
      w4 = if m.band_2ghz && not m.p2p_enabled then 0x0 else 0x8b;
      w5 =
          if m.ht40_plus
          then or (0x4 * 2 ^ 12) 0x4
          else (if m.ht40_minus then or (0x2 * 2 ^ 12) 0x2 else 0);
      w7 = 11;
    }

-- What comes out: an error, the bytes of the frame with its descriptor of 16 bytes, or the overrun.
pub data Prepared : Type 0 where
  no_beacon : Prepared
  frame : List ℕ → Prepared
  crash : Prepared

unfoldable pub finish : Desc → Option Beacon → Prepared
finish d none = crash
finish d (some b) =
    let d₁ = record d { w0 = or b.len (5 * 2 ^ 12) % 2 ^ 16 } in
    frame (take 16 (header d₁ 0) ++ take b.len b.buffer)

-- `beacon_cnt` is only counted; `index` starts behind the header and the fixed parameters.
unfoldable pub prepare_beacon :
    (fuel : ℕ) → Mode → (tim_offset : ℕ) → Option Beacon → Option Prepared
prepare_beacon fuel m tim_offset none = some no_beacon
prepare_beacon fuel m tim_offset (some b) =
    let d = beacon_words m tim_offset b in
    if m.acx_module
    then elim (strip fuel (record b { index = 36 })) [ none ↦ none | some r ↦ some (finish d r) ]
    else some (finish d (some b))
