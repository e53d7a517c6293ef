-- ===== src/Replay.antt =====
-- `rsi_validate_pn` of rsi/rsi_91x_mac80211.c: the replay check of group frames under CCMP and TKIP.
pub mod Order
pub mod Drop
use si91x_rcp_driver.Prelude.{
  ℕ, zero, suc, ◌+◌, ◌*◌, ◌/◌, ◌%◌, ◌^◌, ◌≡◌, Bool, true, false, not, ◌&&◌, ◌||◌, Option, none,
  some, List, ltb, ◌==◌, if◌then◌else◌, update, get_or,
}

-- The six bytes of a packet number, the most significant one first, as the arrays here keep it.
pub record Pn : Type 0 where
  pub b0 : ℕ
  pub b1 : ℕ
  pub b2 : ℕ
  pub b3 : ℕ
  pub b4 : ℕ
  pub b5 : ℕ

-- One byte of `memcmp`, given the answer for the rest.
unfoldable pub byte_le : ℕ → ℕ → Bool → Bool
byte_le x y rest = if ltb x y then true else (if ltb y x then false else rest)

-- `memcmp(a, b, IEEE80211_CCMP_PN_LEN) <= 0`
unfoldable pub pn_le : Pn → Pn → Bool
pn_le a b = byte_le a.b0 b.b0 (
    byte_le a.b1 b.b1
      (byte_le a.b2 b.b2 (byte_le a.b3 b.b3 (byte_le a.b4 b.b4 (byte_le a.b5 b.b5 true)))))

pub record Key : Type 0 where
  pub ccmp : Bool  -- cipher == WLAN_CIPHER_SUITE_CCMP
  pub keyidx : ℕ

-- What the check reads of a `struct ieee80211_vif` and of its `struct vif_priv`. `client` is the
-- type being NL80211_IFTYPE_STATION or NL80211_IFTYPE_P2P_CLIENT.
pub record VifPriv : Type 0 where
  pub client : Bool
  pub assoc : Bool
  pub bssid : ℕ
  pub key : Option Key
  pub rx_pn_valid : Bool
  pub rx_bcmc_pn : Pn
  pub rx_bcmc_pn_prev : Pn
  pub prev_keyid : ℕ

-- A received header: whether `addr1` is broadcast or multicast, `addr2`, and the eight bytes of the
-- cipher's header behind it.
pub record Hdr : Type 0 where
  pub group : Bool
  pub addr2 : ℕ
  pub iv : List ℕ

abbrev pub Match : Type 0
Match = Option (ℕ × VifPriv × Key)

-- One round of the loop over the interfaces. A match is given up when a later one lacks a key.
unfoldable pub match_vif : Hdr → ℕ → VifPriv → Match → Match
match_vif h i v found =
    if v.client && (v.assoc && (v.bssid == h.addr2))
    then elim v.key [ none ↦ none | some k ↦ if v.rx_pn_valid then some (i, v, k) else none ]
    else found

-- `vif_info` after the loop, from interface `i` on with `n` to go.
unfoldable pub pick_from : ℕ → ℕ → (ℕ → Option VifPriv) → Hdr → Match → Match
pick_from zero i vifs h found = found
pick_from (suc n) i vifs h found =
    pick_from n (i + 1) vifs h (elim (vifs i) [ none ↦ found | some v ↦ match_vif h i v found ])

abbrev byte : Hdr → ℕ → ℕ
byte h i = get_or h.iv i 0

-- `KEYID_BITMASK`; `keyid_info` is the fourth byte of both headers.
unfoldable pub keyid : Hdr → ℕ
keyid h = byte h 3 / 2 ^ 6 % 4

-- `struct dot11_ccmp_hdr` or `struct dot11_tkip_hdr` laid over the bytes.
unfoldable pub cur_pn : Key → Hdr → Pn
cur_pn k h =
    if k.ccmp
    then record {
      b0 = byte h 7;
      b1 = byte h 6;
      b2 = byte h 5;
      b3 = byte h 4;
      b4 = byte h 1;
      b5 = byte h 0;
    }
    else record {
      b0 = byte h 7;
      b1 = byte h 6;
      b2 = byte h 5;
      b3 = byte h 4;
      b4 = byte h 0;
      b5 = byte h 2;
    }

-- The return values 1, 0 and -1.
pub data Verdict : Type 0 where
  unchecked accepted dropped : Verdict

-- From `last_pn = ...` on, for the interface found. A key index that is neither the current nor the
-- previous one is reported as dropped and accepted.
unfoldable pub check_pn : Hdr → VifPriv → Key → Verdict × VifPriv
check_pn h v k =
    let cur = cur_pn k h in
    if keyid h == k.keyidx
    then (if pn_le cur v.rx_bcmc_pn
        then (dropped, v)
        else (accepted, record v { rx_bcmc_pn = cur }))
    else (if keyid h == v.prev_keyid
        then (if pn_le cur v.rx_bcmc_pn_prev
            then (dropped, v)
            else (accepted, record v { rx_bcmc_pn_prev = cur }))
        else (accepted, v))

unfoldable pub validate_pn : ℕ → (ℕ → Option VifPriv) → Hdr → Verdict × (ℕ → Option VifPriv)
validate_pn sc_nvifs vifs h =
    if not h.group then (unchecked, vifs) else elim (pick_from sc_nvifs 0 vifs h none) [
      | none ↦ (unchecked, vifs)
      | some (i, v, k) ↦ let (verdict, v') = check_pn h v k in (verdict, update vifs i (some v'))
    ]
