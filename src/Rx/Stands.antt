-- ===== src/Rx/Stands.antt =====
-- What there is to hand on from a buffer of frames (see Rx/Layout), and a frame at a position in it.
use mathlib.Core.List.{append_assoc}
use si91x_rcp_driver.Prelude.{
  ℕ, ◌+◌, ◌*◌, ◌/◌, ◌%◌, ◌^◌, ◌≤◌, ◌≡◌, ◌⊎◌, ◌∙◌, ap, sym, refl, List, [], ◌∷◌, ◌++◌, length,
  length-append, take, drop, ◌==◌, if◌then◌else◌, arith,
}
use si91x_rcp_driver.Rx.{
  Call, coex_recv_pkt, mgmt_pkt_recv, hci_recv_pkt, zb_attach, zb_recv_pkt, check_traffic, indicate,
  u16, get_queueno, get_length, get_extended_desc, rsi_wifi_data_q, rsi_wifi_mgmt_q,
}
use si91x_rcp_driver.Rx.Layout.{
  Frame, IsFrame, pkt_len, size, descriptor, lay, lay_all, lay-append, length-lay, take-append,
  drop-append, at_size, at_offset, skip_to, at_queueno, at_length, at_extended,
}

-- The 16 bytes of the descriptor.
abbrev pub desc : Frame → List ℕ
desc f =
    pkt_len f % 2 ^ 8
    ∷ (pkt_len f / 2 ^ 8 + f.queueno * 2 ^ 4)
    ∷ f.b2
    ∷ f.b3
    ∷ length f.extra
    ∷ f.others

-- Who gets a packet.
pub data Receiver : Type 0 where
  network driver coex_module bluetooth zigbee : Receiver

-- The message with its descriptor that stands at `at`.
abbrev pub message : (bytes : List ℕ) (at : ℕ) → List ℕ
message bytes at = take (16 + get_length bytes at) (drop at bytes)

-- What calls hand on and to whom, in order: a packet for the network stack, and for the others a
-- message with its descriptor.
unfoldable pub received : List ℕ → List Call → List (Receiver × List ℕ)
received bytes [] = []
received bytes (indicate skb amsdu_bit ∷ calls) =
    received bytes calls ++ ((network, take skb.len (drop skb.from bytes)) ∷ [])
received bytes (mgmt_pkt_recv at ∷ calls) =
    received bytes calls ++ ((driver, message bytes at) ∷ [])
received bytes (coex_recv_pkt at ∷ calls) =
    received bytes calls ++ ((coex_module, message bytes at) ∷ [])
received bytes (hci_recv_pkt at ∷ calls) =
    received bytes calls ++ ((bluetooth, message bytes at) ∷ [])
received bytes (zb_attach ∷ calls) = received bytes calls
received bytes (zb_recv_pkt at ∷ calls) = received bytes calls ++ ((zigbee, message bytes at) ∷ [])
received bytes (check_traffic ∷ calls) = received bytes calls

-- What there is to hand on of a frame, and to whom.
unfoldable pub content : Frame → Receiver × List ℕ
content f =
    if f.queueno == rsi_wifi_data_q
    then (network, f.payload)
    else (driver, desc f ++ (f.extra ++ f.payload))

pub record IsWifi (f : Frame) : Type 0 where
  pub frame : IsFrame f
  pub queue : (f.queueno ≡ rsi_wifi_data_q) ⊎ (f.queueno ≡ rsi_wifi_mgmt_q)

unfoldable pub AreWifi : List Frame → Type 0
AreWifi [] = Unit
AreWifi (f ∷ fs) = IsWifi f × AreWifi fs

-- The frame `f` stands at `index` of a buffer.
pub record Stands (bytes : List ℕ) (index : ℕ) (f : Frame) : Type 0 where
  pub is_frame : IsFrame f
  pub size_there : u16 bytes index ≡ size f
  pub offset_there : u16 bytes (index + 2) ≡ 4 + length f.pad
  pub queueno_there : get_queueno bytes (index + (4 + length f.pad)) ≡ f.queueno
  pub length_there : get_length bytes (index + (4 + length f.pad)) ≡ pkt_len f
  pub extended_there : get_extended_desc bytes (index + (4 + length f.pad)) ≡ length f.extra
  pub payload_there :
      take (length f.payload) (drop (index + (4 + length f.pad) + (length f.extra + 16)) bytes)
      ≡ f.payload
  pub message_there :
      take (16 + pkt_len f) (drop (index + (4 + length f.pad)) bytes)
      ≡ desc f ++ (f.extra ++ f.payload)

pub length-desc : (f : Frame) → IsFrame f → length (desc f) ≡ 16
length-desc f h = omega (arith, h.rest_of_desc)

pub take-payload :
    (f : Frame) (rest : List ℕ)
    → IsFrame f
    → take (length f.payload) (drop (length f.extra + 16) (descriptor f rest)) ≡ f.payload
take-payload f rest h =
    let before = desc f ++ f.extra in
    let parts : descriptor f rest ≡ before ++ (f.payload ++ (f.tail ++ rest)) =
      sym (append_assoc (desc f) f.extra (f.payload ++ (f.tail ++ rest))) in
    let skip : length f.extra + 16 ≡ length before + 0 =
      omega (arith, length-append (desc f) f.extra, length-desc f h) in
    rw parts (
      rw skip (
        rw (drop-append before (f.payload ++ (f.tail ++ rest)) 0)
          (take-append f.payload (f.tail ++ rest) (length f.payload) refl)))

pub take-message :
    (f : Frame) (rest : List ℕ)
    → IsFrame f
    → take (16 + pkt_len f) (descriptor f rest) ≡ desc f ++ (f.extra ++ f.payload)
take-message f rest h =
    let message = desc f ++ (f.extra ++ f.payload) in
    let parts : descriptor f rest ≡ message ++ (f.tail ++ rest) = simp (append_assoc) refl in
    let len : 16 + pkt_len f ≡ length message = omega (
      arith,
      length-append (desc f) (f.extra ++ f.payload),
      length-append f.extra f.payload,
      length-desc f h,
    ) in
    rw parts (take-append message (f.tail ++ rest) (16 + pkt_len f) len)

pub lay-Stands :
    (pre : List ℕ) (f : Frame) (rest : List ℕ)
    → IsFrame f
    → Stands (pre ++ lay f rest) (length pre) f
lay-Stands pre f rest h = record {
  is_frame = h;
  size_there = at_size pre f rest h;
  offset_there = at_offset pre f rest h;
  queueno_there = at_queueno pre f rest h;
  length_there = at_length pre f rest h;
  extended_there = at_extended pre f rest h;
  payload_there =
      rw
        (skip_to pre f rest h (length pre + (4 + length f.pad) + (length f.extra + 16))
          (length f.extra + 16) refl)
        (take-payload f rest h);
  message_there =
      rw (skip_to pre f rest h (length pre + (4 + length f.pad)) 0 (omega arith))
        (take-message f rest h);
}

pub length-lay_all :
    (f : Frame) (fs : List Frame)
    → IsFrame f
    → length (lay_all (f ∷ fs)) ≡ size f + length (lay_all fs)
unfolding lay_all
length-lay_all f fs h =
    ap length (lay-append f (lay_all fs))
    ∙ length-append (lay f []) (lay_all fs)
    ∙ ap (λ n. n + length (lay_all fs)) (length-lay f h)

pub next_frame :
    (pre : List ℕ) (f : Frame) (fs : List Frame)
    → pre ++ lay_all (f ∷ fs) ≡ (pre ++ lay f []) ++ lay_all fs
unfolding lay_all
next_frame pre f fs =
    ap (λ xs. pre ++ xs) (lay-append f (lay_all fs))
    ∙ sym (append_assoc pre (lay f []) (lay_all fs))

pub reaches_frame :
    (pre : List ℕ) (f : Frame) (fs : List Frame) (bytes : List ℕ) (index : ℕ)
    → bytes ≡ pre ++ lay_all (f ∷ fs)
    → index ≡ length pre
    → IsFrame f
    → Stands bytes index f
unfolding lay_all
reaches_frame pre f fs bytes index e i h = rw e (rw i (lay-Stands pre f (lay_all fs) h))

pub empty : length (lay_all []) ≡ 0
unfolding lay_all
empty = refl

pub lay_all-nonempty : (f : Frame) (fs : List Frame) → IsFrame f → 1 ≤ length (lay_all (f ∷ fs))
lay_all-nonempty f fs h = omega (arith, length-lay_all f fs h, h.some_payload)
