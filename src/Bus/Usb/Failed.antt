-- ===== src/Bus/Usb/Failed.antt =====
-- Packets over USB (rsi/rsi_91x_usb.c) after one that failed.
use si91x_rcp_driver.Prelude.{
  ℕ, ◌+◌, ◌-◌, ◌%◌, ◌^◌, ◌<◌, ◌≡◌, inl, inr, refl, Bool, true, false, List, [], ◌∷◌, ◌==◌, arith,
  Bool-cases,
}
use si91x_rcp_driver.Bus.{Device, Bus, Host, Result, ok, err, transfer}
use si91x_rcp_driver.Bus.Usb.{
  bulk, segment, count_in, rsi_usb_card_write, rsi_write_multiple, endpoint_of,
  rsi_usb_host_intf_write_pkt,
}

-- What the call leaves, successful or not.
abbrev pub left : Result → Host
left (ok h) = h
left (err h) = h

-- One packet after another, whatever is reported.
unfoldable pub write_all : Bus → (zigb_ready is_9116 : Bool) → List (List ℕ × ℕ) → Host → Host
write_all b zigb_ready is_9116 [] h = h
write_all b zigb_ready is_9116 ((pkt, len) ∷ rest) h =
    write_all b zigb_ready is_9116 rest
      (left (rsi_usb_host_intf_write_pkt b zigb_ready is_9116 pkt len h))

-- Either the packet stands behind its 128 bytes on the endpoint of its queue, with the count as
-- before; or the write is an error, the flag is set, and the count is one higher.
unfoldable pub Wrote : Bool → List ℕ → (len : ℕ) → Host → Result → Type 0
Wrote is_9116 pkt len h (ok h') =
    (h'.pending ≡ h.pending)
    × (h'.write_fail ≡ 0)
    × (h'.device.packets ≡ (endpoint_of is_9116 pkt, segment false pkt len) ∷ h.device.packets)
Wrote is_9116 pkt len h (err h') = (h'.pending ≡ h.pending + 1) × (h'.write_fail ≡ 1)

endpoint_of-nonzero : (is_9116 : Bool) (pkt : List ℕ) → (endpoint_of is_9116 pkt == 0) ≡ false
unfolding endpoint_of
endpoint_of-nonzero is_9116 pkt = ground arith

-- One transfer, and what the caller makes of its two outcomes.
transfer_either :
    (b : Bus) (effect : Device → Device) (P : Result → Type 0) (f g : Host → Host) (h : Host)
    → P (ok (f (record h { transfers = h.transfers + 1; device = effect h.device })))
    → P (
        err (g (record h { transfers = h.transfers + 1; device = b.refused h.transfers h.device })))
    → P (elim (transfer b effect h) [ ok h₁ ↦ ok (f h₁) | err h₁ ↦ err (g h₁) ])
unfolding transfer
transfer_either b effect P f g h yes_case no_case = elim (Bool-cases (b.accepts h.transfers)) [
  | inl t ↦ rw t yes_case
  | inr t ↦ rw t no_case
]

card_write-Wrote :
    (b : Bus) (is_9116 : Bool) (pkt : List ℕ) (len : ℕ) (h : Host)
    → h.write_fail ≡ 0
    → Wrote is_9116 pkt len h
        (rsi_usb_card_write b false is_9116 pkt len (endpoint_of is_9116 pkt) h)
unfolding rsi_usb_card_write
card_write-Wrote b is_9116 pkt len h none_failed =
    transfer_either b (bulk (endpoint_of is_9116 pkt) (segment false pkt len))
      (Wrote is_9116 pkt len h) (λ h₁. record h₁ { pending = h₁.pending - 1 })
      (λ h₁. record h₁ { write_fail = 1 }) (count_in h)
      (unfold Wrote count_in bulk in (omega arith, none_failed, refl))
      (unfold Wrote count_in in (refl, refl))

-- What the write leaves, for a packet whose count is not cut; `direct` is off.
write_pkt-Wrote :
    (b : Bus) (is_9116 : Bool) (pkt : List ℕ) (len : ℕ) (h : Host)
    → len % 2 ^ 16 ≡ len
    → h.write_fail ≡ 0
    → Wrote is_9116 pkt len h (rsi_usb_host_intf_write_pkt b false is_9116 pkt len h)
unfolding rsi_usb_host_intf_write_pkt rsi_write_multiple
write_pkt-Wrote b is_9116 pkt len h whole none_failed =
    let clear : (h.write_fail == 0) ≡ true = ground arith in
    rw (endpoint_of-nonzero is_9116 pkt)
      (rw clear (rw whole (card_write-Wrote b is_9116 pkt len h none_failed)))

-- With the flag set, nothing goes out.
refused_later :
    (b : Bus) (zigb_ready is_9116 : Bool) (pkt : List ℕ) (len : ℕ) (h : Host)
    → h.write_fail ≡ 1
    → rsi_usb_host_intf_write_pkt b zigb_ready is_9116 pkt len h ≡ err h
unfolding rsi_usb_host_intf_write_pkt rsi_write_multiple
refused_later b zigb_ready is_9116 pkt len h failed_before =
    let dirty : (h.write_fail == 0) ≡ false = ground arith in
    rw (endpoint_of-nonzero is_9116 pkt) (rw dirty refl)

write_all-same :
    (b : Bus) (zigb_ready is_9116 : Bool) (pkts : List (List ℕ × ℕ)) (h : Host)
    → h.write_fail ≡ 1
    → write_all b zigb_ready is_9116 pkts h ≡ h
unfolding write_all
write_all-same b zigb_ready is_9116 [] h f = refl
write_all-same b zigb_ready is_9116 ((pkt, len) ∷ rest) h f =
    rw (refused_later b zigb_ready is_9116 pkt len h f)
      (write_all-same b zigb_ready is_9116 rest h f)

-- What holds after the write: see the theorem.
unfoldable pub After :
    Bus → (is_9116 : Bool) → List ℕ → (len : ℕ) → List (List ℕ × ℕ) → Host → Result → Type 0
After b is_9116 pkt len pkts h (ok h') =
    (h'.pending ≡ h.pending)
    × (h'.device.packets ≡ (endpoint_of is_9116 pkt, segment false pkt len) ∷ h.device.packets)
After b is_9116 pkt len pkts h (err h') =
    (h'.pending ≡ h.pending + 1)
    × ((write_all b false is_9116 pkts h').pending ≡ h.pending + 1)
    × ((write_all b false is_9116 pkts h').transfers ≡ h'.transfers)

later :
    (b : Bus) (is_9116 : Bool) (pkt : List ℕ) (len : ℕ) (pkts : List (List ℕ × ℕ)) (h : Host)
    (r : Result)
    → Wrote is_9116 pkt len h r
    → After b is_9116 pkt len pkts h r
unfolding After Wrote
later b is_9116 pkt len pkts h (ok h') (p, f, q) = (p, q)
later b is_9116 pkt len pkts h (err h') (p, f) =
    let same = write_all-same b false is_9116 pkts h' f in (p, rw same p, rw same refl)

-- A packet over USB, of fewer than 65536 bytes, with ZigBee not ready and no failed write before:
-- if the write succeeds, then the packet stands behind 128 zero bytes on the endpoint of its queue,
-- and the count of pending transfers is as before; if it fails, then that count is one higher, and
-- however many packets are written after it, no transfer is tried and the count stays so.
pub rsi_usb_host_intf_write_pkt_lem :
    (b : Bus) (is_9116 : Bool) (pkt : List ℕ) (len : ℕ) (pkts : List (List ℕ × ℕ)) (h : Host)
    → len < 2 ^ 16
    → h.write_fail ≡ 0
    → After b is_9116 pkt len pkts h (rsi_usb_host_intf_write_pkt b false is_9116 pkt len h)
rsi_usb_host_intf_write_pkt_lem b is_9116 pkt len pkts h lt none_failed =
    later b is_9116 pkt len pkts h (rsi_usb_host_intf_write_pkt b false is_9116 pkt len h)
      (write_pkt-Wrote b is_9116 pkt len h (omega (arith, lt)) none_failed)
