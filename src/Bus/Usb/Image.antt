-- ===== src/Bus/Usb/Image.antt =====
-- The loading of an image over USB (rsi/rsi_91x_usb.c): what it leaves in the memory.
use si91x_rcp_driver.Prelude.{
  ℕ, zero, suc, ◌+◌, ◌-◌, ◌*◌, ◌/◌, ◌%◌, ◌^◌, ◌≤◌, ◌<◌, ◌≡◌, ◌⊎◌, inl, inr, refl, sym, ap, ◌∙◌,
  Bool, false, List, ◌==◌, leb, length, take, drop, take-append-drop, length-take, length-drop,
  arith, Bool-cases, min,
}
use si91x_rcp_driver.Bus.{Device, Bus, Host, Result, ok, err, Call, ◌>>◌, store, transfer}
use si91x_rcp_driver.Bus.Memory.{
  Mem, write_at, write_at-append, HasImage, write_at-HasImage, take_all, nil_of_length,
}
use si91x_rcp_driver.Bus.Sdio.Steps.{Refuses, Ends, Ends-then, transfer-Ends}
use si91x_rcp_driver.Bus.Usb.{
  write_loop, rsi_usb_write_register_multiple, usb_load_rest, usb_load_blocks,
  rsi_usb_load_data_master_write,
}

-- A block that runs over a boundary of 64 KB goes to the addresses that follow.
abbrev pub Linear : Bus → Type 0
Linear b =
    (address : ℕ) (bytes : List ℕ) (d : Device)
    → b.straddles address bytes d ≡ record d { memory = write_at address bytes d.memory }

-- A call that succeeds leaves `P`; one that fails met a refusal of the bus, or had no buffer.
unfoldable pub Loads : Bus → (room : ℕ → Bool) → (Host → Type 0) → Result → Type 0
Loads b room P (ok h) = P h
Loads b room P (err h) = Refuses b ⊎ ((n : ℕ) × (room n ≡ false))

Loads-Ends :
    (b : Bus) (room : ℕ → Bool) (P : Host → Type 0) (r : Result) → Ends b P r → Loads b room P r
unfolding Loads Ends
Loads-Ends b room P (ok h) p = p
Loads-Ends b room P (err h) p = inl p

Loads-weaken :
    (b : Bus) (room : ℕ → Bool) (P Q : Host → Type 0) (r : Result)
    → ((h : Host) → P h → Q h)
    → Loads b room P r
    → Loads b room Q r
unfolding Loads
Loads-weaken b room P Q (ok h) to p = to h p
Loads-weaken b room P Q (err h) to p = p

Loads-then :
    (b : Bus) (room : ℕ → Bool) (P Q : Host → Type 0) (m k : Call) (h : Host)
    → Loads b room P (m h)
    → ((h₁ : Host) → P h₁ → Loads b room Q (k h₁))
    → Loads b room Q ((m >> k) h)
unfolding Loads
Loads-then b room P Q m k h first next = then_of (m h) first
  where
    then_of :
        (r : Result) → Loads b room P r → Loads b room Q (elim r [ ok h' ↦ k h' | err h' ↦ err h' ])
    then_of (ok h₁) p = next h₁ p
    then_of (err h₁) p = p

module _ (b : Bus) (room : ℕ → Bool) (linear : Linear b) where
  store-memory :
      (address : ℕ) (bytes : List ℕ) (d : Device)
      → (store b address bytes d).memory ≡ write_at address bytes d.memory
  unfolding store
  store-memory address bytes d =
      elim (Bool-cases (leb (address % 2 ^ 16 + length bytes) (2 ^ 16))) [
        | inl t ↦ rw t refl
        | inr t ↦ rw t (rw (linear address bytes d) refl)
      ]

  -- A block of at most 4096 bytes is one round.
  write_loop-memory :
      (rounds address count : ℕ) (bytes : List ℕ) (m : Mem) (h : Host)
      → count ≤ 4096
      → count ≤ rounds
      → h.device.memory ≡ m
      → Ends b
          (λ h'. h'.device.memory ≡ write_at address (take count bytes) m)
          (write_loop b rounds address bytes count h)
  unfolding write_loop
  write_loop-memory zero address zero bytes m h small enough e = unfold Ends write_at in e
  write_loop-memory zero address (suc count) bytes m h small enough e = absurd (omega arith)
  write_loop-memory (suc rounds) address zero bytes m h small enough e = unfold Ends write_at in e
  write_loop-memory (suc rounds) address (suc count) bytes m h small enough e =
      let whole : min (suc count) 4096 ≡ suc count = omega (arith, small) in
      let left : suc count - suc count ≡ 0 = omega arith in
      let block : List ℕ = take (suc count) bytes in
      let P : Host → Type 0 = λ h'. h'.device.memory ≡ write_at address block m in
      let some : (suc count == 0) ≡ false = ground arith in
      rw whole (
        rw left (
          rw some (
            Ends-then b P P (transfer b (store b address block))
              (write_loop b rounds address (drop (suc count) bytes) 0) h
              (transfer-Ends b (store b address block) P h
                (store-memory address block h.device ∙ ap (write_at address block) e))
              (λ h₁ p. loop_done P rounds (drop (suc count) bytes) h₁ p))))
    where
      loop_done :
          (P : Host → Type 0) (rounds : ℕ) (bytes : List ℕ) (h₁ : Host)
          → P h₁
          → Ends b P (write_loop b rounds address bytes 0 h₁)
      loop_done P zero bytes h₁ p = unfold Ends in p
      loop_done P (suc rounds) bytes h₁ p = unfold Ends in p

  write-memory :
      (n base count : ℕ) (bytes : List ℕ) (m : Mem) (h : Host)
      → count ≤ 4096
      → base < 2 ^ 32
      → h.device.memory ≡ m
      → Loads b room
          (λ h'. h'.device.memory ≡ write_at base (take count bytes) m)
          (rsi_usb_write_register_multiple b (room n) base bytes count h)
  unfolding rsi_usb_write_register_multiple Loads
  write-memory n base count bytes m h small lt e =
      let narrow : count % 2 ^ 16 ≡ count = omega (arith, small) in
      let address : base % 2 ^ 32 ≡ base = omega (arith, lt) in
      elim (Bool-cases (room n)) [
        | inl r ↦ rw r (
            rw narrow (
              rw address (
                Loads-Ends b room _ _
                  (write_loop-memory count base count bytes m h small (omega arith) e))))
        | inr r ↦ rw r (inr (n, r))
      ]

  rest-memory :
      (size base : ℕ) (firmware : List ℕ) (m : Mem) (h : Host)
      → base < 2 ^ 32
      → length firmware ≡ size % 252
      → h.device.memory ≡ m
      → Loads b room
          (λ h'. h'.device.memory ≡ write_at base firmware m)
          (usb_load_rest b room 252 size base firmware h)
  unfolding usb_load_rest Loads
  rest-memory size base firmware m h lt len e = elim (Bool-cases (size % 252 == 0)) [
    | inl t ↦ rw t (rw (nil_of_length firmware (ground arith)) (unfold write_at in e))
    | inr t ↦ rw t (
        let whole = take_all (size % 252) firmware (omega (arith, len)) in
        let sent = write-memory 0 base (size % 252) firmware m h (omega arith) lt e in
        rw whole (rw whole at sent))
  ]

  write_at-blocks :
      (firmware : List ℕ) (base : ℕ) (m : Mem)
      → 252 ≤ length firmware
      → write_at (base + 252) (drop 252 firmware) (write_at base (take 252 firmware) m)
        ≡ write_at base firmware m
  write_at-blocks firmware base m long =
      let full : length (take 252 firmware) ≡ 252 = omega (arith, length-take 252 firmware) in
      ap (λ n. write_at (base + n) (drop 252 firmware) (write_at base (take 252 firmware) m))
        (sym full)
      ∙ (sym (write_at-append (take 252 firmware) (drop 252 firmware) base m)
          ∙ ap (λ xs. write_at base xs m) (take-append-drop 252 firmware))

  blocks-memory :
      (size left base : ℕ) (firmware : List ℕ) (m : Mem) (h : Host)
      → length firmware ≡ left * 252 + size % 252
      → base + length firmware < 2 ^ 32
      → h.device.memory ≡ m
      → Loads b room
          (λ h'. h'.device.memory ≡ write_at base firmware m)
          (usb_load_blocks b room 252 size left base firmware h)
  unfolding usb_load_blocks
  blocks-memory size zero base firmware m h len fits e =
      rest-memory size base firmware m h (omega arith) (omega (arith, len)) e
  blocks-memory size (suc left) base firmware m h len fits e =
      let block : List ℕ = take 252 firmware in
      let behind : List ℕ = drop 252 firmware in
      let m' = write_at base block m in
      let long : 252 ≤ length firmware = omega (arith, len) in
      let cut : length behind ≡ left * 252 + size % 252 =
        omega (arith, len, length-drop 252 firmware) in
      let next : (base + 252) % 2 ^ 32 ≡ base + 252 = omega (arith, fits, long) in
      let same : take 252 block ≡ block =
        take_all 252 block (omega (arith, length-take 252 firmware)) in
      let first = write-memory (suc left) base 252 block m h (omega arith) (omega arith) e in
      rw next (
        Loads-then b room (λ h₁. h₁.device.memory ≡ m') _
          (rsi_usb_write_register_multiple b (room (suc left)) base block 252)
          (usb_load_blocks b room 252 size left (base + 252) behind) h (rw same at first)
          λ h₁ p.
            Loads-weaken b room _ _ _ (λ h₂ q. q ∙ write_at-blocks firmware base m long)
              (blocks-memory size left (base + 252) behind m' h₁ cut
                (omega (arith, fits, long, length-drop 252 firmware)) p))

-- The loading of an image over USB, with blocks of 252 bytes, on a device that takes a block over a
-- boundary of 64 KB to the addresses that follow, of an image that ends below 2 ^ 32 and has fewer
-- than 65536 whole blocks: if it reports success, then the memory of the device has the image from
-- the base address on and is otherwise as before; if it reports an error, then the bus refused a
-- transfer or a block had no buffer.
pub rsi_usb_load_data_master_write-HasImage :
    (b : Bus) (room : ℕ → Bool) (base : ℕ) (firmware : List ℕ) (h : Host)
    → Linear b
    → base + length firmware < 2 ^ 32
    → length firmware / 252 < 2 ^ 16
    → Loads b room
        (λ h'. HasImage base firmware h.device.memory h'.device.memory)
        (rsi_usb_load_data_master_write b room base 252 firmware h)
unfolding rsi_usb_load_data_master_write
rsi_usb_load_data_master_write-HasImage b room base firmware h linear fits few =
    let blocks : length firmware / 252 % 2 ^ 16 ≡ length firmware / 252 = omega (arith, few) in
    rw blocks (
      Loads-weaken b room _ _ _
        (λ h' e. write_at-HasImage base firmware h.device.memory h'.device.memory e)
        (blocks-memory b room linear (length firmware) (length firmware / 252) base firmware
          h.device.memory h (omega arith) fits refl))
