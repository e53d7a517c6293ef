-- ===== src/Bus/Stopped.antt =====
-- The loading of an image over SDIO (rsi/rsi_91x_sdio.c) after a write has failed.
use si91x_rcp_driver.Prelude.{
  ℕ, zero, suc, ◌/◌, ◌%◌, ◌^◌, ◌≡◌, inl, inr, refl, true, List, ltb, ◌==◌, length, drop, arith,
  Bool-cases,
}
use si91x_rcp_driver.Bus.{Bus, Host, ok, Call, ◌>>◌}
use si91x_rcp_driver.Bus.Memory.{Mem}
use si91x_rcp_driver.Bus.Sdio.{
  writeb, rsi_sdio_write_register, rsi_sdio_master_access_msword, rsi_sdio_write_register_multiple,
  load_rest, follow_msword, next_base, next_msb, load_blocks, rsi_sdio_load_data_master_write,
}
use si91x_rcp_driver.Bus.Sdio.Steps.{Ends, Ends-then, Ends-ok, transfer-Ends}

-- A write has failed, and the memory is `m`.
abbrev pub Stopped : Mem → Host → Type 0
Stopped m h = (h.write_fail ≡ 2) × (h.device.memory ≡ m)

module _ (b : Bus) (m : Mem) where
  register_low-Stopped :
      (byte : ℕ) (h : Host)
      → Stopped m h
      → Ends b (Stopped m) (rsi_sdio_write_register b 0 0xFA byte h)
  unfolding rsi_sdio_write_register writeb
  register_low-Stopped byte h p = transfer-Ends b _ _ h p

  register_high-Stopped :
      (byte : ℕ) (h : Host)
      → Stopped m h
      → Ends b (Stopped m) (rsi_sdio_write_register b 0 0xFB byte h)
  unfolding rsi_sdio_write_register writeb
  register_high-Stopped byte h p = transfer-Ends b _ _ h p

  msword-Stopped :
      (ms : ℕ) (h : Host) → Stopped m h → Ends b (Stopped m) (rsi_sdio_master_access_msword b ms h)
  unfolding rsi_sdio_master_access_msword
  msword-Stopped ms h p =
      Ends-then b _ _ (rsi_sdio_write_register b 0 0xFA (ms % 2 ^ 8))
        (rsi_sdio_write_register b 0 0xFB (ms / 2 ^ 8 % 2 ^ 8)) h (register_low-Stopped _ h p)
        (register_high-Stopped _)

  write-Stopped :
      (addr : ℕ) (buffer : List ℕ) (count : ℕ) (h : Host)
      → Stopped m h
      → Ends b (Stopped m) (rsi_sdio_write_register_multiple b addr buffer count h)
  unfolding rsi_sdio_write_register_multiple Ends
  write-Stopped addr buffer count h p =
      let skip : ltb 1 h.write_fail ≡ true = ground (arith, p.0) in rw skip p

  follow-Stopped :
      (base msb : ℕ) (h : Host) → Stopped m h → Ends b (Stopped m) (follow_msword b base msb h)
  unfolding follow_msword
  follow-Stopped base msb h p = elim (Bool-cases (base / 2 ^ 16 == msb)) [
    | inl t ↦ rw t (unfold Ends in p)
    | inr t ↦ rw t (msword-Stopped _ h p)
  ]

  rest-Stopped :
      (bs size base : ℕ) (firmware : List ℕ) (h : Host)
      → Stopped m h
      → Ends b (Stopped m) (load_rest b bs size base firmware h)
  unfolding load_rest
  rest-Stopped bs size base firmware h p = elim (Bool-cases (size % bs == 0)) [
    | inl t ↦ rw t (unfold Ends in p)
    | inr t ↦ rw t (write-Stopped _ _ _ h p)
  ]

  round-Stopped :
      (addr count base msb : ℕ) (block : List ℕ) (k : Call) (h : Host)
      → Stopped m h
      → ((h₁ : Host) → Stopped m h₁ → Ends b (Stopped m) (k h₁))
      → Ends b
          (Stopped m)
          ((rsi_sdio_write_register_multiple b addr block count >> follow_msword b base msb >> k) h)
  round-Stopped addr count base msb block k h p rest =
      Ends-then b _ _ (rsi_sdio_write_register_multiple b addr block count)
        (follow_msword b base msb >> k) h (write-Stopped addr block count h p)
        λ h₁ q. Ends-then b _ _ (follow_msword b base msb) k h₁ (follow-Stopped base msb h₁ q) rest

  load_blocks-Stopped :
      (bs size left base msb : ℕ) (firmware : List ℕ) (h : Host)
      → Stopped m h
      → Ends b (Stopped m) (load_blocks b bs size left base msb firmware h)
  unfolding load_blocks
  load_blocks-Stopped bs size zero base msb firmware h p = rest-Stopped bs size base firmware h p
  load_blocks-Stopped bs size (suc left) base msb firmware h p =
      round-Stopped _ _ _ _ _
        (load_blocks b bs size left (next_base b bs base) (next_msb b (next_base b bs base) msb)
          (drop bs firmware))
        h p
        (load_blocks-Stopped bs size left (next_base b bs base)
          (next_msb b (next_base b bs base) msb) (drop bs firmware))

  load-Stopped :
      (base bs : ℕ) (firmware : List ℕ) (h : Host)
      → Stopped m h
      → Ends b (Stopped m) (rsi_sdio_load_data_master_write b true base bs firmware h)
  unfolding rsi_sdio_load_data_master_write
  load-Stopped base bs firmware h p =
      Ends-then b _ _ (rsi_sdio_master_access_msword b (base / 2 ^ 16))
        (load_blocks b bs (length firmware) (length firmware / bs) base (base / 2 ^ 16) firmware) h
        (msword-Stopped (base / 2 ^ 16) h p)
        (load_blocks-Stopped bs (length firmware) (length firmware / bs) base (base / 2 ^ 16)
          firmware)

-- After a failed block write (`write_fail` is 2), on a bus that refuses no transfer any more, the
-- loading of any image over SDIO, with any base address and block size, reports success, and the
-- memory of the device is as before; `write_fail` stays, so this is so for every later image too.
pub rsi_sdio_load_data_master_write_stopped :
    (b : Bus) (base block_size : ℕ) (firmware : List ℕ) (h : Host)
    → h.write_fail ≡ 2
    → ((n : ℕ) → b.accepts n ≡ true)
    → (h' : Host) × (rsi_sdio_load_data_master_write b true base block_size firmware h ≡ ok h')
      × (h'.write_fail ≡ 2)
      × (h'.device.memory ≡ h.device.memory)
rsi_sdio_load_data_master_write_stopped b base block_size firmware h failed all =
    let (h', e, p) =
      Ends-ok b (Stopped h.device.memory) _ all
        (load-Stopped b h.device.memory base block_size firmware h (failed, refl)) in
    (h', e, p.0, p.1)
