-- ===== src/Boot/Image/Chunks.antt =====
-- How the chunks of an image are loaded by `rsi_load_9116_firmware` of rsi/rsi_91x_hal.c.
use si91x_rcp_driver.Prelude.{
  ℕ, ◌≡◌, ◌∙◌, inl, inr, ap, refl, Bool, true, false, Option, none, some, List, [], ◌∷◌,
  if◌then◌else◌, Bool-cases, take, drop, ==_iff,
}
use si91x_rcp_driver.Boot.Io.{
  Io, load, reset, reg_write, Trace, Device, Out, ok, err, stuck, Boot, attempt, step, ◌>>=◌, ◌>>◌,
  load_data_master_write, master_reg_write, pure,
}
use si91x_rcp_driver.Boot.Upgrade.Written.{after_ok}
use si91x_rcp_driver.Boot.Image.{
  Firmware, memory, File, metadata_9117, Entry, entry_len, is_last, bl_entries, u16_at, Loading,
  finished, load_chunks, load_image, conclude, choose_file, or_fail, rsi_load_9116_firmware,
}

-- The loads that a table asks for, on top of `tr`: a chunk for each entry up to one that is marked
-- as the last, one behind the other in the image, each to the address of its entry. The last load
-- stands apart; `none` if no entry is marked.
unfoldable pub chunk_loads : (block_size : ℕ) → List Entry → List ℕ → Trace → Option (Io × Trace)
chunk_loads block_size [] bytes tr = none
chunk_loads block_size (e ∷ es) bytes tr =
    let io = load e.dst_addr block_size (take (entry_len e) bytes) in
    if is_last e
    then some (io, tr)
    else chunk_loads block_size es (drop (entry_len e) bytes) (io ∷ tr)

-- The answer to a load, good or bad, only becomes the status.
attempt_load :
    (d : Device) (addr n : ℕ) (bytes : List ℕ) (tr : Trace)
    → attempt (load_data_master_write d addr n bytes) tr ≡ ok (d.loads tr) (load addr n bytes ∷ tr)
unfolding load_data_master_write
attempt_load d addr n bytes tr = status (d.loads tr)
  where
    status :
        (b : Bool)
        → ◌≡◌ {A = Out Bool}
            (elim (let o : Out (Unit {0}) =
                if b then ok tt (load addr n bytes ∷ tr) else err 0 (load addr n bytes ∷ tr) in
              o) [ ok a tr' ↦ ok true tr' | err r tr' ↦ ok false tr' | stuck ↦ stuck ])
            (ok b (load addr n bytes ∷ tr))
    status true = refl
    status false = refl

-- The status that the load made last leaves.
told : Device → Option (Io × Trace) → Out Loading
told d none = stuck
told d (some (io, t₀)) = ok (finished (d.loads t₀)) (io ∷ t₀)

module _ (d : Device) (coex : ℕ) (m sdio : Bool) where
  load_chunks_last :
      (n : ℕ) (es : List Entry) (bytes : List ℕ) (tr : Trace) (io : Io) (t₀ : Trace)
      → chunk_loads n es bytes tr ≡ some (io, t₀)
      → load_chunks d coex m sdio n es bytes tr ≡ ok (finished (d.loads t₀)) (io ∷ t₀)
  unfolding load_chunks chunk_loads told
  load_chunks_last n [] bytes tr io t₀ h = cc
  load_chunks_last n (e ∷ es) bytes tr io t₀ h =
      after_ok (attempt (load_data_master_write d e.dst_addr n chunk)) next (d.loads tr) tr
        (load e.dst_addr n chunk ∷ tr) (attempt_load d e.dst_addr n chunk tr)
      ∙ elim (Bool-cases (is_last e)) [
        | inl l ↦ rw l (ap (λ o. told d o) (rw l at h))
        | inr l ↦ rw l (
            load_chunks_last n es (drop (entry_len e) bytes) (load e.dst_addr n chunk ∷ tr) io t₀
              (rw l at h))
      ]
    where
      chunk : List ℕ
      chunk = take (entry_len e) bytes

      next : Bool → Boot Loading
      next good =
          if is_last e
          then pure (finished good)
          else load_chunks d coex m sdio n es (drop (entry_len e) bytes)

  -- The trace when the register for the memory has been written.
  abbrev pub opened : Trace → Trace
  opened tr = reg_write 0x41300000 0x03F0003C 4 ∷ tr

  abbrev pub block_size : ℕ
  block_size = if sdio then 256 else 252

  -- What is done after the last load: over SDIO the device is put into reset.
  abbrev pub concluded : Bool → Trace → Out Loading
  concluded good t = if good then ok (finished true) (if sdio then reset ∷ t else t) else err 0 t

  conclude_lem :
      (good : Bool) (t : Trace) → conclude d coex m sdio (finished good) t ≡ concluded good t
  unfolding conclude
  conclude_lem true t = over sdio
    where
      over :
          (s : Bool)
          → (if s then (do step reset; pure (finished true)) else pure (finished true)) t
            ≡ ok (finished true) (if s then reset ∷ t else t)
      over true = refl
      over false = refl
  conclude_lem false t = refl

  load_image_last :
      (fw : Firmware) (tr : Trace) (io : Io) (t₀ : Trace)
      → u16_at (memory fw) 0 ≡ 0x5aa5
      → chunk_loads block_size
          (bl_entries 7 0 (memory fw))
          (drop (u16_at (memory fw) 2) (memory fw))
          tr
        ≡ some (io, t₀)
      → load_image d coex m sdio fw tr ≡ ok (finished (d.loads t₀)) (io ∷ t₀)
  unfolding load_image
  load_image_last fw tr io t₀ magic h = rw ((==_iff (u16_at (memory fw) 0) 0x5aa5).1 magic) (
      load_chunks_last block_size (bl_entries 7 0 (memory fw))
        (drop (u16_at (memory fw) 2) (memory fw)) tr io t₀ h)

  register :
      (t : Trace)
      → d.writes t ≡ true
      → master_reg_write d 0x41300000 0x03F0003C 4 t ≡ ok tt (opened t)
  unfolding master_reg_write
  register t e = rw e refl

  -- On a 9117 whose register for the memory can be written and whose file is an image with a table
  -- of chunks (it starts with 0x5aa5), one of whose seven entries is marked as the last: the chunks
  -- up to that one are handed over, each to its address, whatever the bus says to each, and the
  -- loading succeeds exactly if the load of the last chunk does.
  pub rsi_load_9116_firmware_last :
      (request : File → Option Firmware) (fw : Firmware) (tr : Trace) (io : Io) (t₀ : Trace)
      → d.writes tr ≡ true
      → request metadata_9117 ≡ some fw
      → u16_at (memory fw) 0 ≡ 0x5aa5
      → chunk_loads block_size
          (bl_entries 7 0 (memory fw))
          (drop (u16_at (memory fw) 2) (memory fw))
          (opened tr)
        ≡ some (io, t₀)
      → rsi_load_9116_firmware d coex m sdio request true tr ≡ concluded (d.loads t₀) (io ∷ t₀)
  unfolding rsi_load_9116_firmware choose_file
  rsi_load_9116_firmware_last request fw tr io t₀ writes found magic h =
      after_ok (master_reg_write d 0x41300000 0x03F0003C 4) (λ u. rest) tt tr (opened tr)
        (register tr writes)
      ∙ after_ok (or_fail (request metadata_9117)) image fw (opened tr) (opened tr) (rw found refl)
      ∙ after_ok (load_image d coex m sdio fw) (conclude d coex m sdio) (finished (d.loads t₀))
          (opened tr) (io ∷ t₀) (load_image_last fw (opened tr) io t₀ magic h)
      ∙ conclude_lem (d.loads t₀) (io ∷ t₀)
    where
      image : Firmware → Boot Loading
      image fw = load_image d coex m sdio fw >>= conclude d coex m sdio

      rest : Boot Loading
      rest = or_fail (request metadata_9117) >>= image
