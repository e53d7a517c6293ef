-- ===== src/Boot/Firmware/Secure.antt =====
-- What `rsi_secure_firmware_load` of rsi/rsi_91x_hal.c has handed over when it succeeds.
use mathlib.Core.List.{append_assoc}
use si91x_rcp_driver.Prelude.{
  ℕ, zero, suc, ◌+◌, ◌-◌, ◌*◌, ◌%◌, ◌^◌, ◌<◌, ◌≡◌, ◌∙◌, sym, ap, refl, Bool, List, [], ◌∷◌, ◌++◌,
  arith, length, drop,
}
use si91x_rcp_driver.Boot.Io.{Trace, Device, Boot, ◌>>◌, write_reg_multiple, kzalloc}
use si91x_rcp_driver.Boot.Command.{ping_valid, pong_valid, eof_reached, jump_to_zero_pc, bl_cmd}
use si91x_rcp_driver.Boot.Command.Answered.{Timed, loaded, Sat, Sat-bind}
use si91x_rcp_driver.Boot.Upgrade.{cmd_pass, or_stop, Buffer, ping_write, pong_write}
use si91x_rcp_driver.Boot.Upgrade.Written.{or_stop-Sat}
use si91x_rcp_driver.Boot.Image.{Firmware, memory, copy}
use si91x_rcp_driver.Boot.Firmware.{
  rsi_fw_block_size, other, send_block, send_blocks, no_of_blocks, last_block,
  rsi_secure_firmware_load,
}
use si91x_rcp_driver.Boot.Firmware.Loaded.{Holding, command, burst-Sat, kzalloc-Sat}

drop_nil : (a : ℕ) → ◌≡◌ {A = List ℕ} (drop a []) []
drop_nil zero = refl
drop_nil (suc a) = refl

copy_split : (a b n : ℕ) (xs : List ℕ) → n ≡ a + b → copy a xs ++ copy b (drop a xs) ≡ copy n xs
unfolding copy
copy_split zero b n xs e = ap (λ k. copy k xs) (omega (arith, e))
copy_split (suc a) b zero xs e = absurd (omega (arith, e))
copy_split (suc a) b (suc n) [] e =
    let whole = copy_split a b n [] (omega (arith, e)) in
    ap (λ ys. 0 ∷ ys) (ap (λ ys. copy a [] ++ copy b ys) (sym (drop_nil a)) ∙ whole)
copy_split (suc a) b (suc n) (x ∷ xs) e = ap (λ ys. x ∷ ys) (copy_split a b n xs (omega (arith, e)))

copy_past : (k n : ℕ) (xs ys : List ℕ) → n ≡ length xs + k → copy n (xs ++ ys) ≡ xs ++ copy k ys
unfolding copy
copy_past k n [] ys e = ap (λ i. copy i ys) (omega (arith, e))
copy_past k zero (x ∷ xs) ys e = absurd (omega (arith, e))
copy_past k (suc n) (x ∷ xs) ys e = ap (λ zs. x ∷ zs) (copy_past k n xs ys (omega (arith, e)))

-- The bytes by which the last block is longer than what is left of the image.
abbrev pub overrun : ℕ → ℕ
overrun size = (rsi_fw_block_size - size % rsi_fw_block_size) % rsi_fw_block_size

module _ (d : Device) (coex : ℕ) (m sdio : Bool) (limit : ℕ) (timed : Timed d limit) (f : ℕ)
    (enough : limit < f) where
  -- A block, and the command that announces it.
  announced :
      (cmd resp : ℕ) (bytes bs : List ℕ) (tr : Trace)
      → loaded tr ++ bytes ≡ bs
      → Sat (Holding bs) (
          (write_reg_multiple d rsi_fw_block_size bytes >> or_stop (bl_cmd d coex m f cmd resp)) tr)
  announced cmd resp bytes bs tr e =
      Sat-bind (Holding bs) (Holding bs) (write_reg_multiple d rsi_fw_block_size bytes tr)
        (λ u t. or_stop (bl_cmd d coex m f cmd resp) t)
        (rw (sym e) (burst-Sat d rsi_fw_block_size bytes tr))
        (λ u t e'.
          or_stop-Sat (Holding bs) (bl_cmd d coex m f cmd resp) t
            (command d coex sdio limit timed f enough m cmd resp bs t e'))

  send_block-Sat :
      (b : Buffer) (bytes bs : List ℕ) (tr : Trace)
      → loaded tr ++ bytes ≡ bs
      → Sat (Holding bs) (send_block d coex m sdio f b bytes tr)
  unfolding send_block
  send_block-Sat ping_write bytes bs tr e = announced ping_valid b'O' bytes bs tr e
  send_block-Sat pong_write bytes bs tr e = announced pong_valid b'I' bytes bs tr e

  send_blocks-Sat :
      (left : ℕ) (b : Buffer) (bytes bs : List ℕ) (tr : Trace)
      → loaded tr ++ copy (suc left * rsi_fw_block_size) bytes ≡ bs
      → Sat (Holding bs) (send_blocks d coex m sdio f left b bytes tr)
  unfolding send_blocks
  send_blocks-Sat zero b bytes bs tr e = send_block-Sat b (copy rsi_fw_block_size bytes) bs tr e
  send_blocks-Sat (suc left) b bytes bs tr e =
      let n = rsi_fw_block_size in
      Sat-bind (Holding (loaded tr ++ copy n bytes)) (Holding bs)
        (send_block d coex m sdio f b (copy n bytes) tr)
        (λ u t. send_blocks d coex m sdio f left (other d coex m sdio f b) (drop n bytes) t)
        (send_block-Sat b (copy n bytes) (loaded tr ++ copy n bytes) tr refl)
        (λ u t q. send_blocks-Sat left (other d coex m sdio f b) (drop n bytes) bs t (
          ap (λ xs. xs ++ copy (suc left * n) (drop n bytes)) q
          ∙ append_assoc (loaded tr) (copy n bytes) (copy (suc left * n) (drop n bytes))
          ∙ ap (λ xs. loaded tr ++ xs)
              (copy_split n (suc left * n) (suc (suc left) * n) bytes (omega arith))
          ∙ e))

  blocks_cover :
      (size : ℕ)
      → 0 < size
      → size < 2 ^ 32
      → suc (last_block d coex m sdio f size) * rsi_fw_block_size ≡ size + overrun size
  unfolding last_block no_of_blocks
  blocks_cover size pos lt = ground arith

  -- With a timer that expires within `limit` readings and stays expired, and fuel beyond `limit`,
  -- `rsi_secure_firmware_load` ends for a firmware of at least one byte and fewer than 2^32; if it
  -- succeeds, the device was handed, after what it was handed before, the bytes of the image, in
  -- order, and behind them as many of the bytes that stand behind the image in memory as fill the last
  -- block of 4096 bytes.
  pub rsi_secure_firmware_load-Holding :
      (fw : Firmware) (tr : Trace)
      → 0 < length fw.content
      → length fw.content < 2 ^ 32
      → Sat
          (Holding (loaded tr ++ (fw.content ++ copy (overrun (length fw.content)) fw.behind)))
          (rsi_secure_firmware_load d coex m sdio f fw tr)
  unfolding rsi_secure_firmware_load
  rsi_secure_firmware_load-Holding fw tr pos lt =
      let blocks = last_block d coex m sdio f (length fw.content) in
      Sat-bind (Holding (loaded tr)) (Holding all) (bl_cmd d coex m f b'n' b'2' tr) (λ u t. rest t)
        (command d coex sdio limit timed f enough m b'n' b'2' (loaded tr) tr refl)
        (λ u t e.
          Sat-bind (Holding (loaded tr)) (Holding all) (kzalloc d t) (λ u t'. blocks_and_end t')
            (rw (sym e) (kzalloc-Sat d t))
            (λ u t' e'.
              Sat-bind (Holding all) (Holding all)
                (send_blocks d coex m sdio f blocks ping_write (memory fw) t') (λ u t₁. the_end t₁)
                (send_blocks-Sat blocks ping_write (memory fw) all t' (
                  ap (λ bs. bs ++ copy (suc blocks * rsi_fw_block_size) (memory fw)) e'
                  ∙ ap (λ bs. loaded tr ++ bs)
                      (copy_past (overrun (length fw.content)) (suc blocks * rsi_fw_block_size)
                        fw.content fw.behind (blocks_cover (length fw.content) pos lt))))
                (λ u t₁ e₁.
                  Sat-bind (Holding all) (Holding all)
                    (or_stop (bl_cmd d coex m f eof_reached cmd_pass) t₁)
                    (λ u t₂. bl_cmd d coex m f jump_to_zero_pc cmd_pass t₂)
                    (or_stop-Sat (Holding all) (bl_cmd d coex m f eof_reached cmd_pass) t₁
                      (command d coex sdio limit timed f enough m eof_reached cmd_pass all t₁ e₁))
                    (λ u t₂ e₂.
                      command d coex sdio limit timed f enough m jump_to_zero_pc cmd_pass all t₂
                        e₂))))
    where
      all : List ℕ
      all = loaded tr ++ (fw.content ++ copy (overrun (length fw.content)) fw.behind)

      the_end : Boot (Unit {0})
      the_end =
          or_stop (bl_cmd d coex m f eof_reached cmd_pass)
          >> bl_cmd d coex m f jump_to_zero_pc cmd_pass

      blocks_and_end : Boot (Unit {0})
      blocks_and_end =
          send_blocks d coex m sdio f (last_block d coex m sdio f (length fw.content)) ping_write
            (memory fw)
          >> the_end

      rest : Boot (Unit {0})
      rest = kzalloc d >> blocks_and_end
