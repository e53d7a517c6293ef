-- ===== src/Boot/Firmware/Loaded.antt =====
-- What `rsi_load_firmware` of rsi/rsi_91x_hal.c has handed to a 9113 when it succeeds.
use Prim.Native.Nat.{bit_or}
use si91x_rcp_driver.Prelude.{
  ℕ, ◌*◌, ◌/◌, ◌%◌, ◌^◌, ◌<◌, ◌≡◌, ◌∙◌, ◌⊎◌, inl, inr, sym, ap, refl, Bool, true, false, Option,
  none, some, List, ◌∷◌, ◌++◌, ◌==◌, if◌then◌else◌, arith, Bool-cases, Option-cases,
}
use si91x_rcp_driver.Boot.Io.{
  start_timer, stop_timer, Trace, Device, Out, ok, err, stuck, Boot, pure, fail, ◌>>=◌, ◌>>◌,
  attempt, master_reg_read, write_reg_multiple, master_access_msword, kzalloc, master_reg_write,
}
use si91x_rcp_driver.Boot.Command.{
  swbl_regout, load_hosted_fw, burn_hosted_fw, check_crc, bl_cmd, bl_write_cmd, poll, in_time,
  regout_valid,
}
use si91x_rcp_driver.Boot.Command.Answered.{
  Timed, loaded, looks, Sat, Sat-bind, Sat-map, bl_cmd-Sat, bl_write_cmd-Sat, awaited, InTime,
  Answer, Written, master_reg_write-Sat,
}
use si91x_rcp_driver.Boot.Upgrade.{
  cmd_pass, cmd_fail, or_stop, auto_fw_upgrade, read_flash_capacity, ping_buffer_address,
}
use si91x_rcp_driver.Boot.Upgrade.Written.{Upgraded, auto_fw_upgrade-Upgraded, or_stop-Sat}
use si91x_rcp_driver.Boot.Image.{
  Firmware, memory, File, metadata_flash_content, Loading, finished, bl_header, bl_write_header,
  write_at, or_fail, sd_request_master,
}
use si91x_rcp_driver.Boot.Firmware.{
  Verdict, matches, mismatch, await_board, check_image, fw_upgrade, load_or_upgrade, load_9113,
  rsi_load_firmware,
}
use si91x_rcp_driver.Boot.Firmware.Kept.{Kept, bl_write_cmd-Kept}

-- The bytes handed over are still `bs`.
abbrev pub Holding : {A : Type 0} → List ℕ → A → Trace → Type 0
Holding bs a t = loaded t ≡ bs

pub burst-Sat :
    (d : Device) (addr : ℕ) (bytes : List ℕ) (tr : Trace)
    → Sat (Holding (loaded tr ++ bytes)) (write_reg_multiple d addr bytes tr)
unfolding write_reg_multiple Sat loaded
burst-Sat d addr bytes tr = elim (Bool-cases (d.bursts tr)) [ inr e ↦ rw e tt | inl e ↦ rw e refl ]

msword-Sat :
    (d : Device) (upper : ℕ) (tr : Trace)
    → Sat (Holding (loaded tr)) (master_access_msword d upper tr)
unfolding master_access_msword Sat loaded
msword-Sat d upper tr = elim (Bool-cases (d.mswords tr)) [ inr e ↦ rw e tt | inl e ↦ rw e refl ]

write_at-Sat :
    (d : Device) (coex : ℕ) (m sdio : Bool) (addr : ℕ) (bytes : List ℕ) (tr : Trace)
    → Sat (Holding (loaded tr ++ bytes)) (write_at d coex m sdio addr bytes tr)
unfolding write_at
write_at-Sat d coex m true addr bytes tr =
    let low = bit_or sd_request_master (addr % 2 ^ 16) in
    Sat-bind (Holding (loaded tr)) (Holding (loaded tr ++ bytes))
      (master_access_msword d (addr / 2 ^ 16) tr) (λ u t. write_reg_multiple d low bytes t)
      (msword-Sat d (addr / 2 ^ 16) tr) (λ u t e. rw (sym e) (burst-Sat d low bytes t))
write_at-Sat d coex m false addr bytes tr = burst-Sat d addr bytes tr

pub kzalloc-Sat : (d : Device) (tr : Trace) → Sat (Holding (loaded tr)) (kzalloc d tr)
unfolding kzalloc Sat
kzalloc-Sat d tr = elim (Bool-cases (d.allocs tr)) [ inr e ↦ rw e tt | inl e ↦ rw e refl ]

bl_write_header-Sat :
    (d : Device) (coex : ℕ) (sdio : Bool) (fw : Firmware) (tr : Trace)
    → Sat
        (Holding (loaded tr ++ bl_header coex (memory fw)))
        (bl_write_header d coex false sdio fw tr)
unfolding bl_write_header
bl_write_header-Sat d coex sdio fw tr =
    Sat-bind (Holding (loaded tr)) (Holding (loaded tr ++ bl_header coex (memory fw)))
      (kzalloc d tr)
      (λ u t. write_at d coex false sdio ping_buffer_address (bl_header coex (memory fw)) t)
      (kzalloc-Sat d tr)
      (λ u t e.
        rw (sym e)
          (write_at-Sat d coex false sdio ping_buffer_address (bl_header coex (memory fw)) t))

-- The capacity is what the device gave for its flash, in kilobytes.
abbrev pub Sized : Device → (capacity : ℕ) → Type 0
Sized d capacity =
    (t : Trace) × (flash_sz : ℕ) × (d.read t 0x04000016 ≡ some flash_sz)
    × (capacity ≡ flash_sz * 1024 % 2 ^ 32)

-- The upgrade of the flash from `t₀` on failed, and the loading went on.
pub Missed : Device → ℕ → Bool → ℕ → (capacity : ℕ) → Firmware → Trace → Trace → Type 0
Missed d coex sdio f capacity fw t₀ t =
    (r : ℕ) × (t₁ : Trace) × (auto_fw_upgrade d coex false sdio f capacity fw.content t₀ ≡ err r t₁)
    × (loaded t ≡ loaded t₁)

-- After the header, the image was written to the flash of the capacity that the device gave, or the
-- attempt failed.
pub Burnt : Device → ℕ → Bool → ℕ → Firmware → List ℕ → Trace → Type 0
Burnt d coex sdio f fw bs t =
    (capacity : ℕ) × (t₀ : Trace) × Sized d capacity
    × (loaded t₀ ≡ bs)
    × (Upgraded capacity fw.content t₀ tt t ⊎ Missed d coex sdio f capacity fw t₀ t)

-- How the loading ended: nothing but the header was handed over, or the flash was to be upgraded.
pub Flashed : Device → ℕ → Bool → ℕ → (File → Option Firmware) → Trace → Loading → Trace → Type 0
Flashed d coex sdio f request tr done t =
    (done ≡ finished true)
    × ((fw : Firmware) × (request (metadata_flash_content coex) ≡ some fw)
        × ((loaded t ≡ loaded tr ++ bl_header coex (memory fw))
            ⊎ Burnt d coex sdio f fw (loaded tr ++ bl_header coex (memory fw)) t))

module _ (d : Device) (coex : ℕ) (sdio : Bool) (limit : ℕ) (timed : Timed d limit) (f : ℕ)
    (enough : limit < f) where
  -- A command hands over no data.
  pub command :
      (m : Bool) (cmd resp : ℕ) (bs : List ℕ) (tr : Trace)
      → loaded tr ≡ bs
      → Sat (Holding bs) (bl_cmd d coex m f cmd resp tr)
  command m cmd resp bs tr e = rw (sym e) (bl_cmd-Sat d coex m limit timed f cmd resp tr enough)

  -- Two commands in a row, or a command and what follows.
  after :
      {A : Type 0} (Q : A → Trace → Type 0) (m : Bool) (cmd resp : ℕ) (bs : List ℕ) (k : Boot A)
      (tr : Trace)
      → loaded tr ≡ bs
      → ((t : Trace) → loaded t ≡ bs → Sat Q (k t))
      → Sat Q ((bl_cmd d coex m f cmd resp >> k) tr)
  after Q m cmd resp bs k tr e h =
      Sat-bind (Holding bs) Q (bl_cmd d coex m f cmd resp tr) (λ u t. k t)
        (command m cmd resp bs tr e) (λ u t e'. h t e')

  pub await_board-Sat :
      (m : Bool) (tr : Trace) → Sat (Holding (loaded tr)) (await_board d coex m sdio f tr)
  unfolding await_board Sat loaded looks InTime
  await_board-Sat m tr =
      Sat-bind (Holding (loaded tr)) (Holding (loaded tr)) (or_stop waiting (start_timer 2000 ∷ tr))
        (λ u t. ok tt (stop_timer ∷ t))
        (or_stop-Sat (Holding (loaded tr)) waiting (start_timer 2000 ∷ tr) (
          awaited d coex m limit timed f swbl_regout (regout_valid d coex m) (start_timer 2000 ∷ tr)
            (λ v. pure tt) (Holding (loaded tr)) (omega arith) enough (λ v t q. q.0)))
        (λ u t e. e)
    where
      waiting : Boot (Unit {0})
      waiting =
          poll d coex m f swbl_regout (regout_valid d coex m) 0 >>= λ v. in_time d coex m >> pure tt

  check_image-Sat :
      (bs : List ℕ) (tr : Trace)
      → loaded tr ≡ bs
      → Sat (Holding bs) (check_image d coex false sdio f tr)
  unfolding check_image Sat loaded looks Answer Kept
  check_image-Sat bs tr e = rw (sym e) (
      judged (bl_write_cmd d coex false f check_crc cmd_pass (start_timer 2000 ∷ tr))
        (bl_write_cmd-Sat d coex false limit timed f check_crc cmd_pass (start_timer 2000 ∷ tr)
          (omega arith) enough)
        (bl_write_cmd-Kept d coex false f check_crc cmd_pass (start_timer 2000 ∷ tr)))
    where
      judged :
          (o : Out ℕ)
          → Sat (Answer d coex false limit timed check_crc cmd_pass (loaded tr)) o
          → Kept (loaded tr) o
          → Sat {A = Verdict} (Holding (loaded tr)) (elim o [
            | ok resp tr₁ ↦ ok matches (stop_timer ∷ tr₁)
            | err r tr₁ ↦
                if r % 2 ^ 8 == cmd_fail
                then ok mismatch (stop_timer ∷ tr₁)
                else ok matches (stop_timer ∷ stop_timer ∷ tr₁)
            | stuck ↦ stuck
          ])
      judged (ok resp t) s k = k
      judged (err r t) s k = elim (Bool-cases (r % 2 ^ 8 == cmd_fail)) [
        | inl c ↦ rw c k
        | inr c ↦ rw c k
      ]
      judged stuck s k = s

  fw_upgrade-Sat :
      (capacity : ℕ) (fw : Firmware) (bs : List ℕ) (tr : Trace)
      → Sized d capacity
      → loaded tr ≡ bs
      → Sat
          (λ (u : Unit {0}) t. Burnt d coex sdio f fw bs t)
          (fw_upgrade d coex false sdio f capacity fw.content tr)
  unfolding fw_upgrade Sat Burnt Missed Upgraded
  fw_upgrade-Sat capacity fw bs tr size e =
      after (λ (u : Unit {0}) t. Burnt d coex sdio f fw bs t) false burn_hosted_fw b'2' bs rest tr e
        (λ t e'.
          burning t e' (auto_fw_upgrade d coex false sdio f capacity fw.content t) refl
            (auto_fw_upgrade-Upgraded d coex false sdio limit timed f capacity fw.content t enough))
    where
      next : Bool → Boot (Unit {0})
      next good =
          if good
          then bl_cmd d coex false f load_hosted_fw b'1'
          else bl_cmd d coex false f b'R' cmd_pass

      rest : Boot (Unit {0})
      rest = attempt (auto_fw_upgrade d coex false sdio f capacity fw.content) >>= next

      burning :
          (t : Trace)
          → loaded t ≡ bs
          → (o : Out (Unit {0})) → auto_fw_upgrade d coex false sdio f capacity fw.content t ≡ o
          → Sat (Upgraded capacity fw.content t) o
          → Sat
              (λ (u : Unit {0}) t'. Burnt d coex sdio f fw bs t')
              (elim (let o' : Out Bool = elim o [
                | ok a tr' ↦ ok true tr'
                | err r tr' ↦ ok false tr'
                | stuck ↦ stuck
              ] in
                o') [ ok a tr' ↦ next a tr' | err r tr' ↦ err r tr' | stuck ↦ stuck ])
      burning t e' (ok u t') h s =
          Sat-map (Holding (loaded t')) (λ (u : Unit {0}) t''. Burnt d coex sdio f fw bs t'')
            (bl_cmd d coex false f load_hosted_fw b'1' t')
            (command false load_hosted_fw b'1' (loaded t') t' refl)
            (λ u t'' q. (capacity, t, size, e', inl (q ∙ s.0, s.1, s.2, s.3, s.4)))
      burning t e' (err r t') h s =
          Sat-map (Holding (loaded t')) (λ (u : Unit {0}) t''. Burnt d coex sdio f fw bs t'')
            (bl_cmd d coex false f b'R' cmd_pass t')
            (command false b'R' cmd_pass (loaded t') t' refl)
            (λ u t'' q. (capacity, t, size, e', inr (r, t', h, q)))
      burning t e' stuck h s = s

  load_or_upgrade-Sat :
      (capacity : ℕ) (fw : Firmware) (bs : List ℕ) (v : Verdict) (tr : Trace)
      → Sized d capacity
      → loaded tr ≡ bs
      → Sat
          (λ (u : Unit {0}) t. (loaded t ≡ bs) ⊎ Burnt d coex sdio f fw bs t)
          (load_or_upgrade d coex false sdio f capacity fw v tr)
  unfolding load_or_upgrade
  load_or_upgrade-Sat capacity fw bs matches tr size e =
      after (λ (u : Unit {0}) t. (loaded t ≡ bs) ⊎ Burnt d coex sdio f fw bs t) false b'P' cmd_pass
        bs (bl_cmd d coex false f load_hosted_fw b'1') tr e
        (λ t e'.
          Sat-map (Holding bs)
            (λ (u : Unit {0}) t'. (loaded t' ≡ bs) ⊎ Burnt d coex sdio f fw bs t')
            (bl_cmd d coex false f load_hosted_fw b'1' t)
            (command false load_hosted_fw b'1' bs t e') (λ u t' q. inl q))
  load_or_upgrade-Sat capacity fw bs mismatch tr size e =
      Sat-map (λ (u : Unit {0}) t. Burnt d coex sdio f fw bs t)
        (λ (u : Unit {0}) t. (loaded t ≡ bs) ⊎ Burnt d coex sdio f fw bs t)
        (fw_upgrade d coex false sdio f capacity fw.content tr)
        (fw_upgrade-Sat capacity fw bs tr size e) (λ u t q. inr q)

  from_header-Sat :
      (capacity : ℕ) (fw : Firmware) (bs : List ℕ) (tr : Trace)
      → Sized d capacity
      → loaded tr ++ bl_header coex (memory fw) ≡ bs
      → Sat
          (λ (u : Unit {0}) t. (loaded t ≡ bs) ⊎ Burnt d coex sdio f fw bs t)
          ((bl_write_header d coex false sdio fw
              >> (check_image d coex false sdio f >>= λ v.
                  load_or_upgrade d coex false sdio f capacity fw v))
            tr)
  from_header-Sat capacity fw bs tr size e =
      Sat-bind (Holding bs) (λ (u : Unit {0}) t. (loaded t ≡ bs) ⊎ Burnt d coex sdio f fw bs t)
        (bl_write_header d coex false sdio fw tr)
        (λ u t.
          (check_image d coex false sdio f >>= λ v.
          load_or_upgrade d coex false sdio f capacity fw v)
            t)
        (rw (sym e) (bl_write_header-Sat d coex sdio fw tr))
        (λ u t e₁.
          Sat-bind (Holding bs) (λ (u : Unit {0}) t. (loaded t ≡ bs) ⊎ Burnt d coex sdio f fw bs t)
            (check_image d coex false sdio f t)
            (λ v t'. load_or_upgrade d coex false sdio f capacity fw v t') (check_image-Sat bs t e₁)
            (λ v t' e₂. load_or_upgrade-Sat capacity fw bs v t' size e₂))

  -- From the file on.
  from_file-Sat :
      (request : File → Option Firmware) (capacity : ℕ) (start tr : Trace)
      → Sized d capacity
      → loaded tr ≡ loaded start
      → Sat
          (λ (u : Unit {0}) t. Flashed d coex sdio f request start (finished true) t)
          ((or_fail (request (metadata_flash_content coex)) >>= λ fw.
              bl_write_header d coex false sdio fw
              >> (check_image d coex false sdio f >>= λ v.
                  load_or_upgrade d coex false sdio f capacity fw v))
            tr)
  unfolding Sat Flashed
  from_file-Sat request capacity start tr size e =
      found (request (metadata_flash_content coex)) refl
    where
      found :
          (o : Option Firmware)
          → request (metadata_flash_content coex) ≡ o
          → Sat
              (λ (u : Unit {0}) t. Flashed d coex sdio f request start (finished true) t)
              ((or_fail o >>= λ fw.
                  bl_write_header d coex false sdio fw
                  >> (check_image d coex false sdio f >>= λ v.
                      load_or_upgrade d coex false sdio f capacity fw v))
                tr)
      found none at = tt
      found (some fw) at =
          Sat-map (λ (u : Unit {0}) t. (loaded t ≡ header) ⊎ Burnt d coex sdio f fw header t)
            (λ (u : Unit {0}) t. Flashed d coex sdio f request start (finished true) t)
            ((bl_write_header d coex false sdio fw
                >> (check_image d coex false sdio f >>= λ v.
                    load_or_upgrade d coex false sdio f capacity fw v))
              tr)
            (from_header-Sat capacity fw header tr size
              (ap (λ bs. bs ++ bl_header coex (memory fw)) e))
            (λ u t q. (refl, (fw, at, q)))
        where
          header : List ℕ
          header = loaded start ++ bl_header coex (memory fw)

  read_flash_capacity-Sat :
      (tr : Trace)
      → Sat
          (λ n t. (loaded t ≡ loaded tr) × ((n ≡ 0) ⊎ Sized d n))
          (read_flash_capacity d coex false sdio f tr)
  unfolding read_flash_capacity master_reg_read Sat loaded
  read_flash_capacity-Sat tr = elim (Option-cases (d.read tr 0x04000016)) [
    | inl n ↦ rw (n, Sat) (refl, inl refl)
    | inr (v, r) ↦ rw (r, Sat) (refl, inr (tr, v, r, refl))
  ]

  load_9113-Sat :
      (request : File → Option Firmware) (start tr : Trace)
      → loaded tr ≡ loaded start
      → Sat
          (λ (u : Unit {0}) t. Flashed d coex sdio f request start (finished true) t)
          (load_9113 d coex false sdio f request tr)
  unfolding load_9113 Sat
  load_9113-Sat request start tr e = after Q false b'R' cmd_pass (loaded start) rest tr e (λ t e₁.
      Sat-bind (λ n t'. (loaded t' ≡ loaded t) × ((n ≡ 0) ⊎ Sized d n)) Q
        (read_flash_capacity d coex false sdio f t) sized (read_flash_capacity-Sat t)
        (λ n t' (e₂, size). elim (Bool-cases (n == 0)) [
          | inl z ↦ rw z tt
          | inr z ↦ rw z (from_file-Sat request n start t' (not_zero n z size) (e₂ ∙ e₁))
        ]))
    where
      Q : Unit {0} → Trace → Type 0
      Q u t = Flashed d coex sdio f request start (finished true) t

      sized : ℕ → Boot (Unit {0})
      sized n =
          (if n == 0 then fail else pure tt)
          >> (or_fail (request (metadata_flash_content coex)) >>= λ fw.
              bl_write_header d coex false sdio fw
              >> (check_image d coex false sdio f >>= λ v.
                  load_or_upgrade d coex false sdio f n fw v))

      not_zero : (n : ℕ) → (n == 0) ≡ false → (n ≡ 0) ⊎ Sized d n → Sized d n
      not_zero n z (inl e') = absurd (ground (arith, e', z))
      not_zero n z (inr size) = size

      rest : Boot (Unit {0})
      rest = read_flash_capacity d coex false sdio f >>= sized

-- With a timer that expires within `limit` readings and stays expired, and fuel beyond `limit`,
-- `rsi_load_firmware` ends on a 9113; if it succeeds, the file was there, and after what it was
-- handed before, the device was handed the header made from it, and then either nothing, or exactly
-- the bytes of the image, which lies where a flash of the capacity that the device gave can take it,
-- or what an upgrade that failed had handed over.
pub rsi_load_firmware-Flashed :
    (d : Device) (coex : ℕ) (sdio : Bool) (limit : ℕ) (timed : Timed d limit) (f : ℕ)
    (request : File → Option Firmware) (is_9117 : Bool) (tr : Trace)
    → limit < f
    → Sat
        (Flashed d coex sdio f request tr)
        (rsi_load_firmware d coex false sdio f request is_9117 tr)
unfolding rsi_load_firmware Sat Written
rsi_load_firmware-Flashed d coex sdio limit timed f request is_9117 tr enough =
    Sat-bind (Holding (loaded tr)) (Flashed d coex sdio f request tr)
      (await_board d coex false sdio f tr) greeted
      (await_board-Sat d coex sdio limit timed f enough false tr)
      (λ u t e₁.
        Sat-bind (Written d coex false limit timed t) (Flashed d coex sdio f request tr)
          (master_reg_write d swbl_regout 0xFFFFFF54 2 t)
          (λ u t. (load_9113 d coex false sdio f request >> pure (finished true)) t)
          (master_reg_write-Sat d coex false limit timed swbl_regout 0xFFFFFF54 2 t)
          (λ u t' w.
            Sat-bind (λ (u : Unit {0}) t. Flashed d coex sdio f request tr (finished true) t)
              (Flashed d coex sdio f request tr) (load_9113 d coex false sdio f request t')
              (λ u t. ok (finished true) t)
              (load_9113-Sat d coex sdio limit timed f enough request tr t' (w.0 ∙ e₁))
              (λ u t'' q. q)))
  where
    greeted : Unit {0} → Boot Loading
    greeted u =
        master_reg_write d swbl_regout 0xFFFFFF54 2
        >> (load_9113 d coex false sdio f request >> pure (finished true))
