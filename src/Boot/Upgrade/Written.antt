-- ===== src/Boot/Upgrade/Written.antt =====
-- What `auto_fw_upgrade` and `rsi_check_crc` of rsi/rsi_91x_hal.c have done when they succeed.
use mathlib.Core.Path.{subst}
use si91x_rcp_driver.Prelude.{
  ℕ, zero, suc, ◌+◌, ◌*◌, ◌/◌, ◌%◌, ◌^◌, ◌≤◌, ◌<◌, ◌≡◌, ◌∙◌, inl, inr, sym, ap, refl, Bool, true,
  not, ◌||◌, List, [], ◌∷◌, ◌++◌, ◌==◌, if◌then◌else◌, arith, Bool-cases, length, take, drop,
  take-append-drop, length-drop, ==_iff,
}
use mathlib.Core.List.{append-nil, append_assoc}
use si91x_rcp_driver.Boot.Io.{
  look, start_timer, stop_timer, reg_write, Trace, Device, Out, ok, err, stuck, Boot, pure, fail,
  ◌>>=◌, ◌>>◌, load_data_master_write, timer_expired, master_reg_write,
}
use si91x_rcp_driver.Boot.Command.{
  swbl_regin, write_regin, load_hosted_fw, jump_to_zero_pc, read_response, bl_start_cmd_timer,
  bl_stop_cmd_timer, check_crc, bl_write_cmd, poll, in_time, bl_cmd, ping_valid, pong_valid,
  eof_reached,
}
use si91x_rcp_driver.Boot.Command.Answered.{Timed, loaded, Sat, Sat-bind, Sat-map, bl_cmd-Sat}
use si91x_rcp_driver.Boot.Upgrade.{
  rsi_check_crc, judge_crc, cmd_pass, cmd_fail, or_stop, Buffer, ping_write, pong_write, fits_flash,
  ping_pong_write, buffer_of, block_size, write_chunks, auto_fw_upgrade, flash_write_chunk_size,
  flash_start_address, max_flash_file_size, fw_image_min_address, flash_sector_size,
  ping_buffer_address, pong_buffer_address,
}

-- What was loaded is what was there, and `bytes`.
pub Added : Trace → List ℕ → Unit {0} → Trace → Type 0
Added tr bytes u t = loaded t ≡ loaded tr ++ bytes

pub or_stop-Sat :
    (Q : Unit {0} → Trace → Type 0) (cmd : Boot (Unit {0})) (tr : Trace)
    → Sat Q (cmd tr)
    → Sat Q (or_stop cmd tr)
unfolding Sat
or_stop-Sat Q cmd tr = go (cmd tr)
  where
    go :
        (o : Out (Unit {0}))
        → Sat Q o
        → Sat Q
            (elim o [ ok u tr₁ ↦ ok u tr₁ | err r tr₁ ↦ err r (stop_timer ∷ tr₁) | stuck ↦ stuck ])
    go (ok u t) q = q
    go (err r t) q = tt
    go stuck q = q

load-Sat :
    (d : Device) (addr n : ℕ) (bytes : List ℕ) (tr : Trace)
    → Sat (Added tr bytes) (load_data_master_write d addr n bytes tr)
unfolding load_data_master_write Sat Added loaded
load-Sat d addr n bytes tr = elim (Bool-cases (d.loads tr)) [ inl e ↦ rw e refl | inr e ↦ rw e tt ]

empty : (xs : List ℕ) → length xs ≡ 0 → xs ≡ []
empty [] e = refl
empty (x ∷ xs) e = absurd (omega (arith, e))

take-all : (xs : List ℕ) → take (length xs) xs ≡ xs
take-all [] = refl
take-all (x ∷ xs) = ap (λ ys. x ∷ ys) (take-all xs)

module _ (d : Device) (coex : ℕ) (m sdio : Bool) (limit : ℕ) (timed : Timed d limit) (f : ℕ)
    (enough : limit < f) where
  sent :
      (addr cmd resp : ℕ) (bytes : List ℕ) (tr : Trace)
      → Sat (Added tr bytes) (
          (load_data_master_write d addr (block_size d coex m sdio f) bytes
              >> or_stop (bl_cmd d coex m f cmd resp))
            tr)
  unfolding Added
  sent addr cmd resp bytes tr =
      Sat-bind (Added tr bytes) (Added tr bytes)
        (load_data_master_write d addr (block_size d coex m sdio f) bytes tr)
        (λ u t. or_stop (bl_cmd d coex m f cmd resp) t)
        (load-Sat d addr (block_size d coex m sdio f) bytes tr)
        (λ u t q.
          subst (λ bs. Sat (λ u' t'. loaded t' ≡ bs) (or_stop (bl_cmd d coex m f cmd resp) t)) q
            (or_stop-Sat (λ u' t'. loaded t' ≡ loaded t) (bl_cmd d coex m f cmd resp) t
              (bl_cmd-Sat d coex m limit timed f cmd resp t enough)))

  ping_pong_write-Sat :
      (b : Buffer) (bytes : List ℕ) (tr : Trace)
      → Sat (Added tr bytes) (ping_pong_write d coex m sdio f b bytes tr)
  unfolding ping_pong_write
  ping_pong_write-Sat ping_write bytes tr = sent ping_buffer_address ping_valid b'O' bytes tr
  ping_pong_write-Sat pong_write bytes tr = sent pong_buffer_address pong_valid b'I' bytes tr

  write_chunks-Sat :
      (left total index : ℕ) (content : List ℕ) (tr : Trace)
      → length content ≡ left * flash_write_chunk_size + total % flash_write_chunk_size
      → Sat (Added tr content) (write_chunks d coex m sdio f left total index content tr)
  unfolding write_chunks Sat Added
  write_chunks-Sat zero total index content tr e =
      elim (Bool-cases (total % flash_write_chunk_size == 0)) [
        | inl z ↦
            rw
              (z, empty content (omega (arith, e, (==_iff (total % flash_write_chunk_size) 0).0 z)))
              (sym (append-nil (loaded tr)))
        | inr z ↦ rw z (
            subst
              (λ bs. Sat (Added tr bs) (
                ping_pong_write d coex m sdio f (buffer_of d coex m sdio f index)
                  (take (total % flash_write_chunk_size) content) tr))
              (ap (λ n. take n content) (omega (arith, e)) ∙ take-all content)
              (ping_pong_write-Sat (buffer_of d coex m sdio f index)
                (take (total % flash_write_chunk_size) content) tr))
      ]
  write_chunks-Sat (suc left) total index content tr e =
      let n = flash_write_chunk_size in
      Sat-bind (Added tr (take n content)) (Added tr content)
        (ping_pong_write d coex m sdio f (buffer_of d coex m sdio f index) (take n content) tr)
        (λ u t. write_chunks d coex m sdio f left total (index + 1) (drop n content) t)
        (ping_pong_write-Sat (buffer_of d coex m sdio f index) (take n content) tr)
        (λ u t q.
          subst
            (λ bs.
              Sat (λ u' t'. loaded t' ≡ bs)
                (write_chunks d coex m sdio f left total (index + 1) (drop n content) t))
            (ap (λ bs. bs ++ drop n content) q
              ∙ append_assoc (loaded tr) (take n content) (drop n content)
              ∙ ap (λ bs. loaded tr ++ bs) (take-append-drop n content))
            (write_chunks-Sat left total (index + 1) (drop n content) t
              (length-drop n content ∙ omega (arith, e))))

-- The image is loaded after what was there, and lies where the flash can take it.
unfoldable pub Upgraded : ℕ → List ℕ → Trace → Unit {0} → Trace → Type 0
Upgraded capacity content tr u t =
    (loaded t ≡ loaded tr ++ content)
    × (length content ≤ max_flash_file_size)
    × (fw_image_min_address ≤ flash_start_address content)
    × (flash_start_address content % flash_sector_size ≡ 0)
    × ((flash_start_address content + length content) % 2 ^ 32 ≤ capacity)

guards :
    (capacity : ℕ) (content : List ℕ)
    → fits_flash capacity content ≡ true
    → (length content ≤ max_flash_file_size)
      × (fw_image_min_address ≤ flash_start_address content)
      × (flash_start_address content % flash_sector_size ≡ 0)
      × ((flash_start_address content + length content) % 2 ^ 32 ≤ capacity)
unfolding fits_flash
guards capacity content h = ground arith

-- With a timer that expires within `limit` readings and stays expired, and fuel beyond `limit`,
-- `auto_fw_upgrade` ends; if it succeeds, the device was handed exactly the bytes of the image, in
-- order, after what it was handed before, the image is at most 400 KB, and its start address is at
-- least 68 KB, a multiple of 4096, and with its length (modulo 2^32) within the flash's capacity.
pub auto_fw_upgrade-Upgraded :
    (d : Device) (coex : ℕ) (m sdio : Bool) (limit : ℕ) (timed : Timed d limit) (f : ℕ)
    (capacity : ℕ) (content : List ℕ) (tr : Trace)
    → limit < f
    → Sat (Upgraded capacity content tr) (auto_fw_upgrade d coex m sdio f capacity content tr)
unfolding auto_fw_upgrade Sat Upgraded Added
auto_fw_upgrade-Upgraded d coex m sdio limit timed f capacity content tr enough =
    elim (Bool-cases (fits_flash capacity content)) [
      | inr z ↦ rw z tt
      | inl z ↦
          let (g₁, g₂, g₃, g₄) = guards capacity content z in
          rw z (
            Sat-bind (Added tr content) (Upgraded capacity content tr)
              (write_chunks d coex m sdio f (length content / flash_write_chunk_size)
                (length content) 0 content tr)
              (λ u t. or_stop (bl_cmd d coex m f eof_reached b'S') t)
              (write_chunks-Sat d coex m sdio limit timed f enough
                (length content / flash_write_chunk_size) (length content) 0 content tr
                (omega arith))
              (λ u t q.
                or_stop-Sat (Upgraded capacity content tr) (bl_cmd d coex m f eof_reached b'S') t
                  (finish t q g₁ g₂ g₃ g₄)))
    ]
  where
    finish :
        (t : Trace)
        → Added tr content tt t
        → (length content ≤ max_flash_file_size)
        → (fw_image_min_address ≤ flash_start_address content)
        → (flash_start_address content % flash_sector_size ≡ 0)
        → ((flash_start_address content + length content) % 2 ^ 32 ≤ capacity)
        → Sat (Upgraded capacity content tr) (bl_cmd d coex m f eof_reached b'S' t)
    finish t q g₁ g₂ g₃ g₄ =
        Sat-map (λ u t'. loaded t' ≡ loaded t) (Upgraded capacity content tr)
          (bl_cmd d coex m f eof_reached b'S' t)
          (bl_cmd-Sat d coex m limit timed f eof_reached b'S' t enough)
          (λ u t' e. (e ∙ q, g₁, g₂, g₃, g₄))

pub after_ok :
    {A B : Type 0} (m : Boot A) (k : A → Boot B) (a : A) (tr t : Trace)
    → m tr ≡ ok a t
    → (m >>= k) tr ≡ k a t
after_ok m k a tr t e =
    ap (λ o. elim o [ ok b t' ↦ k b t' | err r t' ↦ err r t' | stuck ↦ stuck ]) e

after_err :
    {A B : Type 0} (m : Boot A) (k : A → Boot B) (r : ℕ) (tr t : Trace)
    → m tr ≡ err r t
    → (m >>= k) tr ≡ err r t
after_err m k r tr t e =
    ap (λ o. elim o [ ok b t' ↦ k b t' | err r t' ↦ err r t' | stuck ↦ stuck ]) e

module _ (d : Device) (coex : ℕ) (m sdio : Bool) (f : ℕ)
    (over : (t : Trace) → d.expired t ≡ true) where
  poll_silent :
      (reg : ℕ) (good : ℕ → Bool) (tr : Trace)
      → poll d coex m (suc f) reg good 0 tr ≡ ok 0 (look ∷ tr)
  unfolding poll timer_expired
  poll_silent reg good tr = rw (over (look ∷ tr)) refl

  in_time_silent : (tr : Trace) → in_time d coex m tr ≡ err 0 (look ∷ tr)
  unfolding in_time timer_expired
  in_time_silent tr = rw (over (look ∷ tr)) refl

  bl_write_cmd_silent :
      (cmd exp_resp : ℕ) (tr : Trace)
      → bl_write_cmd d coex m (suc f) cmd exp_resp tr ≡ err 0 (look ∷ look ∷ tr)
  unfolding bl_write_cmd
  bl_write_cmd_silent cmd exp_resp tr =
      after_ok (poll d coex m (suc f) swbl_regin (λ v. not (v / 2 ^ 12 == 0xA)) 0)
        (λ v. in_time d coex m >> k) 0 tr (look ∷ tr)
        (poll_silent swbl_regin (λ v. not (v / 2 ^ 12 == 0xA)) tr)
      ∙ after_err (in_time d coex m) (λ u. k) 0 (look ∷ tr) (look ∷ look ∷ tr)
          (in_time_silent (look ∷ tr))
    where
      k : Boot ℕ
      k =
          write_regin d coex m cmd
          >> (if (cmd == load_hosted_fw) || (cmd == jump_to_zero_pc)
              then pure 0
              else read_response d coex m (suc f) cmd exp_resp)

  judge_crc_silent :
      (tr : Trace)
      → judge_crc d coex m sdio (suc f) tr ≡ ok tt (stop_timer ∷ stop_timer ∷ look ∷ look ∷ tr)
  unfolding judge_crc
  judge_crc_silent tr =
      ap
        (λ (o : Out ℕ). elim o [
          | ok resp tr₁ ↦ bl_stop_cmd_timer tr₁
          | err r tr₁ ↦
              (bl_stop_cmd_timer >> (if r % 2 ^ 8 == cmd_fail then fail else bl_stop_cmd_timer)) tr₁
          | stuck ↦ stuck
        ])
        (bl_write_cmd_silent check_crc cmd_pass tr)

  -- If the timer has expired from the start and the first write goes through, `rsi_check_crc`
  -- succeeds: a device that never answers passes for one whose firmware matches.
  pub rsi_check_crc_silent :
      (tr : Trace)
      → d.writes tr ≡ true
      → (t : Trace) × (rsi_check_crc d coex m sdio (suc f) tr ≡ ok tt t)
  unfolding rsi_check_crc master_reg_write
  rsi_check_crc_silent tr writes = (
    stop_timer ∷ stop_timer ∷ look ∷ look ∷ started,
    after_ok (master_reg_write d 0x41300000 0x03F0003C 4)
          (λ u. bl_start_cmd_timer 2000 >> judge_crc d coex m sdio (suc f)) tt tr
          (reg_write 0x41300000 0x03F0003C 4 ∷ tr) (written tr writes)
        ∙ judge_crc_silent started,
  )
    where
      started : Trace
      started = start_timer 2000 ∷ reg_write 0x41300000 0x03F0003C 4 ∷ tr

      written :
          (t : Trace)
          → d.writes t ≡ true
          → master_reg_write d 0x41300000 0x03F0003C 4 t
            ≡ ok tt (reg_write 0x41300000 0x03F0003C 4 ∷ t)
      written t e = rw e refl
