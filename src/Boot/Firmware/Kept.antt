-- ===== src/Boot/Firmware/Kept.antt =====
-- A boot loader command of rsi/rsi_91x_hal.c hands over no data, whether it succeeds or fails.
use Prim.Native.Nat.{bit_or}
use si91x_rcp_driver.Prelude.{
  ℕ, zero, suc, ◌*◌, ◌/◌, ◌%◌, ◌^◌, ◌≡◌, inl, inr, refl, sym, Bool, not, ◌&&◌, ◌||◌, List, ◌∷◌,
  ◌==◌, if◌then◌else◌, Bool-cases, Option-cases,
}
use si91x_rcp_driver.Boot.Io.{
  look, reg_read, Trace, Device, Out, ok, err, stuck, Boot, pure, ◌>>=◌, ◌>>◌, timer_expired,
  master_reg_read, master_reg_write,
}
use si91x_rcp_driver.Boot.Command.{
  check_crc, poll, in_time, write_regin, judge, acknowledge, read_response, bl_write_cmd,
  regout_valid, load_hosted_fw, jump_to_zero_pc, eof_reached, image_stored_in_dump, swbl_regin,
  swbl_regout,
}
use si91x_rcp_driver.Boot.Command.Answered.{loaded}

-- Whatever ends, ends with `bs` handed over.
unfoldable pub Kept : {A : Type 0} → List ℕ → Out A → Type 0
Kept bs (ok a t) = loaded t ≡ bs
Kept bs (err r t) = loaded t ≡ bs
Kept bs stuck = Unit {0}

Kept-bind :
    {A B : Type 0} (bs : List ℕ) (o : Out A) (k : A → Trace → Out B)
    → Kept bs o
    → ((a : A) (t : Trace) → loaded t ≡ bs → Kept bs (k a t))
    → Kept bs (elim o [ ok a t ↦ k a t | err r t ↦ err r t | stuck ↦ stuck ])
unfolding Kept
Kept-bind bs (ok a t) k p h = h a t p
Kept-bind bs (err r t) k p h = p
Kept-bind bs stuck k p h = p

module _ (d : Device) (coex : ℕ) (m : Bool) where
  poll-Kept :
      (f reg : ℕ) (good : ℕ → Bool) (last : ℕ) (tr : Trace)
      → Kept (loaded tr) (poll d coex m f reg good last tr)
  unfolding poll timer_expired master_reg_read Kept loaded
  poll-Kept zero reg good last tr = tt
  poll-Kept (suc f) reg good last tr = elim (Bool-cases (d.expired (look ∷ tr))) [
    | inl e ↦ rw e refl
    | inr e ↦ rw e elim (Option-cases (d.read (look ∷ tr) reg)) [
      | inl n ↦ rw n refl
      | inr (v, r) ↦ rw r elim (Bool-cases (good v)) [
        | inl g ↦ rw g refl
        | inr g ↦ rw g (poll-Kept f reg good v (reg_read reg ∷ look ∷ tr))
      ]
    ]
  ]

  in_time-Kept : (tr : Trace) → Kept (loaded tr) (in_time d coex m tr)
  unfolding in_time timer_expired Kept loaded
  in_time-Kept tr = elim (Bool-cases (d.expired (look ∷ tr))) [
    | inl e ↦ rw e refl
    | inr e ↦ rw e refl
  ]

  master_reg_write-Kept :
      (addr value size : ℕ) (tr : Trace) → Kept (loaded tr) (master_reg_write d addr value size tr)
  unfolding master_reg_write Kept loaded
  master_reg_write-Kept addr value size tr = elim (Bool-cases (d.writes tr)) [
    | inl e ↦ rw e refl
    | inr e ↦ rw e refl
  ]

  judge-Kept :
      (cmd exp_resp regout : ℕ) (tr : Trace)
      → Kept (loaded tr) (judge d coex m cmd exp_resp regout tr)
  unfolding judge Kept
  judge-Kept cmd exp_resp regout tr =
      elim (Bool-cases (
        (regout % 2 ^ 8 == exp_resp)
        || ((cmd == eof_reached) && (regout % 2 ^ 8 == image_stored_in_dump)))) [
          | inl e ↦ rw e refl
          | inr e ↦ rw e refl
        ]

  acknowledge-Kept :
      (cmd exp_resp regout : ℕ) (bs : List ℕ) (tr : Trace)
      → loaded tr ≡ bs
      → Kept bs (acknowledge d coex m cmd exp_resp regout tr)
  unfolding acknowledge Kept
  acknowledge-Kept cmd exp_resp regout bs tr e =
      answer (master_reg_write d swbl_regout (bit_or cmd 0xFFFF5400) 2 tr)
        (rw (sym e) (master_reg_write-Kept swbl_regout (bit_or cmd 0xFFFF5400) 2 tr))
    where
      answer :
          (o : Out (Unit {0}))
          → Kept bs o
          → Kept bs (elim o [
            | ok u tr₁ ↦ judge d coex m cmd exp_resp regout tr₁
            | err r tr₁ ↦ err (regout % 2 ^ 16) tr₁
            | stuck ↦ stuck
          ])
      answer (ok u t) w = rw (sym w) (judge-Kept cmd exp_resp regout t)
      answer (err r t) w = w
      answer stuck w = w

  -- A loop, a test of the timer and what follows.
  awaits :
      {A : Type 0} (f reg : ℕ) (good : ℕ → Bool) (tr : Trace) (k : ℕ → Boot A)
      → ((v : ℕ) (t : Trace) → loaded t ≡ loaded tr → Kept (loaded tr) (k v t))
      → Kept (loaded tr) ((poll d coex m f reg good 0 >>= λ v. in_time d coex m >> k v) tr)
  awaits f reg good tr k h =
      Kept-bind (loaded tr) (poll d coex m f reg good 0 tr) (λ v t. (in_time d coex m >> k v) t)
        (poll-Kept f reg good 0 tr)
        (λ v t e.
          Kept-bind (loaded tr) (in_time d coex m t) (λ u t'. k v t') (rw (sym e) (in_time-Kept t))
            (λ u t' e'. h v t' e'))

  read_response-Kept :
      (f cmd exp_resp : ℕ) (bs : List ℕ) (tr : Trace)
      → loaded tr ≡ bs
      → Kept bs (read_response d coex m f cmd exp_resp tr)
  unfolding read_response
  read_response-Kept f cmd exp_resp bs tr e = rw (sym e) (
      awaits f swbl_regout (regout_valid d coex m) tr (acknowledge d coex m cmd exp_resp)
        (λ v t e'. acknowledge-Kept cmd exp_resp v (loaded tr) t e'))

  write_regin-Kept : (cmd : ℕ) (tr : Trace) → Kept (loaded tr) (write_regin d coex m cmd tr)
  unfolding write_regin
  write_regin-Kept cmd tr = elim (Bool-cases ((cmd == check_crc) && m)) [
    | inl e ↦ rw e (
        master_reg_write-Kept swbl_regin (bit_or cmd (bit_or (bit_or 0xA0 coex) (2 ^ 8) * 2 ^ 8)) 4
          tr)
    | inr e ↦ rw e (master_reg_write-Kept swbl_regin (bit_or cmd (bit_or 0xA0 coex * 2 ^ 8)) 2 tr)
  ]

  abbrev rest : ℕ → ℕ → ℕ → Boot ℕ
  rest f cmd exp_resp =
      if (cmd == load_hosted_fw) || (cmd == jump_to_zero_pc)
      then pure 0
      else read_response d coex m f cmd exp_resp

  rest-Kept :
      (f cmd exp_resp : ℕ) (bs : List ℕ) (t : Trace)
      → loaded t ≡ bs
      → Kept bs (rest f cmd exp_resp t)
  unfolding Kept
  rest-Kept f cmd exp_resp bs t e =
      elim (Bool-cases ((cmd == load_hosted_fw) || (cmd == jump_to_zero_pc))) [
        | inl c ↦ rw c e
        | inr c ↦ rw c (read_response-Kept f cmd exp_resp bs t e)
      ]

  -- A command leaves what was handed over, also when it fails.
  pub bl_write_cmd-Kept :
      (f cmd exp_resp : ℕ) (tr : Trace) → Kept (loaded tr) (bl_write_cmd d coex m f cmd exp_resp tr)
  unfolding bl_write_cmd
  bl_write_cmd-Kept f cmd exp_resp tr =
      awaits f swbl_regin (λ v. not (v / 2 ^ 12 == 0xA)) tr
        (λ v. write_regin d coex m cmd >> rest f cmd exp_resp)
        (λ v t e.
          Kept-bind (loaded tr) (write_regin d coex m cmd t) (λ u t'. rest f cmd exp_resp t')
            (rw (sym e) (write_regin-Kept cmd t))
            (λ u t' e'. rest-Kept f cmd exp_resp (loaded tr) t' e'))
