-- ===== src/Boot/Command/Answered.antt =====
-- What `bl_write_cmd` and `bl_cmd` of rsi/rsi_91x_hal.c have done when they succeed.
use Prim.Native.Nat.{bit_or}
use mathlib.Core.Path.{subst}
use si91x_rcp_driver.Prelude.{
  ℕ, zero, suc, ◌+◌, ◌*◌, ◌/◌, ◌%◌, ◌^◌, ◌≤◌, ◌<◌, dec_lt, dec_lt, ◌≡◌, ◌≢◌, ◌∙◌, sym, ◌⊎◌, inl,
  inr, refl, Bool, true, false, not, ◌&&◌, ◌||◌, List, [], ◌∷◌, ◌++◌, ◌==◌, if◌then◌else◌, arith,
  Bool-cases, Option-cases, ==_iff, ℕ_discrete,
}
use si91x_rcp_driver.Boot.Io.{
  look, start_timer, stop_timer, reg_read, reg_write, load, burst, msword, reset, Trace, Device,
  Out, ok, err, stuck, Boot, ◌>>=◌, ◌>>◌, pure, timer_expired, master_reg_read, master_reg_write,
}
use si91x_rcp_driver.Boot.Command.{
  check_crc, poll, in_time, write_regin, judge, acknowledge, read_response, bl_write_cmd, bl_cmd,
  regout_valid, load_hosted_fw, jump_to_zero_pc, eof_reached, image_stored_in_dump, timeout_of,
  swbl_regin, swbl_regout,
}

-- The readings of the timer since it was started.
unfoldable pub looks : Trace → ℕ
looks [] = 0
looks (look ∷ tr) = suc (looks tr)
looks (start_timer t ∷ tr) = 0
looks (stop_timer ∷ tr) = looks tr
looks (reg_read a ∷ tr) = looks tr
looks (reg_write a v s ∷ tr) = looks tr
looks (load a b bytes ∷ tr) = looks tr
looks (burst a bytes ∷ tr) = looks tr
looks (msword w ∷ tr) = looks tr
looks (reset ∷ tr) = looks tr

-- A timer expires: within `limit` readings, and for good.
pub record Timed (d : Device) (limit : ℕ) : Type 0 where
  pub ends : (tr : Trace) → limit < looks tr → d.expired tr ≡ true
  pub steady : (tr : Trace) → d.expired (look ∷ tr) ≡ true → d.expired (look ∷ look ∷ tr) ≡ true

-- The bytes handed over so far in loads and bursts, in order.
unfoldable pub loaded : Trace → List ℕ
loaded [] = []
loaded (look ∷ tr) = loaded tr
loaded (start_timer t ∷ tr) = loaded tr
loaded (stop_timer ∷ tr) = loaded tr
loaded (reg_read a ∷ tr) = loaded tr
loaded (reg_write a v s ∷ tr) = loaded tr
loaded (load a b bytes ∷ tr) = loaded tr ++ bytes
loaded (burst a bytes ∷ tr) = loaded tr ++ bytes
loaded (msword w ∷ tr) = loaded tr
loaded (reset ∷ tr) = loaded tr

-- The code ends, with `Q` of its result and trace if it succeeds.
unfoldable pub Sat : {A : Type 0} → (A → Trace → Type 0) → Out A → Type 0
Sat Q (ok a tr) = Q a tr
Sat Q (err r tr) = Unit {0}
Sat Q stuck = ⊥

pub Sat-bind :
    {A B : Type 0} (Q : A → Trace → Type 0) (R : B → Trace → Type 0) (o : Out A)
    (k : A → Trace → Out B)
    → Sat Q o
    → ((a : A) (t : Trace) → Q a t → Sat R (k a t))
    → Sat R (elim o [ ok a t ↦ k a t | err r t ↦ err r t | stuck ↦ stuck ])
unfolding Sat
Sat-bind Q R (ok a t) k q h = h a t q
Sat-bind Q R (err r t) k q h = tt
Sat-bind Q R stuck k q h = q

pub Sat-map :
    {A : Type 0} (P Q : A → Trace → Type 0) (o : Out A)
    → Sat P o
    → ((a : A) (t : Trace) → P a t → Q a t)
    → Sat Q o
unfolding Sat
Sat-map P Q (ok a t) p h = h a t p
Sat-map P Q (err r t) p h = tt
Sat-map P Q stuck p h = p

module _ (d : Device) (coex : ℕ) (m : Bool) (limit : ℕ) (timed : Timed d limit) where
  Polled : (ℕ → Bool) → List ℕ → ℕ → Trace → Type 0
  Polled good bs v t =
      (loaded t ≡ bs) × ((good v ≡ true) ⊎ ((t₀ : Trace) × (t ≡ look ∷ t₀) × (d.expired t ≡ true)))

  in_limit : (tr : Trace) → d.expired tr ≡ false → looks tr ≤ limit
  in_limit tr e = elim (dec_lt limit (looks tr)) [
    | yes lt ↦ absurd (cc (e, timed.ends tr lt))
    | no ge ↦ omega (arith, ge)
  ]

  poll-Sat :
      (f reg : ℕ) (good : ℕ → Bool) (last : ℕ) (tr : Trace)
      → looks tr ≤ limit
      → limit < f + looks tr
      → Sat (Polled good (loaded tr)) (poll d coex m f reg good last tr)
  unfolding poll timer_expired master_reg_read Sat loaded looks Polled
  poll-Sat zero reg good last tr le lt = omega arith
  poll-Sat (suc f) reg good last tr le lt = elim (Bool-cases (d.expired (look ∷ tr))) [
    | inl e ↦ rw e (refl, inr (tr, refl, e))
    | inr e ↦ rw e elim (Option-cases (d.read (look ∷ tr) reg)) [
      | inl n ↦ rw n tt
      | inr (v, r) ↦ rw r elim (Bool-cases (good v)) [
        | inl g ↦ rw g (refl, inl g)
        | inr g ↦ rw g (
            poll-Sat f reg good v (reg_read reg ∷ look ∷ tr) (in_limit (look ∷ tr) e) (omega arith))
      ]
    ]
  ]

  -- After a loop that found what it looked for, and a test of the timer.
  unfoldable pub InTime : (ℕ → Bool) → List ℕ → ℕ → Trace → Type 0
  InTime good bs v t = (loaded t ≡ bs) × (good v ≡ true) × (d.expired t ≡ false)

  in_time-Sat :
      (good : ℕ → Bool) (bs : List ℕ) (v : ℕ) (t : Trace)
      → Polled good bs v t
      → Sat (λ (u : Unit {0}) (t' : Trace). InTime good bs v t') (in_time d coex m t)
  unfolding Sat loaded Polled InTime in_time timer_expired
  in_time-Sat good bs v t (l, p) = elim (Bool-cases (d.expired (look ∷ t))) [
    | inl e ↦ rw e tt
    | inr e ↦ rw e elim p [
      | inl g ↦ (l, g, e)
      | inr (t₀, at, x) ↦ absurd (cc (e, at, timed.steady t₀ (rw (sym at) x)))
    ]
  ]

  pub awaited :
      {A : Type 0} (f reg : ℕ) (good : ℕ → Bool) (tr : Trace) (k : ℕ → Boot A)
      (Q : A → Trace → Type 0)
      → looks tr ≤ limit
      → limit < f
      → ((v : ℕ) (t : Trace) → InTime good (loaded tr) v t → Sat Q (k v t))
      → Sat Q ((poll d coex m f reg good 0 >>= λ v. in_time d coex m >> k v) tr)
  unfolding in_time timer_expired InTime
  awaited f reg good tr k Q le lt h =
      Sat-bind (Polled good (loaded tr)) Q (poll d coex m f reg good 0 tr)
        (λ v t. (in_time d coex m >> k v) t) (poll-Sat f reg good 0 tr le (omega arith))
        (λ v t p.
          Sat-bind (λ (u : Unit {0}) (t' : Trace). InTime good (loaded tr) v t') Q
            (in_time d coex m t) (λ u t'. k v t') (in_time-Sat good (loaded tr) v t p)
            (λ u t' q. h v t' q))

  -- What a command that succeeded has: nothing loaded, and the answer of the device, if it gives one.
  unfoldable pub Answer : ℕ → ℕ → List ℕ → ℕ → Trace → Type 0
  Answer cmd exp_resp bs resp t =
      (loaded t ≡ bs)
      × (((cmd ≡ load_hosted_fw) ⊎ (cmd ≡ jump_to_zero_pc))
          ⊎ ((regout : ℕ) × (resp ≡ regout % 2 ^ 16)
              × (regout_valid d coex m regout ≡ true)
              × ((regout % 2 ^ 8 ≡ exp_resp)
                  ⊎ ((cmd ≡ eof_reached) × (regout % 2 ^ 8 ≡ image_stored_in_dump)))))

  -- A register was written, and nothing else happened.
  unfoldable pub Written : Trace → Unit {0} → Trace → Type 0
  Written tr u t = (loaded t ≡ loaded tr) × (looks t ≡ looks tr)

  pub master_reg_write-Sat :
      (addr value size : ℕ) (tr : Trace) → Sat (Written tr) (master_reg_write d addr value size tr)
  unfolding master_reg_write Sat Written loaded looks
  master_reg_write-Sat addr value size tr = elim (Bool-cases (d.writes tr)) [
    | inl e ↦ rw e (refl, refl)
    | inr e ↦ rw e tt
  ]

  not_eq : (a b : ℕ) → a ≢ b → (a == b) ≡ false
  not_eq a b ne = ground arith

  judge-Sat :
      (cmd exp_resp regout : ℕ) (bs : List ℕ) (tr : Trace)
      → loaded tr ≡ bs
      → regout_valid d coex m regout ≡ true
      → Sat (Answer cmd exp_resp bs) (judge d coex m cmd exp_resp regout tr)
  unfolding judge Sat Answer
  judge-Sat cmd exp_resp regout bs tr l v = elim (ℕ_discrete (regout % 2 ^ 8) exp_resp) [
    | yes e ↦ rw ((==_iff (regout % 2 ^ 8) exp_resp).1 e) (l, inr (regout, refl, v, inl e))
    | no ne ↦ elim (ℕ_discrete cmd eof_reached) [
      | no ce ↦ simp (not_eq (regout % 2 ^ 8) exp_resp ne, not_eq cmd eof_reached ce) tt
      | yes ce ↦ elim (ℕ_discrete (regout % 2 ^ 8) image_stored_in_dump) [
        | no de ↦
            simp
              (
                not_eq (regout % 2 ^ 8) exp_resp ne,
                not_eq (regout % 2 ^ 8) image_stored_in_dump de,
                (==_iff cmd eof_reached).1 ce,
              )
              tt
        | yes de ↦
            simp
              (
                not_eq (regout % 2 ^ 8) exp_resp ne,
                (==_iff (regout % 2 ^ 8) image_stored_in_dump).1 de,
                (==_iff cmd eof_reached).1 ce,
              )
              (l, inr (regout, refl, v, inr (ce, de)))
      ]
    ]
  ]

  acknowledge-Sat :
      (cmd exp_resp regout : ℕ) (bs : List ℕ) (tr : Trace)
      → loaded tr ≡ bs
      → regout_valid d coex m regout ≡ true
      → Sat (Answer cmd exp_resp bs) (acknowledge d coex m cmd exp_resp regout tr)
  unfolding acknowledge Sat Written
  acknowledge-Sat cmd exp_resp regout bs tr l v =
      answer (master_reg_write d swbl_regout (bit_or cmd 0xFFFF5400) 2 tr)
        (master_reg_write-Sat swbl_regout (bit_or cmd 0xFFFF5400) 2 tr)
    where
      answer :
          (o : Out (Unit {0}))
          → Sat (Written tr) o
          → Sat (Answer cmd exp_resp bs) (elim o [
            | ok u tr₁ ↦ judge d coex m cmd exp_resp regout tr₁
            | err r tr₁ ↦ err (regout % 2 ^ 16) tr₁
            | stuck ↦ stuck
          ])
      answer (ok u t) w = judge-Sat cmd exp_resp regout bs t (w.0 ∙ l) v
      answer (err r t) w = tt
      answer stuck w = w

  read_response-Sat :
      (f cmd exp_resp : ℕ) (tr : Trace)
      → looks tr ≤ limit
      → limit < f
      → Sat (Answer cmd exp_resp (loaded tr)) (read_response d coex m f cmd exp_resp tr)
  unfolding read_response InTime
  read_response-Sat f cmd exp_resp tr le lt =
      awaited f swbl_regout (regout_valid d coex m) tr (acknowledge d coex m cmd exp_resp)
        (Answer cmd exp_resp (loaded tr)) le lt
        (λ v t q. acknowledge-Sat cmd exp_resp v (loaded tr) t (q.0) (q.1))

  write_regin-Sat : (cmd : ℕ) (tr : Trace) → Sat (Written tr) (write_regin d coex m cmd tr)
  unfolding write_regin
  write_regin-Sat cmd tr = elim (Bool-cases ((cmd == check_crc) && m)) [
    | inl e ↦ rw e (
        master_reg_write-Sat swbl_regin (bit_or cmd (bit_or (bit_or 0xA0 coex) (2 ^ 8) * 2 ^ 8)) 4
          tr)
    | inr e ↦ rw e (master_reg_write-Sat swbl_regin (bit_or cmd (bit_or 0xA0 coex * 2 ^ 8)) 2 tr)
  ]

  -- What `bl_write_cmd` does once the command is written.
  abbrev rest : ℕ → ℕ → ℕ → Boot ℕ
  rest f cmd exp_resp =
      if (cmd == load_hosted_fw) || (cmd == jump_to_zero_pc)
      then pure 0
      else read_response d coex m f cmd exp_resp

  rest-Sat :
      (f cmd exp_resp : ℕ) (t : Trace)
      → looks t ≤ limit
      → limit < f
      → Sat (Answer cmd exp_resp (loaded t)) (rest f cmd exp_resp t)
  unfolding Sat Answer
  rest-Sat f cmd exp_resp t le lt = elim (ℕ_discrete cmd load_hosted_fw) [
    | yes c ↦ simp ((==_iff cmd load_hosted_fw).1 c) (refl, inl (inl c))
    | no n₁ ↦ elim (ℕ_discrete cmd jump_to_zero_pc) [
      | yes c ↦
          simp (not_eq cmd load_hosted_fw n₁, (==_iff cmd jump_to_zero_pc).1 c) (refl, inl (inr c))
      | no n₂ ↦
          simp (not_eq cmd load_hosted_fw n₁, not_eq cmd jump_to_zero_pc n₂)
            (read_response-Sat f cmd exp_resp t le lt)
    ]
  ]

  -- With a timer that expires within `limit` readings and stays expired, at most `limit` readings
  -- made, and fuel beyond `limit`, `bl_write_cmd` ends; if it succeeds, it has
  -- loaded nothing, and either expects no response, or returns the low 16 bits of a valid answer
  -- whose low byte is the expected response, or IMAGE_STORED_IN_DUMP to EOF_REACHED.
  pub bl_write_cmd-Sat :
      (f cmd exp_resp : ℕ) (tr : Trace)
      → looks tr ≤ limit
      → limit < f
      → Sat (Answer cmd exp_resp (loaded tr)) (bl_write_cmd d coex m f cmd exp_resp tr)
  unfolding bl_write_cmd InTime Written
  bl_write_cmd-Sat f cmd exp_resp tr le lt =
      awaited f swbl_regin (λ v. not (v / 2 ^ 12 == 0xA)) tr
        (λ v. write_regin d coex m cmd >> rest f cmd exp_resp) (Answer cmd exp_resp (loaded tr)) le
        lt
        (λ v t q.
          Sat-bind (Written t) (Answer cmd exp_resp (loaded tr)) (write_regin d coex m cmd t)
            (λ u t'. rest f cmd exp_resp t') (write_regin-Sat cmd t)
            (λ u t' w.
              subst (λ bs. Sat (Answer cmd exp_resp bs) (rest f cmd exp_resp t')) (w.0 ∙ q.0)
                (rest-Sat f cmd exp_resp t' (omega (arith, w.1, in_limit t (q.2))) lt)))

  pub bl_cmd-Sat :
      (f cmd exp_resp : ℕ) (tr : Trace)
      → limit < f
      → Sat (λ (u : Unit {0}) t. loaded t ≡ loaded tr) (bl_cmd d coex m f cmd exp_resp tr)
  unfolding bl_cmd Sat loaded looks Answer
  bl_cmd-Sat f cmd exp_resp tr lt =
      stop (bl_write_cmd d coex m f cmd exp_resp (start_timer (timeout_of d coex m cmd) ∷ tr)) (
        bl_write_cmd-Sat f cmd exp_resp (start_timer (timeout_of d coex m cmd) ∷ tr) (omega arith)
          lt)
    where
      stop :
          (o : Out ℕ)
          → Sat (Answer cmd exp_resp (loaded tr)) o
          → Sat
              (λ (u : Unit {0}) t. loaded t ≡ loaded tr)
              (elim o [
                | ok resp tr₁ ↦ ok tt (stop_timer ∷ tr₁)
                | err r tr₁ ↦ err r (stop_timer ∷ tr₁)
                | stuck ↦ stuck
              ])
      stop (ok r t) a = a.0
      stop (err r t) a = tt
      stop stuck a = a
