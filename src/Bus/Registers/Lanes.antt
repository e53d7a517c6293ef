-- ===== src/Bus/Registers/Lanes.antt =====
-- Which bytes of the memory a register read over SDIO (rsi/rsi_91x_sdio.c) returns.
use Prim.Native.Nat.{bit_or}
use si91x_rcp_driver.Prelude.{
  ℕ, zero, suc, ◌+◌, ◌*◌, ◌/◌, ◌%◌, ◌^◌, ◌<◌, ◌≡◌, ◌⊎◌, inl, inr, refl, ap, ◌∙◌, true, ltb, ◌==◌,
  arith, Bool-cases,
}
use si91x_rcp_driver.Bus.{Device, Bus, Host, Result, ok, err}
use si91x_rcp_driver.Bus.Memory.{Mem}
use si91x_rcp_driver.Bus.Sdio.{rsi_sdio_master_access_msword, sd_request_master}
use si91x_rcp_driver.Bus.Sdio.Steps.{Ends, Refuses, Stands, msword-Stands, bus_address}
use si91x_rcp_driver.Bus.Registers.{
  Read, got, failed, little_endian, fetch, first_word, sub_word, on_bus, read_word,
  rsi_sdio_master_reg_read,
}

-- A read that succeeds returns `v` and leaves the memory; one that fails met a refusal.
unfoldable pub Gets : Bus → ℕ → Mem → Read → Type 0
Gets b v m (got x h) = (x ≡ v) × (h.device.memory ≡ m)
Gets b v m (failed h) = Refuses b

-- The sizes in use, at addresses that are multiples of them.
abbrev pub Fits : (addr size : ℕ) → Type 0
Fits addr size = (size ≡ 1) ⊎ ((size ≡ 2) × (addr % 2 ≡ 0)) ⊎ ((size ≡ 4) × (addr % 4 ≡ 0))

on_bus_aligned : (a : ℕ) → a < 2 ^ 16 → on_bus a ≡ a / 4 * 4
unfolding on_bus
on_bus_aligned a lt =
    let low : (a / 2 ^ 24 * 2 ^ 24 == 0) ≡ true = ground arith in ground (arith, low)

on_bus_word : (a : ℕ) → a < 2 ^ 16 → bit_or (on_bus a) sd_request_master ≡ a / 4 * 4 + 2 ^ 16
on_bus_word a lt =
    let small : (a / 4 * 4) % 2 ^ 16 ≡ a / 4 * 4 = omega arith in
    let masked : bit_or ((a / 4 * 4) % 2 ^ 16) sd_request_master ≡ (a / 4 * 4) % 2 ^ 16 + 2 ^ 16 =
      bus_address (a / 4 * 4) in
    rw (on_bus_aligned a lt) (rw small at masked)

-- A byte within 64 KB.
fetch-memory :
    (b : Bus) (base i : ℕ) (d : Device)
    → base % 2 ^ 16 + i < 2 ^ 16
    → d.ms_low + d.ms_high * 2 ^ 8 ≡ base / 2 ^ 16
    → fetch b (base % 2 ^ 16 + 2 ^ 16) i d ≡ d.memory (base + i) % 2 ^ 8
unfolding fetch
fetch-memory b base i d lt ms =
    let same : (base % 2 ^ 16 + 2 ^ 16) % 2 ^ 16 ≡ base % 2 ^ 16 = omega arith in
    let inside : ltb (base % 2 ^ 16 + i) (2 ^ 16) ≡ true = ground arith in
    let place : (base / 2 ^ 16) * 2 ^ 16 + base % 2 ^ 16 + i ≡ base + i = omega arith in
    rw same (rw inside (rw ms (rw place refl)))

module _ (addr a₀ a₁ a₂ a₃ : ℕ) (l₀ : a₀ < 256) (l₁ : a₁ < 256) (l₂ : a₂ < 256)
    (l₃ : a₃ < 256) where
  abbrev word : ℕ
  word = a₀ + a₁ * 2 ^ 8 + a₂ * 2 ^ 16 + a₃ * 2 ^ 24

  sub_word_four : sub_word addr 4 word ≡ a₀ + 2 ^ 8 * (a₁ + 2 ^ 8 * (a₂ + 2 ^ 8 * (a₃ + 2 ^ 8 * 0)))
  unfolding sub_word
  sub_word_four = omega arith

  sub_word_two_low : addr % 4 ≡ 0 → sub_word addr 2 word ≡ a₀ + 2 ^ 8 * (a₁ + 2 ^ 8 * 0)
  unfolding sub_word
  sub_word_two_low e = rw e (omega arith)

  sub_word_two_high : addr % 4 ≡ 2 → sub_word addr 2 word ≡ a₂ + 2 ^ 8 * (a₃ + 2 ^ 8 * 0)
  unfolding sub_word
  sub_word_two_high e = rw e (omega arith)

  sub_word_one :
      (addr % 4 ≡ 0 → sub_word addr 1 word ≡ a₀ + 2 ^ 8 * 0)
      × (addr % 4 ≡ 1 → sub_word addr 1 word ≡ a₁ + 2 ^ 8 * 0)
      × (addr % 4 ≡ 2 → sub_word addr 1 word ≡ a₂ + 2 ^ 8 * 0)
      × (addr % 4 ≡ 3 → sub_word addr 1 word ≡ a₃ + 2 ^ 8 * 0)
  unfolding sub_word
  sub_word_one = (
    λ e. rw e (omega arith),
    λ e. rw e (omega arith),
    λ e. rw e (omega arith),
    λ e. rw e (omega arith),
  )

lane_cases : (a : ℕ) → (a % 4 ≡ 0) ⊎ (a % 4 ≡ 1) ⊎ (a % 4 ≡ 2) ⊎ (a % 4 ≡ 3)
lane_cases a = below (a % 4) (omega arith)
  where
    below : (r : ℕ) → r < 4 → (r ≡ 0) ⊎ (r ≡ 1) ⊎ (r ≡ 2) ⊎ (r ≡ 3)
    below zero lt = inl refl
    below (suc zero) lt = inr (inl refl)
    below (suc (suc zero)) lt = inr (inr (inl refl))
    below (suc (suc (suc r))) lt = inr (inr (inr (omega (arith, lt))))

half_cases : (a : ℕ) → a % 2 ≡ 0 → (a % 4 ≡ 0) ⊎ (a % 4 ≡ 2)
half_cases a even = elim (lane_cases a) [
  | inl z ↦ inl z
  | inr (inl z) ↦ absurd (omega arith)
  | inr (inr (inl z)) ↦ inr z
  | inr (inr (inr z)) ↦ absurd (omega arith)
]

-- The part of the word is the bytes of the memory.
module _ (m : Mem) (addr : ℕ) where
  abbrev at : ℕ → ℕ
  at i = m (addr / 4 * 4 + i) % 2 ^ 8

  at_self : (i a : ℕ) → addr / 4 * 4 + i ≡ a → at i ≡ m a % 2 ^ 8
  at_self i a e = ap (λ j. m j % 2 ^ 8) e

  abbrev full_word : ℕ
  full_word = at 0 + at 1 * 2 ^ 8 + at 2 * 2 ^ 16 + at 3 * 2 ^ 24

  at-lt : (i : ℕ) → at i < 256
  at-lt i = omega arith

  one_byte :
      (addr' : ℕ) → addr' % 4 ≡ addr % 4 → sub_word addr' 1 full_word ≡ little_endian m addr 1
  unfolding little_endian
  one_byte addr' e =
      let lanes =
        sub_word_one addr' (at 0) (at 1) (at 2) (at 3) (at-lt 0) (at-lt 1) (at-lt 2) (at-lt 3) in
      elim (lane_cases addr) [
        | inl z ↦ omega (arith, lanes.0 (e ∙ z), at_self 0 addr (omega arith))
        | inr (inl z) ↦ omega (arith, lanes.1 (e ∙ z), at_self 1 addr (omega arith))
        | inr (inr (inl z)) ↦ omega (arith, lanes.2 (e ∙ z), at_self 2 addr (omega arith))
        | inr (inr (inr z)) ↦ omega (arith, lanes.3 (e ∙ z), at_self 3 addr (omega arith))
      ]

  two_bytes :
      (addr' : ℕ)
      → addr' % 4 ≡ addr % 4
      → addr % 2 ≡ 0
      → sub_word addr' 2 full_word ≡ little_endian m addr 2
  unfolding little_endian
  two_bytes addr' e even = elim (half_cases addr even) [
    | inl z ↦
        sub_word_two_low addr' (at 0) (at 1) (at 2) (at 3) (at-lt 0) (at-lt 1) (at-lt 2) (at-lt 3)
          (e ∙ z)
        ∙ omega (arith, at_self 0 addr (omega arith), at_self 1 (addr + 1) (omega arith))
    | inr z ↦
        sub_word_two_high addr' (at 0) (at 1) (at 2) (at 3) (at-lt 0) (at-lt 1) (at-lt 2) (at-lt 3)
          (e ∙ z)
        ∙ omega (arith, at_self 2 addr (omega arith), at_self 3 (addr + 1) (omega arith))
  ]

  four_bytes : (addr' : ℕ) → addr % 4 ≡ 0 → sub_word addr' 4 full_word ≡ little_endian m addr 4
  unfolding little_endian
  four_bytes addr' aligned =
      sub_word_four addr' (at 0) (at 1) (at 2) (at 3) (at-lt 0) (at-lt 1) (at-lt 2) (at-lt 3)
      ∙ omega (
        arith,
        at_self 0 addr (omega arith),
        at_self 1 (addr + 1) (omega arith),
        at_self 2 (addr + 1 + 1) (omega arith),
        at_self 3 (addr + 1 + 1 + 1) (omega arith),
      )

  sub_word-little_endian :
      (addr' size : ℕ)
      → addr' % 4 ≡ addr % 4
      → Fits addr size
      → sub_word addr' size full_word ≡ little_endian m addr size
  sub_word-little_endian addr' size e (inl one) = rw one (one_byte addr' e)
  sub_word-little_endian addr' size e (inr (inl (two, even))) = rw two (two_bytes addr' e even)
  sub_word-little_endian addr' size e (inr (inr (four, aligned))) =
      rw four (four_bytes addr' aligned)

-- The first word of the block at a register.
first_word-memory :
    (b : Bus) (addr : ℕ) (d : Device)
    → d.ms_low + d.ms_high * 2 ^ 8 ≡ addr / 2 ^ 16
    → first_word b (addr % 2 ^ 16 / 4 * 4 + 2 ^ 16) d ≡ full_word d.memory addr
unfolding first_word
first_word-memory b addr d ms =
    let base = addr / 4 * 4 in
    let low : addr % 2 ^ 16 / 4 * 4 ≡ base % 2 ^ 16 = omega arith in
    let high : addr / 2 ^ 16 ≡ base / 2 ^ 16 = omega arith in
    rw low (
      rw (fetch-memory b base 0 d (omega arith) (ms ∙ high)) (
        rw (fetch-memory b base 1 d (omega arith) (ms ∙ high)) (
          rw (fetch-memory b base 2 d (omega arith) (ms ∙ high))
            (rw (fetch-memory b base 3 d (omega arith) (ms ∙ high)) refl))))

read_word-Gets :
    (b : Bus) (addr size : ℕ) (m : Mem) (h : Host)
    → Fits addr size
    → Stands (addr / 2 ^ 16) m h
    → Gets b
        (little_endian m addr size)
        m
        (read_word b (addr % 2 ^ 16 / 4 * 4 + 2 ^ 16) (addr % 2 ^ 16) size h)
unfolding read_word Gets
read_word-Gets b addr size m h fits (f, ms, e) = elim (Bool-cases (b.accepts h.transfers)) [
  | inl t ↦ rw t (
    ap (sub_word (addr % 2 ^ 16) size) (first_word-memory b addr h.device ms)
        ∙ (sub_word-little_endian h.device.memory addr (addr % 2 ^ 16) size (omega arith) fits
            ∙ ap (λ mem. little_endian mem addr size) e),
    e,
  )
  | inr t ↦ rw t (h.transfers, t)
]

-- A register read over SDIO of 1, 2 or 4 bytes, at an address below 2 ^ 32 that is a multiple of the
-- size, with a buffer for the block and no failed write before: if it succeeds, then the value is
-- that of the bytes of the memory at the address, the lowest first, and the memory is as before; if
-- it fails, then the bus refused a transfer.
pub rsi_sdio_master_reg_read-little_endian :
    (b : Bus) (addr size : ℕ) (h : Host)
    → addr < 2 ^ 32
    → Fits addr size
    → h.write_fail ≡ 0
    → Gets b
        (little_endian h.device.memory addr size)
        h.device.memory
        (rsi_sdio_master_reg_read b true addr size h)
unfolding rsi_sdio_master_reg_read Ends Gets
rsi_sdio_master_reg_read-little_endian b addr size h lt fits none_failed =
    reads (rsi_sdio_master_access_msword b (addr / 2 ^ 16) h)
      (msword-Stands b (addr / 2 ^ 16) h.device.memory h (omega (arith, lt)) (none_failed, refl))
  where
    place : bit_or (on_bus (addr % 2 ^ 16)) sd_request_master ≡ addr % 2 ^ 16 / 4 * 4 + 2 ^ 16
    place = on_bus_word (addr % 2 ^ 16) (omega arith)

    reads :
        (r : Result)
        → Ends b (Stands (addr / 2 ^ 16) h.device.memory) r
        → Gets b (little_endian h.device.memory addr size) h.device.memory (elim r [
          | ok h₁ ↦
              read_word b
                (bit_or (on_bus (addr % 2 ^ 16)) sd_request_master)
                (addr % 2 ^ 16)
                size
                h₁
          | err h₁ ↦ failed h₁
        ])
    reads (ok h₁) p = rw place (read_word-Gets b addr size h.device.memory h₁ fits p)
    reads (err h₁) p = p
