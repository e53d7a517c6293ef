-- ===== src/Rx/Layout.antt =====
-- How the device lays packets out in a buffer for `rsi_read_pkt` (rsi/rsi_91x_main.c): a length and
-- an offset of two bytes each, padding, and at the offset a descriptor of 16 bytes with what follows.
use mathlib.Core.List.{append_assoc, append-nil}
use native.Mathlib.Nat.{zero-add}
use si91x_rcp_driver.Prelude.{
  ℕ, suc, ◌+◌, ◌*◌, ◌/◌, ◌%◌, ◌^◌, ◌≤◌, ◌<◌, ◌≡◌, ap, sym, refl, List, [], ◌∷◌, ◌++◌, length,
  length-append, take, drop, arith,
}
use si91x_rcp_driver.Rx.{byte, u16, get_queueno, get_length, get_extended_desc}

-- `extra` is the extended descriptor. `b2`, `b3` and `others` are the bytes of the descriptor that
-- neither its length, its queue nor the length of `extra` stand in.
pub record Frame : Type 0 where
  pub queueno : ℕ
  pub pad : List ℕ
  pub b2 : ℕ
  pub b3 : ℕ
  pub others : List ℕ
  pub extra : List ℕ
  pub payload : List ℕ
  pub tail : List ℕ

abbrev pub pkt_len : Frame → ℕ
pkt_len f = length f.extra + length f.payload

abbrev pub size : Frame → ℕ
size f = 4 + length f.pad + 16 + pkt_len f + length f.tail

pub record IsFrame (f : Frame) : Type 0 where
  pub queue_fits : f.queueno < 8
  pub rest_of_desc : length f.others ≡ 11
  pub extra_fits : length f.extra < 240
  pub pkt_fits : pkt_len f < 2 ^ 12
  pub size_fits : size f < 2 ^ 16
  pub some_payload : 1 ≤ length f.payload

-- From the descriptor on, with what follows in the buffer.
abbrev pub descriptor : Frame → List ℕ → List ℕ
descriptor f rest =
    pkt_len f % 2 ^ 8
    ∷ (pkt_len f / 2 ^ 8 + f.queueno * 2 ^ 4)
    ∷ f.b2
    ∷ f.b3
    ∷ length f.extra
    ∷ (f.others ++ (f.extra ++ (f.payload ++ (f.tail ++ rest))))

abbrev pub lay : Frame → List ℕ → List ℕ
lay f rest =
    size f % 2 ^ 8
    ∷ size f / 2 ^ 8
    ∷ (4 + length f.pad) % 2 ^ 8
    ∷ (4 + length f.pad) / 2 ^ 8
    ∷ (f.pad ++ descriptor f rest)

-- Frames one after the other.
unfoldable pub lay_all : List Frame → List ℕ
lay_all [] = []
lay_all (f ∷ fs) = lay f (lay_all fs)

suc_plus : (n k : ℕ) → suc n + k ≡ suc (n + k)
suc_plus n k = omega arith

pub byte-append : (pre xs : List ℕ) (k : ℕ) → byte (pre ++ xs) (length pre + k) ≡ byte xs k
byte-append [] xs k = rw zero-add refl
byte-append (x ∷ pre) xs k = rw (suc_plus (length pre) k) (byte-append pre xs k)

pub drop-append : (pre xs : List ℕ) (k : ℕ) → drop (length pre + k) (pre ++ xs) ≡ drop k xs
drop-append [] xs k = rw zero-add refl
drop-append (x ∷ pre) xs k = rw (suc_plus (length pre) k) (drop-append pre xs k)

pub take-append : (xs rest : List ℕ) (n : ℕ) → n ≡ length xs → take n (xs ++ rest) ≡ xs
take-append [] rest n e = rw e refl
take-append (x ∷ xs) rest n e = rw e (ap (λ ys. x ∷ ys) (take-append xs rest (length xs) refl))

pub lay-append : (f : Frame) (rest : List ℕ) → lay f rest ≡ lay f [] ++ rest
lay-append f rest = simp (append_assoc, append-nil) refl

pub length-lay : (f : Frame) → IsFrame f → length (lay f []) ≡ size f
length-lay f h = simp (length-append) (omega (arith, h.rest_of_desc))

-- The fields of a frame that stands in a buffer behind `pre`.
module _ (pre : List ℕ) (f : Frame) (rest : List ℕ) (h : IsFrame f) where
  abbrev pub at : ℕ
  at = length pre + (4 + length f.pad)

  abbrev pub bytes : List ℕ
  bytes = pre ++ lay f rest

  word : (i k : ℕ) → i ≡ length pre + k → u16 bytes i ≡ u16 (lay f rest) k
  word i k e =
      let first = byte-append pre (lay f rest) k in
      let next : i + 1 ≡ length pre + (k + 1) = omega (arith, e) in
      rw e (rw first (rw (sym e) (rw next (rw (byte-append pre (lay f rest) (k + 1)) refl))))

  pub at_size : u16 bytes (length pre) ≡ size f
  at_size = omega (arith, word (length pre) 0 (omega arith), h.size_fits)

  pub at_offset : u16 bytes (length pre + 2) ≡ 4 + length f.pad
  at_offset = omega (arith, word (length pre + 2) 2 refl, h.size_fits)

  header : List ℕ
  header =
      size f % 2 ^ 8
      ∷ size f / 2 ^ 8
      ∷ (4 + length f.pad) % 2 ^ 8
      ∷ (4 + length f.pad) / 2 ^ 8
      ∷ f.pad

  behind : (pre ++ header) ++ descriptor f rest ≡ bytes
  unfolding header
  behind = append_assoc pre header (descriptor f rest)

  length-header : length (pre ++ header) ≡ at
  unfolding header
  length-header = rw (length-append pre header) (omega arith)

  desc_byte : (i k : ℕ) → i ≡ at + k → byte bytes i ≡ byte (descriptor f rest) k
  desc_byte i k e =
      let there : i ≡ length (pre ++ header) + k = omega (arith, e, length-header) in
      rw (sym behind) (rw there (byte-append (pre ++ header) (descriptor f rest) k))

  pub skip_to : (i k : ℕ) → i ≡ at + k → drop i bytes ≡ drop k (descriptor f rest)
  skip_to i k e =
      let there : i ≡ length (pre ++ header) + k = omega (arith, e, length-header) in
      rw (sym behind) (rw there (drop-append (pre ++ header) (descriptor f rest) k))

  desc_word : (i k : ℕ) → i ≡ at + k → u16 bytes i ≡ u16 (descriptor f rest) k
  desc_word i k e = omega (arith, desc_byte i k e, desc_byte (i + 1) (k + 1) (omega (arith, e)))

  pub at_queueno : get_queueno bytes at ≡ f.queueno
  unfolding get_queueno
  at_queueno = omega (arith, desc_word at 0 (omega arith), h.pkt_fits, h.queue_fits)

  pub at_length : get_length bytes at ≡ pkt_len f
  unfolding get_length
  at_length = omega (arith, desc_word at 0 (omega arith), h.pkt_fits, h.queue_fits)

  pub at_extended : get_extended_desc bytes at ≡ length f.extra
  unfolding get_extended_desc
  at_extended = omega (arith, desc_word (at + 4) 4 refl, h.extra_fits)
