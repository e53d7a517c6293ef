-- ===== src/Bluedroid.antt =====
-- rsi/rsi_91x_bluedroid.c: the ring of Bluetooth packets that wait for the reader of the device file.
pub mod Ring
use si91x_rcp_driver.Prelude.{
  ℕ, zero, suc, ◌+◌, ◌-◌, ◌%◌, Bool, true, false, Option, none, some, List, [], ◌∷◌, leb, ◌==◌,
  if◌then◌else◌, update,
}

abbrev pub queue_size : ℕ
queue_size = 500

-- A packet, by its identity and its length.
pub record SkBuff : Type 0 where
  pub id : ℕ
  pub len : ℕ

-- `rsi_skb_queue` and its two indices; `none` is -1. `freed` holds the packets freed, last one first.
pub record SkbQueue : Type 0 where
  pub rsi_skb_queue : ℕ → SkBuff
  pub rsi_skb_queue_front : Option ℕ
  pub rsi_skb_queue_rear : Option ℕ
  pub freed : List SkBuff

-- `(i + 1) % QUEUE_SIZE`
unfoldable pub next_index : Option ℕ → ℕ
next_index none = 0
next_index (some i) = (i + 1) % queue_size

unfoldable pub is_at : Option ℕ → ℕ → Bool
is_at none i = false
is_at (some j) i = j == i

-- The indices after a place was made at the rear.
unfoldable pub advance_rear : SkbQueue → SkbQueue
advance_rear q = elim (q.rsi_skb_queue_front) [
  | none ↦ record q { rsi_skb_queue_front = some 0; rsi_skb_queue_rear = some 0 }
  | some f ↦ record q { rsi_skb_queue_rear = some (next_index q.rsi_skb_queue_rear) }
]

-- A full queue drops the packet.
unfoldable pub enqueue : SkBuff → SkbQueue → SkbQueue
enqueue skb q =
    if is_at q.rsi_skb_queue_front (next_index q.rsi_skb_queue_rear)
    then record q { freed = skb ∷ q.freed }
    else elim ((advance_rear q).rsi_skb_queue_rear) [
      | none ↦ advance_rear q
      | some r ↦ record (advance_rear q) { rsi_skb_queue = update q.rsi_skb_queue r skb }
    ]

-- The indices after the head has left.
unfoldable pub advance_front : ℕ → SkbQueue → SkbQueue
advance_front f q =
    if is_at q.rsi_skb_queue_rear f
    then record q { rsi_skb_queue_front = none; rsi_skb_queue_rear = none }
    else record q { rsi_skb_queue_front = some ((f + 1) % queue_size) }

-- `copy` is what `pskb_copy` makes of a packet. A packet that is longer than `deq_len` is freed, and
-- stays at the head of the queue, `deq_len` bytes shorter.
unfoldable pub dequeue : (copy : SkBuff → Option SkBuff) → ℕ → SkbQueue → Option SkBuff × SkbQueue
dequeue copy deq_len q = elim (q.rsi_skb_queue_front) [
  | none ↦ (none, q)
  | some f ↦
      let skb = q.rsi_skb_queue f in
      let pulled = record skb { len = skb.len - deq_len } in
      if leb skb.len deq_len then (some skb, advance_front f q) else (
        copy skb,
        record q { rsi_skb_queue = update q.rsi_skb_queue f pulled; freed = pulled ∷ q.freed },
      )
]

unfoldable pub is_queue_empty : SkbQueue → Bool
is_queue_empty q = elim (q.rsi_skb_queue_front) [ none ↦ true | some f ↦ false ]
