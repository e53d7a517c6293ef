-- ===== src/Bluedroid/Ring.antt =====
-- The ring of rsi/rsi_91x_bluedroid.c as a queue: the list of the packets in it.
use mathlib.Core.Path.{subst}
use si91x_rcp_driver.Prelude.{
  ℕ, suc, ◌+◌, ◌%◌, ◌≤◌, ◌<◌, ◌≡◌, ◌≢◌, sym, lt→ltb, length-append, ==_iff, ◌∙◌, ap, refl, true,
  false, Option, none, some, List, [], ◌∷◌, ◌++◌, leb, ltb, ◌==◌, if◌then◌else◌, update,
  update_self, update_ne, arith, length, dec_lt,
}
use si91x_rcp_driver.Bluedroid.{
  queue_size, SkBuff, SkbQueue, next_index, is_at, advance_rear, enqueue, advance_front, dequeue,
}

-- The packets `xs` lie in the ring from index `f` on.
unfoldable pub Slots : (ℕ → SkBuff) → ℕ → List SkBuff → Type 0
Slots slots f [] = Unit
Slots slots f (x ∷ xs) = (slots f ≡ x) × Slots slots ((f + 1) % queue_size) xs

-- The queue with its fields.
abbrev pub ring : (ℕ → SkBuff) → Option ℕ → Option ℕ → List SkBuff → SkbQueue
ring slots front rear freed = record {
  rsi_skb_queue = slots;
  rsi_skb_queue_front = front;
  rsi_skb_queue_rear = rear;
  freed = freed;
}

-- The queue holds `xs`, its head first.
pub data Holds : SkbQueue → List SkBuff → Type 0 where
  nothing : (slots : ℕ → SkBuff) (freed : List SkBuff) → Holds (ring slots none none freed) []
  packets :
      (slots : ℕ → SkBuff) (freed : List SkBuff) (f r : ℕ) (x : SkBuff) (xs : List SkBuff)
      → r ≡ (f + length xs) % queue_size
      → f < queue_size
      → length xs < queue_size
      → Slots slots f (x ∷ xs)
      → Holds (ring slots (some f) (some r) freed) (x ∷ xs)

-- The indices wrap around.
wrap : (f n : ℕ) → ((f + 1) % queue_size + n) % queue_size ≡ (f + suc n) % queue_size
wrap f n = omega arith

apart : (f n : ℕ) → f < queue_size → suc n < queue_size → (f + suc n) % queue_size ≢ f
apart f n lt le e = omega (arith, e)

not_eq : (a b : ℕ) → a ≢ b → (a == b) ≡ false
not_eq a b ne = ground arith

-- A packet is written behind the others.
Slots-snoc :
    (slots : ℕ → SkBuff) (f : ℕ) (y : SkBuff) (xs : List SkBuff)
    → f < queue_size
    → length xs < queue_size
    → Slots slots f xs
    → Slots (update slots ((f + length xs) % queue_size) y) f (xs ++ y ∷ [])
unfolding Slots
Slots-snoc slots f y [] lt le h =
    (ap (λ i. update slots i y f) (omega (arith, lt)) ∙ update_self slots f y, tt)
Slots-snoc slots f y (x ∷ xs) lt le (h, hs) = (
  update_ne slots ((f + suc (length xs)) % queue_size) f y (apart f (length xs) lt le) ∙ h,
  subst (λ i. Slots (update slots i y) ((f + 1) % queue_size) (xs ++ y ∷ [])) (wrap f (length xs))
      (Slots-snoc slots ((f + 1) % queue_size) y xs (omega arith) (omega (arith, le)) hs),
)

-- A packet that is queued goes behind the others if there are fewer than 500, and is dropped if not.
pub enqueue-Holds :
    (y : SkBuff) (q : SkbQueue) (xs : List SkBuff)
    → Holds q xs
    → Holds (enqueue y q) (if ltb (length xs) queue_size then xs ++ y ∷ [] else xs)
unfolding enqueue next_index is_at advance_rear Slots
enqueue-Holds y q xs (nothing slots freed) =
    packets (update slots 0 y) freed 0 0 y [] refl (omega arith) (omega arith)
      (update_self slots 0 y, tt)
enqueue-Holds y q xs (packets slots freed f r x rest e lt le h) =
    elim (dec_lt (suc (length rest)) queue_size) [
      | yes room ↦
          rw (differs room, lt→ltb (suc (length rest)) queue_size room)
            (packets (update slots ((r + 1) % queue_size) y) freed f ((r + 1) % queue_size) x
              (rest ++ y ∷ []) (behind ∙ ap (λ n. (f + n) % queue_size) (sym (longer))) lt
              (omega (arith, room, longer))
              (subst (λ i. Slots (update slots i y) f (x ∷ (rest ++ y ∷ []))) (sym behind)
                (Slots-snoc slots f y (x ∷ rest) lt room h)))
      | no full ↦ rw (meets full, crowded full) (packets slots (y ∷ freed) f r x rest e lt le h)
    ]
  where
    behind : (r + 1) % queue_size ≡ (f + suc (length rest)) % queue_size
    behind = omega (arith, e)

    longer : length (rest ++ y ∷ []) ≡ suc (length rest)
    longer = length-append rest (y ∷ []) ∙ omega arith

    differs : suc (length rest) < queue_size → (f == (r + 1) % queue_size) ≡ false
    differs room =
        not_eq f ((r + 1) % queue_size) (λ at. apart f (length rest) lt room (sym behind ∙ sym at))

    meets : ¬ (suc (length rest) < queue_size) → (f == (r + 1) % queue_size) ≡ true
    meets full = (==_iff f ((r + 1) % queue_size)).1 (omega (arith, e, lt, le, full))

    crowded : ¬ (suc (length rest) < queue_size) → ltb (suc (length rest)) queue_size ≡ false
    crowded full = ground (arith, full)

fits : (n : ℕ) (x s : SkBuff) → s ≡ x → x.len ≤ n → leb s.len n ≡ true
fits n x s h small = rw h (le→leb x.len n small)
  where
    le→leb : (a b : ℕ) → a ≤ b → leb a b ≡ true
    le→leb a b h = ground arith

-- Read with a length that it fits, the packet at the head leaves the queue, and the others stay in
-- order.
pub dequeue-Holds :
    (copy : SkBuff → Option SkBuff) (n : ℕ) (q : SkbQueue) (x : SkBuff) (xs : List SkBuff)
    → Holds q (x ∷ xs)
    → x.len ≤ n
    → ((dequeue copy n q).0 ≡ some x) × Holds (dequeue copy n q).1 xs
unfolding dequeue advance_front is_at Slots
dequeue-Holds copy n q x [] (packets slots freed f r _ _ e lt le (h, hs)) small =
    rw (fits n x (slots f) h small, (==_iff r f).1 (omega (arith, e, lt)))
      (ap some h, nothing slots freed)
dequeue-Holds copy n q x (y ∷ ys) (packets slots freed f r _ _ e lt le (h, hs)) small =
    rw (fits n x (slots f) h small, not_eq r f (λ at. apart f (length ys) lt le (sym e ∙ at)))
      (
        ap some h,
        packets slots freed ((f + 1) % queue_size) r y ys (e ∙ sym (wrap f (length ys)))
            (omega arith) (omega (arith, le)) hs,
      )

-- Read with a length that is too short for it, the packet at the head is freed and stays the head.
pub dequeue_short :
    (copy : SkBuff → Option SkBuff) (n f : ℕ) (q : SkbQueue)
    → q.rsi_skb_queue_front ≡ some f
    → n < (q.rsi_skb_queue f).len
    → let q' = (dequeue copy n q).1 in
      (q'.rsi_skb_queue_front ≡ some f) × (q'.freed ≡ q'.rsi_skb_queue f ∷ q.freed)
unfolding dequeue
dequeue_short copy n f q e short = ground (arith, e, short)
