-- ===== src/Tests/Bluedroid.antt =====
-- The theorems on the ring at a queue of one packet.
use si91x_rcp_driver.Prelude.{◌≡◌, refl, none, some, [], ◌∷◌, arith}
use si91x_rcp_driver.Bluedroid.{SkBuff, SkbQueue, dequeue}
use si91x_rcp_driver.Bluedroid.Ring.{Holds, packets, ring, Slots, dequeue-Holds}

abbrev event : SkBuff
event = record { id = 1; len = 7 }

abbrev acl : SkBuff
acl = record { id = 2; len = 30 }

-- At the end of the array.
abbrev one_event : SkbQueue
one_event = ring (λ i. event) (some 499) (some 499) []

one_event-Holds : Holds one_event (event ∷ [])
unfolding Slots
one_event-Holds =
    packets (λ i. event) [] 499 499 event [] refl (omega arith) (omega arith) (refl, tt)

one_event_dequeued :
    ((dequeue (λ x. none) 7 one_event).0 ≡ some event)
    × Holds (dequeue (λ x. none) 7 one_event).1 []
one_event_dequeued = dequeue-Holds (λ x. none) 7 one_event event [] one_event-Holds (omega arith)
