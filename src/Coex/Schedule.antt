-- ===== src/Coex/Schedule.antt =====
-- When the coexistence scheduler drains its queue, and when it never comes back.
use si91x_rcp_driver.Prelude.{
  ℕ, zero, suc, ◌<◌, ◌≡◌, ◌∙◌, sym, ◌⊎◌, inl, inr, refl, Bool, ◌&&◌, some, List, [], ◌∷◌, ◌++◌,
  if◌then◌else◌, update, length, arith,
}
use mathlib.Core.List.{append-nil, append_assoc}
use si91x_rcp_driver.Tx.State.{SkBuff, invalid_queue}
use si91x_rcp_driver.Tx.Queue.{skb_dequeue}
use si91x_rcp_driver.Coex.{
  Radio, bt, zb, Coex, coex_q, bt_q, wlan_q, vip_q, zigb_q, determine_coex_q, done, send_one,
  sched_tx_pkts, coex_send_pkt, rsi_wlan_q,
}

-- Only BT_Q holds packets.
pub record OnlyBt (s : Coex) : Type 0 where
  pub coex_empty : s.coex_tx_qs coex_q ≡ []
  pub wlan_empty : s.coex_tx_qs wlan_q ≡ []
  pub vip_empty : s.coex_tx_qs vip_q ≡ []
  pub zigb_empty : s.coex_tx_qs zigb_q ≡ []

-- `rsi_coex_send_pkt` called for BT_Q, as its callers do (RSI_ZIGB_Q is the same number), or for
-- RSI_WLAN_Q, leaves the other queues empty.
pub coex_send_pkt-OnlyBt :
    (iface_down internal : Bool) (skb : SkBuff) (q : ℕ) (s : Coex)
    → (q ≡ bt_q) ⊎ (q ≡ rsi_wlan_q)
    → OnlyBt s
    → OnlyBt (coex_send_pkt iface_down internal skb q s).1
unfolding coex_send_pkt
coex_send_pkt-OnlyBt iface_down internal skb q s h o = ground arith

-- The radio that packets go to.
abbrev pub radio : Bool → Coex → Radio
radio zigb s = if zigb && s.zb_ready then zb else bt

abbrev pub tagged : Radio → List SkBuff → List (Radio × SkBuff)
tagged r [] = []
tagged r (x ∷ xs) = (r, x) ∷ tagged r xs

determine-bt :
    (x : SkBuff) (xs : List SkBuff) (s : Coex)
    → s.coex_tx_qs bt_q ≡ x ∷ xs
    → OnlyBt s
    → determine_coex_q s ≡ bt_q
unfolding determine_coex_q
determine-bt x xs s e o = ground arith

determine-none : (s : Coex) → s.coex_tx_qs bt_q ≡ [] → OnlyBt s → determine_coex_q s ≡ invalid_queue
unfolding determine_coex_q
determine-none s e o = ground arith

-- The state after the head of BT_Q was sent.
abbrev after : Bool → SkBuff → List SkBuff → Coex → Coex
after zigb x xs s = record s {
  coex_tx_qs = update s.coex_tx_qs bt_q xs;
  sent = s.sent ++ (radio zigb s, x) ∷ [];
}

send_one-head :
    (zigb : Bool) (x : SkBuff) (xs : List SkBuff) (s : Coex)
    → s.coex_tx_qs bt_q ≡ x ∷ xs
    → send_one zigb s ≡ some (after zigb x xs s)
unfolding send_one skb_dequeue
send_one-head zigb x xs s e = rw (e, send_one) refl

sched_step :
    (f : ℕ) (zigb : Bool) (s s₁ : Coex)
    → (determine_coex_q s ≡ bt_q) ⊎ (determine_coex_q s ≡ zigb_q)
    → send_one zigb s ≡ some s₁
    → sched_tx_pkts (suc f) zigb s ≡ sched_tx_pkts f zigb s₁
unfolding sched_tx_pkts
sched_step f zigb s s₁ (inl q) e = simp (q, e) refl
sched_step f zigb s s₁ (inr q) e = simp (q, e) refl

drained :
    (f : ℕ) (zigb : Bool) (xs : List SkBuff) (s : Coex)
    → s.coex_tx_qs bt_q ≡ xs
    → OnlyBt s
    → length xs < f
    → (t : Coex) × (sched_tx_pkts f zigb s ≡ some (done t))
      × (t.sent ≡ s.sent ++ tagged (radio zigb s) xs)
      × (t.coex_tx_qs bt_q ≡ [])
      × OnlyBt t
unfolding sched_tx_pkts
drained zero zigb xs s e o lt = elim lt [ ]
drained (suc f) zigb [] s e o lt =
    (s, simp (determine-none s e o) refl, sym (append-nil s.sent), e, o)
drained (suc f) zigb (x ∷ xs) s e o lt =
    let s₁ : Coex = after zigb x xs s in
    let o₁ : OnlyBt s₁ = record {
      coex_empty = o.coex_empty;
      wlan_empty = o.wlan_empty;
      vip_empty = o.vip_empty;
      zigb_empty = o.zigb_empty;
    } in
    let (t, run, sent, empty, others) = drained f zigb xs s₁ refl o₁ (omega arith) in
    (
      t,
      sched_step f zigb s s₁ (inl (determine-bt x xs s e o)) (send_one-head zigb x xs s e) ∙ run,
      sent ∙ append_assoc s.sent ((radio zigb s, x) ∷ []) (tagged (radio zigb s) xs),
      empty,
      others,
    )

-- While only BT_Q holds packets, the scheduler ends, given one turn more than there are packets: it
-- has sent them all in order, to Zigbee if that is built in and ready and to Bluetooth if not, and
-- all its queues are empty.
pub sched_tx_pkts-drains :
    (f : ℕ) (zigb : Bool) (s : Coex)
    → OnlyBt s
    → length (s.coex_tx_qs bt_q) < f
    → (t : Coex) × (sched_tx_pkts f zigb s ≡ some (done t))
      × (t.sent ≡ s.sent ++ tagged (radio zigb s) (s.coex_tx_qs bt_q))
      × (t.coex_tx_qs bt_q ≡ [])
      × OnlyBt t
sched_tx_pkts-drains f zigb s o lt = drained f zigb (s.coex_tx_qs bt_q) s refl o lt
