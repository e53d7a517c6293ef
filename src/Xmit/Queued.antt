-- ===== src/Xmit/Queued.antt =====
-- How a packet with a descriptor gets into a queue, in `rsi_core_xmit` (rsi/rsi_91x_core.c), and how
-- a management frame does.
use si91x_rcp_driver.Prelude.{
  ℕ, ◌-◌, ◌<◌, ◌≡◌, ◌⊎◌, inl, inr, refl, ap, ◌∙◌, Bool, true, false, ◌||◌, List, [], ◌∷◌, ◌++◌, leb,
  if◌then◌else◌, update, arith,
}
use si91x_rcp_driver.Tx.State.{mgmt_soft_q, num_soft_queues, SkBuff, Common}
use si91x_rcp_driver.Tx.Queue.{queue_pkt}
use si91x_rcp_driver.Rx.{u16}
use si91x_rcp_driver.Xmit.{
  Pkt, skb_pull, Ieee80211, Cfg, Xmit, Desc, header, Prepared, ready, failed, panic, Disposal,
  freed, indicated,
}
use si91x_rcp_driver.Xmit.MgmtDesc.{prepare_mgmt_desc}
use si91x_rcp_driver.Xmit.DataDesc.{set_pm_bit}
use si91x_rcp_driver.Xmit.Bounds.{Fits, prepare_mgmt_desc-Fits}
use si91x_rcp_driver.Xmit.Core.{
  tid_to_wme_ac, Xmitted, done, crashed, xmit_fail, skb_of, enqueue, stop_queue, stop_own,
  stop_others, queue_and_stop, notify_assoc, xmit_mgmt,
}

-- What there is of a descriptor, for a queue `q` and a frame `bs`.
pub IsFine : ℕ → List ℕ → Prepared → Type 0
IsFine q bs (ready d p) = (p.priority ≡ q) × (p.bytes ≡ bs)
IsFine q bs (failed p) = p.bytes ≡ bs
IsFine q bs panic = ⊥

-- `skb` at the tail of the queue `q`.
abbrev pub put : ℕ → SkBuff → Common → Common
put q skb c = record c { tx_queue = update c.tx_queue q (c.tx_queue q ++ skb ∷ []) }

-- The frame `bs` as it goes out: with power save on, its power management bit may be set.
abbrev pub Framed : Cfg → (bs frame : List ℕ) → Type 0
Framed cfg bs frame = (frame ≡ bs) ⊎ ((cfg.ps_enabled ≡ true) × (frame ≡ set_pm_bit bs))

-- A buffer for the queue `q` that holds a descriptor of 20 bytes, `align` bytes of zeros and the frame
-- `bs`.
abbrev pub Carries : Cfg → (bs : List ℕ) → (q : ℕ) → SkBuff → Type 0
Carries cfg bs q skb =
    (d : Desc) × (align : ℕ) × (frame : List ℕ) × Framed cfg bs frame
    × (skb.bytes ≡ header d align ++ frame)
    × (skb.priority ≡ q)

-- A packet with the frame `bs` is freed, or is handed back without its header.
abbrev pub Gives : (bs : List ℕ) → Disposal → Type 0
Gives bs g =
    (a : Pkt) × (a.bytes ≡ bs) × ((g ≡ freed a) ⊎ (g ≡ indicated (skb_pull a.internal_hdr_size a)))

-- The packet with the frame `bs` has been given away, or stands at the tail of one queue.
abbrev pub Once : Cfg → (bs : List ℕ) → Xmit → Xmit → Type 0
Once cfg bs x x' =
    (((g : Disposal) × Gives bs g × (x'.disposals ≡ g ∷ x.disposals)) × (x'.common ≡ x.common))
    ⊎ ((x'.disposals ≡ x.disposals)
        × (q : ℕ) × (skb : SkBuff) × (q < 6)
        × Carries cfg bs q skb
        × (x'.common ≡ put q skb x.common))

abbrev pub OnceDone : Cfg → (bs : List ℕ) → Xmit → Xmitted → Type 0
OnceDone cfg bs x r = (x' : Xmit) × (r ≡ done x') × Once cfg bs x x'

-- Two states with the same queues and packets given away
abbrev pub Same : Xmit → Xmit → Type 0
Same x x' = (x'.common ≡ x.common) × (x'.disposals ≡ x.disposals)

pub stop_others-Same : (x : Xmit) → Same x (stop_others x)
unfolding stop_others stop_queue
stop_others-Same x = (ground arith, ground arith)

pub stop_own-Same : (k : Ieee80211) (cfg : Cfg) (q : ℕ) (x : Xmit) → Same x (stop_own k cfg q x)
unfolding stop_own stop_queue
stop_own-Same k cfg q x = (ground arith, ground arith)

pub Once-Same :
    (cfg : Cfg) (bs : List ℕ) (x y z : Xmit) → Once cfg bs x y → Same y z → Once cfg bs x z
Once-Same cfg bs x y z (inl ((d, g, e), q)) (c, f) = inl ((d, g, f ∙ e), c ∙ q)
Once-Same cfg bs x y z (inr (e, q, skb, lt, h, t)) (c, f) = inr (f ∙ e, q, skb, lt, h, c ∙ t)

pub Same-Once :
    (cfg : Cfg) (bs : List ℕ) (x y z : Xmit) → Same x y → Once cfg bs y z → Once cfg bs x z
Same-Once cfg bs x y z (c, f) (inl ((d, g, e), q)) = inl ((d, g, e ∙ ap (λ ds. d ∷ ds) f), q ∙ c)
Same-Once cfg bs x y z (c, f) (inr (e, q, skb, lt, h, t)) =
    inr (e ∙ f, q, skb, lt, h, t ∙ ap (put q skb) c)

pub enqueue-Once :
    (cfg : Cfg) (bs : List ℕ) (d : Desc) (p : Pkt) (x : Xmit)
    → p.priority < 6
    → Framed cfg bs p.bytes
    → Once cfg bs x (enqueue d p x)
unfolding enqueue queue_pkt skb_of
enqueue-Once cfg bs d p x lt h =
    let e : leb num_soft_queues p.priority ≡ false = ground (arith, lt) in
    inr (
      ground (arith, e),
      p.priority,
      skb_of d p,
      lt,
      (d, p.pushed - 20, p.bytes, h, refl, refl),
      ground (arith, e),
    )

pub queue_and_stop-Once :
    (k : Ieee80211) (cfg : Cfg) (bs : List ℕ) (q : ℕ) (d : Desc) (p : Pkt) (x : Xmit)
    → p.priority < 6
    → Framed cfg bs p.bytes
    → Once cfg bs x (queue_and_stop k cfg q d p x)
unfolding queue_and_stop
queue_and_stop-Once k cfg bs q d p x lt h =
    Once-Same cfg bs x (enqueue d p x) (queue_and_stop k cfg q d p x)
      (enqueue-Once cfg bs d p x lt h)
      (
        ground (
          arith,
          stop_own-Same k cfg q (enqueue d p x),
          stop_others-Same (enqueue d p x),
          stop_others-Same (stop_own k cfg q (enqueue d p x)),
        ),
        ground (
          arith,
          stop_own-Same k cfg q (enqueue d p x),
          stop_others-Same (enqueue d p x),
          stop_others-Same (stop_own k cfg q (enqueue d p x)),
        ),
      )

pub xmit_fail-OnceDone :
    (cfg : Cfg) (bs : List ℕ) (p : Pkt) (x : Xmit)
    → p.bytes ≡ bs
    → OnceDone cfg bs x (xmit_fail p x)
unfolding xmit_fail
xmit_fail-OnceDone cfg bs p x e = (
  record x { disposals = freed p ∷ x.disposals },
  refl,
  inl ((freed p, (p, e, inl refl), refl), refl),
)

pub tid_to_wme_ac_bound : (tid : ℕ) → tid_to_wme_ac tid < 4
unfolding tid_to_wme_ac
tid_to_wme_ac_bound tid = ground arith

pub Keeps-of-Fits : (p : Pkt) (r : Prepared) → Fits p r → IsFine p.priority p.bytes r
unfolding Fits IsFine
Keeps-of-Fits p (ready d p') (m, u, h, l, b, q) = (q, b)
Keeps-of-Fits p (failed p') f = f.0
Keeps-of-Fits p panic f = elim f [ ]

pub mgmt-Once :
    (k : Ieee80211) (cfg : Cfg) (bs : List ℕ) (x : Xmit) (q : ℕ) (r : Prepared)
    → IsFine 4 bs r
    → OnceDone cfg bs x (elim r as (λ y. Xmitted) [
      | ready d p' ↦ done (queue_and_stop k cfg q d p' x)
      | failed p' ↦ xmit_fail p' x
      | panic ↦ crashed
    ])
unfolding IsFine
mgmt-Once k cfg bs x q (ready d p') (e, b) = (
  queue_and_stop k cfg q d p' x,
  refl,
  queue_and_stop-Once k cfg bs q d p' x (omega (arith, e)) (inl b),
)
mgmt-Once k cfg bs x q (failed p') b = xmit_fail-OnceDone cfg bs p' x b
mgmt-Once k cfg bs x q panic e = elim e [ ]

-- The state that a packet is queued in: an association request is announced first.
abbrev pub announced : Ieee80211 → Cfg → Pkt → Xmit → Xmit
announced k cfg p x =
    if k.is_assoc_req (u16 p.bytes 0) || k.is_reassoc_req (u16 p.bytes 0)
    then notify_assoc cfg x
    else x

pub xmit_mgmt-Once :
    (k : Ieee80211) (cfg : Cfg) (scan : Bool) (p : Pkt) (x : Xmit)
    → p.misaligned < 64
    → OnceDone cfg p.bytes (announced k cfg p x) (xmit_mgmt k cfg scan p x)
unfolding xmit_mgmt
xmit_mgmt-Once k cfg scan p x lt =
    let y = announced k cfg p x in
    let p₁ : Pkt = record p { priority = mgmt_soft_q } in
    let r = prepare_mgmt_desc k cfg y.stations scan p₁ in
    mgmt-Once k cfg p.bytes y mgmt_soft_q r
      (Keeps-of-Fits p₁ r (prepare_mgmt_desc-Fits k cfg y.stations scan p₁ lt))
