-- ===== src/Replay/Drop.antt =====
-- What `rsi_validate_pn` of rsi/rsi_91x_mac80211.c lets through.
use si91x_rcp_driver.Prelude.{
  ℕ, zero, suc, ◌+◌, ◌≤◌, ◌<◌, ◌≡◌, ◌≢◌, ◌∙◌, ap, sym, ◌⊎◌, inl, inr, refl, Bool, true, false, ◌&&◌,
  Option, none, some, ◌==◌, if◌then◌else◌, update, arith, ℕ_discrete, Option-cases,
}
use si91x_rcp_driver.Replay.{
  Key, VifPriv, Hdr, Match, match_vif, pick_from, keyid, cur_pn, accepted, dropped, check_pn,
  validate_pn,
}
use si91x_rcp_driver.Replay.Order.{IsBytes, value, pn_le-value, pn_le_refl}

-- A frame that was let through, or dropped, by number is dropped when it comes again.
check_pn-again :
    (h : Hdr) (v : VifPriv) (k : Key)
    → (keyid h ≡ k.keyidx) ⊎ (keyid h ≡ v.prev_keyid)
    → (check_pn h (check_pn h v k).1 k).0 ≡ dropped
unfolding check_pn
check_pn-again h v k e = ground (arith, pn_le_refl (cur_pn k h))

-- The check changes nothing that the search for the interface reads.
record SameKeys (v w : VifPriv) : Type 0 where
  client : w.client ≡ v.client
  assoc : w.assoc ≡ v.assoc
  bssid : w.bssid ≡ v.bssid
  key : w.key ≡ v.key
  valid : w.rx_pn_valid ≡ v.rx_pn_valid

check_pn-SameKeys : (h : Hdr) (v : VifPriv) (k : Key) → SameKeys v (check_pn h v k).1
unfolding check_pn
check_pn-SameKeys h v k = ground arith

-- A match, with interface `m` as it is after the check.
abbrev swap : ℕ → VifPriv → Match → Match
swap m w none = none
swap m w (some (i, v, k)) = if i == m then some (m, w, k) else some (i, v, k)

match_vif-here :
    (h : Hdr) (m : ℕ) (v w : VifPriv) (found : Match)
    → SameKeys v w
    → match_vif h m w (swap m w found) ≡ swap m w (match_vif h m v found)
unfolding match_vif
match_vif-here h m v w found s = ground arith

match_vif-elsewhere :
    (h : Hdr) (i m : ℕ) (u w : VifPriv) (found : Match)
    → i ≢ m
    → match_vif h i u (swap m w found) ≡ swap m w (match_vif h i u found)
unfolding match_vif
match_vif-elsewhere h i m u w found ne = ground arith

pick_from-swap :
    (n i m : ℕ) (vifs : ℕ → Option VifPriv) (h : Hdr) (v w : VifPriv) (found : Match)
    → vifs m ≡ some v
    → SameKeys v w
    → pick_from n i (update vifs m (some w)) h (swap m w found)
      ≡ swap m w (pick_from n i vifs h found)
unfolding pick_from
pick_from-swap zero i m vifs h v w found e s = refl
pick_from-swap (suc n) i m vifs h v w found e s = elim (ℕ_discrete m i) [
  | yes same ↦ ground (
    arith,
    ap vifs same,
    match_vif-here h m v w found s,
    ap (λ (j : ℕ). match_vif h j v found) same,
    ap (λ (j : ℕ). match_vif h j w (swap m w found)) same,
    pick_from-swap n (i + 1) m vifs h v w (match_vif h i v found) e s,
  )
  | no ne ↦ elim (Option-cases (vifs i)) [
    | inl gone ↦ ground (arith, pick_from-swap n (i + 1) m vifs h v w found e s)
    | inr (u, here) ↦ ground (
      arith,
      match_vif-elsewhere h i m u w found (λ x. ne (sym x)),
      pick_from-swap n (i + 1) m vifs h v w (match_vif h i u found) e s,
    )
  ]
]

-- The frame comes from the access point that a client interface is connected to.
abbrev pub is_from : Hdr → VifPriv → Bool
is_from h v = v.client && (v.assoc && (v.bssid == h.addr2))

-- No interface from `i` up to `n` is connected to where the frame comes from.
abbrev pub NoneFrom : Hdr → (ℕ → Option VifPriv) → (i n : ℕ) → Type 0
NoneFrom h vifs i n = (j : ℕ) (w : VifPriv) → i ≤ j → j < n → vifs j ≡ some w → is_from h w ≡ false

passed_over :
    (n i : ℕ) (vifs : ℕ → Option VifPriv) (h : Hdr) (found : Match)
    → NoneFrom h vifs i (i + n)
    → pick_from n i vifs h found ≡ found
unfolding pick_from match_vif
passed_over zero i vifs h found none_from = refl
passed_over (suc n) i vifs h found none_from =
    let rest : (f : Match) → pick_from n (i + 1) vifs h f ≡ f = λ f.
      passed_over n (i + 1) vifs h f
        (λ j w le lt e. none_from j w (omega (arith, le)) (omega (arith, lt)) e) in
    elim (Option-cases (vifs i)) [
      | inl gone ↦ rw gone (rest found)
      | inr (u, here) ↦
          let other = none_from i u (omega arith) (omega arith) here in
          ground (arith, here, other, rest found)
    ]

-- The last interface that is connected there is found.
pick_from-last :
    (n i m : ℕ) (vifs : ℕ → Option VifPriv) (h : Hdr) (v : VifPriv) (k : Key) (found : Match)
    → vifs m ≡ some v
    → is_from h v ≡ true
    → v.key ≡ some k
    → v.rx_pn_valid ≡ true
    → NoneFrom h vifs (m + 1) (i + n)
    → i ≤ m
    → m < i + n
    → pick_from n i vifs h found ≡ some (m, v, k)
unfolding pick_from match_vif
pick_from-last zero i m vifs h v k found e from key valid later le lt =
    absurd (omega (arith, le, lt))
pick_from-last (suc n) i m vifs h v k found e from key valid later le lt = elim (ℕ_discrete m i) [
  | yes same ↦
      let here : vifs i ≡ some v = rw same at e in
      let rest =
        passed_over n (i + 1) vifs h (some (i, v, k))
          (λ j w le' lt' e'. later j w (omega (arith, same, le')) (omega (arith, lt')) e') in
      ground (arith, here, from, key, valid, rest, same)
  | no ne ↦
      pick_from-last n (i + 1) m vifs h v k _ e from key valid
        (λ j w le' lt' e'. later j w le' (omega (arith, lt')) e') (omega (arith, ne, le))
        (omega (arith, lt))
]

-- A group frame from the access point that a client interface is connected to, the last one that
-- is, which has a key and a number for it, and whose current or previous key index the frame has, is
-- dropped when it is received a second time, whether it was let through before or not.
pub validate_pn_replay :
    (n : ℕ) (vifs : ℕ → Option VifPriv) (h : Hdr) (m : ℕ) (v : VifPriv) (k : Key)
    → h.group ≡ true
    → m < n
    → vifs m ≡ some v
    → is_from h v ≡ true
    → NoneFrom h vifs (m + 1) n
    → v.key ≡ some k
    → v.rx_pn_valid ≡ true
    → (keyid h ≡ k.keyidx) ⊎ (keyid h ≡ v.prev_keyid)
    → (validate_pn n (validate_pn n vifs h).1 h).0 ≡ dropped
unfolding validate_pn
validate_pn_replay n vifs h m v k g lt there from later key valid known =
    let w = (check_pn h v k).1 in
    let e =
      pick_from-last n 0 m vifs h v k none there from key valid
        (λ j w le lt' e'. later j w le (omega (arith, lt')) e') (omega arith) (omega (arith, lt)) in
    let e' =
      pick_from-swap n 0 m vifs h v w none there (check_pn-SameKeys h v k) ∙ ap (swap m w) e in
    ground (arith, e, e', check_pn-again h v k known)

-- A frame under the current key is let through exactly when its packet number, read as a 48-bit
-- number, is greater than the last one, which it then replaces; else it is dropped and the last
-- number stays.
pub check_pn-fresh :
    (h : Hdr) (v : VifPriv) (k : Key)
    → keyid h ≡ k.keyidx
    → IsBytes (cur_pn k h)
    → IsBytes v.rx_bcmc_pn
    → (((check_pn h v k).0 ≡ accepted)
        × (value v.rx_bcmc_pn < value (cur_pn k h))
        × ((check_pn h v k).1.rx_bcmc_pn ≡ cur_pn k h))
      ⊎ (((check_pn h v k).0 ≡ dropped)
          × (value (cur_pn k h) ≤ value v.rx_bcmc_pn)
          × ((check_pn h v k).1 ≡ v))
unfolding check_pn
check_pn-fresh h v k e a b = ground (arith, pn_le-value (cur_pn k h) v.rx_bcmc_pn a b)

-- A frame whose key index is neither the current nor the previous one is let through however often
-- it comes, and nothing is remembered of it.
pub check_pn-unknown :
    (h : Hdr) (v : VifPriv) (k : Key)
    → keyid h ≢ k.keyidx
    → keyid h ≢ v.prev_keyid
    → check_pn h v k ≡ (accepted, v)
unfolding check_pn
check_pn-unknown h v k a b = ground arith
