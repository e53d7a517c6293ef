-- ===== src/Tests/Rx.antt =====
-- Reception from small buffers.
use si91x_rcp_driver.Prelude.{
  ℕ, ◌+◌, ◌-◌, ◌^◌, ◌≡◌, inl, inr, refl, Bool, true, false, some, List, [], ◌∷◌, ◌++◌, length, map,
  leb, arith,
}
use si91x_rcp_driver.Rx.{
  Build, Env, Rx, Skb, Call, prepare_skb, read_pkt, rsi_wifi_data_q, rsi_wifi_mgmt_q,
}
use si91x_rcp_driver.Rx.Turns.{read_pkt_total}
use si91x_rcp_driver.Rx.Layout.{Frame, lay_all}
use si91x_rcp_driver.Rx.Stands.{IsWifi, received, content}
use si91x_rcp_driver.Rx.Deliver.{read_pkt-delivers}
use si91x_rcp_driver.Rx.Bounds.{prepare_skb-bounds}

abbrev wifi_only : Build
wifi_only = record { coex_mode = false; bt_alone = false; zigb = false }

abbrev with_zigb : Build
with_zigb = record { coex_mode = true; bt_alone = false; zigb = true }

abbrev env : Env
env = record {
  alloc = λ n size. true;
  channel = λ calls. 6;
  watches = λ calls. true;
  has_attach = true;
  has_recv = true;
}

abbrev fresh : Rx
fresh = record {
  index = 0;
  left = 0;
  extended_desc = 0;
  amsdu_bit = 0;
  zb_ready = true;
  allocs = 0;
  calls = [];
}

abbrev eleven : List ℕ
eleven = 9 ∷ 8 ∷ 7 ∷ 6 ∷ 5 ∷ 4 ∷ 3 ∷ 2 ∷ 1 ∷ 0 ∷ 11 ∷ []

abbrev data_frame : Frame
data_frame = record {
  queueno = 5;
  pad = 0 ∷ 0 ∷ [];
  b2 = 1;
  b3 = 2;
  others = eleven;
  extra = 77 ∷ 78 ∷ [];
  payload = 10 ∷ 20 ∷ 30 ∷ [];
  tail = 255 ∷ [];
}

abbrev mgmt_frame : Frame
mgmt_frame = record {
  queueno = 4;
  pad = [];
  b2 = 3;
  b3 = 4;
  others = eleven;
  extra = [];
  payload = 40 ∷ 50 ∷ [];
  tail = [];
}

data_frame-IsWifi : IsWifi data_frame
data_frame-IsWifi = record {
  frame = record {
    queue_fits = omega arith;
    rest_of_desc = refl;
    extra_fits = omega arith;
    pkt_fits = omega arith;
    size_fits = omega arith;
    some_payload = omega arith;
  };
  queue = inl refl;
}

mgmt_frame-IsWifi : IsWifi mgmt_frame
mgmt_frame-IsWifi = record {
  frame = record {
    queue_fits = omega arith;
    rest_of_desc = refl;
    extra_fits = omega arith;
    pkt_fits = omega arith;
    size_fits = omega arith;
    some_payload = omega arith;
  };
  queue = inr refl;
}

abbrev buffer : List ℕ
buffer = lay_all (data_frame ∷ mgmt_frame ∷ [])

read_pkt-delivers_example :
    (s' : Rx) × (read_pkt wifi_only env buffer 2 (length buffer) fresh ≡ some (true, s'))
    × (received buffer s'.calls ≡ received buffer [] ++ map content (data_frame ∷ mgmt_frame ∷ []))
unfolding lay_all si91x_rcp_driver.Rx.Stands.AreWifi
read_pkt-delivers_example =
    read_pkt-delivers wifi_only env (λ n size. refl) data_frame (mgmt_frame ∷ []) fresh 2
      (data_frame-IsWifi, (mgmt_frame-IsWifi, tt)) (omega arith) (omega arith)

read_pkt_total_example :
    (r : Bool × Rx) × (read_pkt wifi_only env (25 ∷ 0 ∷ 4 ∷ 0 ∷ 9 ∷ 80 ∷ []) 2 25 fresh ≡ some r)
read_pkt_total_example =
    read_pkt_total wifi_only env (25 ∷ 0 ∷ 4 ∷ 0 ∷ 9 ∷ 80 ∷ []) 2 25 fresh refl (omega arith)

abbrev empty_zigb : List ℕ
empty_zigb = 0 ∷ 0 ∷ 4 ∷ 0 ∷ 0 ∷ 16 ∷ []

abbrev long_extra : Rx
long_extra = record fresh { extended_desc = 8 }

prepared : Skb
prepared = record { from = 4 + 24; len = 2 ^ 32 - 4; rssi = 0; channel = 6 }

abbrev counted : Rx
counted = record long_extra { allocs = 1 }

prepare_skb-bounds_example : leb (prepared.from + prepared.len) (4 + 16 + 4) ≡ leb 8 4
unfolding prepare_skb prepared
prepare_skb-bounds_example =
    prepare_skb-bounds wifi_only env [] 4 4 long_extra counted prepared refl (omega arith)
      (omega arith)
