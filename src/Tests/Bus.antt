-- ===== src/Tests/Bus.antt =====
-- A bus that takes every transfer, with a small image, a register and a packet.
use si91x_rcp_driver.Prelude.{ℕ, ◌≡◌, refl, true, false, List, [], ◌∷◌, arith}
use si91x_rcp_driver.Bus.{Bus, Host, ok}
use si91x_rcp_driver.Bus.Memory.{write_at, HasImage}
use si91x_rcp_driver.Bus.Sdio.{rsi_sdio_load_data_master_write}
use si91x_rcp_driver.Bus.Stopped.{rsi_sdio_load_data_master_write_stopped}
use si91x_rcp_driver.Bus.Usb.{rsi_usb_load_data_master_write, rsi_usb_host_intf_write_pkt}
use si91x_rcp_driver.Bus.Usb.Image.{Loads, rsi_usb_load_data_master_write-HasImage}
use si91x_rcp_driver.Bus.Usb.Failed.{After, rsi_usb_host_intf_write_pkt_lem}

abbrev steady : Bus
steady = record {
  accepts = λ n. true;
  refused = λ n d. d;
  straddles = λ address bytes d. record d { memory = write_at address bytes d.memory };
  beyond = λ address d. 0;
  register = λ function addr byte d. d;
}

abbrev blank : Host
blank = record {
  write_fail = 0;
  prev_desc = [];
  pending = 0;
  transfers = 0;
  device = record { ms_low = 0; ms_high = 0; memory = λ a. 0; packets = [] };
}

abbrev image : List ℕ
image = 7 ∷ 8 ∷ 9 ∷ []

abbrev broken : Host
broken = record blank { write_fail = 2 }

stopped_after_failure :
    (h' : Host) × (rsi_sdio_load_data_master_write steady true 0x20100 256 image broken ≡ ok h')
    × (h'.write_fail ≡ 2)
    × (h'.device.memory ≡ broken.device.memory)
stopped_after_failure =
    rsi_sdio_load_data_master_write_stopped steady 0x20100 256 image broken refl (λ n. refl)

-- A management packet of four bytes in a buffer of six.
abbrev packet : List ℕ
packet = 4 ∷ 0x40 ∷ 1 ∷ 2 ∷ 3 ∷ 5 ∷ []

rsi_usb_load_data_master_write-HasImage_example :
    Loads steady
      (λ n. true)
      (λ h'. HasImage 0x2fffe image blank.device.memory h'.device.memory)
      (rsi_usb_load_data_master_write steady (λ n. true) 0x2fffe 252 image blank)
rsi_usb_load_data_master_write-HasImage_example =
    rsi_usb_load_data_master_write-HasImage steady (λ n. true) 0x2fffe image blank
      (λ address bytes d. refl) (omega arith) (omega arith)

usb_write_counted :
    After steady true packet 4
      ((packet, 4) ∷ [])
      blank
      (rsi_usb_host_intf_write_pkt steady false true packet 4 blank)
usb_write_counted =
    rsi_usb_host_intf_write_pkt_lem steady true packet 4 ((packet, 4) ∷ []) blank (omega arith) refl
