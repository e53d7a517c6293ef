-- ===== src/Lib.antt =====
-- The SiWx91x / RS9116 RCP driver: a model of its core logic and what is proved of it.
--
-- The driver sits between the kernel's wireless stack and a radio device on SDIO or USB. The parts
-- modelled here, by file of this library and of the repository:
--
--   Tx        rsi/rsi_91x_core.c: the transmit thread. Tx/State is the state (queues, contention
--             weights, bursts) of struct rsi_common in rsi/rsi_main.h; Tx/Queue the soft queues;
--             Tx/Select the choice of the next queue (rsi_core_determine_hal_queue and its helpers);
--             Tx/Process one run of rsi_core_qos_processor. The layers below (bus, mac80211) are a
--             record of functions of the calls made so far.
--   Ps        rsi/rsi_91x_ps.c, with parts of rsi/rsi_91x_mgmt.c and rsi/rsi_91x_gpio.c: power save.
--             Ps/State, Ps/Request, Ps/Power and Ps/Timer are the state machine, the requests it
--             queues and the traffic timer; Ps/Access is who may transmit while the device may
--             sleep; Ps/Gpio is the handshake over two pins.
--   Coex      rsi/rsi_91x_coex.c: the queue of Bluetooth and Zigbee packets.
--   Replay    rsi/rsi_91x_mac80211.c: the replay check of group frames, rsi_validate_pn.
--   Boot      rsi/rsi_91x_hal.c: the boot loader commands (Boot/Command), the upgrade of the flash
--             (Boot/Upgrade), the images for the device (Boot/Image) and rsi_load_firmware and the
--             secure loading (Boot/Firmware). Boot/Io is the bus, as a trace of accesses and a device
--             that answers from the trace so far.
--   Opmode    rsi/rsi_91x_hal.c and rsi/rsi_91x_main.c: the operating modes that a build takes, and
--             the instances of a build with CONFIG_RSI_MULTI_MODE.
--   Init      rsi/rsi_91x_mgmt.c: the initialisation of the device, rsi_handle_card_ready
--             (Init/Ready) and the cases of rsi_handle_ta_confirm that carry it on (Init/Confirm).
--   Bluedroid rsi/rsi_91x_bluedroid.c: the ring of packets for the reader of the device file.
--   Sdio      rsi/rsi_91x_sdio_ops.c: the check whether the device has room.
--   Rx        rsi/rsi_91x_main.c: rsi_read_pkt, the loop over the packets of a received buffer, and
--             rsi_prepare_skb. A buffer is a list of bytes; Rx/Layout is the way the device fills it.
--   Xmit      rsi/rsi_91x_core.c and rsi/rsi_91x_hal.c: rsi_core_xmit (Xmit/Core), and the descriptors
--             of rsi_prepare_mgmt_desc and rsi_prepare_data_desc (Xmit/MgmtDesc, Xmit/DataDesc), and the
--             functions that hand a packet to the bus (Xmit/Send). Its state holds that of Tx, and what
--             the kernel knows of frames is a record of functions.
--   Beacon    rsi/rsi_91x_hal.c: rsi_prepare_beacon; Beacon/Strip reads a beacon as its elements.
--   Bus       rsi/rsi_91x_sdio.c, rsi/rsi_91x_sdio_ops.c and rsi/rsi_91x_usb.c: the transfers to the
--             device. Bus and Bus/Memory are the device with its memory; Bus/Sdio, Bus/Registers and
--             Bus/Packets the block writes, the registers and the packets over SDIO; Bus/Usb those over
--             USB. What the kernel's bus lets through is a function of the number of the transfer.
--   Stations  rsi/rsi_91x_mac80211.c and rsi/rsi_91x_mgmt.c: the stations of an access point
--             (Stations/Table) and the frames about them (Stations/Notify); Stations/Map reads the table
--             as a map from addresses.
--   Vifs      rsi/rsi_91x_mac80211.c: the interfaces. Its state holds that of Stations.
--   Rates     rsi/rsi_91x_mac80211.c: the fixed rate, for Linux 5.10 and later; the tables of MCS and
--             11ax rates, which other code writes to, are arguments.
--   Prelude   shared names, tests on numbers, lists and arrays. Tests holds the concrete inputs.
--
-- A function of the source is a function here with its name, less the prefix rsi_, that takes the
-- state and returns the new one; an error is a flag or a constructor. Machine integers are natural
-- numbers with their wrap-around written out. What is not under the repository's root is a parameter:
-- the kernel's allocator (alloc n tells whether the n-th buffer is there), its clock and timers, the
-- bus, the pins of the board. Interleavings are explicit: data types of steps in Ps/Protocol,
-- Ps/Access/Safety and Init/Order.
--
-- Fuel: the loops of rsi_core_qos_processor and get_queue_num, of the boot loader commands, of the
-- coexistence scheduler, of the GPIO handshake, of rsi_read_pkt, of
-- rsi_usb_write_register_multiple and of rsi_prepare_beacon run on fuel, and the results say how
-- much is enough. All other loops of the source are structural recursion.
--
-- The model follows the default build for Linux 6.0 and later: CONFIG_STA_PLUS_AP, CONFIG_RSI_WOW
-- and CONFIG_TWT_SUPPORT are off, OFFLOAD_SCAN_TO_DEVICE is on. The builds with
-- CONFIG_RSI_COEX_MODE, CONFIG_ARCH_HAVE_CUSTOM_GPIO_H, CONFIG_RS9116_FLASH_MODE,
-- CONFIG_SECURE_FW_LOAD and CONFIG_RSI_MULTI_MODE are modelled where a part exists only there.
--
-- Not modelled: the set-up and the interrupts of the bus drivers, the other mac80211 callbacks,
-- debugfs, netlink and module set-up, which are I/O or glue; the builders of management frames,
-- of which only the buffer and the queueing are kept; the loading of firmware in a build with
-- CONFIG_RS9116_FLASH_MODE, of which only the upgrade and the CRC check are kept.
pub mod Prelude
pub mod Tx
pub mod Ps
pub mod Coex
pub mod Replay
pub mod Boot
pub mod Opmode
pub mod Bus
pub mod Stations
pub mod Vifs
pub mod Rates
pub mod Init
pub mod Bluedroid
pub mod Sdio
pub mod Rx
pub mod Xmit
pub mod Beacon
mod Tests
