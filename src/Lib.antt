-- ===== src/Lib.antt =====
-- mybmm, the battery monitor and charge controller, as definitions and theorems.
--
-- The program reads battery packs through cell monitors (JBD over a serial line or CAN), works out
-- the state of the battery, controls the charge and writes settings to the inverter, in one round
-- of the main loop after the other. Its parts and the files that model them:
--
--   jbd.c      Jbd            frames: `jbd_crc`, `jbd_verify`, `jbd_cmd` (Jbd/Frame, Jbd/Command and
--                             Jbd/Detect prove about them)
--              Jbd/Transfer   `jbd_rw` over the transport's read and write
--              Jbd/Network    the same over the reads of ip.c (`ip_transport`)
--              Jbd/Report     `jbd_get_pack`: the answers of the monitor put into the pack
--              Jbd/Can        `jbd_can_crc`, `jbd_can_get`; Jbd/Can/Report: `jbd_can_get_pack`
--              Jbd/Driver     `jbd_new`, `jbd_open`, `jbd_read`, `jbd_close` as the monitor of a pack
--   jk.c       Jk             `_getvolts`: the report of a JK monitor put into the pack (Jk/Search:
--                             `getdata`, which looks for it; Jk/Read: `jk_read`)
--   can.c      Can            `can_read` and `can_write` over what the socket gives
--   pack.c     Pack           `struct mybmm_pack` and `pack_update`; `pack_update_all` is in Main
--   battery.c  Battery        `battery_init`, `charge_start`, `charge_stop`, `charge_check`
--   config.h   Config         `struct mybmm_config` and its flags
--   main.c     Main           the loop over the packs and their cells, the critical state
--              Main/Loop      the rest of a round, up to the settings that the inverter gets
--   list.c     LinkedList     the lists of packs, modules and settings, in a memory of items
--                             (LinkedList/Store); LinkedList/Chain says what a list stands for
--   cfg.c      Cfg            sections and items of a configuration, got and set (Cfg/Lookup and
--                             Cfg/Access prove about them)
--              Cfg/Read       `_readline` and `cfg_read`; Cfg/Write: `cfg_write`; Cfg/Lines and
--                             Cfg/RoundTrip prove that one undoes the other, for the
--                             configurations of Cfg/Written
--              Cfg/Table      `conv_type` from a string, `cfg_get_tab`
--   config.c   Settings       the tables of the settings, and what is read for them
--              Startup        `read_config` with the set-up of the parts and the saving, `reconfig`, and
--                             the options of `init` in main.c (Startup/Saved proves about them)
--   module.c   Modules        the modules that are loaded (Modules/Once proves about them)
--   pack.c and inverter.c     Setup: how packs and inverter are set up: Setup/Add has `pack_add` and what
--                             it shares with `inverter_add`, Setup/Start the rest; Setup/Identity,
--                             Setup/Packs, Setup/Controls and Setup/Marked prove about them
--   utils.c    Strings        `trim`, and the functions of characters and strings that cfg.c uses;
--                             Strings/Element: `strele`; Strings/Address: `is_ip`
--   preh.c     Preh           the CMUs on a CAN bus: their messages (Preh/Receive) and `preh_read`
--                             (Preh/Cells, Preh/Bounds)
--   ip.c       Streams        reads and writes of a socket; with serial.c (Streams/Serial for its
--                             session; Streams/Parts and Streams/Collect prove about the reads)
--   bt.c       Bluetooth      notifications and the reads of them (Bluetooth/Notified)
--   worker.c   Worker         the pool of threads: its slots, the steps of their threads (Worker/Slots)
--                             and the passes of the program over them (Worker/Passes)
--   si.c       Si             the Sunny Island driver: the messages it receives (Si/Receive), `si_read`
--                             (Si/Report), `si_write` and the driver for `inverter_write` (Si/Send)
--   dsfuncs.c  DevServer      packets of the device server (DevServer/Packets proves about them)
--   can_ip.c   CanIp          the CAN bus behind a device server, and with si.c (CanIp/Lengths)
--   inverter.c Inverter       `inverter_read` and `inverter_write`, and the turn of the main loop with
--                             them
--
-- At the start `configure` stores the settings, calls `battery_init`, sets up the inverter and the packs
-- with the modules that they name, and saves the configuration where a part was given a new UUID. The
-- record of the set-up (`Setup`) and that of the charge control are views of one `struct
-- mybmm_config`, whose word of flags is handed on between them. What gives a new UUID, finds a
-- symbol, makes an instance or connects to the broker is in the record `System`.
--
-- A pack's update calls the functions of its monitor (record `Monitor`), which for JBD are those of
-- Jbd/Report and Jbd/Can, chosen by Jbd/Driver; these call a transport (records `Transport` and
-- `CanBus`, two views of a `TransportModule`). The main loop
-- reads the inverter (record `Driver`), calls the update of every pack, then the scan, the charge
-- control and the write. State is passed
-- explicitly: a function takes the record it changes and returns it. `Conf` is `struct
-- mybmm_config` over the numbers of the machine.
--
-- Numbers. Floating-point arithmetic is a parameter (`Floats`), with `single` for the rounding to a
-- `float` and `lit` for the literals of the source; the theorems hold for any such arithmetic, and
-- where an order of the numbers is needed it is the named hypothesis `IsOrdered`. Integers of a
-- fixed width have their wrap-around written out; flags are numbers with `bit_and` and `bit_or`.
--
-- Faults. A read or write outside of a buffer or an array is `none` of the library's `Option`, so a
-- theorem that a function gives `some` result also says that it stays inside. What stands on the
-- stack without a value is an argument.
--
-- Loops. Those with a fixed number of turns count down (three attempts in `jbd_rw`, four in
-- `jbd_can_get`, five in `jk_read` and in the reads of si.c, eight bits and six bytes in the CRC, the
-- identifiers of `jbd_can_get_pack`, the four looks and five reads of preh.c, the three looks of
-- `bt_read`, the 32 packs of `pack_init`); those over cells, temperatures, packs, slots, lines, sections
-- and items go along the list or count what is left; the reads of a socket go along the events that
-- it gives. The search in `getdata` has as much fuel as
-- bytes were received, which is enough since every turn goes one byte on. Loops along a linked list
-- take fuel: more than the number of items is enough, as the theorems on lists say; the two loops of
-- `list_sort` take a bound each. A round of the main loop is one function; the endless loop around it
-- is its iteration. The passes of `worker_exec` and `worker_wait` go along the pools that they find.
--
-- Time and concurrency. The clock is an argument. The updates of the packs run in a pool of
-- threads, each on its own pack; `pack_update_all` takes what they make of a pack as an argument, so
-- that nothing is assumed about one that is late or killed. The pool itself is in Worker: a slot
-- changes by steps of the program and of its thread, in any order, as long as no signal is sent;
-- for `worker_killbusy`, which works outside of the lock and does not join, what the threads do in the
-- meantime is an argument.
--
-- Not modelled: messages and logs, the library calls (sockets, serial ports, bluetooth, MQTT, threads,
-- symbols), which are parameters; parson.c, uuid.c and the part of can.c that sets up the interface
-- are copies of other projects' code; stredit.c, which no build contains; how can_ip.c connects, the display of the configuration, the
-- reports over MQTT, and what stands under `#if 0`. `malloc` is assumed to give what it is asked for
-- where it is no argument.
pub mod Base
pub mod Jbd
pub mod Floats
pub mod Config
pub mod Battery
pub mod Pack
pub mod LinkedList
pub mod Jk
pub mod Can
pub mod Main
pub mod Inverter
mod Tests
pub mod Strings
pub mod Cfg
pub mod Worker
pub mod Si
pub mod DevServer
pub mod CanIp
pub mod Settings
pub mod Modules
pub mod Setup
pub mod Preh
pub mod Streams
pub mod Bluetooth
pub mod Startup
