-- ===== src/Lib.antt =====
-- The runtime of the y700-linux tablet port: the Python daemons that keep the device usable.
--
-- The parts modelled here are separate processes that meet in files, devices and sockets.
-- * design/thermal-20260920/thermald.py caps the clock of three frequency domains by their
--   temperature. Thermal holds class Domain, PROFILES and read_profile; Thermal.Loop holds hottest,
--   battery_limited, class Actuators and main, as functions on one record `Machine` (Actuators, the
--   domains and what the frequency files hold). A call that may raise returns a flag or an option.
-- * design/desktop-service-20260919/xguard.py watches the X windows below the phone shell. XGuard
--   holds decide and the loop of run, with its dictionaries in the record `State`.
-- * design/desktop-service-20260919/touchproxy.py reads the real touchscreen and writes a virtual,
--   rotated one. Touch holds class Rotator (record `Rotator`) and the event loop of TouchProxy._run.
-- * design/desktop-service-20260919/padproxy.py does the same for a gamepad. Pad holds class PadMapper
--   and the loop of PadProxy._run, on the events of Touch.
-- * design/nextboot-impl/hexrpcd.py serves files to the sensors DSP. Rpc.Vfs holds class VFS on lists
--   of code points, Rpc.Frames the packing of the buffers of a call, Rpc.Apps class AppsStd and
--   class Server: the open files (record `State`), the handlers by their names, dispatch and a round
--   of run, which takes the bytes of Rpc.Frames apart and asks Rpc.Vfs for the local path.
-- * design/nextboot-impl/bringup.py runs the stages of a boot. Bringup holds the stages, the bundles
--   of a stage and main on a record `State` of the bundles and the steps recorded; the steps are what
--   bringup_ready of desktop-service.py reads.
-- * design/nextboot-impl/speakerd.py plays what the session writes into a FIFO. Speaker holds scale
--   and the reading side of class Fifo, Speaker.Player the buffers of class Player and play.
-- * design/nextboot-impl/gprclient.py packs the packets for the audio DSP: Gpr holds pack, unpack and
--   Client.call. design/nextboot-impl/pdmapper.py tells the DSPs where their domains are: Servreg
--   holds tlvs, tlv and answer.
-- * design/nextboot-impl/load-stage.py loads the modules of a stage, watched by bootmon.py, and checks the
--   processes of registry.py. Loading holds what it reads and the checks; Loading.Bundle the manifest;
--   Loading.Radio, Loading.Audio and Loading.Preflight the preflight of each stage; Loading.Loads load and
--   main on a record `State` of the modules loaded and the effects. It is what Bringup applies.
-- * design/nextboot-impl/bootguard.py reviews the kernel log meanwhile. Guard holds the spans of the reports
--   and class Review, with its fields in the record `State`, and Guard.Binding class Waits.
-- * design/nextboot-impl/bt-keeper.py powers the Bluetooth controller on and attaches it. BtKeeper holds
--   the H4 packets and the commands, BtKeeper.Nvm the patch of a file, BtKeeper.Download the downloads
--   and BtKeeper.Main main with its fail, on a record `State` with the calls that were made.
-- * design/nextboot-impl/pb.py packs the messages of the sensors clients. Protobuf holds its varints,
--   fields and decode, on lists of bytes.
-- * design/desktop-service-20260919/desktop-service.py owns the screen. Desktop.Recovery holds
--   bringup_ready and recovery_action, which decide whether it may start. Desktop.Screen holds alloc,
--   free, switch_resolution and set_sleep of main, on one record `Screen` (the dictionary S, what
--   fbs.json records and what the kernel has), Desktop.Screen.Turns the requests and the loop. What
--   is written to fbs.json is what the recovery reads after a restart. Desktop.Ctl
--   holds parse_ctl, whose answers the loop carries out, and touch_matrix, which the touch proxy gets.
--
-- Prelude passes on the library names and holds the shared lists, integers and Boolean tests. Floats
-- is the interface of the floating point numbers that thermald.py and touchproxy.py compute with,
-- and Floats.Fixed an instance of it. Every loop runs over the list of its inputs (rounds, events,
-- buffers, path components), whose end is the signal that ends the loop or the end of what was read.
-- Fuel is counted in three places. A varint of 64 bits has at most 10 groups, and a message at most
-- as many fields as bytes, so that decode reads back every message that is encoded. The loop of
-- Fifo.trim starts with as much fuel as bytes to drop, of which each turn drops one or more. The inner
-- loop of play has the four submissions that fit in flight.
--
-- The programs, the file system and the DSP that Bringup, Rpc.Apps and Speaker talk to, the controller
-- of BtKeeper and the kernel of Loading are arguments that answer from all that was done before; a
-- theorem that relies on what they promise names it.
--
-- Not modelled: device and file access, log lines and status files (I/O, inputs of the models where
-- the code reads them), the ctypes bindings, the processes and input nodes of desktop-service.py,
-- the graph that speakerd.py opens and closes, the arguments of bringup.py's command line that name
-- no stage, what the loader reports of a stage behind its loads and what it looks at in a tick, the
-- scripts that build bundles, drafts and tests.
pub mod Prelude
pub mod Floats
pub mod Thermal
pub mod XGuard
pub mod Touch
pub mod Rpc
pub mod Desktop
pub mod Protobuf
pub mod Bringup
pub mod Speaker
pub mod Gpr
pub mod Servreg
pub mod Pad
pub mod BtKeeper
pub mod Loading
pub mod Guard
