-- ===== src/Lib.antt =====
-- A verification library for userface800, a macOS driver for the RME Fireface 800: the portable
-- protocol core, the data that the daemon, the CoreAudio plug-in and the front-ends share, the mixer,
-- the daemon's control plane, session and pump, the rings of the driver, the plug-in's IO cycles, and the
-- packets of the bus.
--
-- The parts, and how they interact. The daemon (platform/daemon) owns the device. It plans register
-- writes with the protocol headers (include/uf/protocol), moves audio between the device's isochronous
-- packets and two rings in shared memory (platform/shared/uf_shm_ring.hpp), and keeps the mixer
-- (platform/shared/uf_mixer_model.hpp), which it renders into the device's matrix RAM. Front-ends send
-- it messages over a socket (platform/shared/uf_ctl_proto.hpp); its server (platform/daemon/uf_ctl_server.hpp)
-- puts their commands in a queue, which the pump applies to the mixer, and what changed is written to
-- the device a few cells at a time, published in shared memory (platform/shared/uf_state_shm.hpp) and
-- saved (platform/shared/uf_state_store.hpp). The plug-in
-- (platform/coreaudio) is the other side of the rings; it derives the clock it hands to CoreAudio from
-- the time stamps in the ring (platform/shared/uf_zero_timestamp.hpp).
--
-- Base: numbers, Boolean tests, lists, 32-bit words and their bits, an integer type for the sample time.
-- Protocol: include/uf/protocol.
--   Endian is endian.hpp (le32_to_host, host_to_le32: a buffer is a list of bytes and an offset).
--   Codec is codec.hpp, with each loop as a recursion on the rounds to go (decode_packet,
--   encode_packet). Rate is rate.hpp, the table of nine rates. Settings is settings.hpp with the masks
--   of registers.hpp. ClockConfig is clock.hpp, Status is status.hpp, Channels is channels.hpp.
--   Control is control.hpp and stream.hpp (UFControl, stream_start_writes). TestSig is testsig.hpp
--   (testsig_sample, testsig_analyse). Midi is midi.hpp, and midi_send_to_ff800 of the daemon. Wav
--   is wav.hpp.
-- Shared: platform/shared.
--   Ring is uf_shm_ring.hpp: every field of the ring is a field of a record, a cursor is a 64-bit word
--   with its wrap-around, a slot pointer is the slot's index. Ring.Fifo interleaves the calls of the two
--   processes as a step relation, Ring.Seqlock the single loads and stores of the time stamp's seqlock,
--   in the order that its fences keep. ZeroTimestamp is uf_zero_timestamp.hpp; TxFill is
--   uf_tx_fill.hpp. State is uf_state_shm.hpp, less its level meters, with publish_mixer of the daemon;
--   Store is uf_state_store.hpp, a file being its bytes; Sources is uf_control.hpp.
-- Mixer: include/uf/protocol/mixer.hpp and platform/shared/uf_mixer_shadow.hpp; Mixer.Model is
--   platform/shared/uf_mixer_model.hpp. Its
--   children are Stereo (set_stereo, stereo), Writes (render_cell, render_output) and Blob (to_blob,
--   from_blob). Arrays are functions that are read and written below their bounds only.
-- Ctl: the control plane. Proto is uf_ctl_proto.hpp, a message being its bytes; Client is
--   uf_ctl_client.hpp; Queue is CtlQueue; Server is CtlServer::handle and, in Server.Session, the loop of
--   serve over one client. Apply is what the pump of platform/daemon/uf-daemon.cpp does with the commands
--   and Apply.Idle what drain_ctl_idle does without a device; Queue.Drain is the loop of both. A write of
--   the device is appended to a list, and what it does to the RAM is in Apply.Device.
-- Daemon: platform/daemon/uf-daemon.cpp. Session is session_start, session_stop and mixer_init_once, each
--   call of the driver a value, in order; Clock is cycle_timer_ticks and status_read. Of the pump, Capture
--   is the loop that drains the driver's ring into the capture ring, and Pace the paced fill of the
--   transmit ring, which takes its frames from Shared.TxFill and calls Dext.Transmit.
-- Dext: platform/ohci-dext/UFFireWireOHCI.cpp. Transmit is IsoTxStart, IsoTxSent, IsoTxRefill,
--   IsoTxSetSlotBytes and IsoTxStop; Receive is IsoStart, IsoStartContinuous, IsoPoll,
--   IsoCompletedCount, uf_iso_release and IsoStop; MidiIn is MidiInPoll and uf_arreq_rearm. Each has the part
--   of the driver's state that it uses as a record, with the descriptors as functions of their index. The
--   Machine modules of Transmit and Receive add the controller: a step relation in which it sends or
--   receives packets and the daemon calls the driver, in any order. As the OHCI specification documents, the
--   controller writes a status that is not zero to the descriptor of a packet when it is done with it.
-- CoreAudio: platform/coreaudio/UFAudioDriver.cpp. Io is UFIOHandler: OnReadClientInput, OnWriteMixedOutput,
--   fillStageFromRing and flushStageToRing, with the stages as functions of the index of a sample. Whether
--   a ring is mapped, and which one, is an argument. Calls, Cycle and Requests are the calls of a cycle, Flush and
--   Pull the loops over the stage, and Playback and Reads the cycles from the streams to the ring and back.
-- Ohci: include/uf/ohci and include/uf/protocol/identity.hpp. Async is async.hpp, SelfId is selfid.hpp,
--   ConfigRom is configrom.hpp, where a read past the end of the ROM is a result of its own.
--
-- Conventions. A machine word is a natural number with its wrap-around written out (u8 to u64); an i32
-- is the 32-bit word that stands for it. A sample time, a double in the code, is an integer number of
-- frames: the code rounds it to a period first and only adds whole periods, and the rounding of doubles
-- above 2 ^ 53 is not modelled. The conversion of the tick rates from double is not modelled either: the
-- clock is made from whole tick counts. In the ring, the double of a sample time is a type parameter.
-- A loop is structural recursion on a count or a list where it has one. Five loops run on fuel: that over
-- the command queue (a call of pop for each command and one more is enough), that over a client's
-- messages (a call for each message and one for the end), the sending of MIDI (a turn for each byte), the
-- walk over inbound requests (a turn for each; the model gives it one for each byte of the buffer), and the
-- reading of the transmit channel, whose 100 tries are the code's own bound. The loops over the driver's
-- rings take their bound from the cursors.
--
-- Parameters. The socket is a record of recv and send: recv hands out the bytes that were asked for, as
-- MSG_WAITALL promises, or none at the end of the stream; send may take a reply or not. The layout of the
-- settings struct inside its message, which the compiler chooses, is a record of a writer and a reader
-- that undo each other in 48 bytes. A read of the device at a session's start is a function of the try;
-- its writes are taken. The servo of the paced fill, which computes in floating point, is a function from
-- its state to what it decides for a packet. The environment has none of the daemon's diagnostic variables
-- set. The answers of the file calls of a save are inputs.
-- A history of the clock holds calls of next only: a change of its rate (setTicksPerFrame) between them is
-- not modelled. A session's messages are those of the command calls; the hello with which Client::connect
-- begins is handled by the server's handler but is no message of the session.
-- Memory order: a step of Ring.Fifo is one call, a step of Ring.Seqlock one load or store, interleaved
-- in any way but each side in its program order, which is what the release and acquire operations and
-- fences keep. Weaker behaviours are not modelled.
--
-- Not modelled: of the driver, the programming of registers, the asynchronous transactions, the bring-
-- up and the power handling; of the plug-in, the mapping of the rings and the properties of the
-- device; the tools and the terminal interface (platform, tools, tui), which are I/O around these
-- parts; of the daemon, the anchors of the clock that it publishes, the unpaced transmit path, the
-- supervising loop and the threads; the opening of sockets, files and mappings; dB, pan and level
-- meters, which compute in floating point; the transaction log; names and texts for display.
pub mod Base
pub mod CoreAudio
pub mod Ctl
pub mod Daemon
pub mod Dext
pub mod Mixer
pub mod Ohci
pub mod Protocol
pub mod Shared
