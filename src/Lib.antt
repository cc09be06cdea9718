-- ===== src/Lib.antt =====
-- livego: a live streaming server. This library models the core of it, with theorems about what
-- the modelled code does.
--
-- Parts and files:
-- * protocol/rtmp/core/read_writer.go is Rtmp/ReadWriter.antt: the buffered reader and writer of a
--   connection. Its input is the list of bytes that arrive before the end of the stream, its output
--   the bytes written so far and the number of bytes that it accepts before a write fails. Both
--   errors are sticky, as in the source. ReadUintBE is `read_uint_be`, WriteUintLE
--   `write_uint_le`, and so on. Rtmp/ReadWriter/Emit.antt and Integers.antt hold its lemmas.
-- * protocol/rtmp/core/chunk_stream.go is Rtmp/ChunkStream.antt, whose State.antt, Writer.antt and
--   Reader.antt hold the definitions. `write_chunk` is writeChunk: a
--   round of its loop is `write_round`, the rounds that follow are its argument. `read_chunk` is
--   readChunk: `read_message_header` is its switch, with a function per case, and `read_body` what
--   follows it. Wire.antt has the bytes of a message in chunks, Writing.antt and Parsing.antt the
--   two directions.
-- * protocol/rtmp/core/conn.go is Rtmp/Conn.antt. Read is a loop of `read_step`; the control
--   messages and the acknowledgement follow in `finish`. It takes the chunk streams by the low six
--   bits of the basic header and buffers from the pool.
-- * protocol/rtmp/core/handshake.go is Rtmp/Handshake.antt. Packet.antt, Digest.antt, Exchange.antt and
--   Safety.antt lead to its theorems. HMAC-SHA256, the random bytes and Flush are parameters.
-- * protocol/rtmp/core/conn_server.go is Rtmp/Session.antt: Server.antt has the state of a session and
--   the steps that its handlers share, Commands.antt a function per handler. `read_msg` is ReadMsg,
--   `handle_cmd_msg` handleCmdMsg, and `then_do` the return on an error. What the package does not
--   define is the record `Outside`; the caches of its Decoder are part of the state. Answers.antt,
--   Phases.antt, Termination.antt and Crash.antt have the theorems.
-- * utils/pool/pool.go is Pool.antt: a slice is named by its array, its first index and its size.
-- * utils/pio is Pio.antt: byte order on slices of bytes.
-- * av/av.go is Av.antt (constants) and Av/Packet.antt.
-- * container/flv/tag.go and demuxer.go are Flv/Tag.antt and Flv/Demuxer.antt: the header of the
--   media that a packet carries.
-- * protocol/rtmp/cache is Cache.antt: Gop.antt, Special.antt and Store.antt, one per file of the
--   source. The player that is sent the packets is a parameter: its Write and its state.
-- * protocol/amf, version 0, is Amf.antt: Value.antt, Encoder.antt (encoder_amf0.go), Decoder.antt
--   (decoder_amf0.go and util.go) and Metadata.antt (metadata.go). A marker switches to version 3:
--   Version3.antt calls DecodeAmf3 on the caches of the Decoder and takes its result, its error or
--   its panic. A value of version 3 that version 0 does not have is `integer` or `opaque`.
-- * protocol/amf/amf.go is Amf/Batch.antt: the choice of a version, and values one after the
--   other; Batch/RoundTrip.antt has the theorem on them.
-- * protocol/amf, version 3, is Amf3.antt: Item.antt (the values and the caches of a Decoder),
--   Encoder.antt (encoder_amf3.go), Reader.antt and Decoder.antt (decoder_amf3.go) and External.antt
--   (decoder_amf3_external.go). Float operations and the handlers of external classes are
--   parameters. `Reads` is a decoder with its reader and caches; `panicked` is an index out of
--   range, such as a reference to nothing.
-- * container/ts is Ts.antt: Buffer.antt, Pes.antt and Muxer.antt have Mux and what it writes,
--   Tables.antt PAT and PMT, Crc.antt crc32.go. A round of the loop of Mux makes a packet in the
--   array of the muxer; the writer is a parameter, its Write and its state. The other files lead to
--   the theorems: Receiver.antt is a receiver of packets that knows nothing of the muxer.
-- * protocol/hls is Hls.antt: Align.antt, AudioCache.antt and Status.antt, one per file of the source,
--   and Window.antt for item.go and cache.go. Keys.antt, Listing.antt and Recent.antt lead to the
--   theorem on the last segments. The map of a cache is a function.
-- * configure/channel.go is RoomKeys.antt. The third-party cache is a parameter, a record of its
--   operations with what its package documents of them; so are the strings that are drawn.
-- * av/rwbase.go is Av/Timestamps.antt, without the clock.
-- Prelude.antt has the names and lemmas that the files share, Runs.antt concrete runs.
--
-- Conventions. `none` as the result of an operation is a panic, `some` holds the error or nil and
-- the state that the operation leaves. Integers are natural numbers with the wrap-around of their
-- width written out; a signed integer is its bit pattern. The capacity of a slice is taken to be
-- its length. Slices from the pool are fresh, so a new message buffer holds zeros.
--
-- Bounds and fuel. The loop of Read has fuel: each round takes a byte of the input or fails, so
-- one round more than there are bytes is enough. The decoders of AMF have fuel too: each call
-- that is nested in another has a byte less to read, and so has each round of a dynamic object or
-- of a batch. ReadMsg too takes a byte in each round, so its fuel is one more than the bytes.
-- The loop of Mux has 20 rounds more than the payload has bytes: a packet takes a byte at least,
-- and the PES header has at most 19. The other loops run down a list or a number that the source
-- counts to.
--
-- Not modelled: sockets, deadlines, Close and Flush, which is a parameter where it is called; the
-- client side of a session; the stream table and
-- its goroutines; the cutting of a stream into HLS segments and the text of a playlist, the
-- HTTP-FLV server, the codec parsers; the HTTP interface and the configuration. PAT and PMT return
-- the array of the muxer, which the next call writes to; here they return a copy. What an AMF
-- decoder returns beside an error is dropped, but for the values of a batch. On a failed read the
-- entry of the map shares the buffer that was partly filled; this sharing is not modelled, since a
-- connection is closed on an error.
pub mod Prelude
pub mod Pio
pub mod Av
pub mod Amf
pub mod Amf3
pub mod Flv
pub mod Cache
pub mod Pool
pub mod RoomKeys
pub mod Rtmp
pub mod Ts
pub mod Runs
pub mod Hls
