-- ===== src/Rtmp/ChunkStream.antt =====
-- protocol/rtmp/core/chunk_stream.go: one chunk stream, written and read chunk by chunk.
-- `none` is a panic: a slice out of range, a division by zero, a Get that the pool cannot serve.
mod State
mod Writer
mod Reader
pub mod Wire
pub mod Writing
pub mod Parsing
pub mod Progress
pub mod Steady
unfoldable pub use State.{full, new, slice}
pub use State.{ChunkStream, empty, add32, sub32}
unfoldable pub use Writer.{
  write_basic_header, write_end, write_header, media_csid, on_write, increment, write_part,
  write_round, write_loop, write_chunk,
}
pub use Writer.{put_be, put_le, Written}
unfoldable pub use Reader.{
  get_be, get_le, read_csid, read_extended, with_new, read_full, read_delta_length, read_delta,
  read_repeat, be32, read_continue, read_message_header, splice, read_size, after_read, read_body,
  then_body, read_chunk,
}
pub use Reader.{Reading, Read}
