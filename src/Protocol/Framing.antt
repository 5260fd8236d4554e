-- ===== src/Protocol/Framing.antt =====
-- pkg/relayconn/framing.go: frames with a two-byte length on a byte stream. The stream is the list of
-- bytes still to be read; a read past its end is an error that consumes what is left.
pub mod RoundTrip
use kamune.Prelude.{
  ℕ, ◌+◌, ◌%◌, Bool, ◌&&◌, if◌then◌else◌, ltb, List, [], ◌∷◌, ◌++◌, Bytes, length, take, drop,
  put_uint16, uint16, Result, ok, err, ◌>>=◌,
}

pub data FrameError : Type 0 where
  read_length read_data : FrameError
  too_large : ℕ → FrameError

-- binary.Read and io.ReadFull of `n` bytes: the bytes and the rest of the stream.
unfoldable pub read_full : ℕ → Bytes → FrameError → Result FrameError (Bytes × Bytes)
read_full n stream e = if ltb (length stream) n then err e else ok (take n stream, drop n stream)

-- `max_size` 0 is no limit.
unfoldable pub read_bytes : ℕ → Bytes → Result FrameError (Bytes × Bytes)
read_bytes max_size stream = do
  (header, rest) ← read_full 2 stream read_length
  if ltb 0 max_size && ltb max_size (uint16 header)
      then err (too_large (uint16 header))
      else read_full (uint16 header) rest read_data

-- What WriteBytes puts on the stream: the length is converted to a uint16, and all bytes follow.
unfoldable pub write_bytes : Bytes → Bytes
write_bytes payload = put_uint16 (length payload % 65536) ++ payload
