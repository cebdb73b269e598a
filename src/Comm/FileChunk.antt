-- ===== src/Comm/FileChunk.antt =====
-- services/comm.cpp: FileChunkMsg, which carries a part of a file, compressed: readcompressed and
-- writecompressed. The compression libraries are parameters. ZSTD_compress is taken not to fail, for a
-- buffer of ZSTD_COMPRESSBOUND bytes.
pub mod RoundTrip
pub mod Checks
use icecream.Base.{
  ℕ, zero, suc, ◌^◌, Bool, true, false, not, ◌&&◌, ◌||◌, Option, none, some, List, [], ◌∷◌, ◌++◌,
  length, ltb, ◌==◌, if◌then◌else◌,
}
use icecream.Comm.{
  Bytes, Writer, Reader, put_u32, read_u32, put_since, read_since, is_protocol_version, drop,
}

-- The first argument of the decompressors is the size of the buffer for the result.
pub record Codec : Type 0 where
  pub zstd_compress : Bytes → Bytes
  pub zstd_decompress : ℕ → Bytes → Option Bytes
  pub lzo_compress : Bytes → Option Bytes
  pub lzo_decompress : ℕ → Bytes → Option Bytes

-- MAX_MSG_SIZE
abbrev pub max_msg_size : ℕ
max_msg_size = 2 ^ 20

-- enum Compression
abbrev pub c_lzo : ℕ
c_lzo = 0

abbrev pub c_zstd : ℕ
c_zstd = 1

-- `buffer` none is a null pointer.
pub record FileChunk : Type 0 where
  pub buffer : Option Bytes
  pub len : ℕ
  pub compressed : ℕ

unfoldable pub take {ℓ} : {A : Type ℓ} → ℕ → List A → List A
take zero xs = []
take (suc n) [] = []
take (suc n) (x ∷ xs) = x ∷ take n xs

-- What a decompressor leaves: without a result the buffer goes, and the length is 0.
abbrev pub unpacked : ℕ → Option Bytes → (Bytes → ℕ) → FileChunk
unpacked compressed_len none len = record { buffer = none; len = 0; compressed = compressed_len }
unpacked compressed_len (some b) len = record {
  buffer = some b;
  len = len b;
  compressed = compressed_len;
}

-- Zstd's own count of the bytes is not looked at, LZO's is the length.
unfoldable pub decompress : Codec → ℕ → ℕ → ℕ → Bytes → FileChunk
decompress codec proto uncompressed_len compressed_len compressed_buf =
    if not (uncompressed_len == 0) && not (compressed_len == 0)
    then (if proto == c_zstd
        then unpacked compressed_len (codec.zstd_decompress uncompressed_len compressed_buf)
            (λ b. uncompressed_len)
        else unpacked compressed_len (codec.lzo_decompress uncompressed_len compressed_buf) length)
    else record { buffer = some []; len = uncompressed_len; compressed = compressed_len }

-- Nothing is read, and the channel is to be set into its error state.
abbrev pub refused : ℕ → FileChunk × Bool
refused compressed_len = (record { buffer = none; len = 0; compressed = compressed_len }, true)

-- The tests of the lengths, the last of which only says what the second says.
abbrev pub bad_lengths : ℕ → ℕ → ℕ → Bool
bad_lengths uncompressed_len compressed_len left =
    ltb max_msg_size uncompressed_len
    || ltb left compressed_len
    || not (uncompressed_len == 0) && compressed_len == 0

-- What readcompressed does with the rest of the input, once the three numbers are read.
unfoldable pub read_chunk : Codec → ℕ → ℕ → ℕ → Reader (FileChunk × Bool)
read_chunk codec uncompressed_len compressed_len proto input =
    if not (proto == c_lzo) && not (proto == c_zstd)
    then (refused compressed_len, input)
    else if bad_lengths uncompressed_len compressed_len (length input)
    then (refused compressed_len, input)
    else (
      (decompress codec proto uncompressed_len compressed_len (take compressed_len input), false),
      drop compressed_len input,
    )

-- The Boolean says that set_error was called.
unfoldable pub readcompressed : Codec → ℕ → Reader (FileChunk × Bool)
readcompressed codec protocol input =
    let (uncompressed_len, after_uncompressed) = read_u32 input in
    let (compressed_len, after_compressed) = read_u32 after_uncompressed in
    let (proto, rest) = read_since 40 protocol read_u32 c_lzo after_compressed in
    read_chunk codec uncompressed_len compressed_len proto rest

-- The compressed bytes: none if LZO fails.
abbrev or_empty : Option Bytes → Bytes
or_empty none = []
or_empty (some b) = b

unfoldable pub compress : Codec → ℕ → Bytes → Bytes
compress codec protocol in_buf =
    if is_protocol_version 40 protocol
    then codec.zstd_compress in_buf
    else or_empty (codec.lzo_compress in_buf)

unfoldable pub writecompressed : Codec → ℕ → Bytes → Writer
writecompressed codec protocol in_buf behind =
    let out_buf = compress codec protocol in_buf in
    put_u32 (length in_buf)
      (put_u32 (length out_buf) (put_since 40 protocol (put_u32 c_zstd) (out_buf ++ behind)))

-- The `len` bytes at `buffer`.
unfoldable pub contents : FileChunk → Bytes
contents m = elim m.buffer [ none ↦ [] | some b ↦ take m.len b ]

unfoldable pub fill_file_chunk : Codec → ℕ → Reader (FileChunk × Bool)
fill_file_chunk = readcompressed

unfoldable pub send_file_chunk : Codec → ℕ → FileChunk → Writer
send_file_chunk codec protocol m = writecompressed codec protocol (contents m)
