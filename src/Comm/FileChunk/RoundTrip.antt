-- ===== src/Comm/FileChunk/RoundTrip.antt =====
-- A chunk of a file comes over the wire as it was sent, if the compression library does what it is for.
use icecream.Base.{
  ℕ, ◌≡◌, refl, ap, ◌<◌, ◌≤◌, false, Bool-cases, inl, inr, not, ◌&&◌, Option, some, [], ◌∷◌, ◌++◌,
  length, length-append, ◌==◌, if◌then◌else◌, arith,
}
use icecream.Comm.{Bytes, IsWord, is_protocol_version, put_since, read_since, drop}
use icecream.Comm.RoundTrip.{read_u32-put_u32}
use icecream.Comm.FileChunk.{
  Codec, FileChunk, max_msg_size, c_lzo, c_zstd, take, decompress, bad_lengths, read_chunk,
  readcompressed, compress, writecompressed, fill_file_chunk,
}

-- `c` is what a compressor makes of `b`: it is not empty, its length fits into 32 bits, and it gives `b`
-- back.
abbrev pub IsPacked : (ℕ → Bytes → Option Bytes) → Bytes → Bytes → Type 0
IsPacked unpack b c = (unpack (length b) c ≡ some b) × (0 < length c) × IsWord (length c)

-- Both libraries give back what they compressed, for all that may be in a message.
pub record IsCodec (codec : Codec) : Type 0 where
  pub zstd :
      (b : Bytes)
      → length b ≤ max_msg_size
      → IsPacked codec.zstd_decompress b (codec.zstd_compress b)
  pub lzo :
      (b : Bytes)
      → length b ≤ max_msg_size
      → (c : Bytes) × (codec.lzo_compress b ≡ some c) × IsPacked codec.lzo_decompress b c

take-append : (c behind : Bytes) → take (length c) (c ++ behind) ≡ c
unfolding take
take-append [] behind = refl
take-append (b ∷ c) behind = ap (λ t. b ∷ t) (take-append c behind)

drop-append : (c behind : Bytes) → drop (length c) (c ++ behind) ≡ behind
unfolding drop
drop-append [] behind = refl
drop-append (b ∷ c) behind = drop-append c behind

-- The protocol of the compression.
abbrev proto_of : ℕ → ℕ
proto_of p = if is_protocol_version 40 p then c_zstd else c_lzo

abbrev chunk : Bytes → Bytes → FileChunk
chunk b c = record { buffer = some b; len = length b; compressed = length c }

decompress-zstd :
    (codec : Codec) (b c : Bytes)
    → IsPacked codec.zstd_decompress b c
    → decompress codec c_zstd (length b) (length c) c ≡ chunk b c
unfolding decompress
decompress-zstd codec [] c h = refl
decompress-zstd codec (x ∷ b) c h = rw h.0 (ground (arith, h.1))

decompress-lzo :
    (codec : Codec) (b c : Bytes)
    → IsPacked codec.lzo_decompress b c
    → decompress codec c_lzo (length b) (length c) c ≡ chunk b c
unfolding decompress
decompress-lzo codec [] c h = refl
decompress-lzo codec (x ∷ b) c h = rw h.0 (ground (arith, h.1))

-- What is compressed passes the tests of readcompressed and is decompressed again.
abbrev IsSound : Codec → ℕ → Bytes → Bytes → Type 0
IsSound codec proto b c =
    (decompress codec proto (length b) (length c) c ≡ chunk b c)
    × (0 < length c)
    × IsWord (length c)

compress-IsSound :
    (codec : Codec) (p : ℕ) (b : Bytes)
    → IsCodec codec
    → length b ≤ max_msg_size
    → IsSound codec (proto_of p) b (compress codec p b)
unfolding compress
compress-IsSound codec p b h fits = elim (Bool-cases (is_protocol_version 40 p)) [
  | inl new ↦
      let packed = h.zstd b fits in rw new (decompress-zstd codec b _ packed, packed.1, packed.2)
  | inr older ↦
      let (c, made, packed) = h.lzo b fits in
      rw (older, made) (decompress-lzo codec b c packed, packed.1, packed.2)
]

read_chunk-append :
    (codec : Codec) (p : ℕ) (b c behind : Bytes)
    → length b ≤ max_msg_size
    → IsSound codec (proto_of p) b c
    → read_chunk codec (length b) (length c) (proto_of p) (c ++ behind)
      ≡ ((chunk b c, false), behind)
unfolding read_chunk
read_chunk-append codec p b c behind fits h =
    let known : (not (proto_of p == c_lzo) && not (proto_of p == c_zstd)) ≡ false = ground arith in
    let good : bad_lengths (length b) (length c) (length (c ++ behind)) ≡ false =
      ground (arith, length-append c behind, h.1) in
    rw (known, good, take-append c behind, drop-append c behind, h.0) refl

pub fill_file_chunk-writecompressed :
    (codec : Codec) (p : ℕ) (b behind : Bytes)
    → IsCodec codec
    → length b ≤ max_msg_size
    → fill_file_chunk codec p (writecompressed codec p b behind) ≡ (
      (record { buffer = some b; len = length b; compressed = length (compress codec p b) }, false),
      behind,
    )
unfolding fill_file_chunk readcompressed writecompressed read_since put_since
fill_file_chunk-writecompressed codec p b behind h fits =
    let sound = compress-IsSound codec p b h fits in
    let read = read_chunk-append codec p b _ behind fits sound in
    rw (read_u32-put_u32 {n = length b} (omega (arith, fits)), read_u32-put_u32 sound.2)
      (elim (Bool-cases (is_protocol_version 40 p)) [
        | inl new ↦ rw (new, read_u32-put_u32 {n = c_zstd} (omega arith)) (rw new at read)
        | inr older ↦ rw older (rw older at read)
      ])
