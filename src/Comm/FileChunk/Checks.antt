-- ===== src/Comm/FileChunk/Checks.antt =====
-- readcompressed on any input at all: what it hands on is within its bounds.
use icecream.Base.{
  ℕ, ◌≡◌, refl, ◌≤◌, Bool, false, not, ◌&&◌, Option, none, some, length, ◌==◌, if◌then◌else◌,
  if_of_both, if_of_each, arith,
}
use icecream.Comm.{Bytes, read_u32, read_since}
use icecream.Comm.FileChunk.{
  Codec, FileChunk, max_msg_size, c_lzo, c_zstd, unpacked, decompress, bad_lengths, read_chunk,
  readcompressed, fill_file_chunk,
}

-- LZO does not write more than fits into the buffer.
abbrev pub IsBounded : Codec → Type 0
IsBounded codec = (n : ℕ) (c b : Bytes) → codec.lzo_decompress n c ≡ some b → length b ≤ n

-- Nothing is handed on after an error; else no more than the limit, made of bytes that came.
abbrev pub IsWithin : FileChunk × Bool → ℕ → Type 0
IsWithin r left =
    if r.1
    then (r.0.buffer ≡ none) × (r.0.len ≡ 0)
    else (r.0.len ≤ max_msg_size) × (r.0.compressed ≤ left)

unpacked-IsWithin :
    (n left : ℕ) (o : Option Bytes) (len : Bytes → ℕ)
    → n ≤ left
    → ((b : Bytes) → o ≡ some b → len b ≤ max_msg_size)
    → IsWithin (unpacked n o len, false) left
unpacked-IsWithin n left none len h k = (omega arith, h)
unpacked-IsWithin n left (some b) len h k = (k b refl, h)

decompress-IsWithin :
    (codec : Codec) (proto ulen clen left : ℕ) (buf : Bytes)
    → IsBounded codec
    → ulen ≤ max_msg_size
    → clen ≤ left
    → IsWithin (decompress codec proto ulen clen buf, false) left
unfolding decompress
decompress-IsWithin codec proto ulen clen left buf h u c =
    if_of_both (λ (m : FileChunk). IsWithin (m, false) left) (not (ulen == 0) && not (clen == 0)) _
      _
      (if_of_both (λ (m : FileChunk). IsWithin (m, false) left) (proto == c_zstd) _ _
        (unpacked-IsWithin clen left _ _ c (λ b e. u))
        (unpacked-IsWithin clen left (codec.lzo_decompress ulen buf) length c
          (λ b e. omega (arith, h ulen buf b e, u))))
      (u, c)

read_chunk-IsWithin :
    (codec : Codec) (ulen clen proto : ℕ) (input : Bytes)
    → IsBounded codec
    → IsWithin (read_chunk codec ulen clen proto input).0 (length input)
unfolding read_chunk
read_chunk-IsWithin codec ulen clen proto input h =
    if_of_both (λ (r : (FileChunk × Bool) × Bytes). IsWithin r.0 (length input))
      (not (proto == c_lzo) && not (proto == c_zstd)) _ _ (refl, refl)
      (if_of_each (λ (r : (FileChunk × Bool) × Bytes). IsWithin r.0 (length input))
        (bad_lengths ulen clen (length input)) _ _ (λ e. (refl, refl))
        (λ e.
          decompress-IsWithin codec proto ulen clen (length input) _ h (ground (arith, e))
            (ground (arith, e))))

-- The bytes behind the numbers in front of a chunk, of which there are two, and from version 40 on
-- three.
abbrev pub behind_numbers : ℕ → Bytes → Bytes
behind_numbers p input = (read_since 40 p read_u32 c_lzo (read_u32 (read_u32 input).1).1).1

-- Whatever bytes come as a chunk, and whatever they say of its lengths: if readcompressed refuses
-- them it hands on no buffer and length 0, and else at most 1 MB, for no more compressed bytes than
-- there are behind the numbers. LZO must keep within its buffer.
pub fill_file_chunk-IsWithin :
    (codec : Codec) (p : ℕ) (input : Bytes)
    → IsBounded codec
    → IsWithin (fill_file_chunk codec p input).0 (length (behind_numbers p input))
unfolding fill_file_chunk readcompressed
fill_file_chunk-IsWithin codec p input h =
    read_chunk-IsWithin codec _ _ _ (behind_numbers p input) h
