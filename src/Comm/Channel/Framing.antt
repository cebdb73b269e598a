-- ===== src/Comm/Channel/Framing.antt =====
-- A channel that waits for messages gets them whole, however the network cuts their bytes.
use mathlib.Core.List.{append-nil, append_assoc}
use icecream.Base.{
  ℕ, ◌≡◌, refl, sym, ap, ◌∙◌, Bool, true, false, Bool-cases, inl, inr, List, [], ◌∷◌, ◌++◌, length,
  length-append, leb, arith,
}
use icecream.Comm.{Bytes, read_u32}
use icecream.Comm.FileChunk.{Codec}
use icecream.Comm.Channel.{MsgChannel, need_len, fill_buf, update_state, update_len, update_fill}
use icecream.Comm.Channel.Receive.{got, read_a_bit}

-- A channel for messages, with the protocol set up, the connection up and nothing read.
abbrev pub idle : MsgChannel → ℕ → MsgChannel
idle c n = record c {
  input = [];
  instate = need_len;
  inmsglen = n;
  eof = false;
  text_based = false;
}

-- The same channel, once some bytes came.
abbrev pub fed : MsgChannel → ℕ → Bytes → MsgChannel
fed c n bytes = update_len (record (idle c n) { input = bytes })

-- The channel while it fills its buffer with a message of the given length.
abbrev pub filling : MsgChannel → ℕ → Bytes → MsgChannel
filling c len bytes = record (idle c len) { input = bytes; instate = fill_buf }

-- The bytes come in several reads.
abbrev pub feed : Codec → Bool → List Bytes → MsgChannel → MsgChannel
feed codec flushes [] c = c
feed codec flushes (bytes ∷ chunks) c =
    feed codec flushes chunks (read_a_bit codec flushes (got bytes) c).1

abbrev pub join : List Bytes → Bytes
join [] = []
join (bytes ∷ chunks) = bytes ++ join chunks

pub fed-long :
    (c : MsgChannel) (n b3 b2 b1 b0 : ℕ) (rest : Bytes)
    → fed c n (b3 ∷ b2 ∷ b1 ∷ b0 ∷ rest)
      ≡ update_fill (filling c (read_u32 (b3 ∷ b2 ∷ b1 ∷ b0 ∷ [])).0 rest)
unfolding update_len read_u32
fed-long c n b3 b2 b1 b0 rest =
    let long : leb 4 (length (b3 ∷ b2 ∷ b1 ∷ b0 ∷ rest)) ≡ true = ground arith in rw long refl

read_a_bit-filling :
    (codec : Codec) (f : Bool) (c : MsgChannel) (len : ℕ) (bytes more : Bytes)
    → (read_a_bit codec f (got more) (update_fill (filling c len bytes))).1
      ≡ update_fill (filling c len (bytes ++ more))
unfolding read_a_bit update_state update_fill
read_a_bit-filling codec f c len bytes more = elim (Bool-cases (leb len (length bytes))) [
  | inl full ↦
      let still : leb len (length (bytes ++ more)) ≡ true =
        ground (arith, length-append bytes more, full) in
      rw (full, still) refl
  | inr part ↦ rw part refl
]

-- One read more.
read_a_bit-fed :
    (codec : Codec) (f : Bool) (c : MsgChannel) (n : ℕ) (bytes more : Bytes)
    → (read_a_bit codec f (got more) (fed c n bytes)).1 ≡ fed c n (bytes ++ more)
unfolding read_a_bit update_state update_len
read_a_bit-fed codec f c n [] more = refl
read_a_bit-fed codec f c n (a ∷ []) more = refl
read_a_bit-fed codec f c n (a ∷ b ∷ []) more = refl
read_a_bit-fed codec f c n (a ∷ b ∷ d ∷ []) more = refl
read_a_bit-fed codec f c n (b3 ∷ b2 ∷ b1 ∷ b0 ∷ rest) more =
    rw (fed-long c n b3 b2 b1 b0 rest, fed-long c n b3 b2 b1 b0 (rest ++ more))
      (read_a_bit-filling codec f c _ rest more)

pub feed-fed :
    (codec : Codec) (f : Bool) (c : MsgChannel) (n : ℕ) (chunks : List Bytes) (bytes : Bytes)
    → feed codec f chunks (fed c n bytes) ≡ fed c n (bytes ++ join chunks)
feed-fed codec f c n [] bytes = rw append-nil refl
feed-fed codec f c n (more ∷ chunks) bytes =
    rw (read_a_bit-fed codec f c n bytes more)
      (feed-fed codec f c n chunks (bytes ++ more) ∙ ap (fed c n) (append_assoc bytes more _))

-- However the bytes are cut into reads, the channel ends in the same state as if they came at once.
pub feed-join :
    (codec : Codec) (f : Bool) (c : MsgChannel) (n : ℕ) (chunks : List Bytes)
    → feed codec f chunks (idle c n) ≡ (read_a_bit codec f (got (join chunks)) (idle c n)).1
unfolding update_len
feed-join codec f c n chunks =
    feed-fed codec f c n chunks [] ∙ sym (read_a_bit-fed codec f c n [] (join chunks))
