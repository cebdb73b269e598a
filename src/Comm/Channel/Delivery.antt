-- ===== src/Comm/Channel/Delivery.antt =====
-- What one side sends, the other side gets: whole messages, in their order, however they are cut.
use icecream.Base.{
  ℕ, ◌-◌, ◌≡◌, refl, ap, ◌∙◌, Bool, true, false, some, List, [], ◌++◌, length, length-append, leb,
  ◌==◌, arith,
}
use icecream.Comm.{Bytes, IsWord, put_u32}
use icecream.Comm.RoundTrip.{read_u32-put_u32}
use icecream.Comm.Behind.{append-put_u32}
use icecream.Comm.FileChunk.{Codec}
use icecream.Comm.FileChunk.RoundTrip.{IsCodec}
use icecream.Comm.Msg.{Msg, text_msg, number, type_of, send_fields, send_to_channel}
use icecream.Comm.Msg.RoundTrip.{IsMsg, carried, read-send_fields, msg_type-number, number-IsWord}
use icecream.Comm.Msg.Behind.{append-send_fields}
use icecream.Comm.Channel.{MsgChannel, msg_there, spoken, update_state, update_len, update_fill}
use icecream.Comm.Channel.Receive.{
  ReadResult, read_as, read_with, read_typed, accept_msg, finish_msg, take_msg, set_error,
  wait_for_msg, get_msg,
}
use icecream.Comm.Channel.Framing.{idle, fed}

-- The message as it stands on the wire, without its length.
abbrev pub body : Codec → ℕ → Msg → Bytes
body codec p m = send_to_channel codec p m []

-- A message, and that its length fits into the four bytes in front of it.
abbrev pub IsSendable : Codec → ℕ → Msg → Type 0
IsSendable codec p m = IsMsg m × IsWord (length (body codec p m))

body-behind :
    (codec : Codec) (p : ℕ) (m : Msg) (behind : Bytes)
    → IsMsg m
    → body codec p m ++ behind ≡ put_u32 (number (type_of m)) (send_fields codec p m behind)
unfolding send_to_channel
body-behind codec p (text_msg line) behind h = absurd h
body-behind codec p m behind h =
    append-put_u32 _ _ behind ∙ ap (put_u32 _) (append-send_fields codec p m [] behind)

read_typed-body :
    (codec : Codec) (p : ℕ) (m : Msg) (behind : Bytes)
    → IsCodec codec
    → IsMsg m
    → read_typed codec p (body codec p m ++ behind) ≡ (some (carried codec p m, false), behind)
unfolding read_typed read_as read_with
read_typed-body codec p m behind laws h =
    let (r, new, read) = read-send_fields codec p m behind laws h in
    rw
      (
        body-behind codec p m behind h,
        read_u32-put_u32 (number-IsWord (type_of m)),
        msg_type-number (type_of m),
        new,
        read,
      )
      refl

-- The channel once a whole message is there.
abbrev full : MsgChannel → ℕ → Bytes → MsgChannel
full c len bytes = record (idle c len) { input = bytes; instate = msg_there }

long_u32 : (n : ℕ) (behind : Bytes) → leb 4 (length (put_u32 n behind)) ≡ true
unfolding put_u32
long_u32 n behind = ground arith

fed-frame :
    (codec : Codec) (c : MsgChannel) (n p : ℕ) (m : Msg) (behind : Bytes)
    → IsSendable codec p m
    → fed c n (put_u32 (length (body codec p m)) (body codec p m) ++ behind)
      ≡ full c (length (body codec p m)) (body codec p m ++ behind)
unfolding update_len update_fill
fed-frame codec c n p m behind h =
    let all = body codec p m ++ behind in
    let long : leb 4 (length (put_u32 (length (body codec p m)) all)) ≡ true =
      long_u32 (length (body codec p m)) all in
    let there : leb (length (body codec p m)) (length all) ≡ true =
      ground (arith, length-append (body codec p m) behind) in
    rw
      (
        append-put_u32 (length (body codec p m)) (body codec p m) behind,
        long,
        read_u32-put_u32 h.1,
        there,
      )
      refl

take_msg-full :
    (codec : Codec) (c : MsgChannel) (m : Msg) (behind : Bytes)
    → IsCodec codec
    → IsSendable codec (spoken c) m
    → take_msg
        (set_error codec)
        codec
        (full c (length (body codec (spoken c) m)) (body codec (spoken c) m ++ behind))
      ≡ (some (carried codec (spoken c) m), fed c (length (body codec (spoken c) m)) behind)
unfolding take_msg finish_msg accept_msg update_state
take_msg-full codec c m behind laws h =
    let whole : (length (body codec (spoken c) m ++ behind) - length behind
          == length (body codec (spoken c) m))
        ≡ true =
      ground (arith, length-append (body codec (spoken c) m) behind) in
    rw (read_typed-body codec (spoken c) m behind laws h.0, whole) refl

-- The next message of a channel that got its bytes, and perhaps more.
pub get_msg-fed :
    (codec : Codec) (f waits eof_allowed : Bool) (reads : List ReadResult) (c : MsgChannel) (n : ℕ)
    (m : Msg) (behind : Bytes)
    → IsCodec codec
    → IsSendable codec (spoken c) m
    → get_msg codec f reads waits eof_allowed
        (fed c n (put_u32 (length (body codec (spoken c) m)) (body codec (spoken c) m) ++ behind))
      ≡ (some (carried codec (spoken c) m), fed c (length (body codec (spoken c) m)) behind)
unfolding get_msg wait_for_msg
get_msg-fed codec f waits eof_allowed reads c n m behind laws h =
    rw (fed-frame codec c n (spoken c) m behind h) (take_msg-full codec c m behind laws h)
