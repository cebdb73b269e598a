-- ===== src/Comm/Channel/Stream.antt =====
-- A whole stream of messages: what send_msg puts out on one side, get_msg gives on the other.
use mathlib.Core.List.{append-nil, append_assoc}
use icecream.Base.{
  ℕ, zero, suc, ◌≡◌, refl, sym, ap, ◌∙◌, Bool, true, false, Bool-cases, inl, inr, Option, none,
  some, List, [], ◌∷◌, ◌++◌, map, All, length, ltb, ◌&&◌,
}
use icecream.Comm.{Bytes, put_u32}
use icecream.Comm.FileChunk.{Codec}
use icecream.Comm.FileChunk.RoundTrip.{IsCodec}
use icecream.Comm.Msg.{Msg}
use icecream.Comm.Msg.RoundTrip.{carried}
use icecream.Comm.Channel.{MsgChannel, spoken, update_len}
use icecream.Comm.Channel.Receive.{get_msg}
use icecream.Comm.Channel.Send.{frame, flush_writebuf, put_msg, send_msg}
use icecream.Comm.Channel.Framing.{idle, fed, feed, join, feed-fed}
use icecream.Comm.Channel.Delivery.{body, IsSendable, get_msg-fed}

-- All that a channel has written, whether it is out or not.
abbrev pub written : MsgChannel → Bytes
written s = s.sent ++ s.output

-- The messages of a list, each with the flag SendBulkOnly or without; the network takes all.
abbrev pub send_all : Codec → List (Msg × Bool) → MsgChannel → MsgChannel
send_all codec [] s = s
send_all codec ((m, bulk_only) ∷ ms) s = send_all codec ms (send_msg codec true [] bulk_only m s).1

abbrev prepend : Option Msg → List Msg → List Msg
prepend none ms = ms
prepend (some m) ms = m ∷ ms

-- The messages that a number of calls of get_msg give, none of which waits.
abbrev pub get_all : Codec → ℕ → MsgChannel → List Msg
get_all codec zero c = []
get_all codec (suc n) c =
    let (m, rest) = get_msg codec true [] false true c in prepend m (get_all codec n rest)

-- The frames of the messages, one behind the other.
abbrev frames : Codec → ℕ → List (Msg × Bool) → Bytes
frames codec p [] = []
frames codec p ((m, bulk_only) ∷ ms) =
    put_u32 (length (body codec p m)) (body codec p m) ++ frames codec p ms

-- One message sent is one frame more.
send_msg-idle :
    (codec : Codec) (bulk_only : Bool) (m : Msg) (s : MsgChannel) (n : ℕ)
    → (t : MsgChannel) × ((send_msg codec true [] bulk_only m (idle s n)).1 ≡ idle t n)
      × (spoken t ≡ spoken s)
      × (written t
          ≡ written s ++ put_u32 (length (body codec (spoken s) m)) (body codec (spoken s) m))
unfolding send_msg put_msg flush_writebuf frame
send_msg-idle codec bulk_only m s n =
    let framed = put_u32 (length (body codec (spoken s) m)) (body codec (spoken s) m) in
    elim (Bool-cases (bulk_only && ltb (length (s.output ++ framed)) 4096)) [
      | inl held ↦ (
        record s { output = s.output ++ framed },
        rw held refl,
        refl,
        sym (append_assoc s.sent s.output framed),
      )
      | inr out ↦ (
        record s { output = []; sent = s.sent ++ (s.output ++ framed) },
        rw out refl,
        refl,
        append-nil (s.sent ++ (s.output ++ framed)) ∙ sym (append_assoc s.sent s.output framed),
      )
    ]

written-send_all :
    (codec : Codec) (ms : List (Msg × Bool)) (s : MsgChannel) (n : ℕ)
    → written (send_all codec ms (idle s n)) ≡ written s ++ frames codec (spoken s) ms
written-send_all codec [] s n = sym (append-nil (written s))
written-send_all codec ((m, bulk_only) ∷ ms) s n =
    let (t, sent, same, more) = send_msg-idle codec bulk_only m s n in
    ap (λ x. written (send_all codec ms x)) sent
    ∙ written-send_all codec ms t n
    ∙ rw (same, more) (append_assoc (written s) _ _)

-- After a message that may not wait nothing is held back.
output-send_all :
    (codec : Codec) (ms : List (Msg × Bool)) (m : Msg) (s : MsgChannel) (n : ℕ)
    → (send_all codec (ms ++ ((m, false) ∷ [])) (idle s n)).output ≡ []
unfolding send_msg put_msg flush_writebuf
output-send_all codec [] m s n = refl
output-send_all codec ((m', bulk_only) ∷ ms) m s n =
    let (t, sent, same, more) = send_msg-idle codec bulk_only m' s n in
    ap (λ x. (send_all codec (ms ++ ((m, false) ∷ [])) x).output) sent
    ∙ output-send_all codec ms m t n

all_out : (c : MsgChannel) → c.output ≡ [] → c.sent ≡ written c
all_out c e = rw e (sym (append-nil c.sent))

-- Each frame read gives its message.
get_all-fed :
    (codec : Codec) (ms : List (Msg × Bool)) (r : MsgChannel) (n : ℕ)
    → IsCodec codec
    → All (λ t. IsSendable codec (spoken r) t.0) ms
    → get_all codec (length ms) (fed r n (frames codec (spoken r) ms))
      ≡ map (λ t. carried codec (spoken r) t.0) ms
get_all-fed codec [] r n laws h = refl
get_all-fed codec ((m, bulk_only) ∷ ms) r n laws h =
    rw (get_msg-fed codec true false true [] r n m (frames codec (spoken r) ms) laws h.0) (
      ap (λ more. carried codec (spoken r) m ∷ more)
        (get_all-fed codec ms r (length (body codec (spoken r) m)) laws h.1))

-- Two channels with a common protocol are a queue of messages: what send_msg takes on one side, held
-- back for bulk transfer or not, get_msg gives on the other, in the same order and each as far as the
-- protocol carries it, however the network cuts the bytes that went out. The last message must not be
-- one that may wait, the compression library must work, and the messages must fit.
pub get_all-send_all :
    (codec : Codec) (s r : MsgChannel) (n k : ℕ) (ms : List (Msg × Bool)) (last : Msg)
    (chunks : List Bytes)
    → IsCodec codec
    → spoken s ≡ spoken r
    → s.sent ≡ []
    → s.output ≡ []
    → All (λ t. IsSendable codec (spoken r) t.0) (ms ++ ((last, false) ∷ []))
    → join chunks ≡ (send_all codec (ms ++ ((last, false) ∷ [])) (idle s n)).sent
    → get_all codec (length (ms ++ ((last, false) ∷ []))) (feed codec true chunks (idle r k))
      ≡ map (λ t. carried codec (spoken r) t.0) (ms ++ ((last, false) ∷ []))
unfolding update_len
get_all-send_all codec s r n k ms last chunks laws same unsent flushed h arrived =
    let all = ms ++ ((last, false) ∷ []) in
    let stream : join chunks ≡ frames codec (spoken r) all =
      arrived
      ∙ all_out (send_all codec all (idle s n)) (output-send_all codec ms last s n)
      ∙ written-send_all codec all s n
      ∙ rw (unsent, flushed, same) refl in
    rw (feed-fed codec true r k chunks [], stream) (get_all-fed codec all r k laws h)
