-- ===== src/Comm/Channel.antt =====
-- services/comm.h and services/comm.cpp: MsgChannel, which cuts the bytes of a connection into messages.
--
-- `input` is inbuf from intogo to inofs, `output` is what msgbuf still holds, `sent` is what went out.
-- chop_input, chop_output and the growth of the buffers only move these bytes.
pub mod Receive
pub mod Send
pub mod Framing
pub mod Negotiation
pub mod Delivery
pub mod Stream
pub mod Errors
use icecream.Base.{
  ℕ, zero, suc, ◌+◌, ◌-◌, ◌*◌, ◌/◌, ◌%◌, ◌^◌, min, Bool, true, false, not, ◌&&◌, ◌||◌, [], ◌∷◌,
  ◌++◌, length, ltb, leb, ◌==◌, if◌then◌else◌,
}
use icecream.Base.Int.{ℤ, pos, negsuc, pos_part}
use icecream.Comm.{Bytes, protocol_version, min_protocol_version, read_u32}
use icecream.Comm.Msg.{ends_line}

-- NEED_PROTO, NEED_LEN, FILL_BUF, HAS_MSG and ERROR
pub data InState : Type 0 where
  need_proto need_len fill_buf msg_there in_error : InState

pub record MsgChannel : Type 0 where
  pub protocol : ℤ
  pub maximum_remote_protocol : ℕ
  pub input : Bytes
  pub output : Bytes
  pub sent : Bytes
  pub instate : InState
  pub inmsglen : ℕ
  pub eof : Bool
  pub text_based : Bool

abbrev pub is_error : InState → Bool
is_error in_error = true
is_error s = false

abbrev pub is_msg_there : InState → Bool
is_msg_there msg_there = true
is_msg_there s = false

abbrev pub is_need_proto : InState → Bool
is_need_proto need_proto = true
is_need_proto s = false

-- MsgChannel::has_msg and MsgChannel::at_eof
abbrev pub has_msg : MsgChannel → Bool
has_msg c = c.eof || is_msg_there c.instate

abbrev pub at_eof : MsgChannel → Bool
at_eof c = not (is_msg_there c.instate) && c.eof

-- The version that the two sides agreed on; nothing is sent or read before.
abbrev pub spoken : MsgChannel → ℕ
spoken c = pos_part c.protocol

-- set_error without the attempt to fetch a last message, which is how it goes while one is under way.
abbrev pub stop : MsgChannel → MsgChannel
stop c = record c { instate = in_error; eof = true }

-- A protocol version goes over the wire from its lowest byte to its highest.
unfoldable pub put_version : ℕ → Bytes → Bytes
put_version v behind = v % 256 ∷ v / 2 ^ 8 % 256 ∷ v / 2 ^ 16 % 256 ∷ v / 2 ^ 24 % 256 ∷ behind

-- MsgChannel's constructor: on a channel for messages the own version goes out first.
unfoldable pub new_channel : Bool → Bool → MsgChannel
new_channel text flushes =
    let empty : MsgChannel = record {
      protocol = if text then pos protocol_version else negsuc 0;
      maximum_remote_protocol = 2 ^ 32 - 1;
      input = [];
      output = [];
      sent = [];
      instate = if text then need_len else need_proto;
      inmsglen = 0;
      eof = false;
      text_based = text;
    } in
    let vers = put_version protocol_version [] in
    if text
    then empty
    else if flushes
    then record empty { sent = vers }
    else stop (record empty { protocol = pos 0; output = vers })

-- The answer to the other side's version: the smaller of both, if `flushes`.
unfoldable pub answer_version : Bool → ℕ → MsgChannel → Bool × MsgChannel
answer_version flushes remote_prot c =
    if ltb remote_prot min_protocol_version || ltb (2 ^ 20) remote_prot
    then (false, stop (record c { protocol = pos 0 }))
    else let ours = min remote_prot protocol_version in
      let filled = record c {
        protocol = pos 0;
        maximum_remote_protocol = remote_prot;
        output = c.output ++ put_version ours [];
      } in
      if flushes
      then (
        true,
        record filled { protocol = negsuc ours; output = []; sent = c.sent ++ filled.output },
      )
      else (false, stop filled)

-- One version of the other side, the first or the second.
unfoldable pub hear_version : Bool → ℕ → MsgChannel → Bool × MsgChannel
hear_version flushes remote_prot c = elim c.protocol [
  | negsuc n ↦ elim n [
    | zero ↦ answer_version flushes remote_prot c
    | suc k ↦
        if remote_prot == suc k
        then (true, record c { protocol = pos (suc k); instate = need_len })
        else (false, stop (record c { protocol = pos 0 }))
  ]
  | pos n ↦ (false, stop c)
]

-- `protocol == 0`: the versions did not fit.
abbrev pub protocol_failed : ℤ → Bool
protocol_failed (pos zero) = true
protocol_failed z = false

-- The loop of NEED_PROTO over the input, which is left in front of the first message.
unfoldable pub proto_loop : Bool → MsgChannel → Bytes → Bool × MsgChannel
proto_loop flushes c (v0 ∷ v1 ∷ v2 ∷ v3 ∷ rest) =
    let heard =
      hear_version flushes (v0 + v1 * 2 ^ 8 + v2 * 2 ^ 16 + v3 * 2 ^ 24)
        (record c { input = rest }) in
    let more = proto_loop flushes heard.1 rest in
    if protocol_failed c.protocol
    then (false, c)
    else if heard.0 && is_need_proto heard.1.instate
    then more
    else heard
proto_loop flushes c short = (true, c)

-- FILL_BUF
unfoldable pub update_fill : MsgChannel → MsgChannel
update_fill c = if leb c.inmsglen (length c.input) then record c { instate = msg_there } else c

-- The bytes before the first that ends a line, and whether there is one.
unfoldable pub line_length : Bytes → ℕ × Bool
line_length [] = (0, false)
line_length (c ∷ rest) =
    let (n, found) = line_length rest in if ends_line c then (0, true) else (suc n, found)

-- NEED_LEN. On a channel of texts the loop that is to skip leading whitespace never runs, since intogo
-- does not pass inofs.
unfoldable pub update_len : MsgChannel → MsgChannel
update_len c =
    let (n, found) = line_length c.input in
    let (len, rest) = read_u32 c.input in
    if c.text_based
    then record c { inmsglen = n; instate = if found then msg_there else c.instate }
    else if leb 4 (length c.input)
    then update_fill (record c { inmsglen = len; input = rest; instate = fill_buf })
    else c

-- `flushes` says whether the answer to the other side's version goes out.
unfoldable pub update_state : Bool → MsgChannel → Bool × MsgChannel
update_state flushes c = elim c.instate [
  | need_proto ↦
      let (good, heard) = proto_loop flushes c c.input in
      if good && not (is_need_proto heard.instate) then (true, update_len heard) else (good, heard)
  | need_len ↦ (true, update_len c)
  | fill_buf ↦ (true, update_fill c)
  | msg_there ↦ (true, c)
  | in_error ↦ (false, c)
]
