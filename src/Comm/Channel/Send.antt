-- ===== src/Comm/Channel/Send.antt =====
-- services/comm.cpp: MsgChannel's writing: wait_for_protocol, flush_writebuf and send_msg.
use icecream.Base.{
  Bool, true, false, not, ◌&&◌, ◌||◌, List, [], ◌∷◌, ◌++◌, length, ltb, if◌then◌else◌,
}
use icecream.Comm.{Bytes, put_u32}
use icecream.Comm.FileChunk.{Codec}
use icecream.Comm.Msg.{Msg, send_fields, send_to_channel}
use icecream.Comm.Channel.{MsgChannel, is_error, is_need_proto, spoken, protocol_failed}
use icecream.Comm.Channel.Receive.{ReadResult, read_a_bit, set_error}

-- The loop of wait_for_protocol. When there is no answer of read(2) left, poll(2) times out.
unfoldable pub wait_for_protocol : Codec → Bool → List ReadResult → MsgChannel → Bool × MsgChannel
wait_for_protocol codec flushes [] c =
    if protocol_failed c.protocol || is_error c.instate
    then (false, c)
    else if is_need_proto c.instate
    then (false, set_error codec c)
    else (true, c)
wait_for_protocol codec flushes (r ∷ reads) c =
    let (good, updated) = read_a_bit codec flushes r c in
    let more = wait_for_protocol codec flushes reads updated in
    if protocol_failed c.protocol || is_error c.instate
    then (false, c)
    else if is_need_proto c.instate
    then (if not good || updated.eof then (false, updated) else more)
    else (true, c)

-- flush_writebuf: all that is there goes out, unless there is an error on the way.
unfoldable pub flush_writebuf : Codec → Bool → MsgChannel → Bool × MsgChannel
flush_writebuf codec flushes c =
    if flushes
    then (true, record c { output = []; sent = c.sent ++ c.output })
    else (false, set_error codec c)

-- A message as it stands in msgbuf: its length in front, except on a channel of texts, where no type
-- is sent either.
unfoldable pub frame : Codec → MsgChannel → Msg → Bytes
frame codec c m =
    if c.text_based
    then send_fields codec (spoken c) m []
    else let body = send_to_channel codec (spoken c) m [] in put_u32 (length body) body

-- What send_msg does once the protocol is known.
unfoldable pub put_msg : Codec → Bool → Bool → Msg → MsgChannel → Bool × MsgChannel
put_msg codec flushes bulk_only m c =
    let filled = record c { output = c.output ++ frame codec c m } in
    let flushed = flush_writebuf codec flushes filled in
    if bulk_only && ltb (length filled.output) 4096 then (true, filled) else flushed

-- `bulk_only` is the flag SendBulkOnly; whether the caller blocks is part of `flushes`.
unfoldable pub send_msg :
    Codec → Bool → List ReadResult → Bool → Msg → MsgChannel → Bool × MsgChannel
send_msg codec flushes reads bulk_only m c =
    let (good, known) = wait_for_protocol codec flushes reads c in
    if is_error c.instate
    then (false, c)
    else if is_need_proto c.instate && not good
    then (false, known)
    else put_msg codec flushes bulk_only m (if is_need_proto c.instate then known else c)
