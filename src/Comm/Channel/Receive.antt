-- ===== src/Comm/Channel/Receive.antt =====
-- services/comm.cpp: MsgChannel's reading: read_a_bit, wait_for_msg, get_msg and set_error.
use icecream.Base.{
  ℕ, ◌-◌, Bool, true, false, not, ◌||◌, Option, none, some, List, [], ◌∷◌, ◌++◌, length, ◌==◌,
  if◌then◌else◌,
}
use icecream.Comm.{Bytes, read_u32, drop}
use icecream.Comm.FileChunk.{Codec, take}
use icecream.Comm.Msg.{MsgType, Reading, msg_type, new_msg, Msg, text_msg, ends_line}
use icecream.Comm.Channel.{
  need_len, msg_there, in_error, MsgChannel, is_error, has_msg, at_eof, spoken, stop, update_state,
}

-- What read(2) answers: some bytes, the end of the file, that there is nothing now, or an error.
pub data ReadResult : Type 0 where
  got : Bytes → ReadResult
  closed nothing broken : ReadResult

-- read_line: the line, and the input behind it and the bytes that end lines.
unfoldable pub skip_ends : Bytes → Bytes
skip_ends [] = []
skip_ends (c ∷ rest) = let more = skip_ends rest in if ends_line c then more else c ∷ rest

-- fill_from_channel of the new message, if there is one, and what is left of the input.
unfoldable pub read_with : Option Reading → Bytes → Option (Msg × Bool) × Bytes
read_with none rest = (none, rest)
read_with (some read) rest = let (m, left) = read rest in (some m, left)

unfoldable pub read_as : Codec → ℕ → Option MsgType → Bytes → Option (Msg × Bool) × Bytes
read_as codec protocol none rest = (none, rest)
read_as codec protocol (some type) rest = read_with (new_msg codec protocol type) rest

-- The message behind its type: none where get_msg knows no message.
unfoldable pub read_typed : Codec → ℕ → Bytes → Option (Msg × Bool) × Bytes
read_typed codec protocol input =
    let (t, rest) = read_u32 input in read_as codec protocol (msg_type t) rest

unfoldable pub read_line : MsgChannel → Option (Msg × Bool) × Bytes
read_line c =
    (some (text_msg (take c.inmsglen c.input), false), skip_ends (drop c.inmsglen c.input))

-- The test of the length, and the next message: get_msg from behind fill_from_channel.
unfoldable pub accept_msg :
    (MsgChannel → MsgChannel) → ℕ → Msg → MsgChannel → Option Msg × MsgChannel
accept_msg on_error before m c =
    if c.text_based || before - length c.input == c.inmsglen
    then (some m, (update_state false (record c { instate = need_len })).1)
    else (none, on_error c)

-- get_msg from fill_from_channel on, for a message that is none where its type is not known.
unfoldable pub finish_msg :
    (MsgChannel → MsgChannel) → ℕ → Option (Msg × Bool) → MsgChannel → Option Msg × MsgChannel
finish_msg on_error before none c = (none, on_error c)
finish_msg on_error before (some (m, failed)) c =
    accept_msg on_error before m (if failed then on_error c else c)

-- get_msg for a channel that has a message; on_error is set_error.
unfoldable pub take_msg : (MsgChannel → MsgChannel) → Codec → MsgChannel → Option Msg × MsgChannel
take_msg on_error codec c =
    let (found, rest) = if c.text_based then read_line c else read_typed codec (spoken c) c.input in
    finish_msg on_error (length c.input) found (record c { input = rest })

-- set_error: it fetches one last message, the status of the other side, if it can. While no message is
-- there this waits for the network; what it reads then is not kept, since nothing reads the input in
-- the error state.
unfoldable pub set_error : Codec → MsgChannel → MsgChannel
set_error codec c = elim c.instate [
  | in_error ↦ c
  | msg_there ↦ stop (take_msg stop codec c).1
  | s ↦ stop c
]

-- read_a_bit, with one answer of read(2).
unfoldable pub read_a_bit : Codec → Bool → ReadResult → MsgChannel → Bool × MsgChannel
read_a_bit codec flushes r c =
    let (failed, filled) : Bool × MsgChannel = if c.eof then (false, c) else elim r [
      | got bytes ↦ (false, record c { input = c.input ++ bytes })
      | closed ↦ (false, record c { eof = true })
      | nothing ↦ (false, c)
      | broken ↦ (true, c)
    ] in
    let (good, updated) = update_state flushes filled in
    if failed || not good then (false, set_error codec updated) else (true, updated)

-- The loop of wait_for_msg. When there is no answer left, poll(2) times out.
unfoldable pub wait_loop : Codec → Bool → List ReadResult → MsgChannel → Bool × MsgChannel
wait_loop codec flushes [] c = (has_msg c, c)
wait_loop codec flushes (r ∷ reads) c =
    let (good, updated) = read_a_bit codec flushes r c in
    let more = wait_loop codec flushes reads updated in
    if has_msg c then (true, c) else if good then more else (false, set_error codec updated)

abbrev first_read : List ReadResult → ReadResult
first_read [] = nothing
first_read (r ∷ reads) = r

abbrev other_reads : List ReadResult → List ReadResult
other_reads [] = []
other_reads (r ∷ reads) = reads

-- wait_for_msg: it reads once, and then as often as poll(2) says, unless the timeout is 0.
unfoldable pub wait_for_msg : Codec → Bool → List ReadResult → Bool → MsgChannel → Bool × MsgChannel
wait_for_msg codec flushes reads waits c =
    let (good, updated) = read_a_bit codec flushes (first_read reads) c in
    let looped = wait_loop codec flushes (other_reads reads) updated in
    if is_error c.instate
    then (false, c)
    else if has_msg c
    then (true, c)
    else if not good
    then (false, set_error codec updated)
    else if waits
    then looped
    else (has_msg updated, updated)

unfoldable pub get_msg :
    Codec → Bool → List ReadResult → Bool → Bool → MsgChannel → Option Msg × MsgChannel
get_msg codec flushes reads waits eof_allowed c =
    let (there, waited) = wait_for_msg codec flushes reads waits c in
    let taken = take_msg (set_error codec) codec waited in
    if not there
    then (none, waited)
    else if at_eof waited
    then (none, if eof_allowed then waited else set_error codec waited)
    else if has_msg waited
    then taken
    else (none, set_error codec waited)
