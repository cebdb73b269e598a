-- ===== src/Comm/Channel/Errors.antt =====
-- What get_msg and send_msg do with messages that are not what they should be, and after an error.
use icecream.Base.{
  ℕ, ◌-◌, ◌<◌, ◌≡◌, refl, Bool, true, false, Option, none, some, List, [], length, ◌==◌, ◌||◌,
  if◌then◌else◌, arith,
}
use icecream.Comm.{Bytes, IsWord, is_protocol_version, put_u32, read_u32, read_since}
use icecream.Comm.RoundTrip.{read_u32-put_u32}
use icecream.Comm.FileChunk.{
  Codec, c_zstd, bad_lengths, read_chunk, readcompressed, fill_file_chunk,
}
use icecream.Comm.Msg.{Msg, file_chunk_msg, number, m_file_chunk, fill_chunk, new_msg, msg_type}
use icecream.Comm.Msg.RoundTrip.{number-IsWord, msg_type-number}
use icecream.Comm.Channel.{
  InState, need_len, msg_there, in_error, MsgChannel, stop, spoken, update_state, update_len,
}
use icecream.Comm.Channel.Receive.{
  ReadResult, read_as, read_with, read_typed, read_line, accept_msg, finish_msg, take_msg,
  set_error, wait_for_msg, get_msg,
}
use icecream.Comm.Channel.Send.{send_msg}

set_error-by :
    (codec : Codec) (c : MsgChannel) (s : InState)
    → c.instate ≡ s
    → (set_error codec c).instate ≡ in_error
unfolding set_error
set_error-by codec c in_error e = rw e refl
set_error-by codec c s e = rw e refl

pub set_error-in_error : (codec : Codec) (c : MsgChannel) → (set_error codec c).instate ≡ in_error
set_error-in_error codec c = set_error-by codec c c.instate refl

-- What the input of a channel holds in front, and what is left behind it.
abbrev pub held : Codec → MsgChannel → Option (Msg × Bool) × Bytes
held codec c = if c.text_based then read_line c else read_typed codec (spoken c) c.input

-- The channel behind what it held; `failed` says that the reader of the fields called set_error.
abbrev pub behind_msg : Codec → Bool → Bytes → MsgChannel → MsgChannel
behind_msg codec failed rest c =
    let d = record c { input = rest } in if failed then set_error codec d else d

-- The message took up as many bytes as its length says.
abbrev pub is_whole : ℕ → MsgChannel → Bool
is_whole before d = d.text_based || before - length d.input == d.inmsglen

abbrev pub IsRefused : Option Msg × MsgChannel → Type 0
IsRefused r = (r.0 ≡ none) × (r.1.instate ≡ in_error)

-- The answer of get_msg for a channel that holds a complete message.
abbrev pub Answered :
    Codec → MsgChannel → Option (Msg × Bool) × Bytes → Option Msg × MsgChannel → Type 0
Answered codec c (none, rest) r = IsRefused r
Answered codec c (some (m, failed), rest) r =
    let d = behind_msg codec failed rest c in
    (is_whole (length c.input) d ≡ true
      → r ≡ (some m, (update_state false (record d { instate = need_len })).1))
    × (is_whole (length c.input) d ≡ false → IsRefused r)

-- After an error no message comes out of a channel and none goes in.
pub in_error-stays :
    (codec : Codec) (f waits eof_allowed bulk_only : Bool) (reads : List ReadResult) (m : Msg)
    (c : MsgChannel)
    → c.instate ≡ in_error
    → (get_msg codec f reads waits eof_allowed c ≡ (none, c))
      × (send_msg codec f reads bulk_only m c ≡ (false, c))
unfolding get_msg wait_for_msg send_msg
in_error-stays codec f waits eof_allowed bulk_only reads m c e = (rw e refl, rw e refl)

-- The bytes of a chunk that claims to hold `len` bytes, in none compressed ones.
abbrev pub hollow_chunk : ℕ → Bytes
hollow_chunk len = put_u32 (number m_file_chunk) (put_u32 len (put_u32 0 (put_u32 c_zstd [])))

abbrev pub no_chunk : Msg
no_chunk = file_chunk_msg (record { buffer = none; len = 0; compressed = 0 })

read_typed-hollow_chunk :
    (codec : Codec) (p len : ℕ)
    → IsWord len
    → 0 < len
    → is_protocol_version 40 p ≡ true
    → read_typed codec p (hollow_chunk len) ≡ (some (no_chunk, true), [])
unfolding read_typed read_as read_with new_msg fill_chunk fill_file_chunk readcompressed read_since
    read_chunk
read_typed-hollow_chunk codec p len h k new =
    let bad : bad_lengths len 0 0 ≡ true = ground (arith, k) in
    rw
      (
        read_u32-put_u32 (number-IsWord m_file_chunk),
        msg_type-number m_file_chunk,
        read_u32-put_u32 h,
        read_u32-put_u32 {n = 0} (omega arith),
        new,
        read_u32-put_u32 {n = c_zstd} (omega arith),
        bad,
      )
      refl

length-hollow_chunk : (len : ℕ) → length (hollow_chunk len) ≡ 16
unfolding put_u32
length-hollow_chunk len = refl

-- Without input no type is read.
take_msg-nothing :
    (codec : Codec) (c : MsgChannel)
    → (take_msg stop codec (record c { input = []; text_based = false })).1
      ≡ stop (record c { input = []; text_based = false })
unfolding take_msg finish_msg read_typed read_as read_u32 msg_type
take_msg-nothing codec c = refl

-- A chunk that claims to hold bytes but has none is refused by readcompressed, which sets the error
-- state; yet get_msg goes on, finds that the length is right and gives the empty chunk, and the channel
-- is no longer in the error state.
pub get_msg-hollow_chunk :
    (codec : Codec) (c : MsgChannel) (len : ℕ)
    → IsWord len
    → 0 < len
    → is_protocol_version 40 (spoken c) ≡ true
    → get_msg codec true [] false true (record c {
      input = hollow_chunk len;
      instate = msg_there;
      inmsglen = 16;
      eof = false;
      text_based = false;
    })
      ≡ (
        some no_chunk,
        record c { input = []; instate = need_len; inmsglen = 16; eof = true; text_based = false },
      )
unfolding get_msg wait_for_msg take_msg finish_msg accept_msg set_error update_state update_len
get_msg-hollow_chunk codec c len h k new =
    rw
      (
        read_typed-hollow_chunk codec (spoken c) len h k new,
        length-hollow_chunk len,
        take_msg-nothing codec (record c { instate = msg_there; inmsglen = 16; eof = false }),
      )
      refl
