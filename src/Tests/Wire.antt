-- ===== src/Tests/Wire.antt =====
-- Runs of the message encoding on small inputs, and an instance of each theorem about it.
use icecream.Base.{
  ℕ, ◌≡◌, refl, Bool, true, false, Option, none, some, List, [], ◌∷◌, All, arith, inl, length,
}
use icecream.Base.Int.{pos}
use icecream.Comm.{Bytes, put_u32, drop}
use icecream.Comm.Path.{rfind, step_back, behind_slash, shorten_filename}
use icecream.Comm.Requests.{send_no_cs}
use icecream.Comm.Done.{
  JobDone, new_job_done, set_unknown_job_client_id, fill_job_done, send_job_done, unknown_client,
}
use icecream.Comm.Done.RoundTrip.{IsJobDone, unknown_client-fill_job_done}
use icecream.Comm.CompileFile.{
  CompileJob, clang, non_local_flags, local_flags, sent_remote_flags, flags_of, is_clang_like,
  arg_local, arg_remote, arg_rest, fill_compile_file, send_compile_file,
}
use icecream.Comm.CompileFile.RoundTrip.{IsCompileJob, non_local_flags-fill_compile_file}
use icecream.Comm.FileChunk.{Codec, fill_file_chunk}
use icecream.Comm.FileChunk.RoundTrip.{IsCodec}
use icecream.Comm.FileChunk.Checks.{IsWithin, IsBounded, behind_numbers, fill_file_chunk-IsWithin}
use icecream.Comm.Msg.{
  Msg, type_of, new_msg, Reading, ping_msg, no_cs_msg, job_done_msg, send_fields, send_to_channel,
}
use icecream.Comm.Msg.RoundTrip.{carried, read-send_fields}
use icecream.Comm.Channel.{MsgChannel, need_len, msg_there, in_error, update_len, put_version}
use icecream.Comm.Channel.Receive.{got, read_a_bit, get_msg}
use icecream.Comm.Channel.Send.{frame, flush_writebuf, put_msg, send_msg}
use icecream.Comm.Channel.Framing.{idle, feed, join, feed-join}
use icecream.Comm.Channel.Delivery.{IsSendable}
use icecream.Comm.Channel.Stream.{get_all, get_all-send_all}
use icecream.Comm.Channel.Negotiation.{opened, agreed, opened-agrees, opened-refuses}
use icecream.Comm.Channel.Errors.{hollow_chunk, no_chunk, get_msg-hollow_chunk}

-- A compression that only puts a byte in front.
abbrev unwrap : ℕ → Bytes → Option Bytes
unwrap n [] = none
unwrap n (b ∷ c) = some c

abbrev store : Codec
store = record {
  zstd_compress = λ b. 1 ∷ b;
  zstd_decompress = unwrap;
  lzo_compress = λ b. some (1 ∷ b);
  lzo_decompress = unwrap;
}

store-IsCodec : IsCodec store
store-IsCodec = record {
  zstd = λ b h. (refl, omega arith, omega (arith, h));
  lzo = λ b h. (1 ∷ b, refl, (refl, omega arith, omega (arith, h)));
}

-- One that gives nothing back keeps within every buffer.
abbrev broken : Codec
broken = record store { lzo_decompress = λ n c. none }

broken-IsBounded : IsBounded broken
broken-IsBounded n c b e = cc

abbrev peer : MsgChannel
peer = record {
  protocol = pos 45;
  maximum_remote_protocol = 45;
  input = [];
  output = [];
  sent = [];
  instate = need_len;
  inmsglen = 0;
  eof = false;
  text_based = false;
}

-- One that may wait, and one behind it that may not.
abbrev held_back : List (Msg × Bool)
held_back = (ping_msg, true) ∷ []

abbrev no_server : Msg
no_server = no_cs_msg (record { job_id = 5; client_id = 7 })

two_msgs-IsSendable :
    All (λ (t : Msg × Bool). IsSendable store 45 t.0) ((ping_msg, true) ∷ (no_server, false) ∷ [])
unfolding send_to_channel send_fields send_no_cs put_u32
two_msgs-IsSendable = ground arith

-- The bytes of the two messages, cut in the middle of a number.
abbrev two_chunks : List Bytes
two_chunks =
    (0 ∷ 0 ∷ 0 ∷ 4 ∷ 0 ∷ [])
    ∷ (0 ∷ 0 ∷ 66 ∷ 0 ∷ 0 ∷ 0 ∷ 12 ∷ 0 ∷ 0 ∷ 0 ∷ 96 ∷ 0 ∷ 0 ∷ [])
    ∷ (0 ∷ 5 ∷ 0 ∷ 0 ∷ 0 ∷ 7 ∷ [])
    ∷ []

get_all-send_all_example :
    get_all store 2 (feed store true two_chunks (idle peer 0))
    ≡ ping_msg ∷ no_cs_msg (record { job_id = 5; client_id = 7 }) ∷ []
unfolding carried send_msg put_msg flush_writebuf frame send_to_channel send_fields send_no_cs
    put_u32
get_all-send_all_example =
    get_all-send_all store peer peer 0 0 held_back no_server two_chunks store-IsCodec refl refl refl
      two_msgs-IsSendable refl

-- A job that is done, whose id the daemon does not know.
abbrev lost_job : JobDone
lost_job = set_unknown_job_client_id 9 (new_job_done 0 1 1 0)

lost_job-IsJobDone : IsJobDone lost_job
unfolding set_unknown_job_client_id
lost_job-IsJobDone = ground arith

read-send_fields_example :
    (r : Reading) × (new_msg store 38 (type_of (job_done_msg lost_job)) ≡ some r)
    × (r (send_fields store 38 (job_done_msg lost_job) [])
        ≡ ((carried store 38 (job_done_msg lost_job), false), []))
read-send_fields_example =
    read-send_fields store 38 (job_done_msg lost_job) [] store-IsCodec lost_job-IsJobDone

unknown_client-fill_job_done_example :
    unknown_client (fill_job_done 38 (send_job_done 38 lost_job [])).0 ≡ unknown_client lost_job
unfolding set_unknown_job_client_id
unknown_client-fill_job_done_example =
    unknown_client-fill_job_done 38 lost_job [] lost_job-IsJobDone (omega arith)

feed-join_example :
    feed store true two_chunks (idle peer 0)
    ≡ (read_a_bit store true (got (join two_chunks)) (idle peer 0)).1
feed-join_example = feed-join store true peer 0 two_chunks

-- The type and a byte too many.
abbrev long_ping : MsgChannel
long_ping = record peer { input = 0 ∷ 0 ∷ 0 ∷ 66 ∷ 9 ∷ []; inmsglen = 5; instate = msg_there }

opened-agrees_example :
    opened (put_version 43 (put_version 43 (0 ∷ []))) ≡ (true, update_len (agreed 43 (0 ∷ [])))
opened-agrees_example = opened-agrees 43 43 (0 ∷ []) (omega arith, omega arith) (omega arith)

opened-refuses_example :
    ((opened (put_version 20 [])).0 ≡ false) × ((opened (put_version 20 [])).1.instate ≡ in_error)
opened-refuses_example = opened-refuses 20 [] (omega arith) (inl (omega arith))

abbrev two_byte_chunk : Bytes
two_byte_chunk = put_u32 3 (put_u32 2 (put_u32 0 (8 ∷ 8 ∷ [])))

fill_file_chunk-IsWithin_example :
    IsWithin
      (fill_file_chunk broken 45 two_byte_chunk).0
      (length (behind_numbers 45 two_byte_chunk))
fill_file_chunk-IsWithin_example =
    fill_file_chunk-IsWithin broken 45 two_byte_chunk broken-IsBounded

get_msg-hollow_chunk_example :
    get_msg store true [] false true (record peer {
      input = hollow_chunk 5;
      instate = msg_there;
      inmsglen = 16;
      eof = false;
      text_based = false;
    })
    ≡ (
      some no_chunk,
      record peer { input = []; instate = need_len; inmsglen = 16; eof = true; text_based = false },
    )
get_msg-hollow_chunk_example = get_msg-hollow_chunk store peer 5 (omega arith) (omega arith) refl

-- A job for clang with an argument of each kind.
abbrev clang_job : CompileJob
clang_job = record {
  language = 0;
  job_id = 4;
  flags = (b'a' ∷ [], arg_local) ∷ (b'b' ∷ [], arg_rest) ∷ (b'c' ∷ [], arg_remote) ∷ [];
  environment_version = [];
  target_platform = [];
  compiler_name = clang;
  input_file = [];
  working_directory = [];
  output_file = [];
  dwarf_fission = false;
}

clang_job-IsCompileJob : IsCompileJob clang_job
clang_job-IsCompileJob = ground arith

non_local_flags-fill_compile_file_example :
    let got_job = (fill_compile_file 29 (send_compile_file 29 clang_job [])).0 in
    (non_local_flags got_job ≡ clang ∷ (b'c' ∷ []) ∷ (b'b' ∷ []) ∷ []) × (local_flags got_job ≡ [])
unfolding sent_remote_flags flags_of is_clang_like
non_local_flags-fill_compile_file_example =
    non_local_flags-fill_compile_file 29 clang_job [] clang_job-IsCompileJob

last_dirs :
    shorten_filename (b'/' ∷ b'x' ∷ b'/' ∷ b'a' ∷ b'/' ∷ b'b' ∷ [])
    ≡ b'x' ∷ b'/' ∷ b'a' ∷ b'/' ∷ b'b' ∷ []
unfolding shorten_filename behind_slash step_back rfind drop
last_dirs = refl

-- With two slashes, the first of them in front, the search wraps around.
wrapped : shorten_filename (b'/' ∷ b'a' ∷ b'/' ∷ b'b' ∷ []) ≡ b'b' ∷ []
unfolding shorten_filename behind_slash step_back rfind drop
wrapped = refl
