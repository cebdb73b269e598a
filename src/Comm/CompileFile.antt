-- ===== src/Comm/CompileFile.antt =====
-- services/comm.cpp: CompileFileMsg, by which a client gives a job to a server, with the CompileJob of
-- services/job.h and services/job.cpp that it carries.
pub mod RoundTrip
use icecream.Base.{
  ℕ, Bool, true, false, ◌&&◌, ◌||◌, not, List, [], ◌∷◌, ◌++◌, map, copy_if, ◌==◌, if◌then◌else◌,
}
use icecream.Comm.{
  Bytes, Writer, Reader, pure, ◌>>=◌, put_u32, read_u32, put_string, read_string, put_list,
  read_list, put_bool, read_bool, put_since, read_since, is_protocol_version,
}

pub data ArgumentType : Type 0 where
  arg_local arg_remote arg_rest : ArgumentType

-- ArgumentsList
abbrev pub ArgumentsList : Type 0
ArgumentsList = List (Bytes × ArgumentType)

abbrev pub is_local : ArgumentType → Bool
is_local arg_local = true
is_local t = false

abbrev pub is_remote : ArgumentType → Bool
is_remote arg_remote = true
is_remote t = false

abbrev pub is_rest : ArgumentType → Bool
is_rest arg_rest = true
is_rest t = false

-- CompileJob::Language: Lang_CXX is 1.
abbrev pub lang_cxx : ℕ
lang_cxx = 1

-- The fields of CompileJob that are sent.
pub record CompileJob : Type 0 where
  pub language : ℕ
  pub job_id : ℕ
  pub flags : ArgumentsList
  pub environment_version : Bytes
  pub target_platform : Bytes
  pub compiler_name : Bytes
  pub input_file : Bytes
  pub working_directory : Bytes
  pub output_file : Bytes
  pub dwarf_fission : Bool

-- CompileJob::flags, for one type of argument.
unfoldable pub flags_of : (ArgumentType → Bool) → ArgumentsList → List Bytes
flags_of is_type [] = []
flags_of is_type (flag ∷ flags) =
    let args = flags_of is_type flags in if is_type flag.1 then flag.0 ∷ args else args

abbrev pub local_flags : CompileJob → List Bytes
local_flags job = flags_of is_local job.flags

abbrev pub remote_flags : CompileJob → List Bytes
remote_flags job = flags_of is_remote job.flags

abbrev pub rest_flags : CompileJob → List Bytes
rest_flags job = flags_of is_rest job.flags

abbrev pub non_local_flags : CompileJob → List Bytes
non_local_flags job = flags_of (λ t. not (is_local t)) job.flags

-- The loops that append each text of a list with one type.
unfoldable pub as_arguments : ArgumentType → List Bytes → ArgumentsList
as_arguments t [] = []
as_arguments t (arg ∷ args) = (arg, t) ∷ as_arguments t args

abbrev pub starts_with : Bytes → Bytes → Bool
starts_with [] s = true
starts_with (c ∷ part) [] = false
starts_with (c ∷ part) (b ∷ s) = b == c && starts_with part s

-- `s.find(part) != string::npos`
abbrev pub finds : Bytes → Bytes → Bool
finds part [] = starts_with part []
finds part (b ∷ s) = starts_with part (b ∷ s) || finds part s

abbrev pub clang : Bytes
clang = b'c' ∷ b'l' ∷ b'a' ∷ b'n' ∷ b'g' ∷ []

abbrev pub gcc : Bytes
gcc = b'g' ∷ b'c' ∷ b'c' ∷ []

abbrev pub gxx : Bytes
gxx = b'g' ∷ b'+' ∷ b'+' ∷ []

unfoldable pub is_clang_like : Bytes → Bool
is_clang_like name =
    finds clang name
    || finds (b'i' ∷ b'c' ∷ b'x' ∷ []) name
    || finds (b'i' ∷ b'c' ∷ b'p' ∷ b'x' ∷ []) name
    || finds (b'd' ∷ b'p' ∷ b'c' ∷ b'p' ∷ b'p' ∷ []) name

unfoldable pub remote_compiler_name : CompileJob → Bytes
remote_compiler_name job =
    if is_clang_like job.compiler_name then clang else if job.language == lang_cxx then gxx else gcc

-- From version 41 on there is one list, whose arguments all become remote ones.
unfoldable pub read_flags_41 : Reader ArgumentsList
read_flags_41 = do largs ← read_list; pure (as_arguments arg_remote largs)

unfoldable pub read_flags_21 : Reader ArgumentsList
read_flags_21 = do
  l1 ← read_list
  l2 ← read_list
  pure (as_arguments arg_remote l1 ++ as_arguments arg_rest l2)

unfoldable pub read_flags : ℕ → Reader ArgumentsList
read_flags protocol = if is_protocol_version 41 protocol then read_flags_41 else read_flags_21

unfoldable pub fill_compile_file : ℕ → Reader CompileJob
fill_compile_file protocol = do
  lang ← read_u32
  id ← read_u32
  l ← read_flags protocol
  version ← read_string
  target ← read_string
  compiler_name ← read_since 30 protocol read_string []
  input_file ← read_since 34 protocol read_string []
  working_directory ← read_since 34 protocol read_string []
  output_file ← read_since 35 protocol read_string []
  dwarf_fission ← read_since 35 protocol read_bool false
  pure (record {
    language = lang;
    job_id = id;
    flags = l;
    environment_version = version;
    target_platform = target;
    compiler_name = compiler_name;
    input_file = input_file;
    working_directory = working_directory;
    output_file = output_file;
    dwarf_fission = dwarf_fission;
  })

-- Before version 30 no compiler name is sent: for clang it is the first remote argument.
unfoldable pub sent_remote_flags : ℕ → CompileJob → List Bytes
sent_remote_flags protocol job =
    if not (is_protocol_version 30 protocol) && is_clang_like job.compiler_name
    then clang ∷ remote_flags job
    else remote_flags job

unfoldable pub send_flags : ℕ → CompileJob → Writer
send_flags protocol job behind =
    if is_protocol_version 41 protocol
    then put_list (non_local_flags job) behind
    else put_list (sent_remote_flags protocol job) (put_list (rest_flags job) behind)

unfoldable pub send_compile_file : ℕ → CompileJob → Writer
send_compile_file protocol job behind = put_u32 job.language (
    put_u32 job.job_id (
      send_flags protocol job (
        put_string job.environment_version (
          put_string job.target_platform (
            put_since 30 protocol (put_string (remote_compiler_name job)) (
              put_since 34 protocol (put_string job.input_file) (
                put_since 34 protocol (put_string job.working_directory) (
                  put_since 35 protocol (put_string job.output_file)
                    (put_since 35 protocol (put_bool job.dwarf_fission) behind)))))))))
