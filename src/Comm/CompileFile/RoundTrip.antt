-- ===== src/Comm/CompileFile/RoundTrip.antt =====
-- A job comes over the wire with all that its server needs: the arguments that are not local, in
-- their order, and what the protocol has a place for.
use icecream.Base.{
  ℕ, suc, ◌≡◌, refl, ◌≤◌, Bool, false, Bool-cases, inl, inr, not, ◌&&◌, List, [], ◌∷◌, ◌++◌, length,
  All, if◌then◌else◌, arith,
}
use icecream.Comm.{Bytes, IsWord, IsText, IsTexts, is_protocol_version}
use icecream.Comm.RoundTrip.{
  then_read, then_since, read_u32-put_u32, read_string-put_string, read_list-put_list,
  read_bool-put_bool,
}
use icecream.Comm.CompileFile.{
  ArgumentType, arg_remote, arg_rest, ArgumentsList, CompileJob, is_remote, flags_of, local_flags,
  rest_flags, non_local_flags, as_arguments, is_clang_like, clang, remote_compiler_name,
  read_flags_41, read_flags_21, read_flags, fill_compile_file, sent_remote_flags, send_flags,
  send_compile_file,
}

abbrev pub IsArguments : ArgumentsList → Type 0
IsArguments flags = All (λ flag. IsText flag.0) flags × IsWord (suc (length flags))

abbrev pub IsCompileJob : CompileJob → Type 0
IsCompileJob job =
    IsWord job.language
    × IsWord job.job_id
    × IsArguments job.flags
    × IsText job.environment_version
    × IsText job.target_platform
    × IsText job.input_file
    × IsText job.working_directory
    × IsText job.output_file

length-flags_of :
    (is_type : ArgumentType → Bool) (flags : ArgumentsList)
    → length (flags_of is_type flags) ≤ length flags
unfolding flags_of
length-flags_of is_type [] = omega arith
length-flags_of is_type (flag ∷ flags) = ground (arith, length-flags_of is_type flags)

flags_of-All :
    (is_type : ArgumentType → Bool) (flags : ArgumentsList)
    → All (λ flag. IsText flag.0) flags
    → All IsText (flags_of is_type flags)
unfolding flags_of
flags_of-All is_type [] h = tt
flags_of-All is_type (flag ∷ flags) h = elim (Bool-cases (is_type flag.1)) [
  | inl kept ↦ rw kept (h.0, flags_of-All is_type flags h.1)
  | inr dropped ↦ rw dropped (flags_of-All is_type flags h.1)
]

flags_of-IsTexts :
    (is_type : ArgumentType → Bool) (flags : ArgumentsList)
    → IsArguments flags
    → IsTexts (flags_of is_type flags)
flags_of-IsTexts is_type flags h =
    (flags_of-All is_type flags h.0, omega (arith, h.1, length-flags_of is_type flags))

clang-IsText : IsText clang
clang-IsText = ground arith

remote_compiler_name-IsText : (job : CompileJob) → IsText (remote_compiler_name job)
unfolding remote_compiler_name
remote_compiler_name-IsText job = ground arith

sent_remote_flags-IsTexts :
    (p : ℕ) (job : CompileJob) → IsArguments job.flags → IsTexts (sent_remote_flags p job)
unfolding sent_remote_flags
sent_remote_flags-IsTexts p job h =
    elim (Bool-cases (not (is_protocol_version 30 p) && is_clang_like job.compiler_name)) [
      | inl named ↦ rw named (
        (clang-IsText, (flags_of-IsTexts is_remote job.flags h).0),
        omega (arith, h.1, length-flags_of is_remote job.flags),
      )
      | inr plain ↦ rw plain (flags_of-IsTexts is_remote job.flags h)
    ]

-- The arguments that a server gets on a channel of the given version.
unfoldable pub carried_flags : ℕ → CompileJob → ArgumentsList
carried_flags p job =
    if is_protocol_version 41 p
    then as_arguments arg_remote (non_local_flags job)
    else as_arguments arg_remote (sent_remote_flags p job) ++ as_arguments arg_rest (rest_flags job)

-- The job that a server gets.
unfoldable pub carried_job : ℕ → CompileJob → CompileJob
carried_job p job = record job {
  flags = carried_flags p job;
  compiler_name = if is_protocol_version 30 p then remote_compiler_name job else [];
  input_file = if is_protocol_version 34 p then job.input_file else [];
  working_directory = if is_protocol_version 34 p then job.working_directory else [];
  output_file = if is_protocol_version 35 p then job.output_file else [];
  dwarf_fission = if is_protocol_version 35 p then job.dwarf_fission else false;
}

read_flags-send_flags :
    (p : ℕ) (job : CompileJob) (behind : Bytes)
    → IsArguments job.flags
    → read_flags p (send_flags p job behind) ≡ (carried_flags p job, behind)
unfolding read_flags send_flags carried_flags read_flags_41 read_flags_21
read_flags-send_flags p job behind h = elim (Bool-cases (is_protocol_version 41 p)) [
  | inl new ↦ rw new (then_read _ _ (read_list-put_list (flags_of-IsTexts _ job.flags h)) refl)
  | inr older ↦ rw older (
      then_read _ _ (read_list-put_list (sent_remote_flags-IsTexts p job h))
        (then_read _ _ (read_list-put_list (flags_of-IsTexts _ job.flags h)) refl))
]

pub fill_compile_file-send_compile_file :
    (p : ℕ) (job : CompileJob) (behind : Bytes)
    → IsCompileJob job
    → fill_compile_file p (send_compile_file p job behind) ≡ (carried_job p job, behind)
unfolding fill_compile_file send_compile_file carried_job
fill_compile_file-send_compile_file p job behind
      (lang, id, flags, version, target, input, dir, output) =
    then_read _ _ (read_u32-put_u32 lang) (
      then_read _ _ (read_u32-put_u32 id) (
        then_read _ _ (read_flags-send_flags p job _ flags) (
          then_read _ _ (read_string-put_string version) (
            then_read _ _ (read_string-put_string target) (
              then_since _ _ _ _ _ _ (read_string-put_string (remote_compiler_name-IsText job)) (
                then_since _ _ _ _ _ _ (read_string-put_string input) (
                  then_since _ _ _ _ _ _ (read_string-put_string dir) (
                    then_since _ _ _ _ _ _ (read_string-put_string output)
                      (then_since _ _ _ _ _ _ read_bool-put_bool refl)))))))))

flags_of-as_arguments :
    (is_type : ArgumentType → Bool) (t : ArgumentType) (args : List Bytes)
    → flags_of is_type (as_arguments t args) ≡ (if is_type t then args else [])
unfolding flags_of as_arguments
flags_of-as_arguments is_type t [] = ground arith
flags_of-as_arguments is_type t (arg ∷ args) = ground (arith, flags_of-as_arguments is_type t args)

flags_of-append :
    (is_type : ArgumentType → Bool) (fs gs : ArgumentsList)
    → flags_of is_type (fs ++ gs) ≡ flags_of is_type fs ++ flags_of is_type gs
unfolding flags_of
flags_of-append is_type [] gs = refl
flags_of-append is_type (f ∷ fs) gs = ground (arith, flags_of-append is_type fs gs)

non_local_flags-carried_job :
    (p : ℕ) (job : CompileJob)
    → (non_local_flags (carried_job p job) ≡ (
        if is_protocol_version 41 p
        then non_local_flags job
        else sent_remote_flags p job ++ rest_flags job))
      × (local_flags (carried_job p job) ≡ [])
unfolding carried_job carried_flags
non_local_flags-carried_job p job = elim (Bool-cases (is_protocol_version 41 p)) [
  | inl new ↦ simp (new, flags_of-as_arguments) (refl, refl)
  | inr older ↦ simp (older, flags_of-append, flags_of-as_arguments) (refl, refl)
]

-- The job that a server reads from what the client wrote has no local arguments. From version 41 on it
-- has all of the client's that are not local, in their order; before, the remote ones, behind the name
-- clang if need be, and then the rest. The job must fit into a message.
pub non_local_flags-fill_compile_file :
    (p : ℕ) (job : CompileJob) (behind : Bytes)
    → IsCompileJob job
    → (let job' = (fill_compile_file p (send_compile_file p job behind)).0 in
        (non_local_flags job' ≡ (
          if is_protocol_version 41 p
          then non_local_flags job
          else sent_remote_flags p job ++ rest_flags job))
        × (local_flags job' ≡ []))
non_local_flags-fill_compile_file p job behind h =
    rw (fill_compile_file-send_compile_file p job behind h) (non_local_flags-carried_job p job)
