-- ===== src/Tests/CommandLine.antt =====
-- Runs of the reading of a command line, and an instance of each theorem about it.
use icecream.Base.{◌≡◌, refl, true, false, none, List, [], ◌∷◌, ◌||◌, arith}
use icecream.Comm.{Bytes, drop}
use icecream.Comm.Path.{rfind, behind_slash}
use icecream.Client.{codes, find_basename, is_c_compiler, is_cpp_compiler, analyze_program}
use icecream.Client.Options.{is_argument_with_space, first_branch, kind_of}
use icecream.Client.Scan.{scan_assembler, assembler_loop, split_commas, analyze_assembler_arg}
use icecream.Client.Scan.Loop.{step, scan_word, scan_loop}
use icecream.Client.Scan.Ends.{dangling, scan_loop-all}
use icecream.Client.Analyse.{System, new_scan, setting, read_words}
use icecream.Client.Analyse.Finish.{analyse_argv, argv_result, fulljob}

-- A system where every file can be read and nothing is special.
abbrev simple : System
simple = record {
  files = record { readable = λ f. true; get_absfilename = λ f. f };
  only_rewrite_includes = λ name lang blocked. false;
  has_color_output = λ name lang. false;
  exists_not_regular = λ f. false;
  clang_default_target = [];
  arch_flags = λ march mcpu mtune. none;
}

-- gcc -c -Ia hello.c
abbrev hello : List Bytes
hello = codes "-c" ∷ codes "-Ia" ∷ codes "hello.c" ∷ []

-- Two words of the table are one, so neither is in it.
missing_words :
    (is_argument_with_space (codes "-iwithsysroot")
      || is_argument_with_space (codes "-index-store-path"))
    ≡ false
unfolding is_argument_with_space
missing_words = refl

-- The listing of an assembler argument must be local, yet only the last argument counts.
listing_forgotten :
    (scan_assembler simple.files (codes "-Wa,-al=x,-g") (new_scan 0 false)).always_local ≡ false
unfolding scan_assembler assembler_loop split_commas analyze_assembler_arg drop
listing_forgotten = refl

-- With a second -arch the job is not local, since seen_arch is never set.
two_archs :
    (scan_loop
      (setting simple (analyze_program (codes "gcc") false))
      4
      (new_scan 0 false)
      (codes "-arch" ∷ codes "a" ∷ codes "-arch" ∷ codes "b" ∷ [])).0.always_local
    ≡ false
unfolding setting analyze_program find_basename is_c_compiler is_cpp_compiler rfind behind_slash
    drop scan_loop scan_word step kind_of first_branch
two_archs = refl

-- -MF as the last word runs past the end.
trailing_mf : analyse_argv simple (codes "gcc") (codes "-c" ∷ codes "-MF" ∷ []) false ≡ none
unfolding analyse_argv read_words setting analyze_program find_basename is_c_compiler
    is_cpp_compiler rfind behind_slash drop scan_loop scan_word step kind_of first_branch
trailing_mf = refl

-- Of the two bits that analyse_argv sets, a bool keeps one.
full_job_lost : fulljob (argv_result true) ≡ false
unfolding fulljob argv_result
full_job_lost = refl

scan_loop-all_example :
    let set = setting simple (analyze_program (codes "gcc") false) in
    ((scan_loop set 3 (new_scan 0 false) hello).1 ≡ [])
    × (dangling hello ≡ false → (scan_loop set 3 (new_scan 0 false) hello).0.past_end ≡ false)
scan_loop-all_example =
    scan_loop-all (setting simple (analyze_program (codes "gcc") false)) 3 (new_scan 0 false) hello
      (omega arith)
