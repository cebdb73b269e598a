-- ===== src/Client/Options.antt =====
-- client/arg.cpp: the options that the client knows, and what each is for it.
use icecream.Base.{String, Bool, ◌||◌, List, [], ◌∷◌, if◌then◌else◌}
use icecream.Comm.{Bytes}
use icecream.Client.{is_one_of, begins_with_one_of}

-- The table of is_argument_with_space. Without a comma between them its last two words are one.
abbrev arguments : List String
arguments =
    "-dyld-prefix" ∷ "-gcc-toolchain" ∷ "--param" ∷ "--sysroot" ∷ "--system-header-prefix"
    ∷ "-target" ∷ "--assert" ∷ "--allowable_client" ∷ "-arch" ∷ "-arch_only"
    ∷ "-arcmt-migrate-report-output" ∷ "--prefix" ∷ "-bundle_loader" ∷ "-dependency-dot"
    ∷ "-dependency-file" ∷ "-dylib_file" ∷ "-exported_symbols_list" ∷ "--bootclasspath"
    ∷ "--CLASSPATH" ∷ "--classpath" ∷ "--resource" ∷ "--encoding" ∷ "--extdirs" ∷ "-filelist"
    ∷ "-fmodule-implementation-of" ∷ "-fmodule-name" ∷ "-fmodules-user-build-path"
    ∷ "-fnew-alignment" ∷ "-force_load" ∷ "--output-class-directory" ∷ "-framework"
    ∷ "-frewrite-map-file" ∷ "-ftrapv-handler" ∷ "-image_base" ∷ "-init" ∷ "-install_name"
    ∷ "-lazy_framework" ∷ "-lazy_library" ∷ "-meabi" ∷ "-mhwdiv" ∷ "-mllvm"
    ∷ "-module-dependency-dir" ∷ "-mthread-model" ∷ "-multiply_defined" ∷ "-multiply_defined_unused"
    ∷ "-rpath" ∷ "--rtlib" ∷ "-seg_addr_table" ∷ "-seg_addr_table_filename" ∷ "-segs_read_only_addr"
    ∷ "-segs_read_write_addr" ∷ "-serialize-diagnostics" ∷ "--serialize-diagnostics" ∷ "-std"
    ∷ "--stdlib" ∷ "--force-link" ∷ "-umbrella" ∷ "-unexported_symbols_list" ∷ "-weak_library"
    ∷ "-weak_reference_mismatches" ∷ "-B" ∷ "-D" ∷ "-U" ∷ "-I" ∷ "-i" ∷ "--include-directory" ∷ "-L"
    ∷ "-l" ∷ "--library-directory" ∷ "-MF" ∷ "-MT" ∷ "-MQ" ∷ "-cxx-isystem" ∷ "-c-isystem"
    ∷ "-idirafter" ∷ "--include-directory-after" ∷ "-iframework" ∷ "-iframeworkwithsysroot"
    ∷ "-imacros" ∷ "-imultilib" ∷ "-iprefix" ∷ "--include-prefix" ∷ "-iquote" ∷ "-include"
    ∷ "-include-pch" ∷ "-isysroot" ∷ "-isystem" ∷ "-isystem-after" ∷ "-ivfsoverlay" ∷ "-iwithprefix"
    ∷ "--include-with-prefix" ∷ "--include-with-prefix-after" ∷ "-iwithprefixbefore"
    ∷ "--include-with-prefix-before" ∷ "-iwithsysroot-index-store-path" ∷ []

unfoldable pub is_argument_with_space : Bytes → Bool
is_argument_with_space argument = is_one_of arguments argument

-- The branches of the loop over argv, for a word that starts with a dash.
pub data OptionKind : Type 0 where
  forces_local depends local_only depends_file depends_target param prefix assembler : OptionKind
  to_assembly split_dwarf language march mcpu mtune compile_only output define : OptionKind
  local_value cpp_only color color_auto caret_off caret_on file_option xclang : OptionKind
  target target_joined standard unused_on unused_off pedantic arch flto other : OptionKind

-- A branch: the words that it tests for, the beginnings of words, and what it is.
abbrev Branch : Type 0
Branch = List String × List String × OptionKind

abbrev branches : List Branch
branches =
    ("-E" ∷ [], [], forces_local)
    ∷ (
      "-combine" ∷ "-fsyntax-only" ∷ "-ftime-trace" ∷ "-fsycl" ∷ [],
      "-fdump" ∷ "-ftime-report" ∷ [],
      forces_local,
    )
    ∷ ("-MD" ∷ "-MMD" ∷ [], "-Wp,-MD" ∷ "-Wp,-MMD" ∷ [], depends)
    ∷ ("-MG" ∷ "-MP" ∷ [], [], local_only)
    ∷ ("-MF" ∷ [], "-Wp,-MF" ∷ [], depends_file)
    ∷ ("-MT" ∷ "-MQ" ∷ [], "-Wp,-MT" ∷ "-Wp,-MQ" ∷ [], depends_target)
    ∷ ([], "-M" ∷ [], forces_local)
    ∷ ("--param" ∷ [], [], param)
    ∷ ([], "-B" ∷ [], prefix)
    ∷ ([], "-Wa," ∷ [], assembler)
    ∷ ("-S" ∷ [], [], to_assembly)
    ∷ (
      "-fprofile-arcs" ∷ "-ftest-coverage" ∷ "--coverage" ∷ "-frepo" ∷ "-fprofile-generate"
          ∷ "-fprofile-use" ∷ "-save-temps" ∷ "--save-temps" ∷ "-fbranch-probabilities" ∷ [],
      "-save-temps=" ∷ "--save-temps=" ∷ [],
      forces_local,
    )
    ∷ ("-gsplit-dwarf" ∷ [], [], split_dwarf)
    ∷ ("-x" ∷ [], [], language)
    ∷ ("-march=native" ∷ [], [], march)
    ∷ ("-mcpu=native" ∷ [], [], mcpu)
    ∷ ("-mtune=native" ∷ [], [], mtune)
    ∷ ("-fexec-charset" ∷ "-fwide-exec-charset" ∷ "-finput-charset" ∷ [], [], forces_local)
    ∷ ("-c" ∷ [], [], compile_only)
    ∷ ([], "-o" ∷ [], output)
    ∷ ("-D" ∷ "-U" ∷ [], [], define)
    ∷ (
      "-I" ∷ "-i" ∷ "--include-directory" ∷ "-L" ∷ "-l" ∷ "--library-directory" ∷ "-MF" ∷ "-MT"
          ∷ "-MQ" ∷ "-cxx-isystem" ∷ "-c-isystem" ∷ "-idirafter" ∷ "--include-directory-after"
          ∷ "-iframework" ∷ "-iframeworkwithsysroot" ∷ "-imacros" ∷ "-imultilib" ∷ "-iprefix"
          ∷ "--include-prefix" ∷ "-iquote" ∷ "-include" ∷ "-include-pch" ∷ "-isysroot" ∷ "-isystem"
          ∷ "-isystem-after" ∷ "-ivfsoverlay" ∷ "-iwithprefix" ∷ "-serialize-diagnostics"
          ∷ "--serialize-diagnostics" ∷ "-fmodules-validate-once-per-build-session"
          ∷ "--include-with-prefix" ∷ "--include-with-prefix-after" ∷ "-iwithprefixbefore"
          ∷ "--include-with-prefix-before" ∷ "-iwithsysroot" ∷ "-index-store-path" ∷ [],
      "-fbuild-session-file=" ∷ [],
      local_value,
    )
    ∷ (
      "-fmodules" ∷ "-fcxx-modules" ∷ "-fmodules-ts" ∷ [],
      "-fmodules-cache-path=" ∷ [],
      local_only,
    )
    ∷ ([], "-Wp," ∷ "-D" ∷ "-U" ∷ [], cpp_only)
    ∷ ([], "-I" ∷ "-l" ∷ "-L" ∷ [], local_only)
    ∷ ("-undef" ∷ [], [], cpp_only)
    ∷ ("-nostdinc" ∷ "-nostdinc++" ∷ "-MD" ∷ "-MMD" ∷ "-MG" ∷ "-MP" ∷ [], [], local_only)
    ∷ ("-Wmissing-include-dirs" ∷ "-Werror=missing-include-dirs" ∷ [], [], local_only)
    ∷ (
      "-fno-color-diagnostics" ∷ "-fcolor-diagnostics" ∷ "-fno-diagnostics-color"
          ∷ "-fdiagnostics-color=never" ∷ "-fdiagnostics-color" ∷ "-fdiagnostics-color=always" ∷ [],
      [],
      color,
    )
    ∷ ("-fdiagnostics-color=auto" ∷ [], [], color_auto)
    ∷ ("-fno-diagnostics-show-caret" ∷ [], [], caret_off)
    ∷ ("-fdiagnostics-show-caret" ∷ [], [], caret_on)
    ∷ (
      [],
      "-fplugin=" ∷ "-fsanitize-blacklist=" ∷ "-fprofile-sample-use=" ∷ "-fprofile-instr-use=" ∷ [],
      file_option,
    )
    ∷ ("-Xclang" ∷ [], [], xclang)
    ∷ ("-target" ∷ [], [], target)
    ∷ ([], "--target=" ∷ [], target_joined)
    ∷ ([], "-std=" ∷ [], standard)
    ∷ ("-Wunused-macros" ∷ "-Werror=unused-macros" ∷ [], [], unused_on)
    ∷ ("-Wno-unused-macros" ∷ [], [], unused_off)
    ∷ ("-pedantic" ∷ "-Wpedantic" ∷ "-pedantic-errors" ∷ [], [], pedantic)
    ∷ ("-arch" ∷ [], [], arch)
    ∷ ([], "-flto" ∷ [], flto)
    ∷ []

abbrev takes : Branch → Bytes → Bool
takes (words, heads, kind) a = is_one_of words a || begins_with_one_of heads a

-- The first branch that takes the word.
unfoldable pub first_branch : List Branch → Bytes → OptionKind
first_branch [] a = other
first_branch (b ∷ bs) a = let later = first_branch bs a in if takes b a then b.2 else later

unfoldable pub kind_of : Bytes → OptionKind
kind_of a = first_branch branches a
