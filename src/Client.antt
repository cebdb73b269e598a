-- ===== src/Client.antt =====
-- The client: how it reads the command line of a compiler. Here are the tests on words, and the names
-- of compilers, from services/util.cpp and client/arg.cpp.
pub mod Options
pub mod Scan
pub mod Analyse
use Prim.Native.Char.{code}
use icecream.Base.{
  ℕ, String, Bool, true, false, not, ◌&&◌, ◌||◌, List, [], ◌∷◌, length, any, ◌==◌, if◌then◌else◌,
}
use icecream.Comm.{Bytes}
use icecream.Comm.Path.{rfind, behind_slash}
use icecream.Comm.CompileFile.{starts_with, finds, lang_cxx}

-- The bytes of a literal.
abbrev pub codes : String → Bytes
codes String.[] = []
codes (String.◌∷◌ c s) = code c ∷ codes s

abbrev pub str_equal : Bytes → Bytes → Bool
str_equal [] [] = true
str_equal (a ∷ s) (b ∷ t) = a == b && str_equal s t
str_equal s t = false

abbrev pub str_startswith : Bytes → Bytes → Bool
str_startswith head worm = starts_with head worm

abbrev pub is_one_of : List String → Bytes → Bool
is_one_of words a = any (λ w. str_equal (codes w) a) words

abbrev pub begins_with_one_of : List String → Bytes → Bool
begins_with_one_of heads a = any (λ h. str_startswith (codes h) a) heads

unfoldable pub find_basename : Bytes → Bytes
find_basename sfile = behind_slash sfile (rfind b'/' sfile (length sfile))

unfoldable pub is_c_compiler : Bytes → Bool
is_c_compiler compiler =
    let name = find_basename compiler in
    if finds (codes "++") name
    then false
    else if finds (codes "icx") name && not (finds (codes "icpx") name)
    then true
    else finds (codes "gcc") name || finds (codes "clang") name || str_equal name (codes "cc")

unfoldable pub is_cpp_compiler : Bytes → Bool
is_cpp_compiler compiler =
    let name = find_basename compiler in
    finds (codes "g++") name
    || finds (codes "clang++") name
    || finds (codes "icpx") name
    || finds (codes "dpcpp") name
    || str_equal name (codes "c++")

unfoldable pub should_always_build_locally : Bytes → Bool
should_always_build_locally filepath =
    let filename = find_basename filepath in
    begins_with_one_of ("conftest." ∷ "tmp.conftest." ∷ []) filename
    || str_startswith (codes "Check") filename
      && begins_with_one_of
          ("CheckIncludeFile." ∷ "CheckFunctionExists." ∷ "CheckSymbolExists." ∷ "CheckTypeSize."
            ∷ "CheckPrototypeDefinition." ∷ [])
          filename

-- CompileJob::Language, as the number that is sent
abbrev pub lang_c : ℕ
lang_c = 0

abbrev pub lang_objc : ℕ
lang_objc = 2

abbrev pub lang_objcxx : ℕ
lang_objcxx = 3

abbrev pub lang_custom : ℕ
lang_custom = 4

-- What analyze_program finds: the name and language of the compiler, whether to run locally, and icerun.
pub record Program : Type 0 where
  pub compiler_name : Bytes
  pub language : ℕ
  pub always_local : Bool
  pub icerun : Bool

unfoldable pub analyze_program : Bytes → Bool → Program
analyze_program name icerun =
    let compiler_name = find_basename name in
    let program : ℕ → Bool → Bool → Program = λ language always_local custom. record {
      compiler_name = compiler_name;
      language = language;
      always_local = always_local;
      icerun = custom;
    } in
    let sycl = finds (codes "dpcpp") compiler_name in
    if icerun
    then program lang_custom true true
    else if is_cpp_compiler compiler_name
    then program lang_cxx sycl false
    else if is_c_compiler compiler_name
    then program lang_c sycl false
    else program lang_custom true true
