-- ===== src/Comm.antt =====
-- services/comm.cpp: how MsgChannel puts numbers, texts and lists on the wire, and reads them.
--
-- A `std::string` is the list of its bytes. A writer gets the bytes that come behind what it
-- writes; a reader gets the bytes of inbuf from intogo to inofs, and gives back those that it leaves.
pub mod RoundTrip
pub mod Behind
pub mod Path
pub mod Requests
pub mod Jobs
pub mod Hosts
pub mod Done
pub mod CompileFile
pub mod FileChunk
pub mod Msg
pub mod Channel
use icecream.Base.{ℕ, zero, suc, ◌+◌, ◌*◌, ◌/◌, ◌%◌, ◌^◌, ◌<◌, Bool, ◌||◌, List, [], ◌∷◌, ◌++◌}
use icecream.Base.{length, is_nil, All, ltb, leb, ◌==◌, if◌then◌else◌}

abbrev pub Bytes : Type 0
Bytes = List ℕ

-- What fits into a `uint32_t`.
abbrev pub IsWord : ℕ → Type 0
IsWord n = n < 2 ^ 32

-- A text that the wire can carry: no byte of it is 0, and its length with the 0 behind fits.
abbrev pub IsText : Bytes → Type 0
IsText s = All (λ b. 0 < b) s × IsWord (suc (length s))

abbrev pub IsTexts : List Bytes → Type 0
IsTexts l = All IsText l × IsWord (length l)

-- `typedef std::list<std::pair<std::string, std::string> > Environments`
abbrev pub WireEnvironments : Type 0
WireEnvironments = List (Bytes × Bytes)

abbrev pub IsEnvironments : WireEnvironments → Type 0
IsEnvironments envs = All (λ env. IsText env.0 × IsText env.1) envs × IsWord (length envs)

-- PROTOCOL_VERSION and MIN_PROTOCOL_VERSION
abbrev pub protocol_version : ℕ
protocol_version = 45

abbrev pub min_protocol_version : ℕ
min_protocol_version = 21

-- IS_PROTOCOL_VERSION(x, c) for a channel that speaks version `protocol`
abbrev pub is_protocol_version : ℕ → ℕ → Bool
is_protocol_version x protocol = leb x protocol

abbrev pub Writer : Type 0
Writer = Bytes → Bytes

abbrev pub Reader {ℓ} : Type ℓ → Type ℓ
Reader A = Bytes → A × Bytes

abbrev pub pure {ℓ} : {A : Type ℓ} → A → Reader A
pure a input = (a, input)

infixl 5 ◌>>=◌
unfoldable pub ◌>>=◌ {ℓ κ} : {A : Type ℓ} {B : Type κ} → Reader A → (A → Reader B) → Reader B
(r >>= f) input = let (a, rest) = r input in f a rest

-- `operator<<(uint32_t)`: the bytes from the highest to the lowest, `htonl`.
unfoldable pub put_u32 : ℕ → Writer
put_u32 n behind = n / 2 ^ 24 % 256 ∷ n / 2 ^ 16 % 256 ∷ n / 2 ^ 8 % 256 ∷ n % 256 ∷ behind

-- `operator>>(uint32_t &)`: 0, and nothing is read, when fewer than four bytes are left.
unfoldable pub read_u32 : Reader ℕ
read_u32 (b3 ∷ b2 ∷ b1 ∷ b0 ∷ rest) = (b3 * 2 ^ 24 + b2 * 2 ^ 16 + b1 * 2 ^ 8 + b0, rest)
read_u32 short = (0, short)

-- `operator<<(const std::string &)`: the length counts the 0 that stands behind the text.
unfoldable pub put_string : Bytes → Writer
put_string s behind = put_u32 (suc (length s)) (s ++ (0 ∷ behind))

-- A `char *` as a string: what stands before the first 0. Behind the input nothing is known.
unfoldable pub until_nul : Bytes → Bytes
until_nul [] = []
until_nul (zero ∷ bs) = []
until_nul (suc b ∷ bs) = suc b ∷ until_nul bs

unfoldable pub drop {ℓ} : {A : Type ℓ} → ℕ → List A → List A
drop zero xs = xs
drop (suc n) [] = []
drop (suc n) (x ∷ xs) = drop n xs

-- `operator>>(string &)`: the length says how much is read over, the first 0 where the text ends.
unfoldable pub read_string : Reader Bytes
read_string input =
    let (len, buf) = read_u32 input in
    if len == 0 || ltb (length buf) len then ([], buf) else (until_nul buf, drop len buf)

-- The loop of `operator<<(const std::list<std::string> &)`.
unfoldable pub put_strings : List Bytes → Writer
put_strings [] behind = behind
put_strings (s ∷ l) behind = put_string s (put_strings l behind)

unfoldable pub put_list : List Bytes → Writer
put_list l behind = put_u32 (length l) (put_strings l behind)

-- The loop of `operator>>(list<string> &)`: it stops when the input is used up.
unfoldable pub read_strings : ℕ → Reader (List Bytes)
read_strings zero input = ([], input)
read_strings (suc len) input =
    let (s, rest) = read_string input in
    let more = read_strings len rest in if is_nil rest then (s ∷ [], rest) else (s ∷ more.0, more.1)

unfoldable pub read_list : Reader (List Bytes)
read_list input = let (len, rest) = read_u32 input in read_strings len rest

-- The loop of write_environments.
unfoldable pub put_pairs : WireEnvironments → Writer
put_pairs [] behind = behind
put_pairs (env ∷ envs) behind = put_string env.0 (put_string env.1 (put_pairs envs behind))

unfoldable pub write_environments : WireEnvironments → Writer
write_environments envs behind = put_u32 (length envs) (put_pairs envs behind)

-- The loop of read_environments: it runs `count` times, whatever is left of the input.
unfoldable pub read_pairs : ℕ → Reader WireEnvironments
read_pairs zero input = ([], input)
read_pairs (suc count) input =
    let (plat, after_plat) = read_string input in
    let (vers, rest) = read_string after_plat in
    let more = read_pairs count rest in ((plat, vers) ∷ more.0, more.1)

unfoldable pub read_environments : Reader WireEnvironments
read_environments input = let (count, rest) = read_u32 input in read_pairs count rest

-- A field that is sent and read from protocol version `x` on, and a value for older channels.
unfoldable pub put_since : ℕ → ℕ → Writer → Writer
put_since x protocol w behind = if is_protocol_version x protocol then w behind else behind

unfoldable pub read_since {ℓ} : {A : Type ℓ} → ℕ → ℕ → Reader A → A → Reader A
read_since x protocol r old input =
    let read = r input in if is_protocol_version x protocol then read else (old, input)

-- `bool` as `uint32_t`, and back by the test that it is not 0.
unfoldable pub put_bool : Bool → Writer
put_bool b = put_u32 (if b then 1 else 0)

unfoldable pub read_bool : Reader Bool
read_bool input = let (n, rest) = read_u32 input in (ltb 0 n, rest)
