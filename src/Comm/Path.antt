-- ===== src/Comm/Path.antt =====
-- services/comm.cpp: shorten_filename, which cuts a path to its last parts.
use icecream.Base.{ℕ, zero, suc, Bool, Option, none, some, [], ◌∷◌, arith}
use icecream.Base.{false, length, get_elem?, ◌==◌, if◌then◌else◌}
use icecream.Comm.{Bytes, IsText, drop}

-- `s[i] == c`, false behind the end.
abbrev pub has_at : ℕ → Bytes → ℕ → Bool
has_at c s i = elim (get_elem? s i) [ none ↦ false | some b ↦ b == c ]

-- `s.rfind(c, n - 1)`: the last `c` among the first n bytes.
unfoldable pub rfind : ℕ → Bytes → ℕ → Option ℕ
rfind c s zero = none
rfind c s (suc n) = let before = rfind c s n in if has_at c s n then some n else before

-- One round of the loop. For `ofs` 0 the position `ofs - 1` wraps around: the search starts at the
-- end of the text again.
unfoldable pub step_back : Bytes → Option ℕ → Option ℕ
step_back str none = none
step_back str (some zero) = rfind b'/' str (length str)
step_back str (some (suc o)) = rfind b'/' str (suc o)

-- `str.substr(ofs + 1)`, where npos + 1 is 0.
unfoldable pub behind_slash : Bytes → Option ℕ → Bytes
behind_slash str none = str
behind_slash str (some ofs) = drop (suc ofs) str

unfoldable pub shorten_filename : Bytes → Bytes
shorten_filename str =
    behind_slash str (step_back str (step_back str (rfind b'/' str (length str))))

drop-IsText : (n : ℕ) (s : Bytes) → IsText s → IsText (drop n s)
unfolding drop
drop-IsText zero s h = h
drop-IsText (suc n) [] h = h
drop-IsText (suc n) (b ∷ s) h = drop-IsText n s (h.0.1, omega (arith, h.1))

behind_slash-IsText : (s : Bytes) (ofs : Option ℕ) → IsText s → IsText (behind_slash s ofs)
unfolding behind_slash
behind_slash-IsText s none h = h
behind_slash-IsText s (some ofs) h = drop-IsText (suc ofs) s h

-- What is left of a text that the wire can carry is one too.
pub shorten_filename-IsText : (s : Bytes) → IsText s → IsText (shorten_filename s)
unfolding shorten_filename
shorten_filename-IsText s h = behind_slash-IsText s _ h
