-- ===== src/JobStat/Window.antt =====
-- The sum that goes with a list of figures is the sum of that list.
use icecream.Base.{
  ℕ, suc, ◌+◌, ◌%◌, ◌≤◌, ◌≡◌, ltb, List, [], ◌∷◌, ◌++◌, length, length-append, Bool-cases, inl, inr,
  arith,
}
use icecream.JobStat.{JobStat, StatWindow, u64, add_stat, sub_stat, push_stat, drop_oldest}

unfoldable pub total : (JobStat → ℕ) → List JobStat → ℕ
total f [] = 0
total f (st ∷ sts) = f st + total f sts

-- Every component of the sum is that of the list, up to the 64 bits of the type.
pub record IsSum (w : StatWindow) : Type 0 where
  pub output_size : w.cum.output_size ≡ total (λ st. st.output_size) w.last % u64
  pub compile_time_real : w.cum.compile_time_real ≡ total (λ st. st.compile_time_real) w.last % u64
  pub compile_time_user : w.cum.compile_time_user ≡ total (λ st. st.compile_time_user) w.last % u64
  pub compile_time_sys : w.cum.compile_time_sys ≡ total (λ st. st.compile_time_sys) w.last % u64

total-append_one :
    (f : JobStat → ℕ) (sts : List JobStat) (st : JobStat)
    → total f (sts ++ st ∷ []) ≡ total f sts + f st
unfolding total
total-append_one f [] st = omega arith
total-append_one f (x ∷ sts) st = omega (arith, total-append_one f sts st)

drop_oldest-IsSum :
    (last : List JobStat) (cum : JobStat)
    → IsSum (record { last = last; cum = cum })
    → IsSum (drop_oldest last cum)
unfolding total sub_stat
drop_oldest-IsSum [] cum s = s
drop_oldest-IsSum (oldest ∷ last) cum s = omega arith

push-IsSum :
    (st : JobStat) (w : StatWindow)
    → IsSum w
    → IsSum (record { last = w.last ++ st ∷ []; cum = add_stat w.cum st })
unfolding add_stat
push-IsSum st w s = omega (
  arith,
  total-append_one (λ st. st.output_size) w.last st,
  total-append_one (λ st. st.compile_time_real) w.last st,
  total-append_one (λ st. st.compile_time_user) w.last st,
  total-append_one (λ st. st.compile_time_sys) w.last st,
)

length-drop_oldest :
    (limit : ℕ) (last : List JobStat) (cum : JobStat)
    → length last ≤ suc limit
    → length (drop_oldest last cum).last ≤ limit
length-drop_oldest limit [] cum h = omega arith
length-drop_oldest limit (st ∷ last) cum h = omega arith

-- A window that has its sum and is within the limit has so after one more figure.
pub push_stat-IsSum :
    (limit : ℕ) (st : JobStat) (w : StatWindow)
    → IsSum w
    → length w.last ≤ limit
    → IsSum (push_stat limit st w) × (length (push_stat limit st w).last ≤ limit)
unfolding push_stat
push_stat-IsSum limit st w s h = elim (Bool-cases (ltb limit (length (w.last ++ st ∷ [])))) [
  | inl over ↦ rw over (
    drop_oldest-IsSum _ _ (push-IsSum st w s),
    length-drop_oldest limit (w.last ++ st ∷ []) (add_stat w.cum st)
        (omega (arith, length-append w.last (st ∷ []))),
  )
  | inr fits ↦ rw fits (push-IsSum st w s, ground arith)
]
