-- ===== src/Queue/Walk.antt =====
-- The walk over the queue by get_first_job_request and get_next_job_request.
use mathlib.Core.List.{append_assoc}
use icecream.Base.{
  ℕ, zero, suc, ◌≡◌, ◌≢◌, ◌⊎◌, inl, inr, refl, ap, ◌∙◌, sym, subst, true, false, Option, none, some,
  List, [], ◌∷◌, ◌++◌, ◌≤◌, All, All-elem, Elem, contains, length, arith,
}
use icecream.Queue.{
  JobRequestsGroup, JobRequestPosition, same_group, get_first_job_request, get_next_job_request,
  next_in, next_group,
}
use icecream.Queue.Order.{IsFresh, IsQueueFrom, IsQueue}
use icecream.Queue.Contents.{pending}

-- The jobs that a loop sees which starts at a position and steps by get_next_job_request.
unfoldable pub walk : ℕ → List JobRequestsGroup → Option JobRequestPosition → List ℕ
walk zero gs pos = []
walk (suc fuel) gs none = []
walk (suc fuel) gs (some pos) = pos.job ∷ walk fuel gs (get_next_job_request gs pos)

-- No job stands twice in the list.
abbrev pub Distinct : List ℕ → Type 0
Distinct [] = Unit
Distinct (x ∷ xs) = (contains x xs ≡ false) × Distinct xs

contains-middle : (j : ℕ) (xs ys : List ℕ) → contains j (xs ++ j ∷ ys) ≡ true
contains-middle j [] ys = ground arith
contains-middle j (x ∷ xs) ys = ground (arith, contains-middle j xs ys)

Distinct-before : (j : ℕ) (xs ys : List ℕ) → Distinct (xs ++ j ∷ ys) → contains j xs ≡ false
Distinct-before j [] ys d = refl
Distinct-before j (x ∷ xs) ys d =
    ground (arith, Distinct-before j xs ys d.1, contains-middle j xs ys)

-- Where `find` stops at the given place, the next element is the head of the rest.
abbrev head_of : List ℕ → Option ℕ
head_of [] = none
head_of (k ∷ l) = some k

next_in-middle :
    (j : ℕ) (xs ys : List ℕ) → contains j xs ≡ false → next_in j (xs ++ j ∷ ys) ≡ head_of ys
next_in-middle j [] [] h = refl
next_in-middle j [] (y ∷ ys) h = ground arith
next_in-middle j (x ∷ []) ys h = ground (arith, next_in-middle j [] ys)
next_in-middle j (x ∷ z ∷ xs) ys h = ground (arith, next_in-middle j (z ∷ xs) ys)

next_group-middle :
    (g : JobRequestsGroup) (before after : List JobRequestsGroup)
    → All (λ h. same_group h g ≡ false) before
    → next_group g (before ++ g ∷ after) ≡ get_first_job_request after
unfolding get_first_job_request
next_group-middle g [] after h = ground arith
next_group-middle g (b ∷ before) after h = ground (arith, next_group-middle g before after h.1)

fresh-ne :
    (h g : JobRequestsGroup) (before after : List JobRequestsGroup)
    → IsFresh h.submitter h.niceness (before ++ g ∷ after)
    → same_group h g ≡ false
fresh-ne h g [] after f = ground arith
fresh-ne h g (b ∷ before) after f = fresh-ne h g before after f.1

IsQueueFrom-distinct :
    (lo : ℕ) (g : JobRequestsGroup) (before after : List JobRequestsGroup)
    → IsQueueFrom lo (before ++ g ∷ after)
    → All (λ h. same_group h g ≡ false) before
IsQueueFrom-distinct lo g [] after q = tt
IsQueueFrom-distinct lo g (b ∷ before) after q =
    (fresh-ne b g before after q.2, IsQueueFrom-distinct b.niceness g before after q.3)

next-in_group :
    (gs : List JobRequestsGroup) (pos : JobRequestPosition) (k : ℕ)
    → next_in pos.job pos.group.l ≡ some k
    → get_next_job_request gs pos ≡ some (record { group = pos.group; job = k })
unfolding get_next_job_request
next-in_group gs pos k e = ground arith

next-past_group :
    (gs : List JobRequestsGroup) (pos : JobRequestPosition)
    → next_in pos.job pos.group.l ≡ none
    → get_next_job_request gs pos ≡ next_group pos.group gs
unfolding get_next_job_request
next-past_group gs pos e = ground arith

first-front :
    (g : JobRequestsGroup) (gs : List JobRequestsGroup) (k : ℕ) (l : List ℕ)
    → g.l ≡ k ∷ l
    → get_first_job_request (g ∷ gs) ≡ some (record { group = g; job = k })
unfolding get_first_job_request
first-front g gs k l e = ground arith

pub List-cases : (l : List ℕ) → (l ≡ []) ⊎ ((k : ℕ) × (r : List ℕ) × (l ≡ k ∷ r))
List-cases [] = inl refl
List-cases (k ∷ r) = inr (k, r, refl)

Elem-middle : {A : Type 0} (a : A) (before after : List A) → Elem a (before ++ a ∷ after)
Elem-middle a [] after = inl refl
Elem-middle a (b ∷ before) after = inr (Elem-middle a before after)

Distinct-in :
    (gs : List JobRequestsGroup) (g : JobRequestsGroup) (xs : List ℕ) (j : ℕ)
    (before after : List JobRequestsGroup) (ys : List ℕ)
    → gs ≡ before ++ g ∷ after
    → g.l ≡ xs ++ j ∷ ys
    → All (λ h. Distinct h.l) gs
    → contains j xs ≡ false
Distinct-in gs g xs j before after ys e f d = Distinct-before j xs ys (
    subst Distinct f
      (All-elem (λ h. Distinct h.l) g gs d (subst (Elem g) (sym e) (Elem-middle g before after))))

IsQueueFrom-front :
    (lo : ℕ) (g : JobRequestsGroup) (before after : List JobRequestsGroup)
    → IsQueueFrom lo (before ++ g ∷ after)
    → g.l ≢ []
IsQueueFrom-front lo g [] after q = q.1
IsQueueFrom-front lo g (b ∷ before) after q = IsQueueFrom-front b.niceness g before after q.3

walk-none : (fuel : ℕ) (gs : List JobRequestsGroup) → walk fuel gs none ≡ []
unfolding walk
walk-none zero gs = refl
walk-none (suc fuel) gs = refl

leaves-last :
    (gs : List JobRequestsGroup) (g : JobRequestsGroup) (xs : List ℕ) (j : ℕ)
    (before after : List JobRequestsGroup)
    → gs ≡ before ++ g ∷ after
    → g.l ≡ xs ++ j ∷ []
    → IsQueue gs
    → All (λ h. Distinct h.l) gs
    → get_next_job_request gs (record { group = g; job = j }) ≡ get_first_job_request after
leaves-last gs g xs j before after e f q d =
    next-past_group gs (record { group = g; job = j })
      (ap (next_in j) f ∙ next_in-middle j xs [] (Distinct-in gs g xs j before after [] e f d))
    ∙ ap (next_group g) e
    ∙ next_group-middle g before after
        (IsQueueFrom-distinct 0 g before after (subst (IsQueueFrom 0) e q))

-- From a position on, the walk sees the rest of its group and then all groups behind it.
walk-middle :
    (fuel : ℕ) (gs : List JobRequestsGroup) (g : JobRequestsGroup) (xs : List ℕ) (j : ℕ)
    (before after : List JobRequestsGroup) (ys : List ℕ)
    → gs ≡ before ++ g ∷ after
    → g.l ≡ xs ++ j ∷ ys
    → IsQueue gs
    → All (λ h. Distinct h.l) gs
    → length (j ∷ ys ++ pending after) ≤ fuel
    → walk fuel gs (some (record { group = g; job = j })) ≡ j ∷ ys ++ pending after
unfolding walk get_first_job_request
walk-middle zero gs g xs j before after ys e f q d h = absurd (omega arith)
walk-middle (suc fuel) gs g xs j before after (k ∷ ys) e f q d h = ap (◌∷◌ j) (
    ap (walk fuel gs) (next-in_group gs (record { group = g; job = j }) k here)
    ∙ walk-middle fuel gs g (xs ++ j ∷ []) k before after ys e (f ∙ sym (append_assoc xs _ _)) q d
        (omega arith))
  where
    here : next_in j g.l ≡ some k
    here =
        ap (next_in j) f
        ∙ next_in-middle j xs (k ∷ ys) (Distinct-in gs g xs j before after (k ∷ ys) e f d)
walk-middle (suc fuel) gs g xs j before [] [] e f q d h =
    ap (◌∷◌ j) (ap (walk fuel gs) (leaves-last gs g xs j before [] e f q d) ∙ walk-none fuel gs)
walk-middle (suc fuel) gs g xs j before (b ∷ after) [] e f q d h = elim (List-cases b.l) [
  | inl empty ↦ absurd (
      IsQueueFrom-front 0 b (before ++ g ∷ []) after
        (subst (IsQueueFrom 0) (e ∙ sym (append_assoc before _ _)) q) empty)
  | inr (k, r, c) ↦ ap (◌∷◌ j) (
      ap (walk fuel gs)
        (leaves-last gs g xs j before (b ∷ after) e f q d ∙ first-front b after k r c)
      ∙ walk-middle fuel gs b [] k (before ++ g ∷ []) after r (e ∙ sym (append_assoc before _ _)) c
          q d (omega (arith, ap (λ l. length (l ++ pending after)) c))
      ∙ ap (λ l. l ++ pending after) (sym c))
]

-- The walk from the first position visits every pending request once, in the queue's order, and
-- ends: more rounds find nothing more.
pub walk-first :
    (fuel : ℕ) (gs : List JobRequestsGroup)
    → IsQueue gs
    → All (λ g. Distinct g.l) gs
    → length (pending gs) ≤ fuel
    → walk fuel gs (get_first_job_request gs) ≡ pending gs
unfolding get_first_job_request
walk-first fuel [] q d h = walk-none fuel []
walk-first fuel (g ∷ gs) q d h = elim (List-cases g.l) [
  | inl empty ↦ absurd (q.1 empty)
  | inr (k, r, c) ↦
      ap (walk fuel (g ∷ gs)) (first-front g gs k r c)
      ∙ walk-middle fuel (g ∷ gs) g [] k [] gs r refl c q d
          (omega (arith, ap (λ l. length (l ++ pending gs)) c))
      ∙ ap (λ l. l ++ pending gs) (sym c)
]
