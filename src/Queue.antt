-- ===== src/Queue.antt =====
-- The pending job requests of scheduler/scheduler.cpp: JobRequestsGroup, JobRequestPosition and
-- the functions on job_requests. A job is named by its id. A group is named by its submitter and
-- niceness, where the source has a pointer; Queue/Order shows that no two groups share these.
pub mod Order
pub mod Contents
pub mod Walk
use icecream.Base.{
  ℕ, ltb, ◌==◌, if◌then◌else◌, Bool, ◌&&◌, Option, none, some, List, [], ◌∷◌, ◌++◌, erase_first,
}

pub record JobRequestsGroup : Type 0 where
  pub l : List ℕ
  pub submitter : ℕ
  pub niceness : ℕ

-- The pointer comparison `*it == group`.
abbrev pub same_group : JobRequestsGroup → JobRequestsGroup → Bool
same_group g h = g.submitter == h.submitter && g.niceness == h.niceness

abbrev pub new_group : ℕ → ℕ → ℕ → JobRequestsGroup
new_group submitter niceness job = record {
  l = job ∷ [];
  submitter = submitter;
  niceness = niceness;
}

unfoldable pub enqueue_job_request : ℕ → ℕ → ℕ → List JobRequestsGroup → List JobRequestsGroup
enqueue_job_request submitter niceness job [] = new_group submitter niceness job ∷ []
enqueue_job_request submitter niceness job (g ∷ gs) =
    let rest = enqueue_job_request submitter niceness job gs in
    if g.submitter == submitter && g.niceness == niceness
    then record g { l = g.l ++ job ∷ [] } ∷ gs
    else if ltb niceness g.niceness
    then new_group submitter niceness job ∷ g ∷ gs
    else g ∷ rest

unfoldable pub enqueue_job_requests_group :
    JobRequestsGroup → List JobRequestsGroup → List JobRequestsGroup
enqueue_job_requests_group group [] = group ∷ []
enqueue_job_requests_group group (g ∷ gs) =
    let rest = enqueue_job_requests_group group gs in
    if ltb group.niceness g.niceness then group ∷ g ∷ gs else g ∷ rest

-- A default-constructed position, which is not valid, is `none`.
pub record JobRequestPosition : Type 0 where
  pub group : JobRequestsGroup
  pub job : ℕ

-- `JobRequestPosition(g, g->l.front())`; the source asserts that the list is not empty.
abbrev pub front_position : JobRequestsGroup → List ℕ → Option JobRequestPosition
front_position g [] = none
front_position g (job ∷ l) = some (record { group = g; job = job })

unfoldable pub get_first_job_request : List JobRequestsGroup → Option JobRequestPosition
get_first_job_request [] = none
get_first_job_request (first ∷ gs) = front_position first first.l

-- The job behind `job` in the list, as `++std::find(...)` finds it.
abbrev pub next_in : ℕ → List ℕ → Option ℕ
next_in job [] = none
next_in job (j ∷ []) = none
next_in job (j ∷ k ∷ l) = let rest = next_in job (k ∷ l) in if j == job then some k else rest

-- The front of the group behind `group`.
abbrev pub next_group : JobRequestsGroup → List JobRequestsGroup → Option JobRequestPosition
next_group group [] = none
next_group group (g ∷ gs) =
    let rest = next_group group gs in if same_group g group then get_first_job_request gs else rest

unfoldable pub get_next_job_request :
    List JobRequestsGroup → JobRequestPosition → Option JobRequestPosition
unfolding get_first_job_request
get_next_job_request gs pos = elim (next_in pos.job pos.group.l) [
  | some k ↦ some (record { group = pos.group; job = k })
  | none ↦ next_group pos.group gs
]

-- `job_requests.remove(group)`
abbrev pub remove_group : JobRequestsGroup → List JobRequestsGroup → List JobRequestsGroup
remove_group group [] = []
remove_group group (g ∷ gs) =
    let rest = remove_group group gs in if same_group g group then rest else g ∷ rest

-- `JobRequestsGroup::remove_job`, without the answer that nobody reads.
abbrev pub remove_job : ℕ → JobRequestsGroup → JobRequestsGroup
remove_job job g = record g { l = erase_first job g.l }

-- A group that has jobs left goes back behind its peers; an empty one is deleted.
abbrev pub requeue : JobRequestsGroup → List ℕ → List JobRequestsGroup → List JobRequestsGroup
requeue group [] gs = gs
requeue group (j ∷ l) gs = enqueue_job_requests_group (record group { l = j ∷ l }) gs

unfoldable pub remove_job_request :
    JobRequestPosition → List JobRequestsGroup → List JobRequestsGroup
unfolding enqueue_job_requests_group
remove_job_request pos gs =
    requeue pos.group (erase_first pos.job pos.group.l) (remove_group pos.group gs)
