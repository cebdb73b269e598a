-- ===== src/CompileServer/Eligible.antt =====
-- What the two eligibility tests of CompileServer guarantee.
use icecream.Base.{ℕ, ◌+◌, ◌<◌, ◌≡◌, ◌⊎◌, true, false, is_empty, arith}
use icecream.Base.Map.{Map}
use icecream.Base.Int.{ℤ, pos, pos_part, neg_part}
use icecream.Job.{Job}
use icecream.CompileServer.{CompileServer, server_at}
use icecream.CompileServer.Methods.{
  can_install, check_remote, is_eligible_ever, is_eligible_now, jobs_okay, features_supported,
}

-- `a < b`
abbrev pub ◌<ℤ◌ : ℤ → ℤ → Type 0
◌<ℤ◌ a b = pos_part a + neg_part b < pos_part b + neg_part a

-- The tests of the two methods, as facts.
pub record IsEligible (heap : Map CompileServer) (p : ℕ) (job : Job) : Type 0 where
  pub has_slots : ◌<ℤ◌ (pos 0) (server_at heap p).max_jobs
  pub chroot_or_own : ((server_at heap p).chroot_possible ≡ true) ⊎ (job.submitter ≡ p)
  pub accepting : (server_at heap p).accepting_in_connection ≡ true
  pub features : features_supported (server_at heap p) job.required_features ≡ true
  pub remote_okay : check_remote heap p job ≡ true
  pub installable : is_empty (can_install heap p job true) ≡ false

pub is_eligible_ever-IsEligible :
    (heap : Map CompileServer) (p : ℕ) (job : Job)
    → is_eligible_ever heap p job ≡ true
    → IsEligible heap p job
unfolding is_eligible_ever
is_eligible_ever-IsEligible heap p job h = ground arith

pub now→ever :
    (heap : Map CompileServer) (p : ℕ) (job : Job)
    → is_eligible_now heap p job ≡ true
    → (is_eligible_ever heap p job ≡ true)
      × (jobs_okay heap p job (server_at heap p) ≡ true)
      × ((server_at heap p).load < 1000)
      × (is_empty (can_install heap p job false) ≡ false)
unfolding is_eligible_now
now→ever heap p job h = ground arith
