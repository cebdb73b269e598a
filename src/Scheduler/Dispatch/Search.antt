-- ===== src/Scheduler/Dispatch/Search.antt =====
-- The search loop of empty_queue: it ends within its fuel, and what it finds.
use icecream.Base.{
  ℕ, zero, suc, ◌<◌, ◌≡◌, ◌≢◌, refl, sym, ap, ◌∙◌, subst, ◌⊎◌, inl, inr, true, false, if◌then◌else◌,
  Option, none, some, All, length, Option-cases, Bool-cases, arith,
}
use icecream.Floats.{Floats}
use icecream.Job.{Job}
use icecream.Queue.{JobRequestPosition, get_first_job_request, get_next_job_request}
use icecream.Queue.Order.{IsQueue}
use icecream.Queue.Contents.{pending}
use icecream.Queue.Walk.{walk, walk-first, Distinct}
use icecream.Scheduler.{Scheduler}
use icecream.Scheduler.Pick.{Options, pick_server}
use icecream.Scheduler.Dispatch.{Choice, serve, no_fuel, submitter_takes, last_resort, choose_loop}

module _ (fl : Floats) (o : Options) (s : Scheduler) where
  last_resort-fuel : (first : Option JobRequestPosition) → last_resort fl o s first ≢ no_fuel
  last_resort-fuel none e = cc
  last_resort-fuel (some first) e = ground arith

  -- A walk that is shorter than the fuel bounds the loop.
  choose_loop-walk :
      (fuel : ℕ) (job : Job) (at_ : JobRequestPosition)
      → length (walk fuel s.job_requests (some at_)) < fuel
      → choose_loop fl o fuel s job at_ ≢ no_fuel
  unfolding choose_loop walk
  choose_loop-walk zero job at_ h e = elim h [ ]
  choose_loop-walk (suc fuel) job at_ h e =
      elim (Option-cases (get_next_job_request s.job_requests at_)) [
        | inl last ↦ ground (arith, last_resort-fuel (get_first_job_request s.job_requests))
        | inr (next, n) ↦
            let bound = rw n at h in ground (arith, choose_loop-walk fuel job next (omega arith))
      ]

  -- A job that no server takes now is met again at every position of the queue.
  choose_loop-stuck :
      (fuel : ℕ) (job : Job) (at_ : JobRequestPosition)
      → pick_server fl o s job ≡ none
      → submitter_takes fl o s job ≡ false
      → (choose_loop fl o fuel s job at_ ≡ no_fuel)
        ⊎ (choose_loop fl o fuel s job at_
            ≡ last_resort fl o s (get_first_job_request s.job_requests))
  unfolding choose_loop
  choose_loop-stuck zero job at_ p t = inl refl
  choose_loop-stuck (suc fuel) job at_ p t =
      elim (Option-cases (get_next_job_request s.job_requests at_)) [
        | inl last ↦ inr (ground arith)
        | inr (next, n) ↦ ground (arith, choose_loop-stuck fuel job next p t)
      ]

  choose_loop-head :
      (fuel : ℕ) (job : Job) (at_ : JobRequestPosition) (p : ℕ)
      → pick_server fl o s job ≡ some p
      → choose_loop fl o (suc fuel) s job at_ ≡ serve at_ p
  unfolding choose_loop
  choose_loop-head fuel job at_ p e = ground arith

  choose_loop-own :
      (fuel : ℕ) (job : Job) (at_ : JobRequestPosition)
      → pick_server fl o s job ≡ none
      → submitter_takes fl o s job ≡ true
      → choose_loop fl o (suc fuel) s job at_ ≡ serve at_ job.submitter
  unfolding choose_loop
  choose_loop-own fuel job at_ e t = ground arith

  -- Enough rounds for the walk over the whole queue.
  choose_loop-ends :
      (fuel : ℕ) (job : Job) (first : JobRequestPosition)
      → IsQueue s.job_requests
      → All (λ g. Distinct g.l) s.job_requests
      → get_first_job_request s.job_requests ≡ some first
      → length (pending s.job_requests) < fuel
      → choose_loop fl o fuel s job first ≢ no_fuel
  choose_loop-ends fuel job first q d f h = choose_loop-walk fuel job first (
      subst (λ l. length l < fuel)
        (sym (
          ap (walk fuel s.job_requests) (sym f) ∙ walk-first fuel s.job_requests q d (omega arith)))
        h)

  -- The same decision, from the first request alone.
  abbrev pub first_only : Job → JobRequestPosition → Option ℕ → Choice
  first_only job first (some p) = serve first p
  first_only job first none =
      if submitter_takes fl o s job
      then serve first job.submitter
      else last_resort fl o s (some first)

  -- The loop over the queue ends, and it decides by the first request alone: since the loop never
  -- sets `job` to the request that it steps to, no later request is ever given to a server.
  pub choose_loop-first_only :
      (fuel : ℕ) (job : Job) (first : JobRequestPosition)
      → IsQueue s.job_requests
      → All (λ g. Distinct g.l) s.job_requests
      → get_first_job_request s.job_requests ≡ some first
      → length (pending s.job_requests) < fuel
      → choose_loop fl o fuel s job first ≡ first_only job first (pick_server fl o s job)
  choose_loop-first_only zero job first q d f h = elim h [ ]
  choose_loop-first_only (suc fuel) job first q d f h =
      elim (Option-cases (pick_server fl o s job)) [
        | inr (p, e) ↦ choose_loop-head fuel job first p e ∙ sym (ap (first_only job first) e)
        | inl e ↦ elim (Bool-cases (submitter_takes fl o s job)) [
          | inl t ↦ choose_loop-own fuel job first e t ∙ ground arith
          | inr t ↦ ground (
            arith,
            choose_loop-stuck (suc fuel) job first e t,
            choose_loop-ends (suc fuel) job first q d f h,
          )
        ]
      ]
