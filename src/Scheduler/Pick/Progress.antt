-- ===== src/Scheduler/Pick/Progress.antt =====
-- A job that some server could take now is given to one.
use icecream.Base.{
  ℕ, zero, suc, ◌%◌, ◌<◌, ◌≡◌, ◌≢◌, refl, sym, ap, ◌∙◌, subst, Bool, true, not, ◌||◌, is_empty,
  is_nil, is_some, Option, none, some, List, [], ◌∷◌, Elem, copy_if-keeps, get_elem?, length,
  if_of_both, arith,
}
use icecream.Base.Map.{Map}
use icecream.Floats.{Floats}
use icecream.Job.{Job}
use icecream.CompileServer.{CompileServer, server_at}
use icecream.CompileServer.Methods.{is_eligible_now}
use icecream.Algo.{pick_server_round_robin, should_refresh_stats}
use icecream.Algo.RoundRobin.{pick_server_round_robin-oldest}
use icecream.Scheduler.{Scheduler}
use icecream.Scheduler.Pick.{
  envs_match, filter_ineligible_servers, pick_server_random, pick_server_new, Bests, fastest_loop,
  try_installed, try_uninstalled, or_server, pick_server_fastest, SchedulerAlgorithmName, Options,
  round_robin, least_busy, fastest, by_algorithm, among, pick_server,
}
use icecream.Scheduler.Pick.Sound.{filter_ineligible_servers-eligible, any_host-among}

get_elem?-some : (l : List ℕ) (n : ℕ) → n < length l → is_some (get_elem? l n) ≡ true
get_elem?-some [] n h = elim h [ ]
get_elem?-some (p ∷ l) zero h = refl
get_elem?-some (p ∷ l) (suc n) h = get_elem?-some l n (omega arith)

random-some : (r p : ℕ) (l : List ℕ) → is_some (pick_server_random r (p ∷ l)) ≡ true
unfolding pick_server_random
random-some r p l = get_elem?-some (p ∷ l) (r % length (p ∷ l)) (omega arith)

round_robin-some :
    (heap : Map CompileServer) (p : ℕ) (l : List ℕ)
    → is_some (pick_server_round_robin heap (p ∷ l)) ≡ true
round_robin-some heap p l =
    let (r, e, _, _) = pick_server_round_robin-oldest heap (p ∷ l) (λ n. cc) in rw e refl

module _ (fl : Floats) (heap : Map CompileServer) (job : Job) where
  abbrev HasBest : Bests → Type 0
  HasBest b = (is_some b.best || is_some b.bestui) ≡ true

  installed-HasBest :
      (p : ℕ) (held : Option ℕ) (b : Bests)
      → held ≡ b.best
      → HasBest (try_installed fl heap job p held b)
  installed-HasBest p none b e = refl
  installed-HasBest p (some q) b e = ground arith

  uninstalled-HasBest :
      (p : ℕ) (held : Option ℕ) (b : Bests)
      → held ≡ b.bestui
      → HasBest (try_uninstalled fl heap job p held b)
  uninstalled-HasBest p none b e = ground arith
  uninstalled-HasBest p (some q) b e = ground arith

  -- Once there is a candidate there is one at the end.
  fastest_loop-HasBest :
      (count : ℕ) (l : List ℕ) (b : Bests)
      → HasBest b
      → HasBest (fastest_loop fl heap job count b l)
  unfolding fastest_loop
  fastest_loop-HasBest count [] b h = h
  fastest_loop-HasBest count (p ∷ l) b h =
      if_of_both HasBest (should_refresh_stats fl job.id (server_at heap p).last_pick_id count 120)
        (record b { best = some p }) _ refl
        (if_of_both HasBest (not (is_empty (envs_match heap p job))) _ _
          (fastest_loop-HasBest count l _ (installed-HasBest p b.best b refl))
          (fastest_loop-HasBest count l _ (uninstalled-HasBest p b.bestui b refl)))

  or_server-some :
      (new best ui pre : Option ℕ)
      → (is_some best || is_some ui) ≡ true
      → is_some
          (or_server fl heap job new (or_server fl heap job best (or_server fl heap job ui pre)))
        ≡ true
  or_server-some new best ui pre h = ground arith

  -- The loop over a list that is not empty finds a candidate, whatever it held.
  fastest_loop-finds :
      (count p : ℕ) (l : List ℕ) (b : Bests) → HasBest (fastest_loop fl heap job count b (p ∷ l))
  unfolding fastest_loop
  fastest_loop-finds count p l b =
      if_of_both HasBest (should_refresh_stats fl job.id (server_at heap p).last_pick_id count 120)
        (record b { best = some p }) _ refl
        (if_of_both HasBest (not (is_empty (envs_match heap p job))) _ _
          (fastest_loop-HasBest count l _ (installed-HasBest p b.best b refl))
          (fastest_loop-HasBest count l _ (uninstalled-HasBest p b.bestui b refl)))

  fastest-some :
      (no_stats : Bool) (r p : ℕ) (l : List ℕ)
      → is_some (pick_server_fastest fl heap job no_stats r (p ∷ l)) ≡ true
  unfolding pick_server_fastest
  fastest-some no_stats r p l =
      if_of_both {A = Option ℕ} (λ o. is_some o ≡ true) no_stats _ _ (random-some r p l)
        (or_server-some (pick_server_new heap job none (p ∷ l)) found.best found.bestui
          found.bestpre
          (fastest_loop-finds (length (p ∷ l)) p l
            (record { best = none; bestui = none; bestpre = none })))
    where
      found : Bests
      found =
          fastest_loop fl heap job (length (p ∷ l))
            (record { best = none; bestui = none; bestpre = none }) (p ∷ l)

module _ (fl : Floats) (o : Options) (s : Scheduler) (job : Job) where
  by_algorithm-some :
      (a : SchedulerAlgorithmName) (p : ℕ) (l : List ℕ)
      → a ≢ least_busy
      → is_some (by_algorithm fl o a s job (p ∷ l)) ≡ true
  by_algorithm-some least_busy p l n = absurd (n refl)
  by_algorithm-some round_robin p l n = round_robin-some s.heap p l
  by_algorithm-some fastest p l n = fastest-some fl s.heap job (is_nil s.stats.last) o.random p l
  by_algorithm-some _ p l n = random-some o.random p l

  among-some :
      (l : List ℕ) → o.algorithm ≢ least_busy → l ≢ [] → is_some (among fl o s job l) ≡ true
  among-some [] n h = absurd (h refl)
  among-some (p ∷ []) n h = refl
  among-some (p ∷ q ∷ ps) n h = by_algorithm-some o.algorithm p (q ∷ ps) n

  Elem-ne-nil : (p : ℕ) (l : List ℕ) → Elem p l → l ≢ []
  Elem-ne-nil p [] i e = absurd i
  Elem-ne-nil p (q ∷ l) i e = cc

  -- With no preferred host, one eligible server is enough for a server to be picked. (What
  -- pick_server_least_busy picks depends on the floating point numbers.)
  pub pick_server-some :
      (p : ℕ)
      → is_empty job.preferred_host ≡ true
      → o.algorithm ≢ least_busy
      → Elem p s.css
      → is_eligible_now s.heap p job ≡ true
      → is_some (pick_server fl o s job) ≡ true
  pick_server-some p any_host n i e =
      ap is_some (any_host-among fl o s job any_host)
      ∙ among-some (filter_ineligible_servers s.heap s.css job) n (
          Elem-ne-nil p (filter_ineligible_servers s.heap s.css job) (
            subst (Elem p) (sym (filter_ineligible_servers-eligible s.heap s.css job))
              (copy_if-keeps (λ q. is_eligible_now s.heap q job) p s.css i e)))
