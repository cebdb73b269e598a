-- ===== src/Scheduler/Pick/Sound.antt =====
-- Whatever algorithm runs, pick_server picks a server that is eligible now.
use mathlib.Core.Path.{fun_ext}
use icecream.Base.{
  if_of_both, get_elem?, ℕ, zero, suc, ◌%◌, ◌≡◌, refl, sym, ap, ◌∙◌, subst, ◌⊎◌, inl, inr, Bool,
  true, false, not, ◌&&◌, is_empty, is_nil, Option, none, some, List, [], ◌∷◌, copy_if, copy_if-sub,
  copy_if-passes, find_if, find_if-some, All, All-map, All-elem, Elem, length, arith, Bool-cases,
}
use icecream.Base.Map.{Map}
use icecream.Floats.{Floats}
use icecream.Job.{Job}
use icecream.CompileServer.{CompileServer, server_at}
use icecream.CompileServer.Methods.{matches, is_eligible_now}
use icecream.CompileServer.Eligible.{is_eligible_ever-IsEligible, now→ever}
use icecream.Algo.{
  pick_server_round_robin, pick_server_least_busy, should_refresh_stats, round_robin_loop,
}
use icecream.Algo.RoundRobin.{pick_server_round_robin-oldest}
use icecream.Scheduler.{Scheduler}
use icecream.Scheduler.Pick.{
  envs_match, is_usable, filter_ineligible_servers, pick_server_random, pick_server_new, Bests,
  fastest_loop, try_installed, try_uninstalled, or_server, pick_server_fastest,
  SchedulerAlgorithmName, Options, round_robin, least_busy, fastest, by_algorithm, among,
  pick_server,
}

is_usable-eligible :
    (heap : Map CompileServer) (job : Job) (p : ℕ)
    → is_usable heap job p ≡ is_eligible_now heap p job
is_usable-eligible heap job p = elim (Bool-cases (is_eligible_now heap p job)) [
  | inr no_ ↦ rw no_ refl
  | inl now ↦ ground (
    arith,
    now→ever heap p job now,
    is_eligible_ever-IsEligible heap p job (now→ever heap p job now).0,
  )
]

-- The tests that filter_ineligible_servers makes after is_eligible_now reject no further server.
pub filter_ineligible_servers-eligible :
    (heap : Map CompileServer) (css : List ℕ) (job : Job)
    → filter_ineligible_servers heap css job ≡ copy_if (λ p. is_eligible_now heap p job) css
unfolding filter_ineligible_servers
filter_ineligible_servers-eligible heap css job =
    ap (λ f. copy_if f css) (fun_ext (is_usable-eligible heap job))

-- An optional choice is one of the list.
abbrev pub From : List ℕ → Option ℕ → Type 0
From l none = Unit
From l (some p) = Elem p l

From-some : (l : List ℕ) (o : Option ℕ) (p : ℕ) → From l o → o ≡ some p → Elem p l
From-some l none p f e = cc
From-some l (some q) p f e = ground arith

From-cons : (l : List ℕ) (q : ℕ) (o : Option ℕ) → From l o → From (q ∷ l) o
From-cons l q none f = tt
From-cons l q (some p) f = inr f

get_elem?-From : (l : List ℕ) (n : ℕ) → From l (get_elem? l n)
get_elem?-From [] n = tt
get_elem?-From (p ∷ ps) zero = inl refl
get_elem?-From (p ∷ ps) (suc n) = From-cons ps p (get_elem? ps n) (get_elem?-From ps n)

round_robin-From : (heap : Map CompileServer) (l : List ℕ) → From l (pick_server_round_robin heap l)
unfolding pick_server_round_robin round_robin_loop
round_robin-From heap [] = tt
round_robin-From heap (p ∷ l) =
    let (r, e, i, _) = pick_server_round_robin-oldest heap (p ∷ l) (λ n. cc) in
    subst (From (p ∷ l)) (sym e) i

From-sub : (l m : List ℕ) (o : Option ℕ) → ((p : ℕ) → Elem p l → Elem p m) → From l o → From m o
From-sub l m none h f = tt
From-sub l m (some p) h f = h p f

least_busy-From :
    (fl : Floats) (heap : Map CompileServer) (l : List ℕ) (w : ℕ)
    → From l (pick_server_least_busy fl heap l w)
unfolding pick_server_least_busy
least_busy-From fl heap l w =
    From-sub _ l (pick_server_round_robin heap _) (λ p. copy_if-sub _ p l) (round_robin-From heap _)

-- A choice among the servers of a longer list, held already or made later.
new-From :
    (heap : Map CompileServer) (job : Job) (all l : List ℕ) (held : Option ℕ)
    → From all held
    → All (λ p. Elem p all) l
    → From all (pick_server_new heap job held l)
unfolding pick_server_new
new-From heap job all [] held f h = f
new-From heap job all (p ∷ l) held f h =
    new-From heap job all l _ (if_of_both (From all) _ (some p) held h.0 f) h.1

pub record FromBests (l : List ℕ) (b : Bests) : Type 0 where
  pub best : From l b.best
  pub bestui : From l b.bestui
  pub bestpre : From l b.bestpre

module _ (fl : Floats) (heap : Map CompileServer) (job : Job) (all : List ℕ) where
  installed-From :
      (p : ℕ) (held : Option ℕ) (b : Bests)
      → Elem p all
      → FromBests all b
      → FromBests all (try_installed fl heap job p held b)
  installed-From p none b h f = record { best = h; bestui = f.bestui; bestpre = f.bestpre }
  installed-From p (some q) b h f = ground arith

  uninstalled-From :
      (p : ℕ) (held : Option ℕ) (b : Bests)
      → Elem p all
      → FromBests all b
      → FromBests all (try_uninstalled fl heap job p held b)
  uninstalled-From p none b h f = record { best = f.best; bestui = h; bestpre = f.bestpre }
  uninstalled-From p (some q) b h f = ground arith

  fastest_loop-From :
      (count : ℕ) (l : List ℕ) (b : Bests)
      → FromBests all b
      → All (λ p. Elem p all) l
      → FromBests all (fastest_loop fl heap job count b l)
  unfolding fastest_loop
  fastest_loop-From count [] b f h = f
  fastest_loop-From count (p ∷ l) b f h =
      if_of_both (FromBests all)
        (should_refresh_stats fl job.id (server_at heap p).last_pick_id count 120)
        (record b { best = some p }) _
        (record { best = h.0; bestui = f.bestui; bestpre = f.bestpre })
        (if_of_both (FromBests all) (not (is_empty (envs_match heap p job))) _ _
          (fastest_loop-From count l (try_installed fl heap job p b.best b)
            (installed-From p b.best b h.0 f) h.1)
          (fastest_loop-From count l (try_uninstalled fl heap job p b.bestui b)
            (uninstalled-From p b.bestui b h.0 f) h.1))

or_server-From :
    (fl : Floats) (heap : Map CompileServer) (job : Job) (l : List ℕ) (o q : Option ℕ)
    → From l o
    → From l q
    → From l (or_server fl heap job o q)
or_server-From fl heap job l none q f g = g
or_server-From fl heap job l (some p) q f g = f

Elem-All : (l : List ℕ) → All (λ p. Elem p l) l
Elem-All [] = tt
Elem-All (p ∷ l) =
    (inl refl, All-map (λ q. Elem q l) (λ q. Elem q (p ∷ l)) l (λ q e. inr e) (Elem-All l))

fastest-From :
    (fl : Floats) (heap : Map CompileServer) (job : Job) (no_stats : Bool) (r : ℕ) (l : List ℕ)
    → From l (pick_server_fastest fl heap job no_stats r l)
unfolding pick_server_fastest pick_server_random
fastest-From fl heap job no_stats r l = if_of_both (From l) no_stats _ _ (get_elem?-From l _) (
    or_server-From fl heap job l _ _ (new-From heap job l l none tt (Elem-All l)) (
      or_server-From fl heap job l _ _ found.best
        (or_server-From fl heap job l _ _ found.bestui found.bestpre)))
  where
    found : FromBests l (
        fastest_loop fl heap job
          (length l)
          (record { best = none; bestui = none; bestpre = none })
          l)
    found =
        fastest_loop-From fl heap job l (length l) l
          (record { best = none; bestui = none; bestpre = none })
          (record { best = tt; bestui = tt; bestpre = tt }) (Elem-All l)

module _ (fl : Floats) (o : Options) (s : Scheduler) (job : Job) where
  by_algorithm-From :
      (a : SchedulerAlgorithmName) (l : List ℕ) → From l (by_algorithm fl o a s job l)
  unfolding pick_server_random
  by_algorithm-From round_robin l = round_robin-From s.heap l
  by_algorithm-From least_busy l = least_busy-From fl s.heap l o.submission_weight
  by_algorithm-From fastest l = fastest-From fl s.heap job (is_nil s.stats.last) o.random l
  by_algorithm-From _ l = get_elem?-From l (o.random % length l)

  among-From : (l : List ℕ) → From l (among fl o s job l)
  among-From [] = tt
  among-From (p ∷ []) = inl refl
  among-From (p ∷ q ∷ ps) = by_algorithm-From o.algorithm (p ∷ q ∷ ps)

  pub any_host-among :
      is_empty job.preferred_host ≡ true
      → pick_server fl o s job ≡ among fl o s job (filter_ineligible_servers s.heap s.css job)
  unfolding pick_server
  any_host-among e = rw e refl

  one_host-find_if :
      is_empty job.preferred_host ≡ false
      → pick_server fl o s job
        ≡ find_if
            (λ p. matches (server_at s.heap p) job.preferred_host && is_eligible_now s.heap p job)
            s.css
  unfolding pick_server
  one_host-find_if e = rw e refl

  -- The server picked is connected and eligible now, and it is the preferred host if there is one.
  pub pick_server-eligible :
      (p : ℕ)
      → pick_server fl o s job ≡ some p
      → Elem p s.css
        × (is_eligible_now s.heap p job ≡ true)
        × ((is_empty job.preferred_host ≡ true)
            ⊎ (matches (server_at s.heap p) job.preferred_host ≡ true))
  pick_server-eligible p e = elim (Bool-cases (is_empty job.preferred_host)) [
    | inl any_host ↦
        let found =
          From-some (filter_ineligible_servers s.heap s.css job)
            (among fl o s job (filter_ineligible_servers s.heap s.css job)) p
            (among-From (filter_ineligible_servers s.heap s.css job))
            (sym (any_host-among any_host) ∙ e) in
        let kept = subst (Elem p) (filter_ineligible_servers-eligible s.heap s.css job) found in
        (
          copy_if-sub (λ q. is_eligible_now s.heap q job) p s.css kept,
          All-elem (λ q. is_eligible_now s.heap q job ≡ true) p _
              (copy_if-passes (λ q. is_eligible_now s.heap q job) s.css) kept,
          inl any_host,
        )
    | inr one ↦
        let (i, t) = find_if-some _ p s.css (sym (one_host-find_if one) ∙ e) in
        (i, ground arith, inr (ground arith))
  ]
