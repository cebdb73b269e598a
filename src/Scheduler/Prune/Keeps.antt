-- ===== src/Scheduler/Prune/Keeps.antt =====
-- Pruning keeps the invariant.
use icecream.Base.{
  ℕ, ◌+◌, ◌-◌, ◌≤◌, ◌∙◌, ◌++◌, ◌≡◌, refl, ap, sym, subst, min, leb, ◌==◌, if◌then◌else◌, not, ◌&&◌,
  Option, none, some, List, [], ◌∷◌, if_of_both,
}
use icecream.Base.Int.{pos, leb_ℤ, neg_ℤ}
use icecream.CompileServer.{CompileServer}
use icecream.CompileServer.Connect.{start_in_connection_test, start_in_connection_test-none}
use icecream.Scheduler.{Scheduler, Net, send, ping_msg, with_server, server_of}
use icecream.Scheduler.Notify.{send-SameWork}
use icecream.Scheduler.End.{handle_end}
use icecream.Scheduler.End.Leaves.{handle_end-IsLive}
use icecream.Scheduler.Live.{IsLive, IsLive-from, SameWork-IsLive}
use icecream.Scheduler.Prune.{
  Limits, Sockets, prune_controls, ask, prune_one, tested, prune_css, prune_servers,
}

abbrev Keeps : Scheduler × ℕ → Type 0
Keeps r = IsLive r.0

module _ (net : Net) (lim : Limits) (now : ℕ) where
  prune_controls-IsLive :
      (ps : List ℕ) (m : ℕ) (s : Scheduler) → IsLive s → Keeps (prune_controls net lim now ps m s)
  unfolding prune_controls
  prune_controls-IsLive [] m s v = v
  prune_controls-IsLive (p ∷ ps) m s v =
      let old = leb ((server_of s p).last_talk + lim.ping) now in
      prune_controls-IsLive ps
        (if old then m else min m ((server_of s p).last_talk + lim.ping - now))
        (if old then handle_end net p s else s)
        (if_of_both IsLive old _ _ (handle_end-IsLive net p s v) v)

  ask-IsLive : (p m : ℕ) (s : Scheduler) → IsLive s → Keeps (ask net lim now p m s)
  ask-IsLive p m s v =
      let t = with_server p (λ cs. record cs { max_jobs = neg_ℤ cs.max_jobs }) s in
      let t_live : IsLive t = IsLive-from refl refl refl refl v in
      let r = send net p ping_msg t in
      let w : IsLive r.0 = SameWork-IsLive (send-SameWork net p ping_msg t) t_live in
      if_of_both Keeps r.1 _ _ (IsLive-from refl refl refl refl w) (handle_end-IsLive net p r.0 w)

  prune_one-IsLive : (p m : ℕ) (s : Scheduler) → IsLive s → Keeps (prune_one net lim now p m s)
  unfolding prune_one
  prune_one-IsLive p m s v =
      let cs = server_of s p in
      if_of_both Keeps
        (not (cs.busy_installing == 0) && leb (cs.busy_installing + lim.installing) now) _ _
        (handle_end-IsLive net p s v)
        (if_of_both Keeps (leb 27 cs.protocol) _ _ v (
          if_of_both Keeps (leb (cs.last_talk + lim.ping) now) _ _
            (if_of_both Keeps (leb_ℤ (pos 0) cs.max_jobs) _ _ (ask-IsLive p m s v)
              (handle_end-IsLive net p s v))
            v))

  module _ (os : Sockets) where
    abbrev then_rest : ℕ → List ℕ → ℕ → Scheduler → Option CompileServer → Option (Scheduler × ℕ)
    then_rest p ps m s none = none
    then_rest p ps m s (some cs) =
        prune_css net lim now os ps (tested net lim now os p m cs s).1
          (tested net lim now os p m cs s).0

    -- The loop stops at a server with twelve failed tests or more, and up to it all is in step.
    abbrev StopsAt : List ℕ → ℕ → Scheduler → Type 0
    StopsAt ps m s =
        (before : List ℕ) × (p : ℕ) × (after : List ℕ) × (t : Scheduler) × (n : ℕ) × (ps
          ≡ before ++ p ∷ after)
        × (prune_css net lim now os before m s ≡ some (t, n))
        × IsLive t
        × (12 ≤ (server_of t p).in_conn_attempt)

    abbrev KeepsCss : List ℕ → ℕ → Scheduler → Option (Scheduler × ℕ) → Type 0
    KeepsCss ps m s none = StopsAt ps m s
    KeepsCss ps m s (some r) = IsLive r.0

    -- The invariant after the pruning, or up to where it reads outside the table.
    abbrev pub KeepsPruned : Scheduler → Option (Scheduler × ℕ) → Type 0
    KeepsPruned s o =
        let (t, m) = prune_controls net lim now s.controls lim.ping s in KeepsCss t.css m t o

    prune_css-step :
        (p : ℕ) (ps : List ℕ) (m : ℕ) (s : Scheduler) (r : Option CompileServer)
        → start_in_connection_test now (os.socket p) (os.connect p) (os.healthy p) (server_of s p)
          ≡ r
        → prune_css net lim now os (p ∷ ps) m s ≡ then_rest p ps m s r
    unfolding prune_css
    prune_css-step p ps m s r e = ap (then_rest p ps m s) e

    module _ (p : ℕ) (ps : List ℕ) (m : ℕ) (s : Scheduler) where
      further :
          (cs : CompileServer)
          → start_in_connection_test now (os.socket p) (os.connect p) (os.healthy p) (server_of s p)
            ≡ some cs
          → (o : Option (Scheduler × ℕ))
          → KeepsCss ps (tested net lim now os p m cs s).1 (tested net lim now os p m cs s).0 o
          → KeepsCss (p ∷ ps) m s o
      further cs e none (before, q, after, t, n, split, ran, v, stop) = (
        p ∷ before,
        q,
        after,
        t,
        n,
        ap (λ l. p ∷ l) split,
        prune_css-step p before m s (some cs) e ∙ ran,
        v,
        stop,
      )
      further cs e (some r) v = v

      then_rest-Keeps :
          (r : Option CompileServer)
          → start_in_connection_test now (os.socket p) (os.connect p) (os.healthy p) (server_of s p)
            ≡ r
          → ((n : ℕ) (t : Scheduler) → IsLive t → KeepsCss ps n t (prune_css net lim now os ps n t))
          → IsLive s
          → KeepsCss (p ∷ ps) m s (then_rest p ps m s r)
      unfolding prune_css
      then_rest-Keeps none e rest v = (
        [],
        p,
        ps,
        s,
        m,
        refl,
        refl,
        v,
        start_in_connection_test-none now (os.socket p) (os.connect p) (os.healthy p)
            (server_of s p) e,
      )
      then_rest-Keeps (some cs) e rest v = further cs e _ (
          rest (tested net lim now os p m cs s).1 (tested net lim now os p m cs s).0 (
            prune_one-IsLive p _ (with_server p (λ old. cs) s) (IsLive-from refl refl refl refl v)))

    prune_css-Keeps :
        (ps : List ℕ) (m : ℕ) (s : Scheduler)
        → IsLive s
        → KeepsCss ps m s (prune_css net lim now os ps m s)
    unfolding prune_css
    prune_css-Keeps [] m s v = v
    prune_css-Keeps (p ∷ ps) m s v =
        let r =
          start_in_connection_test now (os.socket p) (os.connect p) (os.healthy p)
            (server_of s p) in
        subst (KeepsCss (p ∷ ps) m s) (sym (prune_css-step p ps m s r refl))
          (then_rest-Keeps p ps m s r refl (prune_css-Keeps ps) v)

    -- Pruning keeps jobs, queue and servers in step, whichever peers it closes. It reads outside the
    -- table of offsets only at a server with twelve failed tests or more, and until it gets there all
    -- is in step.
    pub prune_servers-KeepsPruned :
        (s : Scheduler) → IsLive s → KeepsPruned s (prune_servers net lim now os s)
    unfolding prune_servers
    prune_servers-KeepsPruned s v =
        let r = prune_controls net lim now s.controls lim.ping s in
        prune_css-Keeps r.0.css r.1 r.0 (prune_controls-IsLive s.controls lim.ping s v)
