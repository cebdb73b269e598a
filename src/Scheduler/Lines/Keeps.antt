-- ===== src/Scheduler/Lines/Keeps.antt =====
-- The commands of a control connection keep the invariant.
use Prim.Native.String.{String}
use icecream.Base.{
  ℕ, zero, suc, str_eq, is_nil, if◌then◌else◌, Bool, not, ◌&&◌, ◌||◌, Option, none, some, List, [],
  ◌∷◌, ◌++◌, refl, find_if, any, length, if_of_both,
}
use icecream.CompileServer.Methods.{matches}
use icecream.Scheduler.{Scheduler, Net, send, text_msg, get_internal_status, with_server, server_of}
use icecream.Scheduler.Notify.{SameWork, SameWork-refl, SameWork-trans, send-SameWork}
use icecream.Scheduler.End.Leaves.{handle_end-IsLive}
use icecream.Scheduler.Live.{IsLive, IsLive-from, SameWork-IsLive}
use icecream.Scheduler.Lines.{
  handle_control_login, say, list_servers, list_internals, remove_server, remove_servers,
  run_command, handle_line,
}

module _ (net : Net) (cs : ℕ) where
  abbrev Same : Scheduler → Scheduler × Bool → Type 0
  Same s r = SameWork s r.0

  say-SameWork : (n : ℕ) (s : Scheduler) → Same s (say net cs n s)
  unfolding say
  say-SameWork zero s = SameWork-refl s
  say-SameWork (suc n) s =
      let t = send net cs text_msg s in
      let w = send-SameWork net cs text_msg s in
      if_of_both (Same s) t.1 _ _ (SameWork-trans w (say-SameWork n t.0)) w

  list_servers-SameWork : (ps : List ℕ) (s : Scheduler) → Same s (list_servers net cs ps s)
  list_servers-SameWork [] s = SameWork-refl s
  list_servers-SameWork (p ∷ ps) s =
      let n = suc (length (server_of s p).job_list) in
      let t = say net cs n s in
      if_of_both (Same s) t.1 _ _ (SameWork-trans (say-SameWork n s) (list_servers-SameWork ps t.0))
        (say-SameWork n s)

  list_internals-SameWork :
      (words : List String) (ps : List ℕ) (s : Scheduler)
      → Same s (list_internals net cs words ps s)
  list_internals-SameWork words [] s = SameWork-refl s
  list_internals-SameWork words (p ∷ ps) s =
      let asked = (send net p get_internal_status s).0 in
      let t = say net cs 1 asked in
      let w = SameWork-trans (send-SameWork net p get_internal_status s) (say-SameWork 1 asked) in
      if_of_both (Same s) (not (is_nil words) && not (any (matches (server_of s p)) words)) _ _
        (list_internals-SameWork words ps s)
        (if_of_both (Same s) t.1 _ _ (SameWork-trans w (list_internals-SameWork words ps t.0)) w)

  remove_server-IsLive :
      (p : Option ℕ) (s : Scheduler) → IsLive s → IsLive (remove_server net cs p s)
  remove_server-IsLive none s v = v
  remove_server-IsLive (some p) s v =
      let t = send net cs text_msg s in
      let w = SameWork-IsLive (send-SameWork net cs text_msg s) v in
      if_of_both IsLive t.1 _ _ (handle_end-IsLive net p t.0 w) w

  remove_servers-IsLive :
      (block : Bool) (words : List String) (s : Scheduler)
      → IsLive s
      → IsLive (remove_servers net cs block words s)
  unfolding remove_servers
  remove_servers-IsLive block [] s v = v
  remove_servers-IsLive block (w ∷ ws) s v =
      let t = record s { block_css = if block then s.block_css ++ w ∷ [] else s.block_css } in
      let t_live : IsLive t = IsLive-from refl refl refl refl v in
      let found = find_if (λ p. matches (server_of t p) w) t.css in
      remove_servers-IsLive block ws (remove_server net cs found t)
        (remove_server-IsLive found t t_live)

  abbrev Keeps : Scheduler × Bool → Type 0
  Keeps r = IsLive r.0

  run_command-IsLive :
      (cmd : String) (words : List String) (s : Scheduler)
      → IsLive s
      → Keeps (run_command net cs cmd words s)
  unfolding run_command
  run_command-IsLive cmd words s v =
      let spoken : (n : ℕ) → Keeps (say net cs n s) = λ n. SameWork-IsLive (say-SameWork n s) v in
      if_of_both Keeps (str_eq cmd "listcs") _ _ (SameWork-IsLive (list_servers-SameWork s.css s) v)
        (if_of_both Keeps (str_eq cmd "listblocks") _ _ (spoken (length s.block_css)) (
          if_of_both Keeps (str_eq cmd "listjobs") _ _ (spoken (length s.jobs)) (
            if_of_both Keeps (str_eq cmd "quit" || str_eq cmd "exit") _ _
              (handle_end-IsLive net cs s v)
              (if_of_both Keeps (str_eq cmd "removecs" || str_eq cmd "blockcs") _ _
                (if_of_both Keeps (is_nil words) _ _ (spoken 1)
                  (remove_servers-IsLive (str_eq cmd "blockcs") words s v))
                (if_of_both Keeps (str_eq cmd "unblockcs") _ _
                  (if_of_both Keeps (is_nil words) _ _ (spoken 1)
                    (IsLive-from refl refl refl refl v))
                  (if_of_both Keeps (str_eq cmd "internals") _ _
                    (SameWork-IsLive (list_internals-SameWork words s.css s) v) (spoken 1)))))))

  pub handle_line-IsLive :
      (now : ℕ) (cmd : String) (words : List String) (s : Scheduler)
      → IsLive s
      → IsLive (handle_line net cs now cmd words s).0
  unfolding handle_line
  handle_line-IsLive now cmd words s v =
      let t = with_server cs (λ o. record o { last_talk = now }) s in
      let r = run_command net cs cmd words t in
      let w = run_command-IsLive cmd words t (IsLive-from refl refl refl refl v) in
      if_of_both Keeps r.1 _ _ (SameWork-IsLive (send-SameWork net cs text_msg r.0) w) w

  pub handle_control_login-IsLive :
      (now : ℕ) (s : Scheduler) → IsLive s → IsLive (handle_control_login net now cs s).0
  unfolding handle_control_login
  handle_control_login-IsLive now s v =
      SameWork-IsLive (send-SameWork net cs text_msg _) (IsLive-from refl refl refl refl v)
