-- ===== src/Scheduler/Lines.antt =====
-- The control connections of scheduler/scheduler.cpp: handle_control_login, and handle_line for a
-- line that split_string has cut into a command, in lower case, and its words. The texts of the
-- answers are left out.
pub mod Keeps
use Prim.Native.String.{String}
use icecream.Base.{
  ℕ, str_eq, is_nil, if◌then◌else◌, Bool, true, false, not, ◌&&◌, ◌||◌, Option, none, some, List,
  [], ◌∷◌, ◌++◌, find_if, any, length, zero, suc,
}
use icecream.CompileServer.{logged_in, line}
use icecream.CompileServer.Methods.{matches}
use icecream.Scheduler.{Scheduler, Net, send, text_msg, get_internal_status, with_server, server_of}
use icecream.Scheduler.End.{handle_end}

-- `block_css.erase(it)` of the first entry that is the word.
abbrev pub unblock : String → List String → List String
unblock w [] = []
unblock w (b ∷ bs) = let rest = unblock w bs in if str_eq w b then bs else b ∷ rest

module _ (net : Net) where
  unfoldable pub handle_control_login : ℕ → ℕ → Scheduler → Scheduler × Bool
  handle_control_login now cs s =
      let t =
        with_server cs (λ o. record o { type = line; last_talk = now; state = logged_in }) s in
      send net cs text_msg (record t { controls = t.controls ++ cs ∷ [] })

  module _ (cs : ℕ) where
    -- A number of lines, until one cannot be sent.
    unfoldable pub say : ℕ → Scheduler → Scheduler × Bool
    say zero s = (s, true)
    say (suc n) s =
        let (t, sent) = send net cs text_msg s in
        let rest = say n t in if sent then rest else (t, false)

    -- The loop of listcs: a line for the server and one for each of its jobs.
    abbrev pub list_servers : List ℕ → Scheduler → Scheduler × Bool
    list_servers [] s = (s, true)
    list_servers (p ∷ ps) s =
        let (t, sent) = say (suc (length (server_of s p).job_list)) s in
        let rest = list_servers ps t in if sent then rest else (t, false)

    -- The loop of internals: what the server answers is text, or there is a text in its place.
    abbrev pub list_internals : List String → List ℕ → Scheduler → Scheduler × Bool
    list_internals words [] s = (s, true)
    list_internals words (p ∷ ps) s =
        let skipped = list_internals words ps s in
        let (t, sent) = say 1 (send net p get_internal_status s).0 in
        let rest = list_internals words ps t in
        if not (is_nil words) && not (any (matches (server_of s p)) words)
        then skipped
        else if sent
        then rest
        else (t, false)

    -- The first server that matches goes, once the control connection is told.
    abbrev pub remove_server : Option ℕ → Scheduler → Scheduler
    remove_server none s = s
    remove_server (some p) s =
        let (t, sent) = send net cs text_msg s in if sent then handle_end net p t else t

    -- The loop of removecs and blockcs over the words.
    unfoldable pub remove_servers : Bool → List String → Scheduler → Scheduler
    remove_servers block [] s = s
    remove_servers block (w ∷ ws) s =
        let t = record s { block_css = if block then s.block_css ++ w ∷ [] else s.block_css } in
        remove_servers block ws (remove_server (find_if (λ p. matches (server_of t p) w) t.css) t)

    abbrev pub unblock_all : List String → List String → List String
    unblock_all [] blocks = blocks
    unblock_all (w ∷ ws) blocks = unblock_all ws (unblock w blocks)

    -- The chain of commands, up to the closing answer.
    unfoldable pub run_command : String → List String → Scheduler → Scheduler × Bool
    run_command cmd words s =
        if str_eq cmd "listcs"
        then list_servers s.css s
        else if str_eq cmd "listblocks"
        then say (length s.block_css) s
        else if str_eq cmd "listjobs"
        then say (length s.jobs) s
        else if str_eq cmd "quit" || str_eq cmd "exit"
        then (handle_end net cs s, false)
        else if str_eq cmd "removecs" || str_eq cmd "blockcs"
        then (if is_nil words
            then say 1 s
            else (remove_servers (str_eq cmd "blockcs") words s, true))
        else if str_eq cmd "unblockcs"
        then (if is_nil words
            then say 1 s
            else (record s { block_css = unblock_all words s.block_css }, true))
        else if str_eq cmd "internals"
        then list_internals words s.css s
        else say 1 s

    unfoldable pub handle_line : ℕ → String → List String → Scheduler → Scheduler × Bool
    handle_line now cmd words s =
        let (t, going) =
          run_command cmd words (with_server cs (λ o. record o { last_talk = now }) s) in
        if going then send net cs text_msg t else (t, false)
