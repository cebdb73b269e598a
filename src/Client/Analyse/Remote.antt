-- ===== src/Client/Analyse/Remote.antt =====
-- What analyse_argv makes sure of before a job may be remote.
use icecream.Base.{◌≡◌, Bool, true}
use icecream.Client.Analyse.{System, Analysis}
use icecream.Client.Analyse.Finish.{
  add_color, block_rewrites, add_directives, add_target, expand_native,
}

-- A pass that does not take back that the job is local, and leaves the output file.
Passes : Analysis → Analysis → Type 0
Passes a b =
    (a.scan.always_local ≡ true → b.scan.always_local ≡ true) × (b.scan.ofile ≡ a.scan.ofile)

-- The passes behind the test of the output file.
later_passes : System → Analysis → Analysis
later_passes sys a =
    expand_native sys (add_target sys (add_directives sys (block_rewrites (add_color sys a))))
