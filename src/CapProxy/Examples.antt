-- ===== src/CapProxy/Examples.antt =====
-- Runs of the proxy on sequences that capproxy.rs and its tests name.
use openab_pty.Base.{◌≡◌, refl, [], ◌++◌, codes, arith}
use openab_pty.Scan.{owned, run}
use openab_pty.CapProxy.Text.{parse_params, parse_groups, split, value_from, show}
use openab_pty.CapProxy.Kitty.{new, kitty_set}
use openab_pty.CapProxy.Inspect.{
  csi, process, look, inspect, inspect_csi, private_of, final_from, dispatch_csi, dispatch_plain,
  dispatch_question, dispatch_marked, kitty_report, resync,
}
use openab_pty.Scan.{bytes}
use openab_pty.Scan.Run.{strip}
use openab_pty.CapProxy.Kitty.{default_screen}
use openab_pty.CapProxy.Model.{IsValid, ScreenIsValid, process-IsValid}
use openab_pty.CapProxy.Reach.{process_lem}
use openab_pty.CapProxy.Resync.{resync_lem}

answers_da1 :
    process new (codes "a" ++ (csi (codes "0c") ++ codes "b"))
    ≡ (owned (codes "ab"), csi (codes "?65;4;1;2;6;21;22;17;28c"), record new { answered = 1 })
unfolding process look inspect inspect_csi private_of final_from dispatch_csi dispatch_plain run
    parse_params parse_groups split value_from new
answers_da1 = refl

answers_kitty : process new (csi (codes "=5;1u") ++ csi (codes "?u")) ≡ (
  owned (csi (codes "=5;1u")),
  csi (codes "?5u"),
  record new { answered = 1; normal = record { flags = 5; stack = [] } },
)
unfolding process look inspect inspect_csi private_of final_from dispatch_csi dispatch_marked
    dispatch_question kitty_report show kitty_set run parse_params parse_groups split value_from new
answers_kitty = refl

new-IsValid : IsValid new
unfolding new
new-IsValid = record { normal = screen; alternate = screen }
  where
    screen : ScreenIsValid default_screen
    screen = record { known = omega arith; saved = tt; bounded = omega arith }

process-IsValid_example : IsValid (process new (csi (codes ">5u"))).2
process-IsValid_example = process-IsValid new (csi (codes ">5u")) new-IsValid

process_lem_example :
    (
      bytes (process new (csi (codes "c"))).0,
      ((process new (csi (codes "c"))).2, (process new (csi (codes "c"))).1),
    )
    ≡ strip look (csi (codes "c")) (new, [])
process_lem_example = process_lem new (csi (codes "c"))

resync_lem_example :
    resync new (csi (codes ">5u"))
    ≡ record (process new (csi (codes ">5u"))).2 { answered = new.answered }
resync_lem_example = resync_lem new (csi (codes ">5u"))
