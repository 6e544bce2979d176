-- ===== src/Tests/DebugTool.antt =====
-- The diagnostic utility on the simulated dongle, and on the pair.
use libfcd.Base.{ℕ, ◌≤◌, ◌≡◌, some, pos, arith}
use libfcd.Platform.Returns.{Returns}
use libfcd.FlashTool.Ending.{Kept}
use libfcd.Device.Session.{Session, Phase}
use libfcd.DebugTool.{diagnose, funcube_debug, debug_main}
use libfcd.DebugTool.Session.{Inspects, diagnose-Session}
use libfcd.DebugTool.Safety.{debug_main-Kept}
use libfcd.DebugTool.Output.{report, funcube_debug-report}
use libfcd.Tests.Pair.{pair, pair_counted, pair_chip, fleet, pair_start}
use libfcd.Tests.Attached.{greeting, greets}
use libfcd.Tests.Bench.{bench, counted, dongle, start}

debug_main-Kept_example : Returns (λ code t. (code ≤ 1) × Kept start t) (debug_main bench start)
debug_main-Kept_example = debug_main-Kept bench counted start

funcube_debug-report_example :
    Returns
      (λ (result, _) t.
        (result ≡ pos 0)
        × (t.printed
            ≡ report pair pair_counted
                (record { path = some "a" })
                (pair_chip "a")
                "a"
                greeting
                (λ x. 255))
        × ((x : ℕ) → (t.world "a").flash x ≡ 255))
      (funcube_debug pair "a" tt pair_start)
funcube_debug-report_example =
    funcube_debug-report pair pair_counted fleet "a" greeting pair_start (omega arith) (greets "a")
      (omega arith) (omega arith)

diagnose-Session_example :
    Returns
      (λ result t. Session bench (some "a") Inspects start.world Phase.closed t.world)
      (diagnose bench "a" dongle start)
diagnose-Session_example = diagnose-Session bench counted "a" dongle start
