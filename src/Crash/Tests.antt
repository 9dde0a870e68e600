-- ===== src/Crash/Tests.antt =====
-- A segmentation fault at an address without access rights, and a bus error without an address.
use feng_shui.Prelude.{ℕ, ◌≡◌, refl, true, false, none, some, List, [], arith}
use feng_shui.Prelude.Int.{pos, negsuc}
use feng_shui.Events.{got, fault}
use feng_shui.Crash.{CrashSignal, sigbus, sigsegv, Information, described, crash_signal_callback}
use feng_shui.Crash.Reports.{IsReport, report_of, crash_signal_callback-IsReport}

abbrev at_4096 : List ℕ → ℕ
at_4096 text = 4096

abbrev lines : CrashSignal → ℕ
lines _ = 27

abbrev refused_page : Information
refused_page = record { si_code = pos 2; si_addr = 8192; at = 64 }

nested :
    crash_signal_callback (true, true) true at_4096 [] [] lines true (some sigsegv) refused_page
    ≡ got (true, none)
unfolding crash_signal_callback
nested = refl

unexpected :
    crash_signal_callback (true, true) true at_4096 [] [] lines false none refused_page ≡ fault
unfolding crash_signal_callback described
unexpected = refl

no_address :
    IsReport (report_of at_4096 sigbus (record { si_code = negsuc 5; si_addr = 0; at = 64 })) (
      crash_signal_callback
        (true, true)
        true
        at_4096
        []
        []
        lines
        false
        (some sigbus)
        (record { si_code = negsuc 5; si_addr = 0; at = 64 }))
no_address =
    crash_signal_callback-IsReport at_4096 [] [] lines sigbus
      (record { si_code = negsuc 5; si_addr = 0; at = 64 }) (λ text. omega arith) (omega arith)
      (omega arith) (omega arith)

crash_signal_callback-IsReport_example :
    IsReport (report_of at_4096 sigsegv refused_page) (
      crash_signal_callback (true, true) true at_4096 [] [] lines false (some sigsegv) refused_page)
crash_signal_callback-IsReport_example =
    crash_signal_callback-IsReport at_4096 [] [] lines sigsegv refused_page (λ text. omega arith)
      (omega arith) (omega arith) (omega arith)
