-- ===== src/Time/Tests.antt =====
-- Times added and subtracted.
use feng_shui.Prelude.{◌+◌, ◌≡◌, refl, arith, some}
use feng_shui.Prelude.Int.{pos, negsuc, ◌+ℤ◌, ◌-ℤ◌}
use feng_shui.Time.{
  Timespec, time_normalize, carry, borrow, checked, made_positive, time_add, time_sub,
  time_from_milliseconds, timeout_milliseconds,
}
use feng_shui.Time.Sums.{IsNormal, above, below, time_sum-IsNormal}

-- 6.5 seconds, and a nanosecond less than 2.
abbrev long : Timespec
long = record { tv_sec = pos 5; tv_nsec = pos 1500000000 }

abbrev short : Timespec
short = record { tv_sec = pos 2; tv_nsec = negsuc 0 }

abbrev normal_short : Timespec
normal_short = record { tv_sec = pos 1; tv_nsec = pos 999999999 }

normalizes : time_normalize short ≡ some normal_short
unfolding time_normalize carry borrow checked made_positive ◌+ℤ◌ ◌-ℤ◌
normalizes = refl

waits : timeout_milliseconds short 2500 ≡ some (record { tv_sec = pos 4; tv_nsec = pos 499999999 })
unfolding timeout_milliseconds time_from_milliseconds time_add time_normalize carry borrow checked
    made_positive ◌+ℤ◌ ◌-ℤ◌
waits = refl

time_sum-IsNormal_example :
    ((s : Timespec) × (time_add long short ≡ some s)
      × IsNormal s
      × (above long + above short + below s ≡ above s + below long + below short))
    × ((d : Timespec) × (time_sub long short ≡ some d)
        × IsNormal d
        × (above long + below short + below d ≡ above d + below long + above short))
time_sum-IsNormal_example =
    time_sum-IsNormal long short (omega arith, omega arith) (omega arith, omega arith)
