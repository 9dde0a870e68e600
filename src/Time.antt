-- ===== src/Time.antt =====
-- core/native/time/time.h: times of seconds and nanoseconds. The macros are functions that give the
-- new values of what they change. `none` is an overflow of a number of 64 bits.
pub mod Sums
mod Tests
use feng_shui.Prelude.{
  ℕ, zero, suc, ◌+◌, ◌-◌, ◌*◌, ◌/◌, ◌%◌, ◌^◌, ◌&&◌, leb, Bool, Option, none, some, if◌then◌else◌,
  bind,
}
use feng_shui.Prelude.Int.{ℤ, pos, negsuc, ◌+ℤ◌, ◌-ℤ◌, pos_part, neg_part, ltb_ℤ}

-- NANOSECONDS_PER_SECOND
abbrev pub nanoseconds_per_second : ℕ
nanoseconds_per_second = 1000000000

-- `struct timespec`
pub record Timespec : Type 0 where
  pub tv_sec : ℤ
  pub tv_nsec : ℤ

abbrev pub a_second : ℤ
a_second = pos nanoseconds_per_second

abbrev pub later_second : Timespec → Timespec
later_second time = record { tv_sec = time.tv_sec +ℤ pos 1; tv_nsec = time.tv_nsec -ℤ a_second }

abbrev pub earlier_second : Timespec → Timespec
earlier_second time = record { tv_sec = time.tv_sec -ℤ pos 1; tv_nsec = time.tv_nsec +ℤ a_second }

abbrev pub fits : ℤ → Bool
fits z = leb (pos_part z) (2 ^ 63 - 1) && leb (neg_part z) (2 ^ 63)

-- What has been computed, unless it overflows.
unfoldable pub checked : Timespec → Option Timespec
checked time = if fits time.tv_sec && fits time.tv_nsec then some time else none

-- The two loops of `time_normalize`; `none` also when the fuel does not suffice.
unfoldable pub carry : (fuel : ℕ) → Timespec → Option Timespec
carry zero time = none
carry (suc fuel) time =
    let rest = bind (checked (later_second time)) (λ t. carry fuel t) in
    if ltb_ℤ time.tv_nsec a_second then some time else rest

unfoldable pub borrow : (fuel : ℕ) → Timespec → Option Timespec
borrow zero time = none
borrow (suc fuel) time =
    let rest = bind (checked (earlier_second time)) (λ t. borrow fuel t) in
    if ltb_ℤ (negsuc 999999999) time.tv_nsec then some time else rest

unfoldable pub made_positive : Timespec → Option Timespec
made_positive time =
    let earlier = checked (earlier_second time) in
    if ltb_ℤ time.tv_nsec (pos 0) then earlier else some time

-- As many turns as there are whole seconds in the nanoseconds, and one to find that it is over.
abbrev pub turns : Timespec → ℕ
turns time = suc ((pos_part time.tv_nsec + neg_part time.tv_nsec) / nanoseconds_per_second)

unfoldable pub time_normalize : Timespec → Option Timespec
time_normalize time =
    bind (carry (turns time) time) (λ t. bind (borrow (turns time) t) (λ u. made_positive u))

unfoldable pub time_add : Timespec → Timespec → Option Timespec
time_add result adding = bind (time_normalize result) (λ r. bind (time_normalize adding) (λ a.
    bind (checked (record { tv_sec = r.tv_sec +ℤ a.tv_sec; tv_nsec = r.tv_nsec +ℤ a.tv_nsec }))
      (λ sum. time_normalize sum)))

unfoldable pub time_sub : Timespec → Timespec → Option Timespec
time_sub result subtracting = bind (time_normalize result) (λ r.
    bind (time_normalize subtracting) (λ a.
      bind (checked (record { tv_sec = r.tv_sec -ℤ a.tv_sec; tv_nsec = r.tv_nsec -ℤ a.tv_nsec }))
        (λ difference. time_normalize difference)))

-- For a number of milliseconds that is not negative.
unfoldable pub time_from_milliseconds : ℕ → Option Timespec
time_from_milliseconds milliseconds =
    time_normalize
      (record { tv_sec = pos (milliseconds / 1000); tv_nsec = pos (milliseconds % 1000 * 1000000) })

-- With the time that the clock shows.
unfoldable pub timeout_seconds : Timespec → ℕ → Option Timespec
timeout_seconds now seconds = bind (time_from_milliseconds (seconds * 1000)) (time_add now)

unfoldable pub timeout_milliseconds : Timespec → ℕ → Option Timespec
timeout_milliseconds now milliseconds = bind (time_from_milliseconds milliseconds) (time_add now)

unfoldable pub timeout_microseconds : Timespec → ℕ → Option Timespec
timeout_microseconds now microseconds =
    bind (time_from_milliseconds (microseconds / 1000)) (time_add now)
