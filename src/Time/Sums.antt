-- ===== src/Time/Sums.antt =====
-- Sums and differences of times come out normal, and exact.
use feng_shui.Prelude.{
  ℕ, zero, suc, ◌+◌, ◌*◌, ◌^◌, ◌≤◌, ◌<◌, ◌≡◌, ◌⊎◌, inl, inr, refl, arith, true, false, Bool-cases,
  some,
}
use feng_shui.Prelude.Int.{ℤ, pos, negsuc, ◌+ℤ◌, ◌-ℤ◌, pos_part, neg_part, ltb_ℤ, int_laws}
use feng_shui.Time.{
  Timespec, nanoseconds_per_second, a_second, later_second, earlier_second, carry, borrow,
  made_positive, turns, time_normalize, time_add, time_sub, fits, checked,
}

-- All nanoseconds of a time, those above zero and those below.
abbrev pub above : Timespec → ℕ
above t = pos_part t.tv_sec * nanoseconds_per_second + pos_part t.tv_nsec

abbrev pub below : Timespec → ℕ
below t = neg_part t.tv_sec * nanoseconds_per_second + neg_part t.tv_nsec

-- The same time in all.
abbrev pub IsSame : Timespec → Timespec → Type 0
IsSame t u = above t + below u ≡ above u + below t

one_part : (z : ℤ) → (pos_part z ≡ 0) ⊎ (neg_part z ≡ 0)
one_part (pos n) = inr refl
one_part (negsuc n) = inl refl

later-IsSame : (t : Timespec) → IsSame t (later_second t)
later-IsSame t = omega (int_laws)

earlier-IsSame : (t : Timespec) → IsSame t (earlier_second t)
earlier-IsSame t = omega (int_laws)

IsSame-trans : (t u v : Timespec) → IsSame t u → IsSame u v → IsSame t v
IsSame-trans t u v h k = omega arith

-- How far a time is from 0, and its nanoseconds.
abbrev spread : Timespec → ℕ
spread t = above t + below t

abbrev nano : Timespec → ℕ
nano t = pos_part t.tv_nsec + neg_part t.tv_nsec

-- What cannot overflow: 2 ^ 62 seconds and 2 ^ 62 nanoseconds.
abbrev HasRoom : Timespec → Type 0
HasRoom t = (spread t ≤ 2 ^ 62 * nanoseconds_per_second) × (nano t ≤ 2 ^ 62)

within : (z : ℤ) → pos_part z + neg_part z ≤ 2 ^ 62 + 1 → fits z ≡ true
within z h = ground arith

checked-some :
    (t : Timespec)
    → pos_part t.tv_sec + neg_part t.tv_sec ≤ 2 ^ 62 + 1
    → nano t ≤ 2 ^ 62 + 1
    → checked t ≡ some t
unfolding checked
checked-some t h k = rw (within t.tv_sec h, within t.tv_nsec k) refl

-- A second more or less.
plus_one : (z : ℤ) → pos_part (z +ℤ pos 1) + neg_part (z +ℤ pos 1) ≤ suc (pos_part z + neg_part z)
unfolding ◌+ℤ◌
plus_one (pos n) = ground arith
plus_one (negsuc n) = ground arith

minus_one : (z : ℤ) → pos_part (z -ℤ pos 1) + neg_part (z -ℤ pos 1) ≤ suc (pos_part z + neg_part z)
unfolding ◌-ℤ◌
minus_one (pos n) = ground arith
minus_one (negsuc n) = ground arith

-- The tests of the loops, on the parts of an integer.
not_over : (z : ℤ) → ltb_ℤ z a_second ≡ true → pos_part z < nanoseconds_per_second
not_over (pos n) h = ground arith
not_over (negsuc n) h = omega arith

over : (z : ℤ) → ltb_ℤ z a_second ≡ false → nanoseconds_per_second ≤ pos_part z
over (pos n) h = ground arith
over (negsuc n) h = ground arith

not_under : (z : ℤ) → ltb_ℤ (negsuc 999999999) z ≡ true → neg_part z < nanoseconds_per_second
not_under (pos n) h = omega arith
not_under (negsuc n) h = ground arith

under : (z : ℤ) → ltb_ℤ (negsuc 999999999) z ≡ false → nanoseconds_per_second ≤ neg_part z
under (pos n) h = ground arith
under (negsuc n) h = ground arith

-- What a turn of each loop does to the parts.
less_above :
    (z : ℤ)
    → nanoseconds_per_second ≤ pos_part z
    → (pos_part (z -ℤ a_second) + nanoseconds_per_second ≡ pos_part z)
      × (neg_part (z -ℤ a_second) ≡ 0)
unfolding ◌-ℤ◌
less_above (pos n) h = (ground arith, ground arith)
less_above (negsuc n) h = absurd (omega arith)

less_below :
    (z : ℤ)
    → nanoseconds_per_second ≤ neg_part z
    → (neg_part (z +ℤ a_second) + nanoseconds_per_second ≡ neg_part z)
      × (pos_part (z +ℤ a_second) ≡ 0)
unfolding ◌+ℤ◌
less_below (pos n) h = absurd (omega arith)
less_below (negsuc n) h = (ground arith, ground arith)

raised_once :
    (z : ℤ)
    → ltb_ℤ z (pos 0) ≡ true
    → neg_part z < nanoseconds_per_second
    → (neg_part (z +ℤ a_second) ≡ 0) × (pos_part (z +ℤ a_second) < nanoseconds_per_second)
unfolding ◌+ℤ◌
raised_once (pos n) h few = ground arith
raised_once (negsuc n) h few = (ground arith, ground arith)

not_minus : (z : ℤ) → ltb_ℤ z (pos 0) ≡ false → neg_part z ≡ 0
not_minus (pos n) h = refl
not_minus (negsuc n) h = ground arith

later_fits :
    (t : Timespec)
    → nanoseconds_per_second ≤ pos_part t.tv_nsec
    → HasRoom t
    → (checked (later_second t) ≡ some (later_second t))
      × (spread (later_second t) ≤ spread t)
      × (nano (later_second t) ≤ nano t)
later_fits t over_one (wide, few) =
    let (down, none_below) = less_above t.tv_nsec over_one in
    let step = plus_one t.tv_sec in
    (
      checked-some (later_second t) (omega (arith, step, wide))
          (omega (arith, few, down, none_below)),
      omega (arith, step, down, none_below),
      omega (arith, down, none_below),
    )

earlier_fits :
    (t : Timespec)
    → nanoseconds_per_second ≤ neg_part t.tv_nsec
    → HasRoom t
    → (checked (earlier_second t) ≡ some (earlier_second t))
      × (spread (earlier_second t) ≤ spread t)
      × (nano (earlier_second t) ≤ nano t)
earlier_fits t under_one (wide, few) =
    let (up, none_above) = less_below t.tv_nsec under_one in
    let step = minus_one t.tv_sec in
    (
      checked-some (earlier_second t) (omega (arith, step, wide))
          (omega (arith, few, up, none_above)),
      omega (arith, step, up, none_above),
      omega (arith, up, none_above),
    )

carry_ends :
    (fuel : ℕ) (t : Timespec)
    → pos_part t.tv_nsec < fuel * nanoseconds_per_second
    → HasRoom t
    → (u : Timespec) × (carry fuel t ≡ some u)
      × IsSame t u
      × (pos_part u.tv_nsec < nanoseconds_per_second)
      × (neg_part u.tv_nsec ≤ neg_part t.tv_nsec)
      × (spread u ≤ spread t)
      × (nano u ≤ nano t)
unfolding carry
carry_ends zero t h room = absurd (omega arith)
carry_ends (suc fuel) t h room = elim (Bool-cases (ltb_ℤ t.tv_nsec a_second)) [
  | inl done ↦
      (t, rw (done) refl, refl, not_over t.tv_nsec done, omega arith, omega arith, omega arith)
  | inr more ↦
      let (down, none_below) = less_above t.tv_nsec (over t.tv_nsec more) in
      let (ok, wide, few_left) = later_fits t (over t.tv_nsec more) room in
      let (u, ran, same, small, few, wide', few') =
        carry_ends fuel (later_second t) (omega (arith, h, down))
          (omega (arith, wide, room), omega (arith, few_left, room)) in
      (
        u,
        rw (more, ok) ran,
        IsSame-trans t (later_second t) u (later-IsSame t) same,
        small,
        omega (arith, few, none_below),
        omega (arith, wide, wide'),
        omega (arith, few_left, few'),
      )
]

borrow_ends :
    (fuel : ℕ) (t : Timespec)
    → neg_part t.tv_nsec < fuel * nanoseconds_per_second
    → pos_part t.tv_nsec < nanoseconds_per_second
    → HasRoom t
    → (u : Timespec) × (borrow fuel t ≡ some u)
      × IsSame t u
      × (pos_part u.tv_nsec < nanoseconds_per_second)
      × (neg_part u.tv_nsec < nanoseconds_per_second)
      × (spread u ≤ spread t)
unfolding borrow
borrow_ends zero t h small room = absurd (omega arith)
borrow_ends (suc fuel) t h small room = elim (Bool-cases (ltb_ℤ (negsuc 999999999) t.tv_nsec)) [
  | inl done ↦ (t, rw (done) refl, refl, small, not_under t.tv_nsec done, omega arith)
  | inr more ↦
      let (up, none_above) = less_below t.tv_nsec (under t.tv_nsec more) in
      let (ok, wide, few_left) = earlier_fits t (under t.tv_nsec more) room in
      let (u, ran, same, small', few, wide') =
        borrow_ends fuel (earlier_second t) (omega (arith, h, up)) (omega (arith, none_above))
          (omega (arith, wide, room), omega (arith, few_left, room)) in
      (
        u,
        rw (more, ok) ran,
        IsSame-trans t (earlier_second t) u (earlier-IsSame t) same,
        small',
        few,
        omega (arith, wide, wide'),
      )
]

-- From 0 nanoseconds to less than a second.
abbrev pub IsNormal : Timespec → Type 0
IsNormal t = (neg_part t.tv_nsec ≡ 0) × (pos_part t.tv_nsec < nanoseconds_per_second)

made_positive-IsNormal :
    (t : Timespec)
    → pos_part t.tv_nsec < nanoseconds_per_second
    → neg_part t.tv_nsec < nanoseconds_per_second
    → spread t ≤ 2 ^ 62 * nanoseconds_per_second
    → (u : Timespec) × (made_positive t ≡ some u)
      × IsNormal u
      × IsSame t u
      × (spread u ≤ spread t + 2 * nanoseconds_per_second)
unfolding made_positive
made_positive-IsNormal t small few wide = elim (Bool-cases (ltb_ℤ t.tv_nsec (pos 0))) [
  | inl minus ↦
      let (none_below, below_one) = raised_once t.tv_nsec minus few in
      let step = minus_one t.tv_sec in
      (
        earlier_second t,
        rw (minus) (
            checked-some (earlier_second t) (omega (arith, step, wide))
              (omega (arith, none_below, below_one))),
        (none_below, below_one),
        earlier-IsSame t,
        omega (arith, step, none_below, below_one),
      )
  | inr plus ↦ (t, rw (plus) refl, (not_minus t.tv_nsec plus, small), refl, omega arith)
]

pub time_normalize-IsNormal :
    (t : Timespec)
    → HasRoom t
    → (u : Timespec) × (time_normalize t ≡ some u)
      × IsNormal u
      × IsSame t u
      × (spread u ≤ spread t + 2 * nanoseconds_per_second)
unfolding time_normalize
time_normalize-IsNormal t (wide, few) =
    let (u, ran, same, small, few_below, wide_u, few_u) =
      carry_ends (turns t) t (omega arith) (wide, few) in
    let (v, ran', same', small', few', wide_v) =
      borrow_ends (turns t) u (omega (arith, few_below)) small
        (omega (arith, wide_u, wide), omega (arith, few_u, few)) in
    let (w, ran'', normal, same'', wide_w) =
      made_positive-IsNormal v small' few' (omega (arith, wide_v, wide_u, wide)) in
    (
      w,
      rw (ran, ran') ran'',
      normal,
      IsSame-trans t v w (IsSame-trans t u v same same') same'',
      omega (arith, wide_w, wide_v, wide_u),
    )

abbrev sum : Timespec → Timespec → Timespec
sum t u = record { tv_sec = t.tv_sec +ℤ u.tv_sec; tv_nsec = t.tv_nsec +ℤ u.tv_nsec }

abbrev difference : Timespec → Timespec → Timespec
difference t u = record { tv_sec = t.tv_sec -ℤ u.tv_sec; tv_nsec = t.tv_nsec -ℤ u.tv_nsec }

sum_total :
    (t u : Timespec) → above (sum t u) + below t + below u ≡ below (sum t u) + above t + above u
sum_total t u = omega (int_laws)

difference_total :
    (t u : Timespec)
    → above (difference t u) + below t + above u ≡ below (difference t u) + above t + below u
difference_total t u = omega (int_laws)

sum_parts :
    (a b : ℤ)
    → pos_part (a +ℤ b) + neg_part (a +ℤ b) ≤ pos_part a + neg_part a + (pos_part b + neg_part b)
unfolding ◌+ℤ◌
sum_parts a b = ground arith

difference_parts :
    (a b : ℤ)
    → pos_part (a -ℤ b) + neg_part (a -ℤ b) ≤ pos_part a + neg_part a + (pos_part b + neg_part b)
unfolding ◌-ℤ◌
difference_parts a b = ground arith

-- Seconds and nanoseconds of less than 2 ^ 60, to either side of 0.
abbrev pub InRange : Timespec → Type 0
InRange t = (pos_part t.tv_sec + neg_part t.tv_sec < 2 ^ 60) × (nano t < 2 ^ 60)

-- Two normal times on which the bound that follows from their range holds.
abbrev Near : Timespec → Type 0
Near t =
    IsNormal t × (spread t ≤ 2 ^ 60 * nanoseconds_per_second + 2 ^ 60 + 2 * nanoseconds_per_second)

combined :
    (t u : Timespec) (v : Timespec)
    → Near t
    → Near u
    → pos_part v.tv_sec + neg_part v.tv_sec
      ≤ pos_part t.tv_sec + neg_part t.tv_sec + (pos_part u.tv_sec + neg_part u.tv_sec)
    → nano v ≤ nano t + nano u
    → (checked v ≡ some v) × HasRoom v
combined t u v ((none_t, small_t), wide_t) ((none_u, small_u), wide_u) secs nanos = (
  checked-some v (omega (arith, secs, wide_t, wide_u))
      (omega (arith, nanos, none_t, none_u, small_t, small_u)),
  (
    omega (arith, secs, nanos, wide_t, wide_u, none_t, none_u, small_t, small_u),
    omega (arith, nanos, none_t, none_u, small_t, small_u),
  ),
)

-- For seconds and nanoseconds of less than 2 ^ 60 to either side of 0, the sum and the difference of
-- two times always come out: the loops end, and no number of 64 bits overflows on the way. Both are
-- normal, from 0 nanoseconds to less than a second, and exact.
pub time_sum-IsNormal :
    (t u : Timespec)
    → InRange t
    → InRange u
    → ((s : Timespec) × (time_add t u ≡ some s)
        × IsNormal s
        × (above t + above u + below s ≡ above s + below t + below u))
      × ((d : Timespec) × (time_sub t u ≡ some d)
          × IsNormal d
          × (above t + below u + below d ≡ above d + below t + above u))
unfolding time_add time_sub
time_sum-IsNormal t u range_t range_u =
    let (t', ran_t, normal_t, same_t, wide_t) =
      time_normalize-IsNormal t (omega (arith, range_t), omega (arith, range_t)) in
    let (u', ran_u, normal_u, same_u, wide_u) =
      time_normalize-IsNormal u (omega (arith, range_u), omega (arith, range_u)) in
    let near_t : Near t' = (normal_t, omega (arith, range_t, wide_t)) in
    let near_u : Near u' = (normal_u, omega (arith, range_u, wide_u)) in
    let (ok_s, room_s) =
      combined t' u' (sum t' u') near_t near_u (sum_parts t'.tv_sec u'.tv_sec)
        (sum_parts t'.tv_nsec u'.tv_nsec) in
    let (ok_d, room_d) =
      combined t' u' (difference t' u') near_t near_u (difference_parts t'.tv_sec u'.tv_sec)
        (difference_parts t'.tv_nsec u'.tv_nsec) in
    let (s, ran_s, normal_s, same_s, wide_s) = time_normalize-IsNormal (sum t' u') room_s in
    let (d, ran_d, normal_d, same_d, wide_d) = time_normalize-IsNormal (difference t' u') room_d in
    (
      (
        s,
        rw (ran_t, ran_u, ok_s) ran_s,
        normal_s,
        omega (arith, same_t, same_u, same_s, sum_total t' u'),
      ),
      (
        d,
        rw (ran_t, ran_u, ok_d) ran_d,
        normal_d,
        omega (arith, same_t, same_u, same_d, difference_total t' u'),
      ),
    )
