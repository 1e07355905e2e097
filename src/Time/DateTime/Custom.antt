-- ===== src/Time/DateTime/Custom.antt =====
-- time/DateTime.cpp and time/DateTime.h: the times of a format of `strftime`, the clock, and the
-- comparisons. `strftime`, with the size of its buffer, is an argument.
use mysql_connect_pool.Prelude.{
  ℕ, ◌+◌, ◌*◌, ◌≡◌, ◌↔◌, Bool, true, not, List, ◌∷◌, ◌++◌, if◌then◌else◌, arith,
}
use mysql_connect_pool.Prelude.Int.{ℤ, pos, negsuc, eq_ℤ, lt_ℤ, ◌-ℤ◌}
use mysql_connect_pool.Time.DateText.{zeros}
use mysql_connect_pool.Time.DateTime.{Tm, micros_of, seconds_since_epoch, round_second}

-- `date`, from the two numbers of `gettimeofday`.
unfoldable pub date : ℕ → ℕ → ℤ
date tv_sec tv_usec = pos (tv_sec * 1000000 + tv_usec)

unfoldable pub equals : ℤ → ℤ → Bool
equals s t = eq_ℤ s t

unfoldable pub is_before : ℤ → ℤ → Bool
is_before s t = lt_ℤ s t

-- `operator>=`, and with the times exchanged `operator<=`.
unfoldable pub is_not_before : ℤ → ℤ → Bool
is_not_before s t = not (lt_ℤ s t)

unfoldable pub is_same_second : ℤ → ℤ → Bool
unfolding seconds_since_epoch
is_same_second s t = eq_ℤ (seconds_since_epoch s) (seconds_since_epoch t)

module _ (localtime_r gmtime_r : ℤ → Tm) (strftime : ℕ → List ℕ → Tm → List ℕ) where
  -- The text of `strftime`, and behind it the microseconds.
  unfoldable pub custom_text : Bool → List ℕ → Tm → ℤ → List ℕ
  unfolding zeros micros_of
  custom_text show_microseconds format tm t =
      let buffer = strftime 256 format tm in
      if not show_microseconds then buffer else buffer ++ (b'.' ∷ zeros 6 (micros_of t))

  unfoldable pub to_custom_formatted_string : List ℕ → Bool → ℤ → List ℕ
  unfolding custom_text seconds_since_epoch
  to_custom_formatted_string format show_microseconds t =
      custom_text show_microseconds format (gmtime_r (seconds_since_epoch t)) t

  unfoldable pub to_custom_formatted_string_local : List ℕ → Bool → ℤ → List ℕ
  unfolding custom_text seconds_since_epoch
  to_custom_formatted_string_local format show_microseconds t =
      custom_text show_microseconds format (localtime_r (seconds_since_epoch t)) t

  -- The form that writes into the caller's buffer of `len` bytes.
  unfoldable pub to_custom_formatted_buffer : List ℕ → ℕ → ℤ → List ℕ
  unfolding seconds_since_epoch
  to_custom_formatted_buffer format len t = strftime len format (gmtime_r (seconds_since_epoch t))

-- Two times are in the same second just if `roundSecond` gives the same for both.
is_same_second-round_second :
    (s t : ℤ) → (is_same_second s t ≡ true) ↔ (round_second s ≡ round_second t)
unfolding is_same_second seconds_since_epoch round_second micros_of ◌-ℤ◌
is_same_second-round_second (pos m) (pos n) = ground arith
is_same_second-round_second (pos m) (negsuc n) = ground arith
is_same_second-round_second (negsuc m) (pos n) = ground arith
is_same_second-round_second (negsuc m) (negsuc n) = ground arith
