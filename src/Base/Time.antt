-- ===== src/Base/Time.antt =====
-- Package time. A time.Time is the number of nanoseconds since Go's zero time, so `IsZero` is a test
-- for 0, `UTC` changes nothing, and a *time.Time is an option. A time.Duration is an integer of
-- nanoseconds.
use Prim.Native.Nat.{ℕ, ◌+◌, ◌-◌, ◌*◌}
use fluentwork_backend.Base.Int.{ℤ, pos_part, neg_part}

abbrev pub second : ℕ
second = 1_000_000_000

abbrev pub minute : ℕ
minute = 60_000_000_000

abbrev pub hour : ℕ
hour = 3_600_000_000_000

-- `t.Add(d)`
unfoldable pub add_time : ℕ → ℤ → ℕ
add_time t d = t + pos_part d - neg_part d

-- 1970-01-01 in nanoseconds since the zero time.
abbrev pub unix_epoch : ℕ
unix_epoch = 62_135_596_800_000_000_000

-- time.UnixMilli
unfoldable pub unix_milli : ℤ → ℕ
unix_milli ms = unix_epoch + pos_part ms * 1_000_000 - neg_part ms * 1_000_000
