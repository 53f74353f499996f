-- ===== src/Events/Ring/Resume.antt =====
-- events/events.c: a seq read back as the number it stands for (seq_of, events_since).
use esp_console_kit.Prelude.{ℕ, ◌+◌, ◌-◌, ◌^◌, ◌≤◌, ◌<◌, ◌≡◌, arith}
use esp_console_kit.Events.Ring.{seq_of, from_of, lost_of, oldest_of}

-- A listener that names the seq of any of the last 65535 happenings is resumed behind exactly
-- that one, however often the seq has gone round.
pub from_of-seq_of :
    (latest m : ℕ) → 0 < m → m ≤ latest → latest < m + 65535 → from_of latest (seq_of m) ≡ m
unfolding from_of
from_of-seq_of latest m pos past near = ground arith

-- What is lost is exactly what lies behind m and before the ring's oldest.
pub lost_of_lem :
    (latest m : ℕ)
    → m ≤ latest
    → latest < 2 ^ 32 - 1
    → lost_of latest m ≡ oldest_of latest - (m + 1)
unfolding lost_of
lost_of_lem latest m past small = ground arith
