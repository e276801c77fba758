-- ===== src/Core/Stats.antt =====
-- ferro-wg-core/src/stats.rs. A `Duration` is its nanoseconds, a float its IEEE 754 bits, of which
-- the code under ferro-wg-tui-core only asks whether one is greater than another.
use ferro_wg.Prelude.{
  ℕ, ◌*◌, ◌^◌, ◌%◌, Bool, not, ◌&&◌, ◌||◌, Text, Option, none, ltb, leb, if◌then◌else◌,
}

pub record TunnelStats : Type 0 where
  pub tx_bytes : ℕ
  pub rx_bytes : ℕ
  pub last_handshake : Option ℕ
  pub packet_loss : ℕ
  pub session_index : Option ℕ

pub record BenchmarkResult : Type 0 where
  pub backend : Text
  pub packets_processed : ℕ
  pub bytes_encapsulated : ℕ
  pub elapsed : ℕ
  pub throughput_bps : ℕ
  pub avg_latency : ℕ
  pub p50_latency : ℕ
  pub p95_latency : ℕ
  pub p99_latency : ℕ

abbrev pub from_secs : ℕ → ℕ
from_secs s = s * 1_000_000_000

abbrev f32_magnitude : ℕ → ℕ
f32_magnitude x = x % 2 ^ 31

abbrev f32_is_negative : ℕ → Bool
f32_is_negative x = leb (2 ^ 31) x

abbrev f32_is_nan : ℕ → Bool
f32_is_nan x = ltb 0x7f800000 (f32_magnitude x)

-- `x > y` on `f32`: false at a NaN, and the two zeros are equal.
unfoldable pub f32_gt : ℕ → ℕ → Bool
f32_gt x y =
    not (f32_is_nan x)
    && not (f32_is_nan y)
    && (if f32_is_negative x
        then f32_is_negative y && ltb (f32_magnitude x) (f32_magnitude y)
        else if f32_is_negative y
        then ltb 0 (f32_magnitude x) || ltb 0 (f32_magnitude y)
        else ltb (f32_magnitude y) (f32_magnitude x))

abbrev pub default_stats : TunnelStats
default_stats = record {
  tx_bytes = 0;
  rx_bytes = 0;
  last_handshake = none;
  packet_loss = 0;
  session_index = none;
}
