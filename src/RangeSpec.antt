-- ===== src/RangeSpec.antt =====
-- internal/xhttp/range_header.go: `RangeSpec`, a range of bytes of a Range header. Its numbers are
-- int64, and sums keep 64 bits. A panic is `none`.
pub mod Bounds
pub mod Parse
pub mod RoundTrip
mod Tests
use zb.Prelude.{Bool, true, false, not, ◌&&◌, ◌||◌, Option, none, some, if◌then◌else◌}
use zb.Prelude.Int.{ℤ, pos, negsuc, ◌+ℤ◌, ◌-ℤ◌, ltb_ℤ}
use zb.ByteBuffer.{int64}

pub record RangeSpec : Type 0 where
  pub start : ℤ
  pub end : ℤ

pub range_starting_at : ℤ → RangeSpec
range_starting_at start = record { start = start; end = negsuc 0 }

pub int_range : ℤ → ℤ → Option RangeSpec
int_range start end =
    if ltb_ℤ start (pos 0) || ltb_ℤ end (pos 0)
    then none
    else if ltb_ℤ end start
    then none
    else some (record { start = start; end = end })

-- `End`: the last offset, and whether there is one.
pub range_end : RangeSpec → ℤ × Bool
range_end spec = if ltb_ℤ spec.end (pos 0) then (pos 0, false) else (spec.end, true)

pub range_size : RangeSpec → ℤ × Bool
unfolding ◌+ℤ◌ ◌-ℤ◌
range_size spec =
    if ltb_ℤ spec.end (pos 0)
    then (pos 0, false)
    else (int64 (int64 (spec.end -ℤ spec.start) +ℤ pos 1), true)

pub is_suffix : RangeSpec → Bool
is_suffix spec = ltb_ℤ spec.start (pos 0)

-- `max(x, 0)`
unfoldable pub max_zero : ℤ → ℤ
max_zero x = if ltb_ℤ x (pos 0) then pos 0 else x

unfoldable pub resolve : RangeSpec → ℤ → RangeSpec × Bool
unfolding max_zero ◌+ℤ◌ ◌-ℤ◌
resolve spec n =
    if not (ltb_ℤ spec.end (pos 0))
    then (spec, not (ltb_ℤ spec.start (pos 0)) && ltb_ℤ spec.start n && ltb_ℤ spec.end n)
    else let start : ℤ = if ltb_ℤ spec.start (pos 0) then int64 (spec.start +ℤ n) else spec.start in
      (
        record { start = start; end = max_zero (int64 (n -ℤ pos 1)) },
        not (ltb_ℤ start (pos 0)) && not (ltb_ℤ n start),
      )
