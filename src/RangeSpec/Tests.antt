-- ===== src/RangeSpec/Tests.antt =====
-- The theorem on `Resolve` at the last two bytes of five.
use zb.Prelude.{◌≡◌, [], ◌∷◌, some, inr, refl, true, arith}
use zb.Prelude.Int.{pos, negsuc, ◌+ℤ◌, ◌-ℤ◌}
use zb.RangeSpec.{resolve, max_zero}
use zb.RangeSpec.Parse.{parse_spec, parse_range, to_string}
use zb.RangeSpec.RoundTrip.{parse_range-to_string}
use zb.RangeSpec.Bounds.{Within, resolve_lem}

accepted : (resolve (record { start = negsuc 1; end = negsuc 0 }) (pos 5)).1 ≡ true
unfolding resolve ◌+ℤ◌
accepted = refl

resolve_lem_example : Within (resolve (record { start = negsuc 1; end = negsuc 0 }) (pos 5)).0 5
resolve_lem_example =
    resolve_lem (negsuc 1) (negsuc 0) 5 (omega arith) (omega arith) (omega arith) accepted

-- a content of no bytes, of which the byte 0 is accepted
resolve_none :
    resolve (record { start = pos 0; end = negsuc 0 }) (pos 0)
    ≡ (record { start = pos 0; end = pos 0 }, true)
unfolding resolve max_zero ◌-ℤ◌
resolve_none = refl

-- "5-9"
parse_range-to_string_example :
    parse_range
      (b'b' ∷ b'y' ∷ b't' ∷ b'e' ∷ b's' ∷ b'=' ∷ to_string (record { start = pos 5; end = pos 9 }))
    ≡ some (record { start = pos 5; end = pos 9 } ∷ [])
parse_range-to_string_example =
    parse_range-to_string (pos 5) (pos 9)
      (omega arith, omega arith, inr (5, 9, refl, refl, omega arith))

-- "-0", no bytes from the end, is read as all bytes
no_bytes : parse_spec (b'-' ∷ b'0' ∷ []) ≡ some (record { start = pos 0; end = negsuc 0 })
unfolding parse_spec
no_bytes = refl
