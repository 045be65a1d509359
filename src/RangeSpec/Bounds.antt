-- ===== src/RangeSpec/Bounds.antt =====
-- What `Resolve` makes of a range for a content of a given size.
use zb.Prelude.{
  ℕ, suc, ◌-◌, ◌^◌, ◌≤◌, ◌<◌, Bool, true, not, ◌&&◌, ◌≡◌, sym, ◌∙◌, ap, arith, leb, ltb,
  if◌then◌else◌,
}
use zb.Prelude.Int.{ℤ, pos, negsuc, ◌+ℤ◌, ◌-ℤ◌, ltb_ℤ}
use zb.ByteBuffer.{int64}
use zb.RangeSpec.{RangeSpec, resolve, max_zero}

int64_pos : (n : ℕ) → n < 2 ^ 63 → int64 (pos n) ≡ pos n
int64_pos n h = ground (arith)

int64_negsuc : (n : ℕ) → n < 2 ^ 63 → int64 (negsuc n) ≡ negsuc n
int64_negsuc n h = ground (arith)

-- an integer that int64 holds
abbrev pub Fits : ℤ → Type 0
Fits (pos n) = n < 2 ^ 63
Fits (negsuc n) = n < 2 ^ 63

-- the range of a content of `m` bytes, where it has one
abbrev pub Within : RangeSpec → ℕ → Type 0
Within r m = (a : ℕ) × (b : ℕ) × (r.start ≡ pos a) × (r.end ≡ pos b) × (a ≤ m) × (b < m)

last_pos : (m : ℕ) → 0 < m → m < 2 ^ 63 → max_zero (int64 (pos m -ℤ pos 1)) ≡ pos (m - 1)
unfolding max_zero ◌-ℤ◌
last_pos m h k = ground (arith, int64_pos (m - 1))

resolve_closed :
    (start : ℤ) (b m : ℕ)
    → resolve (record { start = start; end = pos b }) (pos m) ≡ (
      record { start = start; end = pos b },
      not (ltb_ℤ start (pos 0)) && ltb_ℤ start (pos m) && ltb_ℤ (pos b) (pos m),
    )
unfolding resolve
resolve_closed start b m = ground (arith)

resolve_open :
    (a b m : ℕ)
    → 0 < m
    → m < 2 ^ 63
    → resolve (record { start = pos a; end = negsuc b }) (pos m)
      ≡ (record { start = pos a; end = pos (m - 1) }, leb a m)
unfolding resolve
resolve_open a b m h k = let l = last_pos m h k in ground (arith, l)

suffix_start :
    (a m : ℕ)
    → a < 2 ^ 63
    → m < 2 ^ 63
    → int64 (negsuc a +ℤ pos m) ≡ (if ltb a m then pos (m - suc a) else negsuc (a - m))
unfolding ◌+ℤ◌
suffix_start a m f k = ground (arith, int64_pos (m - suc a), int64_negsuc (a - m))

resolve_suffix :
    (a b m : ℕ)
    → a < 2 ^ 63
    → 0 < m
    → m < 2 ^ 63
    → resolve (record { start = negsuc a; end = negsuc b }) (pos m) ≡ (
      record { start = if ltb a m then pos (m - suc a) else negsuc (a - m); end = pos (m - 1) },
      ltb a m,
    )
unfolding resolve
resolve_suffix a b m f h k =
    let l = last_pos m h k in let s = suffix_start a m f k in ground (arith, l, s)

-- For a content of at least one byte: a range that `Resolve` accepts begins in the content or at
-- its end, and its last byte is one of the content.
pub resolve_lem :
    (start end : ℤ) (m : ℕ)
    → Fits start
    → 0 < m
    → m < 2 ^ 63
    → (resolve (record { start = start; end = end }) (pos m)).1 ≡ true
    → Within (resolve (record { start = start; end = end }) (pos m)).0 m
resolve_lem (pos a) (pos b) m f h k e =
    let q = resolve_closed (pos a) b m in
    let l = sym (ap (λ (x : RangeSpec × Bool). x.1) q) ∙ e in
    (
      a,
      b,
      ap (λ (x : RangeSpec × Bool). x.0.start) q,
      ap (λ (x : RangeSpec × Bool). x.0.end) q,
      ground (arith, l),
      ground (arith, l),
    )
resolve_lem (negsuc a) (pos b) m f h k e =
    let l = sym (ap (λ (x : RangeSpec × Bool). x.1) (resolve_closed (negsuc a) b m)) ∙ e in
    absurd (ground (arith, l))
resolve_lem (pos a) (negsuc b) m f h k e =
    let q = resolve_open a b m h k in
    (
      a,
      m - 1,
      ap (λ (x : RangeSpec × Bool). x.0.start) q,
      ap (λ (x : RangeSpec × Bool). x.0.end) q,
      ground (arith, e, q),
      omega (arith, h),
    )
resolve_lem (negsuc a) (negsuc b) m f h k e =
    let q = resolve_suffix a b m f h k in
    let l : ltb a m ≡ true = sym (ap (λ (x : RangeSpec × Bool). x.1) q) ∙ e in
    (
      m - suc a,
      m - 1,
      ap (λ (x : RangeSpec × Bool). x.0.start) q ∙ ground (arith, l),
      ap (λ (x : RangeSpec × Bool). x.0.end) q,
      omega arith,
      omega (arith, h),
    )
