-- ===== src/ByteBuffer/Contents.antt =====
-- The contents of a buffer as a function of the position, after `Write` and `Truncate`.
use zb.Prelude.{
  ℕ, zero, suc, ◌+◌, ◌-◌, ◌≤◌, ◌<◌, min, max, ◌&&◌, List, [], ◌∷◌, ◌++◌, none, some, leb, ltb,
  if◌then◌else◌, length, get_or, take, drop, replicate, ◌≡◌, refl, sym, ◌∙◌, ap, arith,
  length-append, length-take, length-drop, length-replicate, ◌⊎◌, inl, inr,
}
use native.Mathlib.Decide.{dec_lt}
use zb.Prelude.Int.{ℤ, pos, negsuc}
use zb.ByteBuffer.{Buffer, BufferError, too_large, negative_size, put, write, truncate}

-- the byte at a position, zero beyond the end
abbrev pub byte_at : List ℕ → ℕ → ℕ
byte_at s j = get_or s j 0

byte_at-append :
    (xs ys : List ℕ) (j : ℕ)
    → byte_at (xs ++ ys) j
      ≡ (if ltb j (length xs) then byte_at xs j else byte_at ys (j - length xs))
byte_at-append [] ys j = ground arith
byte_at-append (x ∷ xs) ys zero = ground arith
byte_at-append (x ∷ xs) ys (suc j) = ground (arith, byte_at-append xs ys j)

byte_at-take :
    (n : ℕ) (xs : List ℕ) (j : ℕ) → byte_at (take n xs) j ≡ (if ltb j n then byte_at xs j else 0)
byte_at-take zero xs j = ground arith
byte_at-take (suc n) [] j = ground arith
byte_at-take (suc n) (x ∷ xs) zero = ground arith
byte_at-take (suc n) (x ∷ xs) (suc j) = ground (arith, byte_at-take n xs j)

byte_at-drop : (n : ℕ) (xs : List ℕ) (j : ℕ) → byte_at (drop n xs) j ≡ byte_at xs (n + j)
byte_at-drop zero xs j = ap (byte_at xs) (omega arith)
byte_at-drop (suc n) [] j = refl
byte_at-drop (suc n) (x ∷ xs) j =
    let e : suc n + j ≡ suc (n + j) = omega arith in
    byte_at-drop n xs j ∙ ap (byte_at (x ∷ xs)) (sym e)

byte_at-replicate : (n j : ℕ) → ◌≡◌ {A = ℕ} (byte_at (replicate n 0) j) 0
byte_at-replicate zero j = refl
byte_at-replicate (suc n) zero = refl
byte_at-replicate (suc n) (suc j) = byte_at-replicate n j

byte_at_out : (xs : List ℕ) (j : ℕ) → length xs ≤ j → byte_at xs j ≡ 0
byte_at_out [] j h = refl
byte_at_out (x ∷ xs) zero h = absurd (omega arith)
byte_at_out (x ∷ xs) (suc j) h = byte_at_out xs j (omega arith)

length-put : (s : List ℕ) (i : ℕ) (p : List ℕ) → length (put s i p) ≡ max (length s) (i + length p)
unfolding put
length-put s i p = ground (
  arith,
  length-append s (replicate (i - length s) 0 ++ p),
  length-append (replicate (i - length s) 0) p,
  length-replicate {A = ℕ} (i - length s) 0,
  length-append (take i s) p,
  length-append (take i s) (p ++ drop (i + length p) s),
  length-append p (drop (i + length p) s),
  length-take i s,
  length-drop (i + length p) s,
)

-- the three cases of the switch
put_beyond :
    (s : List ℕ) (i : ℕ) (p : List ℕ) (j : ℕ)
    → length s < i
    → byte_at (s ++ (replicate (i - length s) 0 ++ p)) j
      ≡ (if leb i j && ltb j (i + length p) then byte_at p (j - i) else byte_at s j)
put_beyond s i p j h =
    let gap = i - length s in
    let e : j - length s - gap ≡ j - i = omega arith in
    ground (
      arith,
      byte_at-append s (replicate gap 0 ++ p) j,
      byte_at-append (replicate gap 0) p (j - length s),
      length-replicate {A = ℕ} gap 0,
      byte_at-replicate gap (j - length s),
      byte_at_out s j,
      byte_at_out p (j - i),
      ap (byte_at p) e,
    )

put_end :
    (s : List ℕ) (i : ℕ) (p : List ℕ) (j : ℕ)
    → i ≤ length s
    → length s ≤ i + length p
    → byte_at (take i s ++ p) j
      ≡ (if leb i j && ltb j (i + length p) then byte_at p (j - i) else byte_at s j)
put_end s i p j h k =
    let e : length (take i s) ≡ i = omega (arith, length-take i s) in
    ground (
      arith,
      byte_at-append (take i s) p j,
      e,
      byte_at-take i s j,
      byte_at_out s j,
      byte_at_out p (j - i),
    )

put_inside :
    (s : List ℕ) (i : ℕ) (p : List ℕ) (j : ℕ)
    → i + length p < length s
    → byte_at (take i s ++ (p ++ drop (i + length p) s)) j
      ≡ (if leb i j && ltb j (i + length p) then byte_at p (j - i) else byte_at s j)
put_inside s i p j h =
    let e : length (take i s) ≡ i = omega (arith, length-take i s) in
    let q : i + length p ≤ j → i + length p + (j - i - length p) ≡ j = λ m. omega arith in
    ground (
      arith,
      byte_at-append (take i s) (p ++ drop (i + length p) s) j,
      e,
      byte_at-append p (drop (i + length p) s) (j - i),
      byte_at-take i s j,
      byte_at-drop (i + length p) s (j - i - length p),
      λ (m : i + length p ≤ j). ap (byte_at s) (q m),
    )

byte_at-put :
    (s : List ℕ) (i : ℕ) (p : List ℕ) (j : ℕ)
    → byte_at (put s i p) j
      ≡ (if leb i j && ltb j (i + length p) then byte_at p (j - i) else byte_at s j)
byte_at-put s i p j = elim (dec_lt (length s) i) [
  | yes beyond ↦ unfold put in ground (arith, put_beyond s i p j beyond)
  | no within ↦ elim (dec_lt (i + length p) (length s)) [
    | yes inside ↦ unfold put in ground (arith, put_inside s i p j inside)
    | no end ↦ unfold put in ground (arith, put_end s i p j (omega arith) (omega arith))
  ]
]

-- `Write` at an offset below the limit: as many bytes are written as the limit leaves room for,
-- an error says exactly that some were not, the offset moves by their number, the buffer is as
-- long as before or ends where the bytes end, and every other byte is unchanged, zero where there
-- was none.
pub write_lem :
    (p : List ℕ) (b : Buffer)
    → b.i < b.limit
    → let ((n, failed), b') = write p b in
      (n ≡ min (length p) (b.limit - b.i))
      × (failed ≡ (if ltb b.limit (b.i + length p) then some too_large else none))
      × (b'.i ≡ b.i + n)
      × (b'.limit ≡ b.limit)
      × (length b'.s ≡ max (length b.s) (b.i + n))
      × ((j : ℕ)
          → byte_at b'.s j
            ≡ (if leb b.i j && ltb j (b.i + n) then byte_at p (j - b.i) else byte_at b.s j))
unfolding write
write_lem p b h = elim (dec_lt b.limit (b.i + length p)) [
  | yes over ↦
      let q = take (b.limit - b.i) p in
      (
        ground (arith, length-take (b.limit - b.i) p),
        ground arith,
        ground arith,
        ground arith,
        ground (arith, length-put b.s b.i q),
        λ j. ground (
          arith,
          byte_at-put b.s b.i q j,
          byte_at-take (b.limit - b.i) p (j - b.i),
          length-take (b.limit - b.i) p,
        ),
      )
  | no fits ↦ (
    ground arith,
    ground arith,
    ground arith,
    ground arith,
    ground (arith, length-put b.s b.i p),
    λ j. ground (arith, byte_at-put b.s b.i p j),
  )
]

-- `Truncate` to a size within the limit: the buffer has that size, the bytes below it are
-- unchanged, zero beyond the old end, and the offset stays. A negative size and one beyond the
-- limit are errors that change nothing.
pub truncate_lem :
    (n : ℤ) (b : Buffer)
    → ((k : ℕ) × (n ≡ pos k)
        × (k ≤ b.limit)
        × ((truncate n b).0 ≡ none)
        × (length (truncate n b).1.s ≡ k)
        × ((truncate n b).1.i ≡ b.i)
        × ((j : ℕ) → byte_at (truncate n b).1.s j ≡ (if ltb j k then byte_at b.s j else 0)))
      ⊎ ((e : BufferError) × (truncate n b ≡ (some e, b)))
unfolding truncate
truncate_lem (negsuc n) b = inr (negative_size, refl)
truncate_lem (pos n) b = elim (dec_lt b.limit n) [
  | yes over ↦ inr (too_large, ground arith)
  | no fits ↦ inl (
    n,
    refl,
    omega arith,
    ground arith,
    ground (
      arith,
      length-take n b.s,
      length-append b.s (replicate (n - length b.s) 0),
      length-replicate {A = ℕ} (n - length b.s) 0,
    ),
    ground arith,
    λ j. ground (
      arith,
      byte_at-take n b.s j,
      byte_at-append b.s (replicate (n - length b.s) 0) j,
      byte_at-replicate (n - length b.s) (j - length b.s),
      byte_at_out b.s j,
    ),
  )
]
