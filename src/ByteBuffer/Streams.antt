-- ===== src/ByteBuffer/Streams.antt =====
-- Reading from a buffer of bytebuffer/buffer.go, in pieces and behind a write.
use zb.Prelude.{
  ℕ, zero, suc, ◌+◌, ◌-◌, ◌≤◌, ◌<◌, List, [], ◌∷◌, ◌++◌, none, some, length, get_or, take, drop,
  replicate, ◌≡◌, refl, sym, ◌∙◌, ap, arith, length-append, length-take, length-drop,
  length-replicate, append_assoc, append-nil,
}
use native.Mathlib.Decide.{dec_lt}
use zb.Prelude.Int.{pos}
use zb.ByteBuffer.{Buffer, read, write, put, seek, seek_start, read_byte, unread_byte}

take-add : (m n : ℕ) (xs : List ℕ) → take (m + n) xs ≡ take m xs ++ take n (drop m xs)
take-add zero n xs = ap (λ k. take k xs) (omega arith)
take-add (suc m) n [] =
    let e : suc m + n ≡ suc (m + n) = omega arith in ap (λ k. take k []) e ∙ sym (take-nil n)
  where
    take-nil : (n : ℕ) → ◌≡◌ {A = List ℕ} (take n []) []
    take-nil zero = refl
    take-nil (suc n) = refl
take-add (suc m) n (x ∷ xs) =
    let e : suc m + n ≡ suc (m + n) = omega arith in
    ap (λ k. take k (x ∷ xs)) e ∙ ap (λ l. x ∷ l) (take-add m n xs)

drop-add : (m n : ℕ) (xs : List ℕ) → drop n (drop m xs) ≡ drop (m + n) xs
drop-add zero n xs = ap (λ k. drop k xs) (omega arith)
drop-add (suc m) zero [] = let e : suc m + 0 ≡ suc m = omega arith in ap (λ k. drop k []) (sym e)
drop-add (suc m) (suc n) [] =
    let e : suc m + suc n ≡ suc (m + suc n) = omega arith in ap (λ k. drop k []) (sym e)
drop-add (suc m) n (x ∷ xs) =
    let e : suc m + n ≡ suc (m + n) = omega arith in
    drop-add m n xs ∙ ap (λ k. drop k (x ∷ xs)) (sym e)

-- Two reads one after the other, of which the first does not reach the end, return together what
-- one read of both lengths returns, and leave the buffer in the same state.
pub read_twice :
    (m n : ℕ) (b : Buffer)
    → b.i + m < length b.s
    → let ((p, failed), b') = read m b in
      let ((q, failed'), b'') = read n b' in
      (read (m + n) b ≡ ((p ++ q, none), b'')) × (failed ≡ none) × (failed' ≡ none)
unfolding read
read_twice m n b h =
    let e : length (take m (drop b.i b.s)) ≡ m =
      omega (arith, length-take m (drop b.i b.s), length-drop b.i b.s) in
    ground (
      arith,
      e,
      take-add m n (drop b.i b.s),
      drop-add b.i m b.s,
      length-append (take m (drop b.i b.s)) (take n (drop m (drop b.i b.s))),
    )

drop_over : (xs ys : List ℕ) → drop (length xs) (xs ++ ys) ≡ ys
drop_over [] ys = refl
drop_over (x ∷ xs) ys = drop_over xs ys

take_over : (xs ys : List ℕ) → take (length xs) (xs ++ ys) ≡ xs
take_over [] ys = refl
take_over (x ∷ xs) ys = ap (λ l. x ∷ l) (take_over xs ys)

-- the bytes written stand between what was in front of them and what is behind them
put_shape :
    (s : List ℕ) (i : ℕ) (p : List ℕ)
    → (xs : List ℕ) × (ys : List ℕ) × (put s i p ≡ xs ++ (p ++ ys)) × (length xs ≡ i)
unfolding put
put_shape s i p = elim (dec_lt (length s) i) [
  | yes beyond ↦
      let gap = replicate (i - length s) 0 in
      (
        s ++ gap,
        [],
        ground (arith, append-nil p, append_assoc s gap p),
        omega (arith, length-append {0} s gap, length-replicate {0} {A = ℕ} (i - length s) 0),
      )
  | no within ↦ elim (dec_lt (i + length p) (length s)) [
    | yes inside ↦
        (take i s, drop (i + length p) s, ground arith, omega (arith, length-take {0} i s))
    | no end ↦ (take i s, [], ground (arith, append-nil p), omega (arith, length-take {0} i s))
  ]
]

drop-put : (s : List ℕ) (i : ℕ) (p : List ℕ) → take (length p) (drop i (put s i p)) ≡ p
drop-put s i p =
    let (xs, ys, e, l) = put_shape s i p in
    ap (λ t. take (length p) (drop i t)) e
    ∙ ap (λ k. take (length p) (drop k (xs ++ (p ++ ys)))) (sym l)
    ∙ ap (take (length p)) (drop_over xs (p ++ ys))
    ∙ take_over p ys

length-put : (s : List ℕ) (i : ℕ) (p : List ℕ) → i + length p ≤ length (put s i p)
length-put s i p =
    let (xs, ys, e, l) = put_shape s i p in
    omega (arith, ap length e, length-append {0} xs (p ++ ys), length-append {0} p ys)

-- What `Write` has written with no error is read back after `Seek` to where it was written.
read-write :
    (p : List ℕ) (b : Buffer) {n : ℕ} {b' : Buffer}
    → 0 < length p
    → write p b ≡ ((n, none), b')
    → let (r, b'') = seek (pos b.i) seek_start b' in (read (length p) b'').0 ≡ (p, none)
unfolding seek
read-write p b h e =
    let slice = drop-put b.s b.i p in
    let long = length-put b.s b.i p in unfold write read in ground (arith, slice, long)

-- A byte read is the one at the offset, and to unread it gives the buffer back.
pub unread-read :
    (b : Buffer) {c : ℕ} {b' : Buffer}
    → read_byte b ≡ (some c, b')
    → (unread_byte b' ≡ some b) × (c ≡ get_or b.s b.i 0) × (b.i < length b.s)
unfolding read_byte unread_byte
unread-read b e = ground arith
