-- ===== src/ByteBuffer.antt =====
-- bytebuffer/buffer.go: `Buffer`, a byte slice with an offset and a limit on its size, and
-- `BufferCreator`. The offset is never negative; a size or an offset that a caller gives is an
-- integer, in the range of int64. The limit is positive (`math.MaxInt` where there is none).
pub mod Contents
pub mod Streams
mod Tests
use zb.Prelude.{
  ℕ, suc, ◌+◌, ◌-◌, ◌*◌, ◌^◌, ◌%◌, Bool, true, false, not, ◌||◌, List, [], ◌∷◌, ◌++◌, Option, none,
  some, leb, ltb, ◌==◌, if◌then◌else◌, length, get_or, take, drop, replicate,
}
use zb.Prelude.Int.{ℤ, pos, negsuc, ◌+ℤ◌}

abbrev pub max_int : ℕ
max_int = 2 ^ 63 - 1

pub record Buffer : Type 0 where
  pub s : List ℕ
  pub i : ℕ
  pub limit : ℕ

pub data BufferError : Type 0 where
  eof too_large at_beginning invalid_whence negative_position negative_size short_write :
      BufferError
  exceeds_limit : BufferError
  writer_error : ℕ → BufferError

-- `New` and `Reset`
abbrev pub new : List ℕ → Buffer
new p = record { s = p; i = 0; limit = max_int }

pub size : Buffer → ℕ
size b = length b.s

-- `Read` into a slice of length `k`: what was read and the error, and the new state.
unfoldable pub read : ℕ → Buffer → (List ℕ × Option BufferError) × Buffer
read k b =
    if leb (length b.s) b.i
    then (([], some eof), b)
    else let p = take k (drop b.i b.s) in ((p, none), record b { i = b.i + length p })

unfoldable pub read_byte : Buffer → Option ℕ × Buffer
read_byte b =
    if leb (length b.s) b.i then (none, b) else (some (get_or b.s b.i 0), record b { i = suc b.i })

-- `none` is the error.
unfoldable pub unread_byte : Buffer → Option Buffer
unread_byte b = if leb b.i 0 then none else some (record b { i = b.i - 1 })

-- The slice after the switch of `Write`.
pub put : List ℕ → ℕ → List ℕ → List ℕ
put s i p =
    if ltb (length s) i
    then s ++ (replicate (i - length s) 0 ++ p)
    else if leb (length s) (i + length p)
    then take i s ++ p
    else take i s ++ (p ++ drop (i + length p) s)

unfoldable pub write : List ℕ → Buffer → (ℕ × Option BufferError) × Buffer
unfolding put
write p b =
    if ltb b.limit (b.i + length p)
    then if leb b.limit b.i
      then ((0, some too_large), b)
      else (let q = take (b.limit - b.i) p in
          ((length q, some too_large), record b { s = put b.s b.i q; i = b.i + length q }))
    else ((length p, none), record b { s = put b.s b.i p; i = b.i + length p })

-- int64 arithmetic keeps 64 bits.
abbrev pub int64 : ℤ → ℤ
int64 (pos n) = let w = n % 2 ^ 64 in if ltb w (2 ^ 63) then pos w else negsuc (2 ^ 64 - 1 - w)
int64 (negsuc n) = let w = n % 2 ^ 64 in if ltb w (2 ^ 63) then negsuc w else pos (2 ^ 64 - 1 - w)

pub data Whence : Type 0 where
  seek_start seek_current seek_end other : Whence

pub seek_abs : ℤ → Whence → Buffer → Option ℤ
unfolding ◌+ℤ◌
seek_abs offset seek_start b = some offset
seek_abs offset seek_current b = some (int64 (pos b.i +ℤ offset))
seek_abs offset seek_end b = some (int64 (pos (length b.s) +ℤ offset))
seek_abs offset other b = none

-- The result of `Seek` is the new offset or the error.
pub seek_to : Option ℤ → Buffer → (ℕ × Option BufferError) × Buffer
seek_to none b = ((0, some invalid_whence), b)
seek_to (some (negsuc n)) b = ((0, some negative_position), b)
seek_to (some (pos n)) b = ((n, none), record b { i = n })

unfoldable pub seek : ℤ → Whence → Buffer → (ℕ × Option BufferError) × Buffer
unfolding seek_abs seek_to
seek offset whence b = seek_to (seek_abs offset whence b) b

-- `WriteTo`: the writer takes the bytes and reports how many it took and its error; `none` is the
-- panic on a count that is too large.
pub write_to :
    (List ℕ → ℕ × Option BufferError) → Buffer → Option ((ℕ × Option BufferError) × Buffer)
write_to writer b =
    if leb (length b.s) b.i
    then some ((0, none), b)
    else let p = drop b.i b.s in
      let (m, failed) = writer p in
      if ltb (length p) m
      then none
      else some (
        (
          m,
          elim failed [ some e ↦ some e | none ↦ if m == length p then none else some short_write ],
        ),
        record b { i = b.i + m },
      )

-- `Truncate`; the result is its error.
unfoldable pub truncate : ℤ → Buffer → Option BufferError × Buffer
truncate (negsuc n) b = (some negative_size, b)
truncate (pos n) b =
    if ltb b.limit n
    then (some too_large, b)
    else if ltb n (length b.s)
    then (none, record b { s = take n b.s })
    else if ltb (length b.s) n
    then (none, record b { s = b.s ++ replicate (n - length b.s) 0 })
    else (none, b)

abbrev pub default_limit : ℕ
default_limit = 1024 * 1024 * 1024

-- The limit that `CreateBuffer` applies.
pub effective_limit : ℤ → ℕ
effective_limit (pos n) = if n == 0 then default_limit else n
effective_limit (negsuc n) = max_int

-- `CreateBuffer`; `none` is its error.
unfoldable pub create_buffer : ℤ → ℤ → Option Buffer
unfolding effective_limit
create_buffer limit (negsuc n) = some (record { s = []; i = 0; limit = effective_limit limit })
create_buffer limit (pos n) =
    if ltb (effective_limit limit) n
    then none
    else some (record { s = replicate n 0; i = 0; limit = effective_limit limit })
