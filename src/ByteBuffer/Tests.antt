-- ===== src/ByteBuffer/Tests.antt =====
-- The theorems on the buffer at concrete contents.
use zb.Prelude.{
  ℕ, ◌+◌, ◌-◌, min, max, ◌&&◌, [], ◌∷◌, some, none, ◌≡◌, ltb, leb, if◌then◌else◌, length, arith,
}
use zb.ByteBuffer.{Buffer, too_large, write}
use zb.ByteBuffer.Contents.{byte_at, write_lem}

abbrev buffer : Buffer
buffer = record { s = 10 ∷ 11 ∷ 12 ∷ []; i = 1; limit = 4 }

write_lem_example :
    let ((n, failed), b') = write (1 ∷ 2 ∷ 3 ∷ 4 ∷ []) buffer in
    (n ≡ min 4 (4 - 1))
    × (failed ≡ (if ltb 4 (1 + 4) then some too_large else none))
    × (b'.i ≡ 1 + n)
    × (b'.limit ≡ 4)
    × (length b'.s ≡ max 3 (1 + n))
    × ((j : ℕ)
        → byte_at b'.s j ≡ (
            if leb 1 j && ltb j (1 + n)
            then byte_at (1 ∷ 2 ∷ 3 ∷ 4 ∷ []) (j - 1)
            else byte_at buffer.s j))
write_lem_example = write_lem (1 ∷ 2 ∷ 3 ∷ 4 ∷ []) buffer (omega arith)
