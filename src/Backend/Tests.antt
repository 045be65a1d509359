-- ===== src/Backend/Tests.antt =====
-- The theorems on the build users in a state that is reached.
use zb.Prelude.{ℕ, true, false, List, [], ◌∷◌, none, some, ◌≡◌, refl}
use zb.Sets.Bit.{Bit, add, len, has}
use zb.Prelude.Bits.{bit_at}
use zb.Backend.UserSet.{
  BuildUser, uids_unique, try_acquire, System, acquire, Reach, here, next, start,
}
use zb.Backend.UserSet.Exclusion.{IsExclusive, Reach-IsExclusive}

abbrev spare : ℕ → ℕ → ℕ
spare len n = 0

abbrev users : List BuildUser
users = record { uid = 300; gid = 30 } ∷ []

abbrev taken : Bit
taken = record { words = 1 ∷ [] }

abbrev one_held : System
one_held = record {
  set = record { in_use = taken; release_full = false };
  held = 0 ∷ [];
  waiting = 0;
  notifying = 0;
}

users_unique : uids_unique users ≡ true
unfolding uids_unique
users_unique = refl

takes : try_acquire spare users start.set.in_use ≡ some (0, taken)
unfolding try_acquire len has add
takes = refl

none_left : try_acquire spare users one_held.set.in_use ≡ none
unfolding try_acquire len bit_at
none_left = refl

reached : Reach spare users start one_held
reached = next here (acquire start 0 taken takes)

Reach-IsExclusive_example : IsExclusive users one_held
Reach-IsExclusive_example = Reach-IsExclusive spare users users_unique reached
