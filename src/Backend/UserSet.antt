-- ===== src/Backend/UserSet.antt =====
-- internal/backend/user_set.go: `userSet`, a semaphore for build users, as the steps of the
-- goroutines that use it. What stands between `mu.Lock` and `mu.Unlock` is one step; the send on
-- `releaseFull` and the receive from it are steps of their own. User and group ids are only
-- compared, so they are numbers.
pub mod Exclusion
pub mod Waiting
use zb.Prelude.{
  ℕ, zero, suc, ◌+◌, ◌<◌, Bool, true, false, not, ◌&&◌, ◌||◌, List, [], ◌∷◌, Option, none, some,
  ◌≡◌, ltb, ◌==◌, if◌then◌else◌, length, get_elem?,
}
use zb.Sets.Bit.{Bit, empty, add, has, delete, len}

pub record BuildUser : Type 0 where
  pub uid : ℕ
  pub gid : ℕ

abbrev pub user_eq : BuildUser → BuildUser → Bool
user_eq u v = (u.uid == v.uid) && (u.gid == v.gid)

-- The inner loop of `newUserSet`: a later user with the same uid.
pub uid_among : ℕ → List BuildUser → Bool
uid_among uid [] = false
uid_among uid (u ∷ us) = (uid == u.uid) || uid_among uid us

-- Whether `newUserSet` accepts the users.
unfoldable pub uids_unique : List BuildUser → Bool
unfolding uid_among
uids_unique [] = true
uids_unique (u ∷ us) = if uid_among u.uid us then false else uids_unique us

-- The fields of `userSet` that change.
pub record UserSet : Type 0 where
  pub in_use : Bit
  pub release_full : Bool

-- `newUserSet`; `none` is its error. The users themselves never change.
pub new_user_set : List BuildUser → Option UserSet
unfolding uids_unique
new_user_set users =
    if uids_unique users then some (record { in_use = empty; release_full = false }) else none

-- `slices.Index` from the position `i` on; `none` is -1.
pub index_from : ℕ → List BuildUser → BuildUser → Option ℕ
index_from i [] user = none
index_from i (u ∷ us) user = if user_eq u user then some i else index_from (suc i) us user

-- The loop of `acquire`: the first position that is not in use, in `n` rounds from `i` on.
pub first_free : ℕ → ℕ → Bit → Option ℕ
first_free zero i in_use = none
first_free (suc n) i in_use = if not (has in_use i) then some i else first_free n (suc i) in_use

module _ (spare : ℕ → ℕ → ℕ) (users : List BuildUser) where
  -- The locked part of `acquire` where there are users: the position taken, or `none` if the
  -- caller has to wait.
  unfoldable pub try_acquire : Bit → Option (ℕ × Bit)
  unfolding first_free
  try_acquire in_use =
      if ltb (len in_use) (length users)
      then elim (first_free (length users) 0 in_use) [
        | none ↦ none
        | some i ↦ some (i, add spare in_use i)
      ]
      else none

  -- The locked part of `release` of the user at the position `i`: the bitmap after it, and whether
  -- a waiting goroutine is to be notified.
  unfoldable pub release_locked : ℕ → Bit → Bit × Bool
  release_locked i in_use = (delete in_use i, len in_use == length users)

-- The goroutines: the positions that some of them have acquired and not yet released, how many
-- wait in the `select` of `acquire`, and how many have unlocked and are about to notify.
pub record System : Type 0 where
  pub set : UserSet
  pub held : List ℕ
  pub waiting : ℕ
  pub notifying : ℕ

-- the first occurrence of a position taken out
abbrev pub remove : ℕ → List ℕ → List ℕ
remove i [] = []
remove i (j ∷ js) = if i == j then js else j ∷ remove i js

abbrev pub mem : ℕ → List ℕ → Bool
mem i [] = false
mem i (j ∷ js) = (i == j) || mem i js

module _ (spare : ℕ → ℕ → ℕ) (users : List BuildUser) where
  pub data Step : System → System → Type 0 where
    acquire :
        (s : System) (i : ℕ) (b : Bit)
        → try_acquire spare users s.set.in_use ≡ some (i, b)
        → Step s (record {
          set = record { in_use = b; release_full = s.set.release_full };
          held = i ∷ s.held;
          waiting = s.waiting;
          notifying = s.notifying;
        })
    wait :
        (s : System)
        → try_acquire spare users s.set.in_use ≡ none
        → Step s (record s { waiting = suc s.waiting })
    -- a receive from `releaseFull`; the goroutine then tries to acquire again
    wake :
        (s : System) (w : ℕ)
        → s.waiting ≡ suc w
        → s.set.release_full ≡ true
        → Step s
            (record s { set = record { in_use = s.set.in_use; release_full = false }; waiting = w })
    -- the context of a waiting goroutine is done
    cancel : (s : System) (w : ℕ) → s.waiting ≡ suc w → Step s (record s { waiting = w })
    release :
        (s : System) (i : ℕ) (user : BuildUser)
        → mem i s.held ≡ true
        → get_elem? users i ≡ some user
        → (k : ℕ) → index_from 0 users user ≡ some k
        → Step s (record {
          set = record {
            in_use = (release_locked spare users k s.set.in_use).0;
            release_full = s.set.release_full;
          };
          held = remove i s.held;
          waiting = s.waiting;
          notifying =
              if (release_locked spare users k s.set.in_use).1
              then suc s.notifying
              else s.notifying;
        })
    -- the send, or its default case if the channel is full
    notify :
        (s : System) (n : ℕ)
        → s.notifying ≡ suc n
        → Step s (record s {
          set = record { in_use = s.set.in_use; release_full = true };
          notifying = n;
        })

  pub data Reach (s : System) : System → Type 0 where
    here : Reach s s
    next : {t u : System} → Reach s t → Step t u → Reach s u

abbrev pub start : System
start = record {
  set = record { in_use = empty; release_full = false };
  held = [];
  waiting = 0;
  notifying = 0;
}
