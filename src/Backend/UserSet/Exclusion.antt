-- ===== src/Backend/UserSet/Exclusion.antt =====
-- Which users the goroutines of internal/backend/user_set.go hold.
use zb.Prelude.{
  ℕ, zero, suc, ◌+◌, ◌<◌, ◌≤◌, true, false, not, ◌&&◌, List, [], ◌∷◌, some, ◌≡◌, sym, ◌∙◌, ◌==◌,
  length, get_elem?, arith, Bool-cases, Option-cases, inl, inr,
}
use zb.Sets.Bit.{Bit, add, has}
use zb.Sets.Bit.Lookup.{has-add_bit, has-delete_bit}
use zb.Backend.UserSet.{
  BuildUser, System, Step, Reach, here, next, acquire, wait, wake, cancel, release, notify, start,
  try_acquire, release_locked, first_free, index_from, uids_unique, uid_among, remove, mem,
}

-- The first position from `i` on that the loop returns is free, and in range.
first_free_lem :
    (n i : ℕ) (b : Bit) (k : ℕ)
    → first_free n i b ≡ some k
    → (has b k ≡ false) × (i ≤ k) × (k < i + n)
unfolding first_free
first_free_lem zero i b k e = cc
first_free_lem (suc n) i b k e = ground (arith, first_free_lem n (suc i) b k)

-- no position twice
abbrev pub Distinct : List ℕ → Type 0
Distinct [] = Unit
Distinct (i ∷ is) = (mem i is ≡ false) × Distinct is

mem-remove : (i j : ℕ) (is : List ℕ) → Distinct is → mem j (remove i is) ≡ not (i == j) && mem j is
mem-remove i j [] d = ground arith
mem-remove i j (k ∷ is) d = ground (arith, mem-remove i j is d.1, d.0)

remove-Distinct : (i : ℕ) (is : List ℕ) → Distinct is → Distinct (remove i is)
remove-Distinct i [] d = tt
remove-Distinct i (k ∷ is) d = elim (Bool-cases (i == k)) [
  | inl e ↦ rw e d.1
  | inr e ↦ rw e (ground (arith, mem-remove i k is d.1, d.0), remove-Distinct i is d.1)
]

module _ (users : List BuildUser) where
  -- The goroutines hold distinct users, and the bitmap has exactly those in use.
  pub record IsExclusive (s : System) : Type 0 where
    pub distinct : Distinct s.held
    pub tracked : (i : ℕ) → has s.set.in_use i ≡ mem i s.held
    pub in_range : (i : ℕ) → mem i s.held ≡ true → i < length users

uid_among_sound :
    (us : List BuildUser) (i : ℕ) {u : BuildUser}
    → get_elem? us i ≡ some u
    → uid_among u.uid us ≡ true
unfolding uid_among
uid_among_sound [] i e = cc
uid_among_sound (v ∷ us) zero e = ground arith
uid_among_sound (v ∷ us) (suc i) e = ground (arith, uid_among_sound us i e)

-- With unique uids a user is found at its own position.
index_from_self :
    (k : ℕ) (us : List BuildUser) (i : ℕ) {u : BuildUser}
    → uids_unique us ≡ true
    → get_elem? us i ≡ some u
    → index_from k us u ≡ some (k + i)
unfolding index_from uids_unique
index_from_self k [] i h e = cc
index_from_self k (v ∷ us) zero h e = ground arith
index_from_self k (v ∷ us) (suc i) {u} h e =
    ground (arith, index_from_self (suc k) us i {u = u} (ground arith) e, uid_among_sound us i e)

try_acquire-some :
    (spare : ℕ → ℕ → ℕ) (users : List BuildUser) (b : Bit) {i : ℕ} {b' : Bit}
    → try_acquire spare users b ≡ some (i, b')
    → (has b i ≡ false) × (i < length users) × (b' ≡ add spare b i)
try_acquire-some spare users b {i} {b'} e = elim (Option-cases (first_free (length users) 0 b)) [
  | inl p ↦ absurd (let no_user : ⊥ = unfold try_acquire in ground (arith, p) in no_user)
  | inr (k, p) ↦
      let (f, lo, hi) = first_free_lem (length users) 0 b k p in
      unfold try_acquire in ground (arith, p, f, lo, hi)
]

module _ (spare : ℕ → ℕ → ℕ) (users : List BuildUser) (unique : uids_unique users ≡ true) where
  acquire-IsExclusive :
      (s : System) (i : ℕ) (b : Bit)
      → try_acquire spare users s.set.in_use ≡ some (i, b)
      → IsExclusive users s
      → IsExclusive users (record {
        set = record { in_use = b; release_full = s.set.release_full };
        held = i ∷ s.held;
        waiting = s.waiting;
        notifying = s.notifying;
      })
  acquire-IsExclusive s i b e v =
      let (free, inside, eq) = try_acquire-some spare users s.set.in_use e in
      record {
        distinct = (sym (v.tracked i) ∙ free, v.distinct);
        tracked = λ j. ground (arith, eq, has-add_bit spare s.set.in_use i j, v.tracked j);
        in_range = λ j m. range inside j m;
      }
    where
      range : i < length users → (j : ℕ) → mem j (i ∷ s.held) ≡ true → j < length users
      range h j m = elim (Bool-cases (i == j)) [
        | inl p ↦ ground (arith, h)
        | inr p ↦ v.in_range j (ground arith)
      ]

  release-IsExclusive :
      (s : System) (i k n : ℕ) (user : BuildUser)
      → get_elem? users i ≡ some user
      → index_from 0 users user ≡ some k
      → IsExclusive users s
      → IsExclusive users (record {
        set = record {
          in_use = (release_locked spare users k s.set.in_use).0;
          release_full = s.set.release_full;
        };
        held = remove i s.held;
        waiting = s.waiting;
        notifying = n;
      })
  release-IsExclusive s i k n user g f v = record {
    distinct = remove-Distinct i s.held v.distinct;
    tracked = λ j.
        unfold release_locked in
        ground (
          arith,
          own,
          has-delete_bit s.set.in_use k j,
          v.tracked j,
          mem-remove i j s.held v.distinct,
        );
    in_range = λ j m. v.in_range j (ground (arith, mem-remove i j s.held v.distinct));
  }
    where
      own : k ≡ i
      own = ground (arith, index_from_self 0 users i {u = user} unique g)

  Step-IsExclusive :
      {s t : System} → Step spare users s t → IsExclusive users s → IsExclusive users t
  Step-IsExclusive (acquire s i b e) v = acquire-IsExclusive s i b e v
  Step-IsExclusive (wait s e) v = record {
    distinct = v.distinct;
    tracked = v.tracked;
    in_range = v.in_range;
  }
  Step-IsExclusive (wake s w e f) v = record {
    distinct = v.distinct;
    tracked = v.tracked;
    in_range = v.in_range;
  }
  Step-IsExclusive (cancel s w e) v = record {
    distinct = v.distinct;
    tracked = v.tracked;
    in_range = v.in_range;
  }
  Step-IsExclusive (release s i user m g k f) v = release-IsExclusive s i k _ user g f v
  Step-IsExclusive (notify s n e) v = record {
    distinct = v.distinct;
    tracked = v.tracked;
    in_range = v.in_range;
  }

  start-IsExclusive : IsExclusive users start
  start-IsExclusive = record {
    distinct = tt;
    tracked = λ i. unfold has in ground arith;
    in_range = λ i m. cc;
  }

  -- In every state that the goroutines reach from the start, no user is held twice, every user
  -- held is one of the set, and the bitmap has exactly the users that are held.
  pub Reach-IsExclusive : {s : System} → Reach spare users start s → IsExclusive users s
  Reach-IsExclusive here = start-IsExclusive
  Reach-IsExclusive (next r st) = Step-IsExclusive st (Reach-IsExclusive r)
