-- ===== src/Backend/MutexMap.antt =====
-- internal/backend/mutex_map.go: `mutexMap`, a map from keys to the channels of those that hold
-- their mutexes. Keys are only compared, so they are numbers; a channel is the number of its
-- `make`. What stands between `mu.Lock` and `mu.Unlock` is one step.
pub mod Exclusion
mod Tests
use zb.Prelude.{
  ℕ, suc, ◌+◌, Bool, true, false, not, ◌&&◌, ◌||◌, List, [], ◌∷◌, Option, none, some, ◌≡◌, ◌==◌,
  if◌then◌else◌,
}

-- `mm.m[k]`
unfoldable pub lookup_channel : List (ℕ × ℕ) → ℕ → Option ℕ
lookup_channel [] k = none
lookup_channel ((j, c) ∷ m) k = if j == k then some c else lookup_channel m k

-- `delete(mm.m, k)`
unfoldable pub delete_key : List (ℕ × ℕ) → ℕ → List (ℕ × ℕ)
delete_key [] k = []
delete_key ((j, c) ∷ m) k = let rest = delete_key m k in if j == k then rest else (j, c) ∷ rest

-- What a round of `lock` does under `mu`: it stores the new channel `c`, or it goes to wait.
pub data Lock : Type 0 where
  acquired : List (ℕ × ℕ) → Lock
  waits : ℕ → Lock

unfoldable pub lock : List (ℕ × ℕ) → ℕ → ℕ → Lock
unfolding lookup_channel
lock m k c = elim (lookup_channel m k) [
  | none ↦ acquired ((k, c) ∷ m)
  | some work_done ↦ waits work_done
]

-- whether a pair of a key and a channel is in a list
unfoldable pub mem : ℕ → ℕ → List (ℕ × ℕ) → Bool
mem k c [] = false
mem k c ((j, d) ∷ ps) = j == k && d == c || mem k c ps

-- the first such pair taken out
unfoldable pub remove : ℕ → ℕ → List (ℕ × ℕ) → List (ℕ × ℕ)
remove k c [] = []
remove k c ((j, d) ∷ ps) =
    let rest = remove k c ps in if j == k && d == c then ps else (j, d) ∷ rest

-- The map, the number of the next channel, the channels that are closed, and the goroutines: those
-- that hold a mutex, with its key and their channel, and those that wait in `select`.
pub record System : Type 0 where
  pub m : List (ℕ × ℕ)
  pub fresh : ℕ
  pub closed : ℕ → Bool
  pub holders : List (ℕ × ℕ)
  pub waiting : List (ℕ × ℕ)

abbrev pub start : System
start = record { m = []; fresh = 0; closed = λ c. false; holders = []; waiting = [] }

pub data Step : System → System → Type 0 where
  acquire :
      (s : System) (k : ℕ) (m' : List (ℕ × ℕ))
      → lock s.m k s.fresh ≡ acquired m'
      → Step s (record s { m = m'; fresh = suc s.fresh; holders = (k, s.fresh) ∷ s.holders })
  wait :
      (s : System) (k c : ℕ)
      → lock s.m k s.fresh ≡ waits c
      → Step s (record s { waiting = (k, c) ∷ s.waiting })
  -- the channel is closed, and the loop goes on
  wake :
      (s : System) (k c : ℕ)
      → mem k c s.waiting ≡ true
      → s.closed c ≡ true
      → Step s (record s { waiting = remove k c s.waiting })
  -- the context is done
  cancel :
      (s : System) (k c : ℕ)
      → mem k c s.waiting ≡ true
      → Step s (record s { waiting = remove k c s.waiting })
  -- the function that `lock` has returned, which its caller calls once
  unlock :
      (s : System) (k c : ℕ)
      → mem k c s.holders ≡ true
      → Step s (record s {
        m = delete_key s.m k;
        closed = λ d. d == c || s.closed d;
        holders = remove k c s.holders;
      })

pub data Reach : System → Type 0 where
  here : Reach start
  later : {s t : System} → Reach s → Step s t → Reach t
