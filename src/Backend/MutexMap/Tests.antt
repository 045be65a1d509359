-- ===== src/Backend/MutexMap/Tests.antt =====
-- The theorems on `mutexMap` in a state in which one goroutine holds a mutex and another waits.
use zb.Prelude.{true, false, [], ◌∷◌, ◌≡◌, refl, ◌⊎◌}
use zb.Backend.MutexMap.{
  lookup_channel, lock, mem, System, start, acquire, wait, Reach, here, later,
}
use zb.Backend.MutexMap.Exclusion.{count_key, lock-exclusive, wait-held}

abbrev locked : System
locked = record {
  m = (7, 0) ∷ [];
  fresh = 1;
  closed = λ c. false;
  holders = (7, 0) ∷ [];
  waiting = [];
}

abbrev contended : System
contended = record {
  m = (7, 0) ∷ [];
  fresh = 1;
  closed = λ c. false;
  holders = (7, 0) ∷ [];
  waiting = (7, 0) ∷ [];
}

contended-Reach : Reach contended
unfolding lock lookup_channel
contended-Reach = later (later here (acquire start 7 locked.m refl)) (wait locked 7 0 refl)

lock-exclusive_example : count_key 7 contended.holders ≡ 1
unfolding lookup_channel
lock-exclusive_example = lock-exclusive contended-Reach 7

wait-held_example : (contended.closed 0 ≡ true) ⊎ (count_key 7 contended.holders ≡ 1)
unfolding mem
wait-held_example = wait-held contended-Reach 7 0 refl
