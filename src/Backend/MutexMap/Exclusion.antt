-- ===== src/Backend/MutexMap/Exclusion.antt =====
-- Who holds a mutex of a `mutexMap`, and who waits for one.
use zb.Prelude.{
  ℕ, suc, ◌+◌, ◌<◌, true, ◌||◌, List, [], ◌∷◌, Option, none, some, ◌≡◌, refl, ap, ◌⊎◌, ◌==◌,
  if◌then◌else◌, arith, Bool-cases, Option-cases, inl, inr,
}
use zb.Backend.MutexMap.{
  lookup_channel, delete_key, lock, acquired, waits, mem, remove, System, start, Step, acquire,
  wait, wake, cancel, unlock, Reach, here, later,
}

-- how many goroutines hold the mutex of a key
abbrev pub count_key : ℕ → List (ℕ × ℕ) → ℕ
count_key k [] = 0
count_key k ((j, c) ∷ ps) = (if j == k then 1 else 0) + count_key k ps

abbrev pub one_of : Option ℕ → ℕ
one_of none = 0
one_of (some c) = 1

-- Each mutex has the holder that the map tells or none; and a channel that is waited on is closed,
-- or it is in the map under the key that the goroutine waits for.
record IsExclusive (s : System) : Type 0 where
  one : (k : ℕ) → count_key k s.holders ≡ one_of (lookup_channel s.m k)
  held : (k c : ℕ) → mem k c s.holders ≡ true → lookup_channel s.m k ≡ some c
  blocked :
      (k c : ℕ) → mem k c s.waiting ≡ true → (s.closed c ≡ true) ⊎ (lookup_channel s.m k ≡ some c)

lookup_channel-delete_key :
    (m : List (ℕ × ℕ)) (k x : ℕ)
    → lookup_channel (delete_key m k) x ≡ (if k == x then none else lookup_channel m x)
unfolding lookup_channel delete_key
lookup_channel-delete_key [] k x = ground (arith)
lookup_channel-delete_key ((j, c) ∷ m) k x =
    let e = lookup_channel-delete_key m k x in ground (arith, e)

count_key-mem : (ps : List (ℕ × ℕ)) (k c : ℕ) → mem k c ps ≡ true → 0 < count_key k ps
unfolding mem
count_key-mem [] k c h = ground (arith)
count_key-mem ((j, d) ∷ ps) k c h = let i = count_key-mem ps k c in ground (arith, i)

count_key-remove :
    (ps : List (ℕ × ℕ)) (k c x : ℕ)
    → mem k c ps ≡ true
    → (if k == x then 1 else 0) + count_key x (remove k c ps) ≡ count_key x ps
unfolding mem remove
count_key-remove [] k c x h = ground (arith)
count_key-remove ((j, d) ∷ ps) k c x h = let i = count_key-remove ps k c x in ground (arith, i)

mem-remove : (ps : List (ℕ × ℕ)) (k c x y : ℕ) → mem x y (remove k c ps) ≡ true → mem x y ps ≡ true
unfolding mem remove
mem-remove [] k c x y h = h
mem-remove ((j, d) ∷ ps) k c x y h = let i = mem-remove ps k c x y in ground (arith, i)

start-IsExclusive : IsExclusive start
unfolding mem lookup_channel
start-IsExclusive = record {
  one = λ k. refl;
  held = λ k c h. ground (arith);
  blocked = λ k c h. ground (arith);
}

lock-acquired :
    (m m' : List (ℕ × ℕ)) (k c : ℕ)
    → lock m k c ≡ acquired m'
    → (lookup_channel m k ≡ none)
      × ((x : ℕ) → lookup_channel m' x ≡ (if k == x then some c else lookup_channel m x))
unfolding lock lookup_channel
lock-acquired m m' k c e = elim (Option-cases (lookup_channel m k)) [
  | inr (d, f) ↦ ground (arith, e, f)
  | inl f ↦
      let g : m' ≡ (k, c) ∷ m = ground (arith, e, f) in
      (f, λ x. ap (λ (l : List (ℕ × ℕ)). lookup_channel l x) g)
]

lock-waits : (m : List (ℕ × ℕ)) (k c d : ℕ) → lock m k d ≡ waits c → lookup_channel m k ≡ some c
unfolding lock
lock-waits m k c d e = elim (Option-cases (lookup_channel m k)) [
  | inr (b, f) ↦ ground (arith, e, f)
  | inl f ↦ ground (arith, e, f)
]

acquire-IsExclusive :
    (s : System) (k : ℕ) (m' : List (ℕ × ℕ))
    → lock s.m k s.fresh ≡ acquired m'
    → IsExclusive s
    → IsExclusive (record s { m = m'; fresh = suc s.fresh; holders = (k, s.fresh) ∷ s.holders })
unfolding mem
acquire-IsExclusive s k m' e v =
    let (f, g) = lock-acquired s.m m' k s.fresh e in
    record {
      one = λ x. ground (arith, g x, f, v.one x);
      held =
          λ x c h. (let n = count_key-mem s.holders x c in ground (arith, g x, f, v.held x c, h));
      blocked = λ x c h. elim (v.blocked x c h) [
        | inl d ↦ inl d
        | inr d ↦ inr (ground (arith, g x, f, d))
      ];
    }

unlock-IsExclusive :
    (s : System) (k c : ℕ)
    → mem k c s.holders ≡ true
    → IsExclusive s
    → IsExclusive (record s {
      m = delete_key s.m k;
      closed = λ d. d == c || s.closed d;
      holders = remove k c s.holders;
    })
unlock-IsExclusive s k c h v =
    let own = v.held k c h in
    record {
      one = λ x. ground (
        arith,
        lookup_channel-delete_key s.m k x,
        own,
        v.one x,
        count_key-remove s.holders k c x h,
      );
      held = λ x d i. ground (
        arith,
        lookup_channel-delete_key s.m k x,
        own,
        v.one x,
        v.held x d,
        mem-remove s.holders k c x d i,
        count_key-remove s.holders k c x h,
        count_key-mem (remove k c s.holders) x d i,
      );
      blocked = λ x d i. elim (v.blocked x d i) [
        | inl e ↦ inl (ground (arith, e))
        | inr e ↦ elim (Bool-cases (k == x)) [
          | inl f ↦ inl (ground (arith, own, e, f))
          | inr f ↦ inr (ground (arith, lookup_channel-delete_key s.m k x, e, f))
        ]
      ];
    }

leave-IsExclusive :
    (s : System) (k c : ℕ)
    → IsExclusive s
    → IsExclusive (record s { waiting = remove k c s.waiting })
leave-IsExclusive s k c v = record {
  one = v.one;
  held = v.held;
  blocked = λ x d h. v.blocked x d (mem-remove s.waiting k c x d h);
}

wait-IsExclusive :
    (s : System) (k c : ℕ)
    → lock s.m k s.fresh ≡ waits c
    → IsExclusive s
    → IsExclusive (record s { waiting = (k, c) ∷ s.waiting })
unfolding mem
wait-IsExclusive s k c e v = record {
  one = v.one;
  held = v.held;
  blocked = λ x d h. elim (Bool-cases (mem x d s.waiting)) [
    | inl i ↦ v.blocked x d i
    | inr i ↦ inr (ground (arith, lock-waits s.m k c s.fresh e, h, i))
  ];
}

Step-IsExclusive : {s t : System} → Step s t → IsExclusive s → IsExclusive t
Step-IsExclusive (acquire s k m' e) v = acquire-IsExclusive s k m' e v
Step-IsExclusive (wait s k c e) v = wait-IsExclusive s k c e v
Step-IsExclusive (wake s k c h e) v = leave-IsExclusive s k c v
Step-IsExclusive (cancel s k c h) v = leave-IsExclusive s k c v
Step-IsExclusive (unlock s k c h) v = unlock-IsExclusive s k c h v

Reach-IsExclusive : {s : System} → Reach s → IsExclusive s
Reach-IsExclusive here = start-IsExclusive
Reach-IsExclusive (later r st) = Step-IsExclusive st (Reach-IsExclusive r)

-- In every state that goroutines reach, at most one holds the mutex of a key, and one holds it
-- exactly where the map has an entry for the key.
pub lock-exclusive :
    {s : System} → Reach s → (k : ℕ) → count_key k s.holders ≡ one_of (lookup_channel s.m k)
lock-exclusive r k = let v = Reach-IsExclusive r in v.one k

-- In every state that goroutines reach, a goroutine that waits for the mutex of a key waits on a
-- channel that is closed, so that it goes on, or while another goroutine holds the mutex.
pub wait-held :
    {s : System}
    → Reach s
    → (k c : ℕ) → mem k c s.waiting ≡ true
    → (s.closed c ≡ true) ⊎ (count_key k s.holders ≡ 1)
wait-held {s = s} r k c h =
    let v = Reach-IsExclusive r in
    elim (v.blocked k c h) [ inl d ↦ inl d | inr d ↦ inr (ground (arith, v.one k, d)) ]
