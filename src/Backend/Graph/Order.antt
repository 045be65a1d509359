-- ===== src/Backend/Graph/Order.antt =====
-- What holds of the iterator and its goroutines in every state that they reach.
use zb.Prelude.{
  ℕ, suc, ◌+◌, ◌<◌, Bool, true, false, not, ◌&&◌, List, [], ◌∷◌, Option, none, some, ◌≡◌, refl, sym,
  ◌∙◌, ap, subst, ◌==◌, if◌then◌else◌, arith, Bool-cases, List-cases, Option-cases, inl, inr,
  length,
}
use zb.Prelude.Int.{pos}
use zb.Backend.Graph.{
  DependencyGraph, lookup_node, is_finished, has_key, all_finished, among, remove, Iterator,
  iterator, finish, increment, is_idle, next, taken, wait, System, Step, take, block, cancel, done,
  Reach, here, later, start,
}
use zb.Backend.Graph.Count.{
  count, count_keys, inputs_of, is_node, is_nil, ready, IsConsistent, has_key-count,
  is_finished-none, all_finished-false, all_finished-other, all_finished-among, count-remove,
  among-count,
}
use zb.Backend.Graph.Effect.{Finished, finish-Finished}

-- A path is on the stack, worked on or finished, once, if it is ready, and nowhere if not; the
-- paths worked on are counted; and goroutines wait only on a channel that a later `finish` closes.
pub record IsOrdered (g : DependencyGraph) (s : System) : Type 0 where
  pub exact :
      (x : ℕ)
      → count x s.it.stack + count x s.working + count_keys x s.it.finished
        ≡ (if ready g s.it.finished x then 1 else 0)
  pub pending : s.it.pending ≡ pos (length s.working)
  pub busy : s.it.waiting ≡ true → (s.it.stack ≡ []) × (0 < length s.working)
  pub blocked : 0 < s.blocked → s.it.waiting ≡ true

ready-mark :
    (g : DependencyGraph) (finished : List (ℕ × Bool)) (p : ℕ) (b : Bool) (x : ℕ)
    → is_finished finished p ≡ false
    → (if ready g ((p, b) ∷ finished) x then 1 else 0)
      ≡ (if ready g finished x then 1 else 0)
        + (if b && (among p (inputs_of g x) && ready g ((p, b) ∷ finished) x) then 1 else 0)
unfolding ready
ready-mark g finished p false x h =
    let e = all_finished-false finished p (inputs_of g x) h in ground (arith, e)
ready-mark g finished p true x h = elim (Bool-cases (among p (inputs_of g x))) [
  | inl m ↦ let e = all_finished-among finished p (inputs_of g x) h m in ground (arith, e, m)
  | inr m ↦ let e = all_finished-other finished p true (inputs_of g x) m in ground (arith, e, m)
]

all_finished-none : (inputs : List ℕ) → all_finished [] inputs ≡ is_nil inputs
unfolding all_finished is_finished is_nil
all_finished-none [] = refl
all_finished-none (x ∷ inputs) = refl

start-IsOrdered : (g : DependencyGraph) → IsConsistent g → IsOrdered g (start g)
unfolding iterator
start-IsOrdered g v = record {
  exact = λ x.
      (let e = all_finished-none (inputs_of g x) in unfold ready in ground (arith, e, v.roots x));
  pending = refl;
  busy = λ w. cc;
  blocked = λ l. elim l [ ];
}

next-taken :
    (it it' : Iterator) (p : ℕ)
    → next it ≡ taken p it'
    → (it.stack ≡ p ∷ it'.stack)
      × (it'.finished ≡ it.finished)
      × (it'.pending ≡ increment it.pending)
      × (it'.waiting ≡ it.waiting)
unfolding next
next-taken it it' p e = elim (List-cases it.stack) [
  | inl q ↦ ground (arith, e, q)
  | inr (y, stack, q) ↦ ground (arith, e, q)
]

next-wait :
    (it it' : Iterator)
    → next it ≡ wait it'
    → (it.stack ≡ [])
      × (is_idle it.pending ≡ false)
      × (it'.stack ≡ it.stack)
      × (it'.finished ≡ it.finished)
      × (it'.pending ≡ it.pending)
      × (it'.waiting ≡ true)
unfolding next
next-wait it it' e = elim (List-cases it.stack) [
  | inl q ↦ ground (arith, e, q)
  | inr (y, stack, q) ↦ ground (arith, e, q)
]

length-remove : (p : ℕ) (xs : List ℕ) → among p xs ≡ true → suc (length (remove p xs)) ≡ length xs
length-remove p [] h = cc
length-remove p (y ∷ ys) h = ground (arith, length-remove p ys)

module _ (g : DependencyGraph) (s : System) (v : IsOrdered g s) where
  take-IsOrdered :
      (p : ℕ) (it' : Iterator)
      → next s.it ≡ taken p it'
      → IsOrdered g (record { it = it'; working = p ∷ s.working; blocked = s.blocked })
  take-IsOrdered p it' e =
      let (st, f, n, w) = next-taken s.it it' p e in
      record {
        exact = λ x. ground (arith, st, f, v.exact x);
        pending = ground (arith, n, v.pending);
        busy = λ l. ground (arith, st, w, v.busy);
        blocked = λ l. ground (arith, w, v.blocked);
      }

  block-IsOrdered :
      (it' : Iterator)
      → next s.it ≡ wait it'
      → IsOrdered g (record { it = it'; working = s.working; blocked = suc s.blocked })
  block-IsOrdered it' e =
      let (st, i, st', f, n, w) = next-wait s.it it' e in
      record {
        exact = λ x. ground (arith, st', f, v.exact x);
        pending = ground (arith, n, v.pending);
        busy = λ l. ground (arith, st, st', i, v.pending);
        blocked = λ l. w;
      }

  cancel-IsOrdered :
      (b : ℕ)
      → s.blocked ≡ suc b
      → IsOrdered g (record { it = s.it; working = s.working; blocked = b })
  cancel-IsOrdered b e = record {
    exact = v.exact;
    pending = v.pending;
    busy = v.busy;
    blocked = λ l. v.blocked (omega (arith, e));
  }

  -- a path that is worked on has no entry yet, and is a derivation of the graph
  working-fresh :
      (p : ℕ)
      → among p s.working ≡ true
      → (count_keys p s.it.finished ≡ 0) × (ready g s.it.finished p ≡ true)
  working-fresh p m = ground (arith, v.exact p, among-count p s.working, m)

  done-IsOrdered :
      (p : ℕ) (b : Bool) (it' : Iterator)
      → among p s.working ≡ true
      → Finished g p b s.it it'
      → IsOrdered g (record {
        it = it';
        working = remove p s.working;
        blocked = if s.it.waiting && not it'.waiting then 0 else s.blocked;
      })
  done-IsOrdered p b it' m r =
      let (k, rd) = working-fresh p m in
      let i = is_finished-none s.it.finished p k in
      let f = r.finished in
      let l = length-remove p s.working m in
      record {
        exact = λ x.
            (let c = count-remove p x s.working m in
              let d = ready-mark g s.it.finished p b x i in
              let a = r.counts x in rw f (ground (arith, c, d, a, v.exact x)));
        pending = ground (arith, r.pending, v.pending, l);
        busy = λ w.
            (let (w1, st) = r.waits w in
              let e : it'.stack ≡ [] = st ∙ (v.busy w1).0 in
              let idle = r.busy w e in (e, ground (arith, idle, r.pending, v.pending, l)));
        blocked = λ w. ground (arith, v.blocked);
      }

  finish-IsOrdered :
      IsConsistent g
      → (p : ℕ) (b : Bool) → among p s.working ≡ true
      → (it' : Iterator) × (finish g p b s.it ≡ some it') × Finished g p b s.it it'
  finish-IsOrdered c p b m =
      let (k, rd) = working-fresh p m in
      let h : has_key s.it.finished p ≡ false = ground (arith, k, has_key-count s.it.finished p) in
      finish-Finished g p b s.it c (unfold ready in ground (arith, rd)) h

Step-IsOrdered :
    (g : DependencyGraph)
    → IsConsistent g
    → {s t : System} → Step g s t
    → IsOrdered g s
    → IsOrdered g t
Step-IsOrdered g c (take s p it' e) v = take-IsOrdered g s v p it' e
Step-IsOrdered g c (block s it' e) v = block-IsOrdered g s v it' e
Step-IsOrdered g c (cancel s b e) v = cancel-IsOrdered g s v b e
Step-IsOrdered g c (done s p b it' m e) v =
    let (it2, e2, r) = finish-IsOrdered g s v c p b m in
    let same : it2 ≡ it' =
      ap (λ (o : Option Iterator). elim o [ none ↦ it2 | some y ↦ y ]) (sym e2 ∙ e) in
    done-IsOrdered g s v p b it' m (subst (λ (y : Iterator). Finished g p b s.it y) same r)

pub Reach-IsOrdered :
    (g : DependencyGraph) → IsConsistent g → {s : System} → Reach g s → IsOrdered g s
Reach-IsOrdered g c here = start-IsOrdered g c
Reach-IsOrdered g c (later r st) = Step-IsOrdered g c st (Reach-IsOrdered g c r)

all_finished-at :
    (finished : List (ℕ × Bool)) (inputs : List ℕ) (q : ℕ)
    → all_finished finished inputs ≡ true
    → among q inputs ≡ true
    → is_finished finished q ≡ true
unfolding all_finished
all_finished-at finished [] q a m = cc
all_finished-at finished (x ∷ inputs) q a m = elim (Bool-cases (x == q)) [
  | inl e ↦
      let same : x ≡ q = ground arith in
      let h : is_finished finished x ≡ true = ground (arith, a) in
      subst (λ (y : ℕ). is_finished finished y ≡ true) same h
  | inr e ↦ ground (arith, all_finished-at finished inputs q, a, m, e)
]

-- In every state that the goroutines reach with a consistent graph, a path that `next` returns is
-- a derivation of the graph all of whose inputs are finished and let their dependents go on, and
-- it was not returned before: no goroutine works on it, and it is not finished.
pub next-ordered :
    (g : DependencyGraph)
    → IsConsistent g
    → {s : System} → Reach g s
    → (p : ℕ) (it' : Iterator) → next s.it ≡ taken p it'
    → (is_node g p ≡ true)
      × ((q : ℕ) → among q (inputs_of g p) ≡ true → is_finished s.it.finished q ≡ true)
      × (among p s.working ≡ false)
      × (has_key s.it.finished p ≡ false)
next-ordered g c {s = s} r p it' e =
    let v = Reach-IsOrdered g c r in
    let (st, f, n, w) = next-taken s.it it' p e in
    let x = v.exact p in
    let a = among-count p s.working in
    let k = has_key-count s.it.finished p in
    let rd : ready g s.it.finished p ≡ true = ground (arith, st, x) in
    let (nd, all) : (is_node g p ≡ true) × (all_finished s.it.finished (inputs_of g p) ≡ true) =
      (unfold ready in ground (arith, rd)) in
    (
      nd,
      λ q m. all_finished-at s.it.finished (inputs_of g p) q all m,
      ground (arith, st, x, a),
      ground (arith, st, x, k),
    )

-- In every state that the goroutines reach with a consistent graph, goroutines wait only while no
-- path is on the stack and another goroutine works on one: none waits for a path that is there,
-- and none waits when no `finish` is to come.
pub blocked-busy :
    (g : DependencyGraph)
    → IsConsistent g
    → {s : System} → Reach g s
    → 0 < s.blocked
    → (s.it.stack ≡ []) × (0 < length s.working)
blocked-busy g c r h = let v = Reach-IsOrdered g c r in v.busy (v.blocked h)

-- a path that has an entry is finished no second time
finish_again :
    (g : DependencyGraph) (p : ℕ) (b b' : Bool) (it : Iterator) (finished : List (ℕ × Bool))
    → it.finished ≡ (p, b) ∷ finished
    → finish g p b' it ≡ some it
unfolding finish has_key
finish_again g p b b' it finished e = elim (Option-cases (lookup_node g.nodes p)) [
  | inl n ↦ ground (arith, n)
  | inr (node, n) ↦ ground (arith, n, e)
]

-- In every state that the goroutines reach with a consistent graph, `finish` of a path that is
-- worked on does not panic. It marks the path, leaves as many paths pending as are still worked on,
-- and pushes each derivation that has the path among its inputs and is ready now, once, and no
-- other, and none where the dependents are not to be processed. It leaves the channel open only if
-- the stack is empty and another path is worked on. To finish the path again changes nothing.
pub finish_lem :
    (g : DependencyGraph)
    → IsConsistent g
    → {s : System} → Reach g s
    → (p : ℕ) (b b' : Bool) → among p s.working ≡ true
    → (it' : Iterator) × (finish g p b s.it ≡ some it')
      × (it'.finished ≡ (p, b) ∷ s.it.finished)
      × (it'.pending ≡ pos (length (remove p s.working)))
      × ((x : ℕ)
          → count x it'.stack
            ≡ count x s.it.stack
              + (if b && (among p (inputs_of g x) && ready g it'.finished x) then 1 else 0))
      × (it'.waiting ≡ true → (it'.stack ≡ []) × (0 < length (remove p s.working)))
      × (finish g p b' it' ≡ some it')
finish_lem g c {s = s} r p b b' m =
    let v = Reach-IsOrdered g c r in
    let (it', e, f) = finish-IsOrdered g s v c p b m in
    let w = done-IsOrdered g s v p b it' m f in
    (
      it',
      e,
      f.finished,
      w.pending,
      λ x. (let q = f.counts x in rw f.finished q),
      w.busy,
      finish_again g p b b' it' s.it.finished f.finished,
    )
