-- ===== src/Backend/Graph.antt =====
-- internal/backend/graph.go: `dependencyGraph` and `dependencyOrderIterator`, which hands out the
-- derivations of a graph to goroutines, inputs first. A store path is only compared, so it is a
-- number; a map is the list of its entries in the order in which a loop goes through them. What
-- stands between `mu.Lock` and `mu.Unlock` is one step. A panic is `none`.
pub mod Count
pub mod Effect
pub mod Order
pub mod Done
pub mod Dependents
pub mod Tests
use zb.Prelude.{
  ℕ, zero, suc, ◌+◌, ◌<◌, Bool, true, false, not, ◌&&◌, ◌||◌, List, [], ◌∷◌, Option, none, some,
  ◌≡◌, ◌==◌, if◌then◌else◌,
}
use zb.Prelude.Int.{ℤ, pos, negsuc}

-- Of a `dependencyGraphNode`: the keys of its derivation's `InputDerivations`, and `dependents`.
pub record Node : Type 0 where
  pub inputs : List ℕ
  pub dependents : List ℕ

pub record DependencyGraph : Type 0 where
  pub nodes : List (ℕ × Node)
  pub roots : List ℕ

-- `graph.nodes[path]`
unfoldable pub lookup_node : List (ℕ × Node) → ℕ → Option Node
lookup_node [] path = none
lookup_node ((p, node) ∷ nodes) path = if p == path then some node else lookup_node nodes path

-- `dependencyOrderIterator`: the stack with its top in front, the map `finished`, and whether
-- there is a channel `waiting`.
pub record Iterator : Type 0 where
  pub stack : List ℕ
  pub finished : List (ℕ × Bool)
  pub pending : ℤ
  pub waiting : Bool

unfoldable pub iterator : DependencyGraph → Iterator
iterator g = record { stack = g.roots; finished = []; pending = pos 0; waiting = false }

abbrev pub increment : ℤ → ℤ
increment (pos n) = pos (n + 1)
increment (negsuc zero) = pos 0
increment (negsuc (suc n)) = negsuc n

abbrev pub decrement : ℤ → ℤ
decrement (pos zero) = negsuc 0
decrement (pos (suc n)) = pos n
decrement (negsuc n) = negsuc (n + 1)

-- `it.pending <= 0`
abbrev pub is_idle : ℤ → Bool
is_idle (pos n) = n == 0
is_idle (negsuc n) = true

-- What a goroutine that holds the lock in `next` does: it ends, it goes to wait on the channel, or
-- it takes a path.
pub data Next : Type 0 where
  ended : Next
  wait : Iterator → Next
  taken : ℕ → Iterator → Next

unfoldable pub next : Iterator → Next
next it = elim it.stack [
  | [] ↦ if is_idle it.pending then ended else wait (record it { waiting = true })
  | p ∷ stack ↦ taken p (record it { stack = stack; pending = increment it.pending })
]

-- `it.finished[path]`, false where there is no entry
unfoldable pub is_finished : List (ℕ × Bool) → ℕ → Bool
is_finished [] path = false
is_finished ((p, process) ∷ finished) path =
    if p == path then process else is_finished finished path

-- `_, hasKey := it.finished[path]`
unfoldable pub has_key : List (ℕ × Bool) → ℕ → Bool
has_key [] path = false
has_key ((p, process) ∷ finished) path = p == path || has_key finished path

-- The inner loop of `finish`, which computes `canAdd`.
unfoldable pub all_finished : List (ℕ × Bool) → List ℕ → Bool
unfolding is_finished
all_finished finished [] = true
all_finished finished (input ∷ inputs) = is_finished finished input && all_finished finished inputs

-- The loop of `finish` over the dependents.
unfoldable pub push_ready : DependencyGraph → List ℕ → Iterator → Option Iterator
unfolding all_finished lookup_node
push_ready g [] it = some it
push_ready g (possible ∷ rest) it = elim (lookup_node g.nodes possible) [
  | none ↦ none
  | some node ↦ push_ready g rest (
      if all_finished it.finished node.inputs
      then record it { stack = possible ∷ it.stack; waiting = false }
      else it)
]

-- The end of `finish`.
unfoldable pub close_if_done : Iterator → Iterator
close_if_done it = elim it.stack [
  | [] ↦ if is_idle it.pending then record it { waiting = false } else it
  | p ∷ stack ↦ it
]

unfoldable pub finish : DependencyGraph → ℕ → Bool → Iterator → Option Iterator
unfolding push_ready close_if_done lookup_node
finish g path process_dependents it =
    let it1 : Iterator = record it {
      finished = (path, process_dependents) ∷ it.finished;
      pending = decrement it.pending;
    } in
    elim (lookup_node g.nodes path) [
      | none ↦ some it
      | some node ↦
          if has_key it.finished path
          then some it
          else elim (if process_dependents then push_ready g node.dependents it1 else some it1) [
            | none ↦ none
            | some it2 ↦ some (close_if_done it2)
          ]
    ]

-- The goroutines: the paths that `next` has returned and that are not yet given to `finish`, and
-- how many goroutines wait on the channel.
pub record System : Type 0 where
  pub it : Iterator
  pub working : List ℕ
  pub blocked : ℕ

-- the first occurrence of a path taken out
abbrev pub remove : ℕ → List ℕ → List ℕ
remove p [] = []
remove p (q ∷ qs) = if q == p then qs else q ∷ remove p qs

abbrev pub among : ℕ → List ℕ → Bool
among p [] = false
among p (q ∷ qs) = q == p || among p qs

module _ (g : DependencyGraph) where
  pub data Step : System → System → Type 0 where
    take :
        (s : System) (p : ℕ) (it' : Iterator)
        → next s.it ≡ taken p it'
        → Step s (record { it = it'; working = p ∷ s.working; blocked = s.blocked })
    block :
        (s : System) (it' : Iterator)
        → next s.it ≡ wait it'
        → Step s (record { it = it'; working = s.working; blocked = suc s.blocked })
    -- the context of a goroutine that waits is done
    cancel :
        (s : System) (b : ℕ)
        → s.blocked ≡ suc b
        → Step s (record { it = s.it; working = s.working; blocked = b })
    -- the channel is closed: all that wait on it go on, and each calls `next` anew
    done :
        (s : System) (p : ℕ) (process_dependents : Bool) (it' : Iterator)
        → among p s.working ≡ true
        → finish g p process_dependents s.it ≡ some it'
        → Step s (record {
          it = it';
          working = remove p s.working;
          blocked = if s.it.waiting && not it'.waiting then 0 else s.blocked;
        })

  abbrev pub start : System
  start = record { it = iterator g; working = []; blocked = 0 }

  pub data Reach : System → Type 0 where
    here : Reach start
    later : {s t : System} → Reach s → Step s t → Reach t
