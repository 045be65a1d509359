-- ===== src/Backend/Graph/Tests.antt =====
-- The theorems on the iterator at a graph of two derivations, 1 and 2, of which 1 is an input of 2.
use zb.Backend.Graph.Dependents.{
  dependents_at, transitive_dependents, Dependent, transitive_dependents-Dependent,
}
use zb.Prelude.{
  List, ◌+◌, ◌-◌, ◌↔◌, ℕ, ◌<◌, true, false, [], ◌∷◌, some, ◌≡◌, refl, ◌&&◌, if◌then◌else◌, arith,
  length,
}
use zb.Prelude.Int.{pos}
use zb.Backend.Graph.{
  Node, DependencyGraph, lookup_node, Iterator, iterator, next, is_finished, has_key, all_finished,
  push_ready, close_if_done, finish, among, System, take, block, done, Reach, here, later, start,
}
use zb.Backend.Graph.Count.{count, inputs_of, is_node, is_nil, ready, IsConsistent}
use zb.Backend.Graph.Order.{next-ordered, blocked-busy, finish_lem}
use zb.Backend.Graph.Done.{AllProcessed}

abbrev pub two : DependencyGraph
two = record {
  nodes =
      (2, record { inputs = 1 ∷ []; dependents = [] })
      ∷ (1, record { inputs = []; dependents = 2 ∷ [] })
      ∷ [];
  roots = 1 ∷ [];
}

two-roots :
    (x : ℕ) → count x two.roots ≡ (if is_node two x && is_nil (inputs_of two x) then 1 else 0)
unfolding is_node inputs_of is_nil lookup_node
two-roots x = ground (arith)

two-inputs : (p x : ℕ) → among p (inputs_of two x) ≡ true → is_node two p ≡ true
unfolding is_node inputs_of lookup_node
two-inputs p x h = ground (arith)

two-dependents :
    (p x : ℕ) (a : Node)
    → lookup_node two.nodes p ≡ some a
    → count x a.dependents ≡ (if among p (inputs_of two x) then 1 else 0)
unfolding inputs_of lookup_node
two-dependents p x a h = ground (arith)

two-IsConsistent : IsConsistent two
two-IsConsistent = record { roots = two-roots; inputs = two-inputs; dependents = two-dependents }

-- 1 is taken
abbrev working : System
working = record {
  it = record { stack = []; finished = []; pending = pos 1; waiting = false };
  working = 1 ∷ [];
  blocked = 0;
}

working-Reach : Reach two working
unfolding iterator next
working-Reach = later here (take (start two) 1 working.it refl)

-- and another goroutine waits
abbrev waiting : System
waiting = record {
  it = record { stack = []; finished = []; pending = pos 1; waiting = true };
  working = 1 ∷ [];
  blocked = 1;
}

waiting-Reach : Reach two waiting
unfolding next
waiting-Reach = later working-Reach (block working waiting.it refl)

next-ordered_example :
    (is_node two 1 ≡ true)
    × ((q : ℕ) → among q (inputs_of two 1) ≡ true → is_finished [] q ≡ true)
    × (among 1 [] ≡ false)
    × (has_key [] 1 ≡ false)
unfolding iterator next
next-ordered_example = next-ordered two two-IsConsistent here 1 working.it refl

blocked-busy_example : (waiting.it.stack ≡ []) × (0 < length waiting.working)
blocked-busy_example = blocked-busy two two-IsConsistent waiting-Reach (omega arith)

finish_lem_example :
    (it' : Iterator) × (finish two 1 true waiting.it ≡ some it')
    × (it'.finished ≡ (1, true) ∷ [])
    × (it'.pending ≡ pos 0)
    × ((x : ℕ)
        → count x it'.stack
          ≡ count x []
            + (if true && (among 1 (inputs_of two x) && ready two it'.finished x) then 1 else 0))
    × (it'.waiting ≡ true → (it'.stack ≡ []) × (0 < 0))
    × (finish two 1 false it' ≡ some it')
finish_lem_example = finish_lem two two-IsConsistent waiting-Reach 1 true false refl

-- all is done
abbrev ready_two : System
ready_two = record {
  it = record { stack = 2 ∷ []; finished = (1, true) ∷ []; pending = pos 0; waiting = false };
  working = [];
  blocked = 0;
}

abbrev working_two : System
working_two = record {
  it = record { stack = []; finished = (1, true) ∷ []; pending = pos 1; waiting = false };
  working = 2 ∷ [];
  blocked = 0;
}

abbrev pub all_done : System
all_done = record {
  it = record {
    stack = [];
    finished = (2, true) ∷ (1, true) ∷ [];
    pending = pos 0;
    waiting = false;
  };
  working = [];
  blocked = 0;
}

pub all_done-Reach : Reach two all_done
unfolding next finish push_ready close_if_done lookup_node all_finished is_finished has_key
all_done-Reach =
    later
      (later (later waiting-Reach (done waiting 1 true ready_two.it refl refl))
        (take ready_two 2 working_two.it refl))
      (done working_two 2 true all_done.it refl refl)

pub all_processed : AllProcessed all_done.it.finished
all_processed = (refl, (refl, tt))

pub two-acyclic : (p x : ℕ) → among p (inputs_of two x) ≡ true → p < x
unfolding inputs_of lookup_node
two-acyclic p x h = ground (arith)

two_backwards : (p d : ℕ) → among d (dependents_at two p) ≡ true → 2 - d < 2 - p
unfolding dependents_at lookup_node
two_backwards p d h = ground (arith)

transitive_dependents-Dependent_example :
    (fuel : ℕ) × (ys : List ℕ) × (transitive_dependents two fuel (1 ∷ []) ≡ some ys)
    × ((x : ℕ) → (among x ys ≡ true) ↔ Dependent two (1 ∷ []) x)
transitive_dependents-Dependent_example =
    transitive_dependents-Dependent two (λ x. 2 - x) two_backwards (1 ∷ [])
