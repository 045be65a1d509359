-- ===== src/Backend/Analyze.antt =====
-- internal/backend/graph.go: `analyze`, which makes a `dependencyGraph` of the derivations that the
-- wanted outputs need. Store paths, output names and hash keys are only compared, so they are
-- numbers. `pseudoHashDrv` with `makeHashKey` is a parameter.
pub mod Lookup
pub mod Rounds
pub mod Fuel
pub mod Consistent
pub mod Needed
pub mod Used
mod Tests
use zb.Prelude.{
  ℕ, zero, suc, ◌+◌, Bool, true, false, not, ◌&&◌, ◌||◌, List, [], ◌∷◌, Option, none, some, ◌≡◌,
  ◌==◌, if◌then◌else◌, length,
}
use zb.Backend.Graph.{Node, DependencyGraph, lookup_node, among}

-- A derivation: the map `InputDerivations`, from paths to sets of output names, and all the rest of
-- it as a number, since `analyze` only hands it on to `pseudoHashDrv`.
pub record Drv : Type 0 where
  pub inputs : List (ℕ × List ℕ)
  pub rest : ℕ

unfoldable pub lookup_drv : List (ℕ × Drv) → ℕ → Option Drv
lookup_drv [] path = none
lookup_drv ((p, drv) ∷ drvs) path = if p == path then some drv else lookup_drv drvs path

unfoldable pub keys : List (ℕ × List ℕ) → List ℕ
keys [] = []
keys ((p, names) ∷ inputs) = p ∷ keys inputs

-- `drv.InputDerivations` of a node's derivation, by its keys
unfoldable pub inputs_of_drv : Option Drv → List ℕ
unfolding keys
inputs_of_drv none = []
inputs_of_drv (some drv) = keys drv.inputs

-- `sets.Set.Add`
unfoldable pub set_add : List ℕ → ℕ → List ℕ
set_add xs x = if among x xs then xs else x ∷ xs

unfoldable pub put_node : List (ℕ × Node) → ℕ → Node → List (ℕ × Node)
put_node [] path node = (path, node) ∷ []
put_node ((p, n) ∷ nodes) path node =
    if p == path then (p, node) ∷ nodes else (p, n) ∷ put_node nodes path node

-- What `get` gives, and the map after it.
unfoldable pub get_node : List (ℕ × Node) → ℕ → Option Drv → Node
unfolding lookup_node inputs_of_drv
get_node nodes path drv = elim (lookup_node nodes path) [
  | none ↦ record { inputs = inputs_of_drv drv; dependents = [] }
  | some node ↦ node
]

unfoldable pub get : List (ℕ × Node) → ℕ → Option Drv → List (ℕ × Node)
unfolding get_node put_node
get nodes path drv = put_node nodes path (get_node nodes path drv)

-- `addToMultiMap`
unfoldable pub add_to_multi_map : List (ℕ × List ℕ) → ℕ → ℕ → List (ℕ × List ℕ)
unfolding set_add
add_to_multi_map [] k v = (k, v ∷ []) ∷ []
add_to_multi_map ((j, vs) ∷ m) k v =
    if j == k then (j, set_add vs v) ∷ m else (j, vs) ∷ add_to_multi_map m k v

-- The variables of `analyze`; the stack of output references has its top in front.
pub record Analysis : Type 0 where
  pub nodes : List (ℕ × Node)
  pub roots : List ℕ
  pub drv_hashes : List (ℕ × ℕ)
  pub used : List (ℕ × List ℕ)
  pub stack : List (ℕ × ℕ)

unfoldable pub is_hashed : List (ℕ × ℕ) → ℕ → Bool
is_hashed [] path = false
is_hashed ((p, h) ∷ drv_hashes) path = p == path || is_hashed drv_hashes path

-- How a round of the loop ends.
pub data Round : Type 0 where
  finished : Round
  unknown_derivation : ℕ → Round
  hash_failed : ℕ → Round
  goes_on : Analysis → Round

pub data Analyzed : Type 0 where
  analyzed : Analysis → Analyzed
  unknown : ℕ → Analyzed
  failed : ℕ → Analyzed
  out_of_fuel : Analyzed

-- the result after a round, or the rounds to come
unfoldable pub after_round : Round → Analysis → (Analysis → Analyzed) → Analyzed
after_round finished a more = analyzed a
after_round (unknown_derivation path) a more = unknown path
after_round (hash_failed path) a more = failed path
after_round (goes_on b) a more = more b

-- `stack = append(stack, …)` for each output name of an input
unfoldable pub push_refs : ℕ → List ℕ → List (ℕ × ℕ) → List (ℕ × ℕ)
push_refs input [] stack = stack
push_refs input (name ∷ names) stack = push_refs input names ((input, name) ∷ stack)

module _ (derivations : List (ℕ × Drv)) where
  -- `inputNode := result.get(…); inputNode.dependents.Add(ref.DrvPath)`
  unfoldable pub add_dependent : List (ℕ × Node) → ℕ → ℕ → List (ℕ × Node)
  unfolding get_node put_node set_add lookup_drv
  add_dependent nodes input path =
      let node = get_node nodes input (lookup_drv derivations input) in
      put_node nodes input (record node { dependents = set_add node.dependents path })

  -- The loop over the inputs of the derivation at a path.
  unfoldable pub add_inputs :
      List (ℕ × List ℕ) → ℕ → List (ℕ × Node) → List (ℕ × ℕ) → List (ℕ × Node) × List (ℕ × ℕ)
  unfolding add_dependent push_refs
  add_inputs [] path nodes stack = (nodes, stack)
  add_inputs ((input, names) ∷ inputs) path nodes stack =
      add_inputs inputs path (add_dependent nodes input path) (push_refs input names stack)

  -- What a round does with a derivation not visited before, the path and the name being off the
  -- stack already.
  unfoldable pub visit : ℕ → ℕ → Drv → ℕ → Analysis → Analysis
  unfolding add_inputs get set_add add_to_multi_map
  visit path name drv h a =
      let nodes = get a.nodes path (some drv) in
      let (nodes', stack) = add_inputs drv.inputs path nodes a.stack in
      record {
        nodes = nodes';
        roots = elim drv.inputs [ [] ↦ set_add a.roots path | i ∷ inputs ↦ a.roots ];
        drv_hashes = (path, h) ∷ a.drv_hashes;
        used = add_to_multi_map a.used h name;
        stack = stack;
      }

-- A round takes a reference off the stack, and the references of a derivation are put on it once.
abbrev pub count_names : List (ℕ × List ℕ) → ℕ
count_names [] = 0
count_names ((p, names) ∷ inputs) = length names + count_names inputs

abbrev pub count_refs : List (ℕ × Drv) → ℕ
count_refs [] = 0
count_refs ((p, drv) ∷ drvs) = count_names drv.inputs + count_refs drvs

module _ (pseudo_hash_drv : Drv → Option ℕ) (derivations : List (ℕ × Drv)) where
  unfoldable pub analyze_round : Analysis → Round
  unfolding visit is_hashed lookup_drv
  analyze_round a = elim a.stack [
    | [] ↦ finished
    | (path, name) ∷ stack ↦
        if is_hashed a.drv_hashes path
        then goes_on (record a { stack = stack })
        else elim (lookup_drv derivations path) [
          | none ↦ unknown_derivation path
          | some drv ↦ elim (pseudo_hash_drv drv) [
            | none ↦ hash_failed path
            | some h ↦ goes_on (visit derivations path name drv h (record a { stack = stack }))
          ]
        ]
  ]

  unfoldable pub analyze_rounds : ℕ → Analysis → Analyzed
  unfolding analyze_round after_round
  analyze_rounds zero a = after_round (analyze_round a) a (λ b. out_of_fuel)
  analyze_rounds (suc fuel) a = after_round (analyze_round a) a (λ b. analyze_rounds fuel b)

  unfoldable pub analyze : List (ℕ × ℕ) → Analyzed
  unfolding analyze_rounds
  analyze want =
      analyze_rounds (length want + count_refs derivations)
        (record { nodes = []; roots = []; drv_hashes = []; used = []; stack = want })

-- `dependencyGraph` without `usedOutputs`
abbrev pub graph : Analysis → DependencyGraph
graph a = record { nodes = a.nodes; roots = a.roots }

unfoldable pub lookup_hash : List (ℕ × ℕ) → ℕ → Option ℕ
lookup_hash [] path = none
lookup_hash ((p, h) ∷ drv_hashes) path = if p == path then some h else lookup_hash drv_hashes path

unfoldable pub lookup_used : List (ℕ × List ℕ) → ℕ → List ℕ
lookup_used [] k = []
lookup_used ((j, vs) ∷ m) k = if j == k then vs else lookup_used m k

-- `used[drvHashes[drvPath]]`, which the last loop makes the `usedOutputs` of a node
unfoldable pub used_outputs : Analysis → ℕ → List ℕ
unfolding lookup_hash lookup_used
used_outputs a path = elim (lookup_hash a.drv_hashes path) [
  | none ↦ []
  | some h ↦ lookup_used a.used h
]
