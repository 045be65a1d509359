-- ===== src/RefFinder/Search.antt =====
-- The paths of a tree that lie in a text.
use zb.Prelude.{
  ℕ, Bool, true, false, ◌||◌, [], ◌∷◌, ◌++◌, some, ◌≡◌, ◌≢◌, ◌⊎◌, refl, ◌∙◌, ap, arith, Bool-cases,
  Option-cases, inl, inr,
}
use zb.Sets.Ordered.{bytes_ordered, equal, lt_bytes_total, lt_bytes_irrefl}
use zb.RefFinder.Encode.{Bytes}
use zb.RefFinder.{Node, match_of, children, find}
use zb.RefFinder.Tree.{walk, match_at}
use zb.RefFinder.Found.{matches, hits, occurs}

pub equal-eq : (a b : Bytes) → equal a b ≡ true → a ≡ b
equal-eq a b h = lt_bytes_total a b (ground arith) (ground arith)

pub equal_self : (a : Bytes) → equal a a ≡ true
equal_self a = let e = lt_bytes_irrefl a in ground (arith, e)

matches-eq : (m z : Bytes) → matches m z ≡ true → m ≡ z
matches-eq [] z h = ground (arith)
matches-eq (c ∷ s) z h = equal-eq (c ∷ s) z h

matches_nil : (m : Bytes) → matches m [] ≡ false
matches_nil [] = refl
matches_nil (c ∷ s) = elim (Bool-cases (equal (c ∷ s) [])) [
  | inl e ↦ let f = equal-eq (c ∷ s) [] e in ground (arith)
  | inr e ↦ e
]

matches_self : (m : Bytes) → m ≢ [] → matches m m ≡ true
matches_self [] h = absurd (h refl)
matches_self (c ∷ s) h = equal_self (c ∷ s)

-- a path along the first bytes of a text to a node whose `match` is given
abbrev PrefixPath : Node → Bytes → Bytes → Type 0
PrefixPath n p z = (w : Bytes) × (post : Bytes) × (p ≡ w ++ post) × (match_at n w ≡ z)

hits-nil : (n : Node) (z : Bytes) → hits n [] z ≡ false
unfolding hits
hits-nil n z = refl

path-cons :
    (n m : Node) (b : ℕ) (p z : Bytes)
    → find (children n) b ≡ some m
    → PrefixPath m p z
    → PrefixPath n (b ∷ p) z
unfolding match_at walk
path-cons n m b p z e (w, post, q, h) = (b ∷ w, post, ap (λ r. b ∷ r) q, ground (arith, e, h))

hits-cons :
    (n : Node) (b : ℕ) (p z : Bytes)
    → ((m : Node) → hits m p z ≡ true → PrefixPath m p z)
    → hits n (b ∷ p) z ≡ true
    → PrefixPath n (b ∷ p) z
unfolding hits match_at
hits-cons n b p z ih h = elim (Option-cases (find (children n) b)) [
  | inl e ↦ absurd (ground (arith, e))
  | inr (m, e) ↦ elim (Bool-cases (matches (match_of m) z)) [
    | inl f ↦ path-cons n m b p z e ([], p, refl, matches-eq (match_of m) z f)
    | inr f ↦ path-cons n m b p z e (ih m (ground (arith, e, f)))
  ]
]

hits_sound : (n : Node) (p z : Bytes) → hits n p z ≡ true → PrefixPath n p z
hits_sound n [] z h = absurd (ground (arith, h, hits-nil n z))
hits_sound n (b ∷ p) z h = hits-cons n b p z (λ m k. hits_sound m p z k) h

complete_cons :
    (n : Node) (b : ℕ) (w p z : Bytes)
    → match_at n (b ∷ w) ≡ z
    → z ≢ []
    → ((m : Node) → match_at m w ≡ z → (matches (match_of m) z || hits m p z) ≡ true)
    → hits n (b ∷ p) z ≡ true
unfolding hits match_at walk
complete_cons n b w p z h k ih = elim (Option-cases (find (children n) b)) [
  | inl e ↦ absurd (k (ground (arith, e, h)))
  | inr (m, e) ↦ let f = ih m (ground (arith, e, h)) in ground (arith, e, f)
]

complete_end :
    (m : Node) (z : Bytes) (r : Bool)
    → match_at m [] ≡ z
    → z ≢ []
    → (matches (match_of m) z || r) ≡ true
unfolding match_at walk
complete_end m z r h k =
    let e = matches_self z k in
    let f : matches (match_of m) z ≡ true = ap (λ (x : Bytes). matches x z) h ∙ e in
    ground (arith, f)

or_right : (a b : Bool) → b ≡ true → (a || b) ≡ true
or_right a b h = ground (arith)

hits_complete :
    (w : Bytes) (n : Node) (b : ℕ) (post z : Bytes)
    → match_at n (b ∷ w) ≡ z
    → z ≢ []
    → hits n (b ∷ (w ++ post)) z ≡ true
hits_complete [] n b post z h k =
    complete_cons n b [] post z h k (λ m j. complete_end m z (hits m post z) j k)
hits_complete (c ∷ w) n b post z h k = complete_cons n b (c ∷ w) (c ∷ (w ++ post)) z h k (λ m j.
    or_right (matches (match_of m) z) (hits m (c ∷ (w ++ post)) z) (hits_complete w m c post z j k))

-- the same from any place of a text
abbrev pub InfixPath : Node → Bytes → Bytes → Type 0
InfixPath n p z =
    (pre : Bytes) × (w : Bytes) × (post : Bytes) × (p ≡ pre ++ (w ++ post)) × (match_at n w ≡ z)

occurs-cases :
    (n : Node) (b : ℕ) (p z : Bytes)
    → occurs n (b ∷ p) z ≡ true
    → (hits n (b ∷ p) z ≡ true) ⊎ (occurs n p z ≡ true)
unfolding occurs
occurs-cases n b p z h = ground (arith)

occurs-here : (n : Node) (p z : Bytes) → hits n p z ≡ true → occurs n p z ≡ true
occurs-here n [] z h = absurd (ground (arith, h, hits-nil n z))
occurs-here n (b ∷ p) z h = unfold occurs in ground (arith, h)

occurs-later : (n : Node) (b : ℕ) (p z : Bytes) → occurs n p z ≡ true → occurs n (b ∷ p) z ≡ true
unfolding occurs
occurs-later n b p z h = or_right (hits n (b ∷ p) z) (occurs n p z) h

occurs_nil : (n : Node) (z : Bytes) → occurs n [] z ≡ false
unfolding occurs
occurs_nil n z = refl

pub occurs_sound : (n : Node) (p z : Bytes) → occurs n p z ≡ true → InfixPath n p z
occurs_sound n [] z h = absurd (ground (arith, h, occurs_nil n z))
occurs_sound n (b ∷ p) z h = elim (occurs-cases n b p z h) [
  | inl e ↦ let (w, post, q, k) = hits_sound n (b ∷ p) z e in ([], w, post, q, k)
  | inr e ↦
      let (pre, w, post, q, k) = occurs_sound n p z e in
      (b ∷ pre, w, post, ap (λ (r : Bytes). b ∷ r) q, k)
]

pub occurs_complete :
    (pre : Bytes) (n : Node) (b : ℕ) (w post z : Bytes)
    → match_at n (b ∷ w) ≡ z
    → z ≢ []
    → occurs n (pre ++ (b ∷ (w ++ post))) z ≡ true
occurs_complete [] n b w post z h k =
    occurs-here n (b ∷ (w ++ post)) z (hits_complete w n b post z h k)
occurs_complete (a ∷ pre) n b w post z h k =
    occurs-later n a (pre ++ (b ∷ (w ++ post))) z (occurs_complete pre n b w post z h k)

hits_empty : (n : Node) (p : Bytes) → hits n p [] ≡ false
hits_empty n [] = hits-nil n []
hits_empty n (b ∷ p) = empty_cons n b p (λ (m : Node). hits_empty m p)
  where
    empty_cons :
        (n : Node) (b : ℕ) (p : Bytes)
        → ((m : Node) → hits m p [] ≡ false)
        → hits n (b ∷ p) [] ≡ false
    empty_cons n b p ih = elim (Option-cases (find (children n) b)) [
      | inl e ↦ unfold hits in ground (arith, e)
      | inr (m, e) ↦ unfold hits in ground (arith, e, ih m, matches_nil (match_of m))
    ]

pub occurs_empty : (n : Node) (p : Bytes) → occurs n p [] ≡ false
unfolding occurs
occurs_empty n [] = refl
occurs_empty n (b ∷ p) = ground (arith, hits_empty n (b ∷ p), occurs_empty n p)
