-- ===== src/Prelude/Bits.antt =====
-- Bit operations of Go's unsigned words: laws of `bit_and` and `bit_or` from their lowest digits.
use Prim.Native.Nat.{digits, bit_and-bitwise, bit_or-bitwise}
use native.Mathlib.Decide.{dec_lt}
use native.Mathlib.Nat.{pow-suc, mod-lt, mod-eq_of_lt, mod-add-div, add-mul-mod_self_left}
use zb.Prelude.{
  ℕ, zero, suc, ◌+◌, ◌-◌, ◌*◌, ◌/◌, ◌%◌, ◌^◌, ◌≤◌, ◌<◌, min, max, bit_and, bit_or, ◌≡◌, refl, Bool,
  false, not, ◌||◌, ◌&&◌, arith, ◌==◌, ap, ap₂, ◌∙◌, sym,
}

-- An operation given by the fuelled recursion on digits obeys the law of the lowest digit.
module _ (op : ℕ → ℕ → ℕ) (base : ℕ → ℕ) (g : ℕ → ℕ → ℕ)
    (recursion : (x y : ℕ) → op x y ≡ digits base g x x y)
    (at_base : (y : ℕ) → base y ≡ base (y / 2) * 2 + g 0 (y % 2)) where
  digits-none : (fuel y : ℕ) → digits base g fuel 0 y ≡ base y
  digits-none zero y = refl
  digits-none (suc fuel) y = refl

  digits-any_fuel :
      (y x fuel fuel' : ℕ) → x ≤ fuel → x ≤ fuel' → digits base g fuel x y ≡ digits base g fuel' x y
  digits-any_fuel y zero fuel fuel' p q = digits-none fuel y ∙ sym (digits-none fuel' y)
  digits-any_fuel y (suc x) zero fuel' p q = elim p [ ]
  digits-any_fuel y (suc x) (suc fuel) zero p q = elim q [ ]
  digits-any_fuel y (suc x) (suc fuel) (suc fuel') p q =
      let half : suc x / 2 ≤ fuel = omega arith in
      let half' : suc x / 2 ≤ fuel' = omega arith in
      ap (λ (t : ℕ). t * 2 + g (suc x % 2) (y % 2))
        (digits-any_fuel (y / 2) (suc x / 2) fuel fuel' half half')

  lowest_digit : (x y : ℕ) → op x y ≡ op (x / 2) (y / 2) * 2 + g (x % 2) (y % 2)
  lowest_digit zero y =
      recursion 0 y ∙ at_base y ∙ ap (λ (t : ℕ). t * 2 + g 0 (y % 2)) (sym (recursion 0 (y / 2)))
  lowest_digit (suc x) y =
      let enough : suc x / 2 ≤ x = omega arith in
      let exact : suc x / 2 ≤ suc x / 2 = omega arith in
      recursion (suc x) y
      ∙ ap (λ (t : ℕ). t * 2 + g (suc x % 2) (y % 2))
          (digits-any_fuel (y / 2) (suc x / 2) x (suc x / 2) enough exact
            ∙ sym (recursion (suc x / 2) (y / 2)))

pub bit_and_step : (x y : ℕ) → bit_and x y ≡ bit_and (x / 2) (y / 2) * 2 + min (x % 2) (y % 2)
bit_and_step = lowest_digit bit_and (λ y. 0) min bit_and-bitwise (λ y. omega arith)

pub bit_or_step : (x y : ℕ) → bit_or x y ≡ bit_or (x / 2) (y / 2) * 2 + max (x % 2) (y % 2)
bit_or_step = lowest_digit bit_or (λ y. y) max bit_or-bitwise (λ y. omega arith)

zero-bit_or : (y : ℕ) → bit_or 0 y ≡ y
zero-bit_or y = bit_or-bitwise 0 y

pub bit_and-zero : (a : ℕ) → bit_and a 0 ≡ 0
bit_and-zero a = go a a (omega arith)
  where
    go : (n a : ℕ) → a ≤ n → bit_and a 0 ≡ 0
    go n zero h = refl
    go zero (suc a) h = absurd (omega arith)
    go (suc n) (suc a) h = omega (arith, bit_and_step (suc a) 0, go n (suc a / 2) (omega arith))

pub bit_or-zero : (a : ℕ) → bit_or a 0 ≡ a
bit_or-zero a = go a a (omega arith)
  where
    go : (n a : ℕ) → a ≤ n → bit_or a 0 ≡ a
    go n zero h = refl
    go zero (suc a) h = absurd (omega arith)
    go (suc n) (suc a) h = omega (arith, bit_or_step (suc a) 0, go n (suc a / 2) (omega arith))

pow_two_step : (k : ℕ) → 2 ^ suc k ≡ 2 * 2 ^ k
pow_two_step k = omega (arith, pow-suc 2 k)

pub pow_two_pos : (k : ℕ) → 0 < 2 ^ k
pow_two_pos zero = omega arith
pow_two_pos (suc k) = omega (arith, pow_two_step k, pow_two_pos k)

pub pow_two_lt : (k n : ℕ) → k < n → 2 ^ k < 2 ^ n
pow_two_lt k zero h = absurd (omega arith)
pow_two_lt k (suc n) h = elim (dec_lt k n) [
  | yes p ↦ omega (arith, pow_two_step n, pow_two_lt k n p)
  | no p ↦
      let e : k ≡ n = omega arith in
      omega (arith, pow_two_step n, pow_two_pos n, ap (λ (t : ℕ). 2 ^ t) e)
]

-- An operation that works digit by digit acts on the digits below a position and on those
-- above it apart.
module _ (f g : ℕ → ℕ → ℕ) (step : (a b : ℕ) → f a b ≡ f (a / 2) (b / 2) * 2 + g (a % 2) (b % 2))
    (at_zero : f 0 0 ≡ 0) where
  digitwise_split :
      (k a b c d : ℕ)
      → a < 2 ^ k
      → c < 2 ^ k
      → f (a + 2 ^ k * b) (c + 2 ^ k * d) ≡ f a c + 2 ^ k * f b d
  digitwise_split zero a b c d ha hc = cc (low, high, end)
    where
      low : f a c ≡ 0
      low = cc (at_zero, zero_of a ha, zero_of c hc)
        where
          zero_of : (x : ℕ) → x < 2 ^ 0 → x ≡ 0
          zero_of x h = omega arith

      high : f (a + 2 ^ 0 * b) (c + 2 ^ 0 * d) ≡ f b d
      high = ap₂ f (omega arith) (omega arith)

      end : f b d ≡ 0 + 2 ^ 0 * f b d
      end = omega arith
  digitwise_split (suc k) a b c d ha hc = omega (
    arith,
    step (a + 2 ^ suc k * b) (c + 2 ^ suc k * d),
    step a c,
    ap₂ f (half_of a b) (half_of c d),
    ap₂ g (rest_of a b) (rest_of c d),
    digitwise_split k (a / 2) b (c / 2) d (small a ha) (small c hc),
    ap (λ (t : ℕ). t * f b d) (pow_two_step k),
  )
    where
      half_of : (x y : ℕ) → (x + 2 ^ suc k * y) / 2 ≡ x / 2 + 2 ^ k * y
      half_of x y = rw pow_two_step (omega arith)

      rest_of : (x y : ℕ) → (x + 2 ^ suc k * y) % 2 ≡ x % 2
      rest_of x y = rw pow_two_step (omega arith)

      small : (x : ℕ) → x < 2 ^ suc k → x / 2 < 2 ^ k
      small x h = omega (arith, pow_two_step k)

pub bit_or_split :
    (k a b c d : ℕ)
    → a < 2 ^ k
    → c < 2 ^ k
    → bit_or (a + 2 ^ k * b) (c + 2 ^ k * d) ≡ bit_or a c + 2 ^ k * bit_or b d
bit_or_split = digitwise_split bit_or max bit_or_step refl

pub bit_and_split :
    (k a b c d : ℕ)
    → a < 2 ^ k
    → c < 2 ^ k
    → bit_and (a + 2 ^ k * b) (c + 2 ^ k * d) ≡ bit_and a c + 2 ^ k * bit_and b d
bit_and_split = digitwise_split bit_and min bit_and_step refl

-- An `or` of digits that do not overlap is their sum.
pub bit_or_disjoint : (k a d : ℕ) → a < 2 ^ k → bit_or a (2 ^ k * d) ≡ a + 2 ^ k * d
bit_or_disjoint k a d h = omega (
  arith,
  bit_or_split k a 0 0 d h (pow_two_pos k),
  bit_or-zero a,
  ap (λ t. 2 ^ k * t) (zero-bit_or d),
  here,
)
  where
    here : bit_or (a + 2 ^ k * 0) (0 + 2 ^ k * d) ≡ bit_or a (2 ^ k * d)
    here = ap₂ bit_or (omega arith) (omega arith)

-- A mask of k ones keeps the k lowest digits.
pub bit_and_ones : (k a : ℕ) → bit_and a (2 ^ k - 1) ≡ a % 2 ^ k
bit_and_ones zero a = omega (arith, bit_and-zero a)
bit_and_ones (suc k) a = omega (
  arith,
  bit_and_step a (2 ^ suc k - 1),
  ap (bit_and (a / 2)) half_mask,
  bit_and_ones k (a / 2),
  pow_two_step k,
  pow_two_pos k,
  low_digits,
)
  where
    half_mask : (2 ^ suc k - 1) / 2 ≡ 2 ^ k - 1
    half_mask = omega (arith, pow_two_step k, pow_two_pos k)

    below : a / 2 % 2 ^ k * 2 + a % 2 < 2 ^ suc k
    below = omega (arith, mod-lt (a / 2) (pow_two_pos k), pow_two_step k)

    apart : a ≡ (a / 2 % 2 ^ k * 2 + a % 2) + 2 ^ suc k * (a / 2 / 2 ^ k)
    apart =
        omega
          (arith, mod-add-div (a / 2) (2 ^ k), ap (λ (t : ℕ). t * (a / 2 / 2 ^ k)) (pow_two_step k))

    low_digits : a % 2 ^ suc k ≡ a / 2 % 2 ^ k * 2 + a % 2
    low_digits =
        ap (λ t. t % 2 ^ suc k) apart
        ∙ add-mul-mod_self_left (a / 2 % 2 ^ k * 2 + a % 2) (2 ^ suc k) (a / 2 / 2 ^ k)
        ∙ mod-eq_of_lt below

-- `w & (1 << j) != 0`
unfoldable pub bit_at : ℕ → ℕ → Bool
bit_at w j = not (bit_and w (2 ^ j) == 0)

pub bit_at_low : (w : ℕ) → bit_at w 0 ≡ (w % 2 == 1)
unfolding bit_at
bit_at_low w = ground (arith, bit_and_ones 1 w)

pub bit_at_high : (w j : ℕ) → bit_at w (suc j) ≡ bit_at (w / 2) j
unfolding bit_at
bit_at_high w j = ground (arith, step)
  where
    step : bit_and w (2 ^ suc j) ≡ bit_and (w / 2) (2 ^ j) * 2
    step = omega (
      arith,
      bit_and_step w (2 ^ suc j),
      ap (bit_and (w / 2)) (let e : 2 ^ suc j / 2 ≡ 2 ^ j = omega (arith, pow_two_step j) in e),
      pow_two_step j,
    )

pub bit_at-zero : (j : ℕ) → bit_at 0 j ≡ false
bit_at-zero zero = bit_at_low 0
bit_at-zero (suc j) = bit_at_high 0 j ∙ bit_at-zero j

pub bit_at-pow : (k j : ℕ) → bit_at (2 ^ k) j ≡ (k == j)
bit_at-pow zero zero = bit_at_low 1
bit_at-pow zero (suc j) = ground (arith, bit_at_high 1 j, bit_at-zero j)
bit_at-pow (suc k) zero = ground (arith, bit_at_low (2 ^ suc k), pow_two_step k)
bit_at-pow (suc k) (suc j) = ground (
  arith,
  bit_at_high (2 ^ suc k) j,
  ap (λ t. bit_at t j) (let e : 2 ^ suc k / 2 ≡ 2 ^ k = omega (arith, pow_two_step k) in e),
  bit_at-pow k j,
)

pub bit_at-bit_or : (a b j : ℕ) → bit_at (bit_or a b) j ≡ bit_at a j || bit_at b j
bit_at-bit_or a b zero =
    ground (arith, bit_at_low (bit_or a b), bit_at_low a, bit_at_low b, bit_or_step a b)
bit_at-bit_or a b (suc j) = ground (
  arith,
  bit_at_high (bit_or a b) j,
  bit_at_high a j,
  bit_at_high b j,
  ap (λ t. bit_at t j)
      (let e : bit_or a b / 2 ≡ bit_or (a / 2) (b / 2) = omega (arith, bit_or_step a b) in e),
  bit_at-bit_or (a / 2) (b / 2) j,
)

pub bit_at-bit_and : (a b j : ℕ) → bit_at (bit_and a b) j ≡ bit_at a j && bit_at b j
bit_at-bit_and a b zero =
    ground (arith, bit_at_low (bit_and a b), bit_at_low a, bit_at_low b, bit_and_step a b)
bit_at-bit_and a b (suc j) = ground (
  arith,
  bit_at_high (bit_and a b) j,
  bit_at_high a j,
  bit_at_high b j,
  ap (λ t. bit_at t j)
      (let e : bit_and a b / 2 ≡ bit_and (a / 2) (b / 2) = omega (arith, bit_and_step a b) in e),
  bit_at-bit_and (a / 2) (b / 2) j,
)

-- `a &^ b` on n-bit words
unfoldable pub and_not : ℕ → ℕ → ℕ → ℕ
and_not n a b = bit_and a (2 ^ n - 1 - b)

bit_at_complement : (n b j : ℕ) → b < 2 ^ n → j < n → bit_at (2 ^ n - 1 - b) j ≡ not (bit_at b j)
bit_at_complement zero b j h hj = absurd (omega arith)
bit_at_complement (suc n) b zero h hj =
    ground (arith, bit_at_low (2 ^ suc n - 1 - b), bit_at_low b, pow_two_step n)
bit_at_complement (suc n) b (suc j) h hj = ground (
  arith,
  bit_at_high (2 ^ suc n - 1 - b) j,
  bit_at_high b j,
  ap (λ t. bit_at t j) half_of,
  bit_at_complement n (b / 2) j small (omega arith),
)
  where
    small : b / 2 < 2 ^ n
    small = omega (arith, pow_two_step n)

    half_of : (2 ^ suc n - 1 - b) / 2 ≡ 2 ^ n - 1 - b / 2
    half_of = omega (arith, pow_two_step n)

pub bit_at-and_not :
    (n a b j : ℕ) → b < 2 ^ n → j < n → bit_at (and_not n a b) j ≡ bit_at a j && not (bit_at b j)
unfolding and_not
bit_at-and_not n a b j hb hj = rw (bit_at-bit_and, bit_at_complement n b j hb hj)

-- Words with the same digits are the same.
pub bit_at_ext :
    (n a b : ℕ) → a < 2 ^ n → b < 2 ^ n → ((j : ℕ) → j < n → bit_at a j ≡ bit_at b j) → a ≡ b
bit_at_ext zero a b ha hb h = omega arith
bit_at_ext (suc n) a b ha hb h = ground (
  arith,
  lows,
  bit_at_ext n (a / 2) (b / 2) (omega (arith, pow_two_step n)) (omega (arith, pow_two_step n))
      λ j hj. sym (bit_at_high a j) ∙ h (suc j) (omega arith) ∙ bit_at_high b j,
)
  where
    lows : (a % 2 == 1) ≡ (b % 2 == 1)
    lows = sym (bit_at_low a) ∙ h 0 (omega arith) ∙ bit_at_low b
