-- ===== src/Luacode/LineInfo/At.antt =====
-- `CollectLineInfo` and `LineInfo.At` of internal/luacode/lineinfo.go, one after the other.
use zb.Prelude.{
  ℕ, zero, suc, ◌+◌, ◌-◌, ◌≤◌, ◌<◌, Bool, true, false, List, [], ◌∷◌, Option, some, leb, ltb, ◌==◌,
  if◌then◌else◌, length, get_elem?, ◌≡◌, refl, sym, ◌∙◌, ap, subst, arith, Bool-cases, inl, inr,
  ◌⊎◌,
}
use native.Mathlib.Decide.{dec_lt}
use zb.Prelude.Int.{ℤ, pos, ◌+ℤ◌}
use zb.Luacode.LineInfo.{
  LineInfoWriter, LineInfo, AbsLineInfo, next, collect_from, collect_line_info, new_writer,
  is_marker, search, behind, start_at, add_deltas, at,
}
use zb.Luacode.LineInfo.All.{next_lem}

-- ascending entries from an instruction on
abbrev From : ℕ → List AbsLineInfo → Type 0
From lo [] = Unit
From lo (a ∷ abs) = (lo ≤ a.pc) × From (suc a.pc) abs

From-weaken : (lo lo' : ℕ) (abs : List AbsLineInfo) → lo ≤ lo' → From lo' abs → From lo abs
From-weaken lo lo' [] h f = tt
From-weaken lo lo' (a ∷ abs) h f = (omega arith, f.1)

-- behind the last entry that is not above `i`
last : List AbsLineInfo → ℕ → ℕ × ℤ → ℕ × ℤ
last [] i d = d
last (a ∷ abs) i d = if leb a.pc i then last abs i (suc a.pc, a.line) else d

last_above : (abs : List AbsLineInfo) (i : ℕ) (d : ℕ × ℤ) → From (suc i) abs → last abs i d ≡ d
unfolding last
last_above [] i d f = refl
last_above (a ∷ abs) i d f = ground arith

-- the search of `At`, with what it starts from where it finds no entry
start_or : List AbsLineInfo → ℕ → ℕ × ℤ → Option (ℕ × ℤ)
start_or abs i d =
    let (k, found) = search abs i in
    if found then behind abs k else if k == 0 then some d else behind abs (k - 1)

start_or-cons :
    (a : AbsLineInfo) (abs : List AbsLineInfo) (i : ℕ) (d : ℕ × ℤ)
    → a.pc < i
    → start_or (a ∷ abs) i d ≡ start_or abs i (suc a.pc, a.line)
unfolding start_or search
start_or-cons a abs i d h = go (search abs i).0 (search abs i).1
  where
    go :
        (k : ℕ) (found : Bool)
        → (let (k', found') =
              (if◌then◌else◌ {A = ℕ × Bool} (ltb a.pc i) (suc k, found) (0, a.pc == i)) in
            if found'
            then behind (a ∷ abs) k'
            else if k' == 0
            then some d
            else behind (a ∷ abs) (k' - 1))
          ≡ (if found
              then behind abs k
              else if k == 0
              then some (suc a.pc, a.line)
              else behind abs (k - 1))
    go zero true = unfold behind in ground arith
    go zero false = unfold behind in ground arith
    go (suc k) true = unfold behind in ground arith
    go (suc k) false =
        let e : suc (suc k) - 1 ≡ suc k = omega arith in
        let e' : suc k - 1 ≡ k = omega arith in unfold behind in ground (arith, e, e')

start_or-last :
    (lo : ℕ) (abs : List AbsLineInfo) (i : ℕ) (d : ℕ × ℤ)
    → From lo abs
    → start_or abs i d ≡ some (last abs i d)
start_or-last lo [] i d f = unfold start_or search last in ground arith
start_or-last lo (a ∷ abs) i d f = elim (dec_lt a.pc i) [
  | yes below ↦
      start_or-cons a abs i d below
      ∙ start_or-last (suc a.pc) abs i (suc a.pc, a.line) f.1
      ∙ unfold last in ground arith
  | no other ↦
      unfold start_or search last behind in
      ground (
        arith,
        last_above abs i (suc a.pc, a.line),
        From-weaken (suc i) (suc a.pc) abs (omega arith) f.1,
      )
]

last-cases :
    (abs : List AbsLineInfo) (i : ℕ) (d d' : ℕ × ℤ)
    → (last abs i d ≡ last abs i d') ⊎ (last abs i d ≡ d) × (last abs i d' ≡ d')
unfolding last
last-cases [] i d d' = inr (refl, refl)
last-cases (a ∷ abs) i d d' = ground arith

-- `Cut` relates a list to what is left of it from an index on.
abbrev Cut : List ℤ → ℕ → List ℤ → Type 0
Cut all pc rel = (j : ℕ) → get_elem? all (pc + j) ≡ get_elem? rel j

Cut-suc : (all rel : List ℤ) (pc : ℕ) (delta : ℤ) → Cut all pc (delta ∷ rel) → Cut all (suc pc) rel
Cut-suc all rel pc delta h j = let e : suc pc + j ≡ pc + suc j = omega arith in rw e (h (suc j))

Cut-zero :
    (all rel : List ℤ) (pc : ℕ) (delta : ℤ)
    → Cut all pc (delta ∷ rel)
    → get_elem? all pc ≡ some delta
Cut-zero all rel pc delta h =
    let e : pc + 0 ≡ pc = omega arith in ap (λ (k : ℕ). get_elem? all k) (sym e) ∙ h 0

-- The lines that `At` adds up to from where it starts.
sum_from : List ℤ → ℕ → ℕ × ℤ → Option ℤ
sum_from all i p = add_deltas (suc i - p.0) p.0 p.1 all

sum_from-step :
    (all : List ℤ) (i pc : ℕ) (prev delta : ℤ)
    → pc ≤ i
    → get_elem? all pc ≡ some delta
    → is_marker delta ≡ false
    → sum_from all i (pc, prev) ≡ sum_from all i (suc pc, prev +ℤ delta)
unfolding sum_from
sum_from-step all i pc prev delta h e m =
    let n : suc i - pc ≡ suc (suc i - suc pc) = omega arith in
    rw n (unfold add_deltas in ground (arith, e, m))

collect_from-From :
    (pc : ℕ) (w : LineInfoWriter) (lines : List ℤ) → From pc (collect_from pc w lines).abs
unfolding collect_from
collect_from-From pc w [] = tt
collect_from-From pc w (line ∷ lines) =
    let (delta, w') = next line w in
    step delta (collect_from (suc pc) w' lines).abs (collect_from-From (suc pc) w' lines)
  where
    step :
        (delta : ℤ) (abs : List AbsLineInfo)
        → From (suc pc) abs
        → From pc (if is_marker delta then record { pc = pc; line = line } ∷ abs else abs)
    step delta abs f = elim (Bool-cases (is_marker delta)) [
      | inl m ↦ rw m (omega arith, f)
      | inr m ↦ rw m (From-weaken pc (suc pc) abs (omega arith) f)
    ]

-- What the entries packed behind the instruction `pc` make of a start at `pc`.
Found : List ℤ → ℕ → ℕ → ℤ → List AbsLineInfo → Option ℤ → Type 0
Found all i pc prev abs line = sum_from all i (last abs i (pc, prev)) ≡ line

Found-marked :
    (all : List ℤ) (i pc : ℕ) (prev line : ℤ) (abs : List AbsLineInfo) (o : Option ℤ)
    → pc ≤ i
    → Found all i (suc pc) line abs o
    → Found all i pc prev (record { pc = pc; line = line } ∷ abs) o
unfolding Found
Found-marked all i pc prev line abs o h f = unfold last in ground (arith, f)

Found-plain :
    (all : List ℤ) (i pc : ℕ) (prev delta line : ℤ) (abs : List AbsLineInfo) (o : Option ℤ)
    → pc ≤ i
    → get_elem? all pc ≡ some delta
    → is_marker delta ≡ false
    → prev +ℤ delta ≡ line
    → Found all i (suc pc) line abs o
    → Found all i pc prev abs o
unfolding Found
Found-plain all i pc prev delta line abs o h e m p f =
    elim (last-cases abs i (pc, prev) (suc pc, line)) [
      | inl q ↦ ap (λ (d : ℕ × ℤ). sum_from all i d) q ∙ f
      | inr (q, q') ↦
          ap (λ (d : ℕ × ℤ). sum_from all i d) q
          ∙ sum_from-step all i pc prev delta h e m
          ∙ ap (λ (l : ℤ). sum_from all i (suc pc, l)) p
          ∙ ap (λ (d : ℕ × ℤ). sum_from all i d) (sym q')
          ∙ f
    ]

-- The instruction `pc` itself: nothing behind it matters.
Found-here :
    (all : List ℤ) (pc : ℕ) (line : ℤ) (abs : List AbsLineInfo)
    → From (suc pc) abs
    → Found all pc (suc pc) line abs (some line)
unfolding Found
Found-here all pc line abs f =
    rw (last_above abs pc (suc pc, line) f)
      (let e : suc pc - suc pc ≡ 0 = omega arith in unfold sum_from add_deltas in ground (arith, e))

Found-step :
    (all : List ℤ) (i pc : ℕ) (prev delta line : ℤ) (abs : List AbsLineInfo) (o : Option ℤ)
    → pc ≤ i
    → get_elem? all pc ≡ some delta
    → (is_marker delta ≡ true) ⊎ (is_marker delta ≡ false) × (prev +ℤ delta ≡ line)
    → Found all i (suc pc) line abs o
    → Found all i pc prev (if is_marker delta then record { pc = pc; line = line } ∷ abs else abs) o
Found-step all i pc prev delta line abs o h e (inl m) f =
    rw m (Found-marked all i pc prev line abs o h f)
Found-step all i pc prev delta line abs o h e (inr (m, p)) f =
    rw m (Found-plain all i pc prev delta line abs o h e m p f)

Found-collect_from :
    (all : List ℤ) (pc : ℕ) (w : LineInfoWriter) (lines : List ℤ) (i j : ℕ) (o : Option ℤ)
    → i ≡ pc + j
    → j < length lines
    → get_elem? lines j ≡ o
    → Cut all pc (collect_from pc w lines).rel
    → Found all i pc w.previous_line (collect_from pc w lines).abs o
unfolding collect_from
Found-collect_from all pc w [] i j o q h g c = elim h [ ]
Found-collect_from all pc w (line ∷ lines) i zero o q h g c =
    let (delta, w') = next line w in
    let (p, r) = next_lem line w in
    let info = collect_from (suc pc) w' lines in
    let e : i ≡ pc = omega arith in
    Found-step all i pc w.previous_line delta line info.abs o (omega arith)
      (Cut-zero all info.rel pc delta c) r
      (rw e (
        subst (λ (x : Option ℤ). Found all pc (suc pc) line info.abs x) g
          (Found-here all pc line info.abs (collect_from-From (suc pc) w' lines))))
Found-collect_from all pc w (line ∷ lines) i (suc j) o q h g c =
    let (delta, w') = next line w in
    let (p, r) = next_lem line w in
    let info = collect_from (suc pc) w' lines in
    let ih =
      Found-collect_from all (suc pc) w' lines i j o (omega arith) (omega arith) g
        (Cut-suc all info.rel pc delta c) in
    Found-step all i pc w.previous_line delta line info.abs o (omega arith)
      (Cut-zero all info.rel pc delta c) r
      (subst (λ (l : ℤ). Found all i (suc pc) l info.abs o) p ih)

length-collect_from :
    (pc : ℕ) (w : LineInfoWriter) (lines : List ℤ)
    → length (collect_from pc w lines).rel ≡ length lines
unfolding collect_from
length-collect_from pc w [] = refl
length-collect_from pc w (line ∷ lines) =
    ap suc (length-collect_from (suc pc) (next line w).1 lines)

-- `At` of the packed form of any line numbers gives, for each index of an instruction, the line
-- number at that index.
pub at-collect_line_info :
    (lines : List ℤ) (i : ℕ) → i < length lines → at (collect_line_info lines) i ≡ get_elem? lines i
unfolding at collect_line_info
at-collect_line_info lines i h =
    let info = collect_from 0 new_writer lines in
    let f = collect_from-From 0 new_writer lines in
    let n = length-collect_from 0 new_writer lines in
    let e = start_or-last 0 info.abs i (0, pos 0) f in
    let g =
      Found-collect_from info.rel 0 new_writer lines i i (get_elem? lines i) (omega arith) h refl
        (λ j. ap (λ (k : ℕ). get_elem? info.rel k) (omega arith)) in
    step info e g (rw n (omega arith))
  where
    step :
        (info : LineInfo) {o : Option ℤ}
        → start_or info.abs i (0, pos 0) ≡ some (last info.abs i (0, pos 0))
        → Found info.rel i 0 (pos 0) info.abs o
        → i < length info.rel
        → at info i ≡ o
    step info e g b = unfold at start_at start_or Found sum_from in ground (arith, e, g, b)
