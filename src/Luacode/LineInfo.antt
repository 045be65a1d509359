-- ===== src/Luacode/LineInfo.antt =====
-- internal/luacode/lineinfo.go: the line numbers of a function's instructions, packed as
-- differences of one byte with absolute entries between them. Line numbers are integers, and
-- their differences are taken to fit an `int`. A panic is `none`.
pub mod All
pub mod At
use zb.Prelude.{
  ℕ, zero, suc, ◌+◌, ◌-◌, ◌^◌, ◌%◌, Bool, true, false, not, ◌||◌, List, [], ◌∷◌, Option, none, some,
  leb, ltb, ◌==◌, if◌then◌else◌, length, get_elem?,
}
use zb.Prelude.Int.{ℤ, pos, negsuc, ◌+ℤ◌, ◌-ℤ◌, ltb_ℤ}

abbrev pub max_instructions_without_abs_line_info : ℕ
max_instructions_without_abs_line_info = 128

abbrev pub line_info_relative_limit : ℕ
line_info_relative_limit = 2 ^ 7 - 1

-- -line_info_relative_limit - 1
abbrev pub abs_marker : ℤ
abs_marker = negsuc line_info_relative_limit

-- `delta == absMarker`
abbrev pub is_marker : ℤ → Bool
is_marker (pos n) = false
is_marker (negsuc n) = n == line_info_relative_limit

pub record AbsLineInfo : Type 0 where
  pub pc : ℕ
  pub line : ℤ

pub record LineInfo : Type 0 where
  pub rel : List ℤ
  pub abs : List AbsLineInfo

pub record LineInfoWriter : Type 0 where
  pub previous_line : ℤ
  pub instructions_since_last_abs_line_info : ℕ

-- The pair `(absMarker, false)` is `none`.
unfoldable pub line_info_relative_delta : ℤ → Option ℤ
line_info_relative_delta delta =
    if ltb_ℤ (pos line_info_relative_limit) delta
      || ltb_ℤ delta (negsuc (line_info_relative_limit - 1))
    then none
    else some delta

-- The branch of `next` that gives the difference; the counter is a `uint8`.
unfoldable pub next : ℤ → LineInfoWriter → ℤ × LineInfoWriter
unfolding line_info_relative_delta ◌-ℤ◌
next line w =
    let count = w.instructions_since_last_abs_line_info in
    let marked : ℤ × LineInfoWriter =
      (abs_marker, record { previous_line = line; instructions_since_last_abs_line_info = 1 }) in
    elim (line_info_relative_delta (line -ℤ w.previous_line)) [
      | none ↦ marked
      | some delta ↦ if leb max_instructions_without_abs_line_info count then marked else (
        delta,
        record {
          previous_line = line;
          instructions_since_last_abs_line_info = (count + 1) % 2 ^ 8;
        },
      )
    ]

-- `prev`; the counter is a `uint8`.
pub prev : ℤ → LineInfoWriter → LineInfoWriter
unfolding ◌-ℤ◌
prev last_delta w =
    if is_marker last_delta
    then record w {
      instructions_since_last_abs_line_info = max_instructions_without_abs_line_info + 1;
    }
    else record {
      previous_line = w.previous_line -ℤ last_delta;
      instructions_since_last_abs_line_info =
          (w.instructions_since_last_abs_line_info + (2 ^ 8 - 1)) % 2 ^ 8;
    }

abbrev pub new_writer : LineInfoWriter
new_writer = record { previous_line = pos 0; instructions_since_last_abs_line_info = 0 }

-- The loop of `CollectLineInfo` from the instruction `pc` on.
unfoldable pub collect_from : ℕ → LineInfoWriter → List ℤ → LineInfo
collect_from pc w [] = record { rel = []; abs = [] }
collect_from pc w (line ∷ lines) =
    let (rel, w') = next line w in
    let rest = collect_from (suc pc) w' lines in
    record {
      rel = rel ∷ rest.rel;
      abs = if is_marker rel then record { pc = pc; line = line } ∷ rest.abs else rest.abs;
    }

unfoldable pub collect_line_info : List ℤ → LineInfo
unfolding collect_from
collect_line_info lines = collect_from 0 new_writer lines

pub len : LineInfo → ℕ
len info = length info.rel

-- The loop of `All` at the instruction `pc`: `abs` is what is left of `info.abs` from `absIndex`
-- on, and the result is the lines that it yields.
unfoldable pub all_from : ℕ → ℤ → List ℤ → List AbsLineInfo → Option (List ℤ)
unfolding ◌+ℤ◌
all_from pc curr [] abs = some []
all_from pc curr (delta ∷ rel) [] =
    let rest = all_from (suc pc) (curr +ℤ delta) rel [] in
    if not (is_marker delta)
    then elim rest [ none ↦ none | some lines ↦ some ((curr +ℤ delta) ∷ lines) ]
    else none
all_from pc curr (delta ∷ rel) (a ∷ abs) =
    let rest = all_from (suc pc) (curr +ℤ delta) rel (a ∷ abs) in
    let jump = all_from (suc pc) a.line rel abs in
    if not (is_marker delta)
    then elim rest [ none ↦ none | some lines ↦ some ((curr +ℤ delta) ∷ lines) ]
    else if not (a.pc == pc)
    then none
    else elim jump [ none ↦ none | some lines ↦ some (a.line ∷ lines) ]

unfoldable pub all : LineInfo → Option (List ℤ)
unfolding all_from
all info = all_from 0 (pos 0) info.rel info.abs

-- `slices.BinarySearchFunc` by `pc` on entries in ascending order: the first position whose entry
-- is not below `i`, and whether that entry is at `i`.
pub search : List AbsLineInfo → ℕ → ℕ × Bool
search [] i = (0, false)
search (a ∷ abs) i =
    let (k, found) = search abs i in if ltb a.pc i then (suc k, found) else (0, a.pc == i)

-- Behind the entry at an index.
behind : List AbsLineInfo → ℕ → Option (ℕ × ℤ)
behind abs index = elim (get_elem? abs index) [ none ↦ none | some a ↦ some (suc a.pc, a.line) ]

-- The instruction and the line where the loop of `At` begins: behind the entry that the search
-- has brought it to.
pub start_at : List AbsLineInfo → ℕ → Option (ℕ × ℤ)
unfolding search behind
start_at abs i =
    let (k, found) = search abs i in
    if found then behind abs k else if k == 0 then some (0, pos 0) else behind abs (k - 1)

-- The loop of `At`: `n` rounds from the instruction `pc` on.
unfoldable pub add_deltas : ℕ → ℕ → ℤ → List ℤ → Option ℤ
unfolding ◌+ℤ◌
add_deltas zero pc line rel = some line
add_deltas (suc n) pc line rel = elim (get_elem? rel pc) [
  | none ↦ none
  | some delta ↦ if is_marker delta then none else add_deltas n (suc pc) (line +ℤ delta) rel
]

unfoldable pub at : LineInfo → ℕ → Option ℤ
unfolding start_at add_deltas
at info i = if leb (length info.rel) i then none else elim (start_at info.abs i) [
  | none ↦ none
  | some (pc, line) ↦ add_deltas (suc i - pc) pc line info.rel
]
