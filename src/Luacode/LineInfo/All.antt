-- ===== src/Luacode/LineInfo/All.antt =====
-- `CollectLineInfo` and `LineInfo.All` of internal/luacode/lineinfo.go, one after the other.
use zb.Prelude.{
  ℕ, suc, true, false, List, [], ◌∷◌, some, if◌then◌else◌, ◌≡◌, refl, sym, ◌∙◌, ap, arith, inl, inr,
  ◌⊎◌,
}
use zb.Prelude.Int.{ℤ, ◌+ℤ◌}
use zb.Luacode.LineInfo.{
  LineInfoWriter, LineInfo, AbsLineInfo, next, collect_from, collect_line_info, new_writer, all,
  all_from, is_marker,
}

-- A difference that is no marker leads from the previous line to the given one.
pub next_lem :
    (line : ℤ) (w : LineInfoWriter)
    → let (delta, w') = next line w in
      (w'.previous_line ≡ line)
      × ((is_marker delta ≡ true) ⊎ (is_marker delta ≡ false) × (w.previous_line +ℤ delta ≡ line))
unfolding next ◌+ℤ◌
next_lem line w = ground arith

all_from_plain :
    (pc : ℕ) (curr delta : ℤ) (rel : List ℤ) (abs : List AbsLineInfo) {lines : List ℤ}
    → is_marker delta ≡ false
    → all_from (suc pc) (curr +ℤ delta) rel abs ≡ some lines
    → all_from pc curr (delta ∷ rel) abs ≡ some ((curr +ℤ delta) ∷ lines)
all_from_plain pc curr delta rel [] m e = unfold all_from in ground (arith, m, e)
all_from_plain pc curr delta rel (a ∷ abs) m e = unfold all_from in ground (arith, m, e)

all_from_marked :
    (pc : ℕ) (curr delta line : ℤ) (rel : List ℤ) (abs : List AbsLineInfo) {lines : List ℤ}
    → is_marker delta ≡ true
    → all_from (suc pc) line rel abs ≡ some lines
    → all_from pc curr (delta ∷ rel) (record { pc = pc; line = line } ∷ abs) ≡ some (line ∷ lines)
all_from_marked pc curr delta line rel abs m e = unfold all_from in ground (arith, m, e)

all_from-collect_from :
    (pc : ℕ) (w : LineInfoWriter) (lines : List ℤ)
    → let info = collect_from pc w lines in
      all_from pc w.previous_line info.rel info.abs ≡ some lines
unfolding collect_from
all_from-collect_from pc w [] = unfold all_from in refl
all_from-collect_from pc w (line ∷ lines) =
    let (delta, w') = next line w in
    let (p, q) = next_lem line w in
    step delta w'.previous_line (collect_from (suc pc) w' lines) p q
      (all_from-collect_from (suc pc) w' lines)
  where
    step :
        (delta prev : ℤ) (info : LineInfo)
        → prev ≡ line
        → (is_marker delta ≡ true) ⊎ (is_marker delta ≡ false) × (w.previous_line +ℤ delta ≡ line)
        → all_from (suc pc) prev info.rel info.abs ≡ some lines
        → all_from pc w.previous_line
            (delta ∷ info.rel)
            (if is_marker delta then record { pc = pc; line = line } ∷ info.abs else info.abs)
          ≡ some (line ∷ lines)
    step delta prev info p (inl m) ih =
        rw m (all_from_marked pc w.previous_line delta line info.rel info.abs m (rw p at ih))
    step delta prev info p (inr (m, e)) ih = rw m (
        all_from_plain pc w.previous_line delta info.rel info.abs m (rw (p ∙ sym e) at ih)
        ∙ ap (λ (l : ℤ). some (l ∷ lines)) e)

-- `All` over the packed form of any line numbers yields exactly those line numbers, and never
-- finds the form corrupted.
pub all-collect_line_info : (lines : List ℤ) → all (collect_line_info lines) ≡ some lines
unfolding all collect_line_info
all-collect_line_info lines = all_from-collect_from 0 new_writer lines
