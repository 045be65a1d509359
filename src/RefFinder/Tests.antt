-- ===== src/RefFinder/Tests.antt =====
-- The theorems on `RefFinder` at two strings of which one stands in the other, and a text.
use zb.Prelude.{true, List, [], ◌∷◌, ◌≡◌, ◌≢◌, ◌↔◌, refl, sym, ap, ◌∙◌, arith, inl, inr}
use zb.Sets.Ordered.{bytes_ordered}
use zb.Sets.Sorted.{has, add, binary_search}
use zb.RefFinder.Encode.{Bytes, encode_utf8, encode_utf16le}
use zb.RefFinder.{
  has_empty, find, build_tree, new_ref_finder, add_match, advance, write_byte, write,
}
use zb.RefFinder.Report.{Among, Encodes, Infix, Reported, report-Reported}

-- "ab" and "b"
abbrev two_strings : List Bytes
two_strings = (97 ∷ 98 ∷ []) ∷ (98 ∷ []) ∷ []

-- "xab"
abbrev text : Bytes
text = 120 ∷ 97 ∷ 98 ∷ []

b_found : has (write (new_ref_finder two_strings) text).found (98 ∷ []) ≡ true
unfolding has write new_ref_finder write_byte advance add_match build_tree find binary_search
    encode_utf16le encode_utf8 add has_empty
b_found = refl

ab_utf16 : encode_utf16le (97 ∷ 98 ∷ []) ≢ 98 ∷ []
unfolding encode_utf16le
ab_utf16 e = ground (arith)

b_only : (s : Bytes) → Among s two_strings → s ≢ [] → Encodes s (98 ∷ []) → s ≡ 98 ∷ []
unfolding encode_utf8 encode_utf16le
b_only s (inl e) n (inl f) = ground (arith)
b_only s (inl e) n (inr f) = absurd (ab_utf16 (sym (ap encode_utf16le e) ∙ f))
b_only s (inr (inl e)) n f = e
b_only s (inr (inr i)) n f = absurd i

b_in_text : Infix (98 ∷ []) text
b_in_text = (120 ∷ 97 ∷ [], [], refl)

report-Reported_example :
    (has (write (new_ref_finder two_strings) text).found (98 ∷ []) ≡ true)
    ↔ Reported two_strings text (98 ∷ [])
report-Reported_example = report-Reported two_strings text (98 ∷ []) (λ e. ground (arith))
