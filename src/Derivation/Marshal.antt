-- ===== src/Derivation/Marshal.antt =====
-- The loops of `MarshalText` and `marshalInputDerivations` of zbstore/derivation.go against the
-- print of values of the format.
use zb.Prelude.{
  Bool, true, false, List, [], ◌∷◌, ◌++◌, append_assoc, append-nil, ◌≡◌, refl, sym, ◌∙◌, ap,
}
use zb.Aterm.{Bytes, append_string, comma, l_paren, r_paren, l_bracket, r_bracket}
use zb.Aterm.Strings.{append_string-eq-escapes}
use zb.Aterm.Values.{Value, Values, str, tuple, items, nil, cons, print, print_values, lead}
use zb.Derivation.{
  Env, InputDerivations, append_comma, append_strings, append_env, marshal_input_derivations,
}

abbrev pub strings : List Bytes → Values
strings [] = nil
strings (s ∷ rest) = cons (str s) (strings rest)

abbrev pub entry : Bytes → Bytes → Value
entry k v = tuple (cons (str k) (cons (str v) nil))

abbrev pub entries : Env → Values
entries [] = nil
entries ((k, v) ∷ env) = cons (entry k v) (entries env)

abbrev pub input : Bytes → List Bytes → Value
input k outputs = tuple (cons (str k) (cons (items (strings outputs)) nil))

abbrev pub inputs : InputDerivations → Values
inputs [] = nil
inputs ((k, outputs) ∷ m) = cons (input k outputs) (inputs m)

append_comma-lead :
    (buf x : Bytes) (first : Bool) → append_comma buf first ++ x ≡ buf ++ lead first x
append_comma-lead buf x true = refl
append_comma-lead buf x false = append_assoc buf (comma ∷ []) x

pub grow :
    (buf x : Bytes) (first : Bool) (v : Value) (vs : Values)
    → x ≡ append_comma buf first ++ print v
    → x ++ print_values false vs ≡ buf ++ print_values first (cons v vs)
unfolding print_values
grow buf x first v vs e =
    ap (λ y. y ++ print_values false vs) (e ∙ append_comma-lead buf (print v) first)
    ∙ append_assoc buf (lead first (print v)) (print_values false vs)

print_str : (dst s : Bytes) → append_string dst s ≡ dst ++ print (str s)
unfolding print
print_str dst s =
    append_string-eq-escapes dst s ∙ ap (λ x. dst ++ x) (sym (append_string-eq-escapes [] s))

-- The loop on strings appends the print of those strings, with commas between.
pub append_strings-eq-print :
    (buf : Bytes) (first : Bool) (ss : List Bytes)
    → append_strings buf first ss ≡ buf ++ print_values first (strings ss)
unfolding append_strings
append_strings-eq-print buf first [] = unfold print_values in sym (append-nil buf)
append_strings-eq-print buf first (s ∷ rest) =
    append_strings-eq-print (append_string (append_comma buf first) s) false rest
    ∙ grow buf (append_string (append_comma buf first) s) first (str s) (strings rest)
        (print_str (append_comma buf first) s)

print-entry :
    (buf k v : Bytes)
    → append_string (append_string (buf ++ l_paren ∷ []) k ++ comma ∷ []) v ++ r_paren ∷ []
      ≡ buf ++ print (entry k v)
unfolding print print_values
print-entry buf k v = simp (append_string-eq-escapes, append_assoc)

-- The loop on the environment appends the print of its entries as pairs, with commas between.
pub append_env-eq-print :
    (buf : Bytes) (first : Bool) (env : Env)
    → append_env buf first env ≡ buf ++ print_values first (entries env)
unfolding append_env
append_env-eq-print buf first [] = unfold print_values in sym (append-nil buf)
append_env-eq-print buf first ((k, v) ∷ env) =
    let x =
      append_string (append_string (append_comma buf first ++ l_paren ∷ []) k ++ comma ∷ []) v
      ++ r_paren ∷ [] in
    append_env-eq-print x false env
    ∙ grow buf x first (entry k v) (entries env) (print-entry (append_comma buf first) k v)

print_input :
    (buf k : Bytes) (outputs : List Bytes)
    → append_strings (append_string (buf ++ l_paren ∷ []) k ++ comma ∷ l_bracket ∷ []) true outputs
        ++ r_bracket ∷ r_paren ∷ []
      ≡ buf ++ print (input k outputs)
unfolding print print_values
print_input buf k outputs = simp (append_strings-eq-print, append_string-eq-escapes, append_assoc)

-- `marshalInputDerivations` appends the print of the entries, each a path with the list of its
-- outputs, with commas between.
pub marshal_input_derivations-eq-print :
    (buf : Bytes) (first : Bool) (m : InputDerivations)
    → marshal_input_derivations buf first m ≡ buf ++ print_values first (inputs m)
unfolding marshal_input_derivations
marshal_input_derivations-eq-print buf first [] = unfold print_values in sym (append-nil buf)
marshal_input_derivations-eq-print buf first ((k, outputs) ∷ m) =
    let x =
      append_strings
        (append_string (append_comma buf first ++ l_paren ∷ []) k ++ comma ∷ l_bracket ∷ []) true
        outputs
      ++ r_bracket ∷ r_paren ∷ [] in
    marshal_input_derivations-eq-print x false m
    ∙ grow buf x first (input k outputs) (inputs m) (print_input (append_comma buf first) k outputs)
