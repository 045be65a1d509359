-- ===== src/StorePath/Posix.antt =====
-- What zbstore/path.go uses of Go's package path: `IsAbs`, `Clean`, `Split`, `Dir`, `Base` and
-- `Join`. A path is the list of its bytes.
use zb.Prelude.{
  ℕ, Bool, true, false, not, ◌&&◌, ◌||◌, List, [], ◌∷◌, ◌++◌, Option, none, some, ◌==◌,
  if◌then◌else◌,
}

abbrev pub Bytes : Type 0
Bytes = List ℕ

-- the slash and the dot
abbrev pub slash : ℕ
slash = 47

abbrev pub dot : ℕ
dot = 46

unfoldable pub is_abs : Bytes → Bool
is_abs [] = false
is_abs (c ∷ path) = c == slash

-- the parts between slashes
unfoldable pub split_slash : Bytes → List Bytes
split_slash [] = [] ∷ []
split_slash (c ∷ path) =
    let rest = split_slash path in
    if c == slash then [] ∷ rest else elim rest [ [] ↦ (c ∷ []) ∷ [] | e ∷ es ↦ (c ∷ e) ∷ es ]

unfoldable pub is_dot : Bytes → Bool
is_dot [] = false
is_dot (c ∷ []) = c == dot
is_dot (c ∷ d ∷ e) = false

unfoldable pub is_dot_dot : Bytes → Bool
is_dot_dot [] = false
is_dot_dot (c ∷ []) = false
is_dot_dot (c ∷ d ∷ []) = c == dot && d == dot
is_dot_dot (c ∷ d ∷ f ∷ e) = false

unfoldable pub is_empty : Bytes → Bool
is_empty [] = true
is_empty (c ∷ e) = false

abbrev pub drop_last : List Bytes → List Bytes
drop_last [] = []
drop_last (e ∷ []) = []
drop_last (e ∷ f ∷ es) = e ∷ drop_last (f ∷ es)

-- the last of the parts, empty where there is none
abbrev pub last : List Bytes → Bytes
last [] = []
last (e ∷ []) = e
last (e ∷ f ∷ es) = last (f ∷ es)

-- Two dots behind the elements of a path that begins with a slash, or of one that does not.
unfoldable pub go_up : Bool → List Bytes → List Bytes
unfolding is_dot_dot
go_up rooted [] = if rooted then [] else (dot ∷ dot ∷ []) ∷ []
go_up rooted (e ∷ es) =
    if not rooted && is_dot_dot (last (e ∷ es))
    then (e ∷ es) ++ (dot ∷ dot ∷ []) ∷ []
    else drop_last (e ∷ es)

-- The elements of a path: of the parts after those of `acc`, empty ones and dots are left out, and
-- two dots take the element before them away.
unfoldable pub elements : Bool → List Bytes → List Bytes → List Bytes
unfolding is_empty is_dot is_dot_dot go_up
elements rooted acc [] = acc
elements rooted acc (e ∷ es) =
    elements rooted
      (if is_empty e || is_dot e
        then acc
        else if is_dot_dot e
        then go_up rooted acc
        else acc ++ e ∷ [])
      es

-- each element behind a slash
unfoldable pub render_elements : List Bytes → Bytes
render_elements [] = []
render_elements (e ∷ es) = slash ∷ (e ++ render_elements es)

unfoldable pub render : Bool → List Bytes → Bytes
unfolding render_elements
render rooted [] = if rooted then slash ∷ [] else dot ∷ []
render rooted (e ∷ es) = if rooted then render_elements (e ∷ es) else e ++ render_elements es

unfoldable pub clean : Bytes → Bytes
unfolding elements split_slash render is_abs
clean path = render (is_abs path) (elements (is_abs path) [] (split_slash path))

-- the second result of `Split`
unfoldable pub split_base : Bytes → Bytes
unfolding split_slash
split_base path = last (split_slash path)

-- of a path that begins with a slash
unfoldable pub dir : Bytes → Bytes
unfolding elements split_slash render
dir path = render true (elements true [] (drop_last (split_slash path)))

-- the last part that is not empty
unfoldable pub last_nonempty : List Bytes → Option Bytes
unfolding is_empty
last_nonempty [] = none
last_nonempty (e ∷ es) = elim (last_nonempty es) [
  | some f ↦ some f
  | none ↦ if is_empty e then none else some e
]

-- of a path that begins with a slash
unfoldable pub base : Bytes → Bytes
unfolding last_nonempty split_slash
base path = elim (last_nonempty (split_slash path)) [ none ↦ slash ∷ [] | some e ↦ e ]

-- The elements with slashes between them, where `buf` holds those before; empty ones in front are
-- left out.
unfoldable pub join_elements : Bytes → List Bytes → Bytes
unfolding is_empty
join_elements buf [] = buf
join_elements buf (e ∷ es) = join_elements (if is_empty buf then e else buf ++ slash ∷ e) es

unfoldable pub join : List Bytes → Bytes
unfolding clean is_empty join_elements
join elems = let buf = join_elements [] elems in if is_empty buf then [] else clean buf

-- an element of a clean path
unfoldable pub no_slash : Bytes → Bool
no_slash [] = true
no_slash (c ∷ e) = not (c == slash) && no_slash e

unfoldable pub is_element : Bytes → Bool
unfolding no_slash is_empty is_dot is_dot_dot
is_element e = no_slash e && not (is_empty e) && not (is_dot e) && not (is_dot_dot e)

unfoldable pub are_elements : List Bytes → Bool
unfolding is_element
are_elements [] = true
are_elements (e ∷ es) = is_element e && are_elements es

abbrev pub no_slashes : List Bytes → Bool
no_slashes [] = true
no_slashes (e ∷ es) = no_slash e && no_slashes es
