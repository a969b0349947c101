-- ===== src/Prelude/Paths.antt =====
-- Paths as lists of names. filepath.Clean is modelled on a rooted path: the components left after "", "."
-- and "..", none of which climbs above the root.
pub mod Laws
use Prim.Native.Char.{Char, code}
use poc_controller.Prelude.{
  ℕ, String, ◌||◌, List, [], ◌∷◌, ◌==◌, ◌^^◌, eqb, is_empty, ◌≡◌, refl, if◌then◌else◌,
}

abbrev pub slash : ℕ
slash = b'/'

-- The first component gets one more character.
abbrev pub add_first : Char → List String → List String
add_first c [] = String.◌∷◌ c "" ∷ []
add_first c (w ∷ ws) = String.◌∷◌ c w ∷ ws

-- The pieces of a path between its slashes.
unfoldable pub split_slash : String → List String
split_slash String.[] = "" ∷ []
split_slash (String.◌∷◌ c s) =
    let rest = split_slash s in if eqb (code c) slash then "" ∷ rest else add_first c rest

unfoldable pub pop : List String → List String
pop [] = []
pop (c ∷ stack) = stack

-- What one component does to those before it, the last one first.
unfoldable pub clean_step : String → List String → List String
unfolding pop
clean_step c stack =
    if is_empty c || c == "." then stack else if c == ".." then pop stack else c ∷ stack

-- The components of filepath.Clean, the last one first.
unfoldable pub clean_stack : List String → List String → List String
unfolding clean_step
clean_stack stack [] = stack
clean_stack stack (c ∷ cs) = clean_stack (clean_step c stack) cs

unfoldable pub reverse_onto : List String → List String → List String
reverse_onto acc [] = acc
reverse_onto acc (c ∷ cs) = reverse_onto (c ∷ acc) cs

-- The components of filepath.Clean("/" + path).
unfoldable pub clean_components : String → List String
unfolding split_slash clean_stack reverse_onto
clean_components path = reverse_onto [] (clean_stack [] (split_slash path))

-- Components with slashes between them.
unfoldable pub join_slash : List String → String
join_slash [] = ""
join_slash (c ∷ []) = c
join_slash (c ∷ d ∷ cs) = c ^^ "/" ^^ join_slash (d ∷ cs)

clean_test : clean_components "a/./b//../../../c" ≡ "c" ∷ []
unfolding clean_components
clean_test = refl
