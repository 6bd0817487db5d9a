-- ===== src/Config/Paths.antt =====
-- The functions of Go's package path that the code calls, on code points. Clean takes the elements
-- between the slashes one by one, as its documentation describes it.
use forgeci.Base.{
  Bool, Codes, List, [], false, if◌then◌else◌, reverse, same_codes, ℕ, ◌++◌, ◌==◌, ◌||◌, ◌∷◌,
}

abbrev pub slash : ℕ
slash = b'/'

abbrev pub dot : Codes
dot = b'.' ∷ []

abbrev pub dot_dot : Codes
dot_dot = b'.' ∷ b'.' ∷ []

-- The elements of a path: what stands before, between and after its slashes.
unfoldable pub add_code : ℕ → List Codes → List Codes
add_code c [] = (c ∷ []) ∷ []
add_code c (e ∷ es) = (c ∷ e) ∷ es

unfoldable pub elements : Codes → List Codes
elements [] = [] ∷ []
elements (c ∷ s) = if c == slash then [] ∷ elements s else add_code c (elements s)

unfoldable pub join_elements : List Codes → Codes
join_elements [] = []
join_elements (e ∷ []) = e
join_elements (e ∷ f ∷ es) = e ++ slash ∷ join_elements (f ∷ es)

-- path.IsAbs.
unfoldable pub is_abs : Codes → Bool
is_abs [] = false
is_abs (c ∷ s) = c == slash

unfoldable pub go_up : Bool → List Codes → List Codes
go_up rooted [] = if rooted then [] else dot_dot ∷ []
go_up rooted (e ∷ above) = if same_codes e dot_dot then dot_dot ∷ e ∷ above else above

-- The elements that are kept, the last one first.
unfoldable pub keep_element : Bool → List Codes → Codes → List Codes
keep_element rooted kept e =
    if same_codes e [] || same_codes e dot
    then kept
    else if same_codes e dot_dot
    then go_up rooted kept
    else e ∷ kept

unfoldable pub keep_elements : Bool → List Codes → List Codes → List Codes
keep_elements rooted kept [] = kept
keep_elements rooted kept (e ∷ es) = keep_elements rooted (keep_element rooted kept e) es

unfoldable pub or_dot : Codes → Codes
or_dot [] = dot
or_dot (c ∷ s) = c ∷ s

-- path.Clean.
unfoldable pub clean : Codes → Codes
clean s =
    let kept = join_elements (reverse (keep_elements (is_abs s) [] (elements s))) in
    if is_abs s then slash ∷ kept else or_dot kept

-- path.Base: trailing slashes are dropped, then all up to the last slash.
unfoldable pub last_element : Codes → List Codes → Codes
last_element last [] = last
last_element last (e ∷ es) = last_element (if same_codes e [] then last else e) es

unfoldable pub base : Codes → Codes
base [] = dot
base (c ∷ s) =
    let last = last_element [] (elements (c ∷ s)) in if same_codes last [] then slash ∷ [] else last

-- path.Join of two.
unfoldable pub join : Codes → Codes → Codes
join [] [] = []
join [] (c ∷ s) = clean (c ∷ s)
join (c ∷ s) [] = clean (c ∷ s)
join (c ∷ s) (d ∷ t) = clean ((c ∷ s) ++ slash ∷ d ∷ t)
