-- ===== src/Protocol/Requests.antt =====
-- internal/runnerproto/handlers.go: what the handlers read from the URL of a request.
use Prim.Native.Char.{Char, code}
use forgeci.Base.{
  Bool, Codes, List, Option, String, [], codes, if◌then◌else◌, is_within, ltb, none, some, str_eq,
  ℕ, ◌&&◌, ◌*◌, ◌+◌, ◌-◌, ◌==◌, ◌^◌, ◌∷◌,
}
use forgeci.Config.Paths.{slash}

pub record Request : Type 0 where
  pub method : String
  pub path : String
  pub query : String → String
  pub length_header : String
  pub content_length : Option ℕ

abbrev pub is_method : String → Request → Bool
is_method m r = str_eq r.method m

-- strings.Trim(path, "/") and strings.Split(.., "/").
unfoldable pub trim_start : String → String
trim_start String.[] = ""
trim_start (String.◌∷◌ c s) = if code c == slash then trim_start s else String.◌∷◌ c s

unfoldable pub trim_end : String → String
trim_end String.[] = ""
trim_end (String.◌∷◌ c s) =
    let rest = trim_end s in if (code c == slash) && str_eq rest "" then "" else String.◌∷◌ c rest

unfoldable pub add_char : Char → List String → List String
add_char c [] = String.◌∷◌ c "" ∷ []
add_char c (e ∷ es) = String.◌∷◌ c e ∷ es

unfoldable pub split : String → List String
split String.[] = "" ∷ []
split (String.◌∷◌ c s) = if code c == slash then "" ∷ split s else add_char c (split s)

unfoldable pub parts_of : Request → List String
parts_of r = split (trim_end (trim_start r.path))

-- strconv.Atoi, for a number that is not below 0: an optional sign, then digits, within an int64.
unfoldable pub read_digits : ℕ → Codes → Option ℕ
read_digits n [] = some n
read_digits n (c ∷ s) = if is_within b'0' b'9' c then read_digits (n * 10 + (c - b'0')) s else none

abbrev pub fits : Option ℕ → Option ℕ
fits none = none
fits (some n) = if ltb n (2 ^ 63) then some n else none

unfoldable pub read_unsigned : Codes → Option ℕ
read_unsigned [] = none
read_unsigned (c ∷ s) = fits (read_digits 0 (c ∷ s))

unfoldable pub atoi : Codes → Option ℕ
atoi [] = none
atoi (c ∷ s) = if c == b'+' then read_unsigned s else read_unsigned (c ∷ s)

unfoldable pub read_number : String → Option ℕ
read_number text = atoi (codes text)
