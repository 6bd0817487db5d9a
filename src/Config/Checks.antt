-- ===== src/Config/Checks.antt =====
-- internal/config/validation.go: the errors of Validate, its patterns and its tests of paths. A constructor of Invalid is one of its
-- errors with what the message names; the index of a step counts from 1. The patterns are anchored at
-- both ends, so a pattern is a test of the first code point, of the others and of their number.
use forgeci.Base.{
  Bool, Codes, List, Option, String, [], any, codes, false, has_code, has_prefix, if◌then◌else◌,
  is_alphanumeric, is_control, is_space, leb, length, none, not, reverse, same_codes, some, str_eq,
  suc, true, ℕ, ◌&&◌, ◌++◌, ◌==◌, ◌||◌, ◌∷◌,
}
use forgeci.Config.Paths.{clean, dot, dot_dot, is_abs, slash}

pub data Invalid : Type 0 where
  unsupported_version : ℕ → Invalid
  no_jobs : Invalid
  invalid_job_name no_steps invalid_image : String → Invalid
  empty_run : String → ℕ → Invalid
  depends_on_itself : String → Invalid
  unknown_dependency duplicate_dependency : (job dependency : String) → Invalid
  invalid_artifact_name duplicate_upload unsafe_upload : (job item : String) → Invalid
  invalid_producer unsafe_destination unknown_producer : (job item : String) → Invalid
  not_a_dependency undeclared_artifact duplicate_download : (job item : String) → Invalid
  conflicting_destination : String → Codes → Invalid
  invalid_restore_key unsafe_restore_path duplicate_restore_key : (job item : String) → Invalid
  invalid_save_key unsafe_save_path duplicate_save_key : (job item : String) → Invalid
  conflicting_cache_paths download_conflict upload_conflict : (job item : String) → Invalid

-- `if !holds { return reason }`, and what follows it.
infixr 30 ◌<|>◌
abbrev pub ◌<|>◌ : Option Invalid → Option Invalid → Option Invalid
none <|> rest = rest
some reason <|> rest = some reason

abbrev pub reject : Bool → Invalid → Option Invalid
reject fails reason = if fails then some reason else none

unfoldable pub all_codes : (ℕ → Bool) → Codes → Bool
all_codes p [] = true
all_codes p (c ∷ s) = p c && all_codes p s

-- `^[A-Za-z0-9][..]*$`, and `{0,most}` in place of `*`.
unfoldable pub has_pattern : (ℕ → Bool) → Codes → Bool
has_pattern p [] = false
has_pattern p (c ∷ s) = is_alphanumeric c && all_codes p s

unfoldable pub has_short_pattern : (ℕ → Bool) → ℕ → Codes → Bool
has_short_pattern p most s = has_pattern p s && leb (length s) (suc most)

unfoldable pub is_name_code : ℕ → Bool
is_name_code c = is_alphanumeric c || ((c == b'_') || (c == b'-'))

unfoldable pub is_job_name : String → Bool
is_job_name name = has_pattern is_name_code (codes name)

unfoldable pub is_artifact_name : String → Bool
is_artifact_name name = has_short_pattern (λ c. is_name_code c || (c == b'.')) 63 (codes name)

unfoldable pub is_cache_key : String → Bool
is_cache_key key =
    has_short_pattern (λ c. is_name_code c || ((c == b'.') || (c == b':'))) 127 (codes key)

-- strings.TrimSpace.
unfoldable pub trim_left : Codes → Codes
trim_left [] = []
trim_left (c ∷ s) = if is_space c then trim_left s else c ∷ s

unfoldable pub trim_space : Codes → Codes
trim_space s = reverse (trim_left (reverse (trim_left s)))

unfoldable pub is_image : Codes → Bool
is_image image = not (
    same_codes image []
    || (not (same_codes (trim_space image) image) || any (λ c. is_space c || is_control c) image))

-- safeCachePath and safeArtifactPath, which are the same.
unfoldable pub is_safe_path : Codes → Bool
is_safe_path value =
    not (
      same_codes value []
      || (same_codes value dot
          || (is_abs value
              || (has_code 0 value || (has_code b'\\' value || any is_control value)))))
    && (same_codes (clean value) value
        && (not (same_codes (clean value) dot_dot)
            && not (has_prefix (dot_dot ++ slash ∷ []) (clean value))))

unfoldable pub paths_conflict : Codes → Codes → Bool
paths_conflict a b =
    same_codes (clean a) (clean b)
    || (has_prefix (clean b ++ slash ∷ []) (clean a)
        || has_prefix (clean a ++ slash ∷ []) (clean b))

-- `_, ok := seen[name]`, for a map that is used as a set.
abbrev pub is_seen : String → List String → Bool
is_seen name seen = any (λ m. str_eq m name) seen
