-- ===== src/Config/Samples.antt =====
-- Paths and pipelines at which the functions of the configuration are run, and its theorems applied.
use forgeci.Base.{[], codes, false, has_code, has_prefix, is_control, refl, same_codes, true, ◌≡◌}
use forgeci.Config.Checks.{is_safe_path}
use forgeci.Config.Paths.{
  add_code, base, clean, dot, elements, go_up, is_abs, join_elements, keep_element, keep_elements,
  last_element, or_dot,
}
use forgeci.Config.SafePaths.{is_contained, is_safe_path_lem}

-- What Clean and Base make of some paths.
paths-run :
    (clean (codes "a//b/../c/.") ≡ codes "a/c")
    × (clean (codes "../a/..") ≡ codes "..")
    × (clean (codes "/../a") ≡ codes "/a")
    × (clean [] ≡ dot)
    × (clean (codes "a/..") ≡ dot)
    × (base (codes "a/b//") ≡ codes "b")
    × (clean (codes "/") ≡ codes "/")
    × (base (codes "//") ≡ codes "/")
    × (clean (codes "a/../../..") ≡ codes "../..")
unfolding clean codes base keep_elements keep_element go_up same_codes elements add_code
    join_elements is_abs or_dot last_element
paths-run = (refl, refl, refl, refl, refl, refl, refl, refl, refl)

is_safe_path_example : is_safe_path (codes "out/../bin") ≡ is_contained (codes "out/../bin")
is_safe_path_example = is_safe_path_lem (codes "out/../bin")

safe-run :
    (is_safe_path (codes "out/bin") ≡ true)
    × (is_safe_path (codes "out/../bin") ≡ false)
    × (is_safe_path (codes "/out") ≡ false)
unfolding clean codes keep_elements keep_element go_up same_codes elements add_code join_elements
    is_abs or_dot is_safe_path has_code is_control has_prefix
safe-run = (refl, refl, refl)
