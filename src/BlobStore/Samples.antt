-- ===== src/BlobStore/Samples.antt =====
-- An upload of three bytes: the theorem on Put at it.
use forgeci.Base.{List, String, [], codes, refl, select_first, str_eq, true, ℕ, ◌∷◌, ◌≡◌}
use forgeci.BlobStore.{
  open_blob, Blob, Copy, Disk, check_copy, find_blob, is_digest, link, publish, put, stored, verify,
}
use forgeci.BlobStore.Contents.{IsKept, IsSound, IsStored, put-stored}

abbrev digest : String
digest = "00112233445566778899aabbccddeeff00112233445566778899aabbccddeeff"

abbrev hash : List ℕ → String
hash content = digest

abbrev working : Disk
working = record { can_write = true; can_open = true }

abbrev uploaded : List Blob
uploaded = record { digest = digest; content = 7 ∷ 8 ∷ 9 ∷ []; modified_at = 50 } ∷ []

upload-stored :
    put hash 50 1000 true working (Copy.copied (7 ∷ 8 ∷ 9 ∷ [])) digest 3 [] ≡ (stored, uploaded)
unfolding put is_digest codes check_copy str_eq publish verify link open_blob find_blob select_first
upload-stored = refl

put-stored_example :
    IsStored hash digest 3 uploaded × IsKept hash [] uploaded × IsSound hash uploaded
put-stored_example =
    put-stored hash 50 1000 true working (Copy.copied (7 ∷ 8 ∷ 9 ∷ [])) digest 3 [] uploaded tt
      upload-stored
