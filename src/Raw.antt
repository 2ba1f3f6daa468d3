-- ===== src/Raw.antt =====
-- src/shadow_proxy/store/raw.py: the archive of raw payloads. Both implementations map object keys
-- to payloads; gzip and the JSON encoding are left out, so a payload comes back as it was put.
pub mod Keys
pub mod Places
use llm_shadow_proxy.Base.{
  ℕ, Bool, Option, none, some, List, [], ◌∷◌, ◌++◌, ◌==◌, any, if◌then◌else◌,
}
use llm_shadow_proxy.Base.Text.{Text, codes, text_eq}
use llm_shadow_proxy.Base.Json.{Value}

-- By the text of the key. `FilesystemRawStore` looks for the file that the key names, so there two keys
-- with `..` in them can be one file.
abbrev pub Files : Type 0
Files = List (Text × Value)

abbrev pub slash : ℕ
slash = b'/'

abbrev pub suffix : Text
suffix = codes ".json.gz"

-- `_key_for`, with the UTC day of `now` as `%Y/%m/%d` prints it.
unfoldable pub key_for : Text → Text → Text
key_for day request_id = codes "raw/" ++ (day ++ (slash ∷ (request_id ++ suffix)))

unfoldable pub write : Text → Value → Files → Files
write key payload [] = (key, payload) ∷ []
write key payload ((k, v) ∷ files) =
    if text_eq key k then (key, payload) ∷ files else (k, v) ∷ write key payload files

-- `put` on a given day: the key, and the files after the write.
unfoldable pub put : Text → Text → Value → Files → Text × Files
put day request_id payload files =
    let key = key_for day request_id in (key, write key payload files)

-- `get`; `none` is `FileNotFoundError` or the service's error.
unfoldable pub get : Text → Files → Option Value
get key [] = none
get key ((k, v) ∷ files) = if text_eq key k then some v else get key files

abbrev pub has_slash : Text → Bool
has_slash = any (λ c. c == slash)

-- `s.rsplit("/", 1)[-1]`
unfoldable pub last_part : Text → Text
last_part [] = []
last_part (c ∷ s) =
    let rest = last_part s in if has_slash s then rest else (if c == slash then s else c ∷ s)

-- `s.removesuffix(".json.gz")`
unfoldable pub remove_suffix : Text → Text
remove_suffix [] = []
remove_suffix (c ∷ s) =
    let rest = remove_suffix s in if text_eq (c ∷ s) suffix then [] else c ∷ rest

-- The request id that `_merge_candidate_into_raw` reads out of an object key.
unfoldable pub request_id_of_key : Text → Text
request_id_of_key object_key = remove_suffix (last_part object_key)
