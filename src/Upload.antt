-- ===== src/Upload.antt =====
-- Uploads of images: app/services/upload_service.py and app/api/v1/endpoints/upload.py. A file is
-- the list of its bytes; the directory of uploads is a dictionary from paths to files.
pub mod Accepted
use fastapi_realtime_chat.Prelude.{
  ℕ, zero, suc, ◌+◌, ◌*◌, ◌/◌, ◌%◌, Bool, true, false, not, Option, none, some, List, [], ◌∷◌, ◌++◌,
  ltb, leb, nat_beq, if◌then◌else◌, is_some, ◌==◌, Text, codes, nat_eq, text_eq, strip_prefix,
  length, any,
}
use fastapi_realtime_chat.Dict.{Dict, put}
use fastapi_realtime_chat.Exec.{
  Error, validation_error, bad_request_exception, Exec, pure, raise, modify_state, guard, catch,
  ◌>>=◌, ◌>>◌,
}
use fastapi_realtime_chat.Uuid

-- The settings of app/core/config.py that the service reads.
pub record UploadSettings : Type 0 where
  pub max_file_size_mb : ℕ
  pub upload_dir : Text
  pub allowed_image_types : List Text

abbrev pub default_uploads : UploadSettings
default_uploads = record {
  max_file_size_mb = 10;
  upload_dir = codes "uploads/images";
  allowed_image_types =
      codes "image/jpeg" ∷ codes "image/png" ∷ codes "image/gif" ∷ codes "image/webp" ∷ [];
}

pub record UploadFile : Type 0 where
  pub content_type : Option Text
  pub content : List ℕ

pub record UploadResponse : Type 0 where
  pub url : Text
  pub filename : Text

abbrev pub Files : Type 0
Files = Dict Text (List ℕ)

-- `str` of a number below 10 ^ fuel.
unfoldable pub decimal : (fuel : ℕ) → ℕ → Text
decimal zero n = []
decimal (suc fuel) n =
    let rest = decimal fuel (n / 10) in
    if ltb n 10 then (b'0' + n) ∷ [] else rest ++ (b'0' + n % 10) ∷ []

-- `', '.join(texts)`
unfoldable pub join : List Text → Text
join [] = []
join (t ∷ []) = t
join (t ∷ u ∷ ts) = t ++ (codes ", " ++ join (u ∷ ts))

abbrev pub max_bytes : UploadSettings → ℕ
max_bytes settings = settings.max_file_size_mb * 1024 * 1024

abbrev pub type_text : Option Text → Text
type_text none = []
type_text (some t) = t

abbrev pub type_allowed : UploadSettings → Option Text → Bool
type_allowed settings none = false
type_allowed settings (some t) = any (λ a. a == t) settings.allowed_image_types

abbrev pub starts_with : Text → List ℕ → Bool
starts_with signature content = is_some (strip_prefix signature content)

-- The dictionary `signatures`; bytes are numbers.
unfoldable pub signatures : Text → List Text
signatures t =
    if t == codes "image/jpeg"
    then (255 ∷ 216 ∷ 255 ∷ []) ∷ []
    else if t == codes "image/png"
    then (137 ∷ codes "PNG") ∷ []
    else if t == codes "image/gif"
    then codes "GIF87a" ∷ codes "GIF89a" ∷ []
    else if t == codes "image/webp"
    then codes "RIFF" ∷ []
    else []

unfoldable pub extension : Text → Text
extension t =
    if t == codes "image/jpeg"
    then codes ".jpg"
    else if t == codes "image/png"
    then codes ".png"
    else if t == codes "image/gif"
    then codes ".gif"
    else if t == codes "image/webp"
    then codes ".webp"
    else codes ".bin"

-- `allowed_sigs and not any(…)` is the case that raises.
abbrev pub signature_fits : List Text → List ℕ → Bool
signature_fits [] content = true
signature_fits (s ∷ ss) content = any (λ sig. starts_with sig content) (s ∷ ss)

unfoldable pub validate_content_type : UploadSettings → Option Text → Exec Files (Unit {0})
validate_content_type settings content_type = guard (type_allowed settings content_type) (
    validation_error
      (codes "Unsupported file type. Allowed: " ++ join settings.allowed_image_types))

unfoldable pub validate_size : UploadSettings → ℕ → Exec Files (Unit {0})
validate_size settings size = guard (leb size (max_bytes settings)) (
    validation_error (
      codes "File too large. Maximum size is "
      ++ (decimal 20 settings.max_file_size_mb ++ codes " MB")))

unfoldable pub validate_magic_bytes : List ℕ → Text → Exec Files (Unit {0})
validate_magic_bytes content content_type =
    guard (signature_fits (signatures content_type) content)
      (validation_error (codes "File content does not match declared type"))

-- `id` is the UUID that it draws. The result is the URL.
unfoldable pub save_upload : UploadSettings → (id : ℕ) → UploadFile → Exec Files Text
save_upload settings id file =
    let filename = Uuid.str id ++ extension (type_text file.content_type) in
    (do
      validate_content_type settings file.content_type
      validate_size settings (length file.content)
      validate_magic_bytes file.content (type_text file.content_type)
      modify_state (put (settings.upload_dir ++ (codes "/" ++ filename)) file.content)
      pure (codes "/uploads/images/" ++ filename))

-- `url.split("/")[-1]`: `last` is what has been read since the last slash.
abbrev pub last_segment : Text → Text → Text
last_segment last [] = last
last_segment last (c ∷ s) = last_segment (if nat_beq c b'/' then [] else last ++ c ∷ []) s

abbrev pub to_bad_request : Error → Error
to_bad_request (validation_error message) = bad_request_exception message
to_bad_request e = e

-- The endpoint `POST /upload/image`.
unfoldable pub upload_image : UploadSettings → (id : ℕ) → UploadFile → Exec Files UploadResponse
upload_image settings id file = do
  url ← catch (save_upload settings id file) (λ e. raise (to_bad_request e))
  pure (record { url = url; filename = last_segment [] url })
