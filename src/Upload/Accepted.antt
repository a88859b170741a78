-- ===== src/Upload/Accepted.antt =====
-- Which uploads app/services/upload_service.py stores, and where.
use fastapi_realtime_chat.Prelude.{
  ℕ, ◌≡◌, refl, sym, ◌⊎◌, inl, inr, Bool, true, false, not, ◌&&◌, [], ◌∷◌, ◌++◌, arith, leb,
  nat_beq, Bool-cases, Text, codes, nat_eq, text_eq, length,
}
use fastapi_realtime_chat.Dict.{put}
use fastapi_realtime_chat.Exec.{validation_error, bad_request_exception, ok, err}
use fastapi_realtime_chat.Uuid
use mathlib.Core.List.{append-nil, append_assoc}
use fastapi_realtime_chat.Uuid.Digits.{All, is_digit, is_uuid_char, str-All}
use fastapi_realtime_chat.Upload.{
  UploadSettings, decimal, join, last_segment, UploadFile, Files, max_bytes, type_text,
  type_allowed, signatures, extension, signature_fits, validate_content_type, validate_size,
  validate_magic_bytes, save_upload, upload_image,
}

abbrev pub accepted : UploadSettings → UploadFile → Bool
accepted settings file =
    type_allowed settings file.content_type
    && (leb (length file.content) (max_bytes settings)
        && signature_fits (signatures (type_text file.content_type)) file.content)

no_slash : Text → Bool
no_slash [] = true
no_slash (c ∷ s) = not (nat_beq c b'/') && no_slash s

last_segment_plain : (last s : Text) → no_slash s ≡ true → last_segment last s ≡ last ++ s
unfolding no_slash
last_segment_plain last [] h = sym (append-nil last)
last_segment_plain last (c ∷ s) h =
    let rest = last_segment_plain (last ++ c ∷ []) s (ground arith) in
    ground (arith, rest, append_assoc last (c ∷ []) s)

no_slash-append : (s t : Text) → no_slash s ≡ true → no_slash t ≡ true → no_slash (s ++ t) ≡ true
unfolding no_slash
no_slash-append [] t hs ht = ht
no_slash-append (c ∷ s) t hs ht = ground (arith, no_slash-append s t, hs, ht)

no_slash-extension : (t : Text) → no_slash (extension t) ≡ true
unfolding no_slash extension
no_slash-extension t = ground arith

no_slash-All : (s : Text) → All is_uuid_char s → no_slash s ≡ true
unfolding no_slash is_uuid_char is_digit
no_slash-All [] h = refl
no_slash-All (c ∷ s) h = ground (arith, no_slash-All s h.1, h.0)

filename_of_url :
    (id : ℕ) (t : Text)
    → last_segment [] (codes "/uploads/images/" ++ (Uuid.str id ++ extension t))
      ≡ Uuid.str id ++ extension t
filename_of_url id t = last_segment_plain [] (Uuid.str id ++ extension t) (
    no_slash-append (Uuid.str id) (extension t) (no_slash-All (Uuid.str id) (str-All id))
      (no_slash-extension t))

abbrev pub stored_at : UploadSettings → (id : ℕ) → UploadFile → Text
stored_at settings id file =
    settings.upload_dir ++ (codes "/" ++ (Uuid.str id ++ extension (type_text file.content_type)))

module _ (settings : UploadSettings) (id : ℕ) (file : UploadFile) (files : Files) where
  saved :
      ((accepted settings file ≡ true)
        × (save_upload settings id file files ≡ (
          ok (codes "/uploads/images/" ++ (Uuid.str id ++ extension (type_text file.content_type))),
          put (stored_at settings id file) file.content files,
        )))
      ⊎ ((accepted settings file ≡ false)
          × (message : Text) × (save_upload settings id file files
              ≡ (err (validation_error message), files)))
  unfolding save_upload validate_content_type validate_size validate_magic_bytes
  saved = elim (Bool-cases (type_allowed settings file.content_type)) [
    | inr e ↦ inr (
      ground arith,
      (codes "Unsupported file type. Allowed: " ++ join settings.allowed_image_types),
      ground arith,
    )
    | inl e ↦ elim (Bool-cases (leb (length file.content) (max_bytes settings))) [
      | inr e' ↦ inr (
        ground arith,
        (codes "File too large. Maximum size is "
            ++ (decimal 20 settings.max_file_size_mb ++ codes " MB")),
        ground arith,
      )
      | inl e' ↦
          elim (Bool-cases
            (signature_fits (signatures (type_text file.content_type)) file.content)) [
              | inr e'' ↦
                  inr
                    (ground arith, codes "File content does not match declared type", ground arith)
              | inl e'' ↦ inl (ground arith, ground arith)
            ]
    ]
  ]

  -- A file whose declared type is allowed, whose size is within the limit and whose first bytes are
  -- those of its type, as far as the service knows them, is stored as it is under a new name, which
  -- is the answer with its URL; any other is refused with 400, and nothing is stored.
  pub upload_image_lem :
      let filename = Uuid.str id ++ extension (type_text file.content_type) in
      ((accepted settings file ≡ true)
        × (upload_image settings id file files ≡ (
          ok (record { url = codes "/uploads/images/" ++ filename; filename = filename }),
          put (stored_at settings id file) file.content files,
        )))
      ⊎ ((accepted settings file ≡ false)
          × (message : Text) × (upload_image settings id file files
              ≡ (err (bad_request_exception message), files)))
  unfolding upload_image
  upload_image_lem = elim saved [
    | inr (e, message, refused) ↦ inr (e, message, ground arith)
    | inl (e, done) ↦ inl (e, ground (arith, filename_of_url id (type_text file.content_type)))
  ]
