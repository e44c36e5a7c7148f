-- ===== src/Aws.antt =====
-- aws/aws.go: the upload of a data URL to S3, over code points. UUIDs, base64 and the SDK are
-- parameters.
pub mod Laws
use aeternixth_go_lib.Prelude.{
  ℕ, Bool, true, false, ◌||◌, String, List, [], ◌∷◌, ◌++◌, Option, none, some, ◌⊎◌, inl, inr, codes,
  codes_eq, length, if◌then◌else◌, ◌==◌,
}
use aeternixth_go_lib.Prelude.Text.{split, before}

pub data FileExtension : Type 0 where
  jpeg png gif bmp webp tiff pdf txt zip mp4 : FileExtension

-- The text of a `FileExtension`
abbrev pub extension_text : FileExtension → String
extension_text jpeg = "jpeg"
extension_text png = "png"
extension_text gif = "gif"
extension_text bmp = "bmp"
extension_text webp = "webp"
extension_text tiff = "tiff"
extension_text pdf = "pdf"
extension_text txt = "txt"
extension_text zip = "zip"
extension_text mp4 = "mp4"

-- The switch of `setDefaultContentType`; its default, a panic, is for other texts only.
unfoldable pub default_content_type : FileExtension → String
default_content_type jpeg = "image/jpeg"
default_content_type png = "image/png"
default_content_type gif = "image/gif"
default_content_type bmp = "image/bmp"
default_content_type webp = "image/webp"
default_content_type tiff = "image/tiff"
default_content_type pdf = "application/pdf"
default_content_type txt = "text/plain"
default_content_type zip = "application/zip"
default_content_type mp4 = "video/mp4"

-- The errors, with the texts in front of them
pub data UploadError : Type 0 where
  invalid_base64_string : UploadError
  no_matching_extension : List ℕ → UploadError
  getting_extension : UploadError → UploadError
  decoding_base64 : String → UploadError
  bad_credentials : String → UploadError
  put_failed : String → UploadError
  getting_url : String → UploadError

abbrev is : List ℕ → String → Bool
is s name = codes_eq s (codes name)

-- The switch of `getExtension` on the second part
unfoldable pub subtype_extension : List ℕ → Option FileExtension
unfolding codes_eq
subtype_extension s =
    if is s "jpeg" || is s "jpg"
    then some jpeg
    else if is s "png"
    then some png
    else if is s "gif"
    then some gif
    else if is s "bmp"
    then some bmp
    else if is s "webp"
    then some webp
    else if is s "tiff"
    then some tiff
    else if is s "pdf"
    then some pdf
    else if is s "plain"
    then some txt
    else if is s "zip"
    then some zip
    else if is s "mp4"
    then some mp4
    else none

abbrev pub of_parts : List ℕ → List (List ℕ) → FileExtension ⊎ UploadError
of_parts mime (kind ∷ sub ∷ []) = elim (subtype_extension sub) [
  | some ext ↦ inl ext
  | none ↦ inr (no_matching_extension mime)
]
of_parts mime _ = inr invalid_base64_string

-- `getExtension`
unfoldable pub get_extension : List ℕ → FileExtension ⊎ UploadError
unfolding split before subtype_extension
get_extension data_url = of_parts (before b';' data_url) (split b'/' (before b';' data_url))

-- What is behind the first comma, if there is one
unfoldable pub after_comma : List ℕ → Option (List ℕ)
after_comma [] = none
after_comma (c ∷ s) = if c == b',' then some s else after_comma s

-- `src[strings.Index(src, ",")+1:]`: all of it where there is no comma
abbrev pub behind_comma : List ℕ → List ℕ
behind_comma src = elim (after_comma src) [ some rest ↦ rest | none ↦ src ]

-- The object that `PutObject` is asked to store
pub record Put : Type 0 where
  pub bucket : String
  pub key : List ℕ
  pub body : List ℕ
  pub content_length : ℕ
  pub content_type : String

-- `decode` is base64's, `credentials` the error of the static credentials, `put` that of
-- `PutObject`, and `presign` the URL of an object; `uuid` is the new UUID's text.
pub record Sdk : Type 0 where
  pub decode : List ℕ → List ℕ ⊎ String
  pub uuid : List ℕ
  pub credentials : Option String
  pub put : Put → Option String
  pub presign : List ℕ → List ℕ ⊎ String

module _ (sdk : Sdk) (bucket_name : String) (bucket_path : List ℕ) where
  -- `setDefaultFileName` and the key of the object
  abbrev pub object_key : FileExtension → List ℕ
  object_key ext = bucket_path ++ b'/' ∷ (sdk.uuid ++ b'.' ∷ codes (extension_text ext))

  -- The end of `Upload`: the URL up to the question mark
  abbrev pub url_of : List ℕ ⊎ String → List ℕ ⊎ UploadError
  url_of (inl url) = inl (before b'?' url)
  url_of (inr err) = inr (getting_url err)

  abbrev pub after_put : List ℕ → Option String → List ℕ ⊎ UploadError
  after_put key none = url_of (sdk.presign key)
  after_put key (some err) = inr (put_failed err)

  abbrev pub put_of : FileExtension → List ℕ → Put
  put_of ext content = record {
    bucket = bucket_name;
    key = object_key ext;
    body = content;
    content_length = length content;
    content_type = default_content_type ext;
  }

  abbrev pub Stored : Type 0
  Stored = (List ℕ ⊎ UploadError) × Option Put

  abbrev pub with_credentials : FileExtension → List ℕ → Option String → Stored
  with_credentials ext content (some err) = (inr (bad_credentials err), none)
  with_credentials ext content none =
      (after_put (object_key ext) (sdk.put (put_of ext content)), some (put_of ext content))

  abbrev pub with_content : FileExtension → List ℕ ⊎ String → Stored
  with_content ext (inr err) = (inr (decoding_base64 err), none)
  with_content ext (inl content) = with_credentials ext content sdk.credentials

  abbrev pub with_extension : List ℕ → FileExtension ⊎ UploadError → Stored
  with_extension src (inr err) = (inr (getting_extension err), none)
  with_extension src (inl ext) = with_content ext (sdk.decode (behind_comma src))

  -- `Upload`: its result, with the object that it has asked to store, if any
  unfoldable pub upload : List ℕ → Stored
  unfolding get_extension after_comma before default_content_type
  upload src = with_extension src (get_extension src)
