-- ===== src/Aws/Laws.antt =====
-- What an upload of a data URL stores (aws/aws.go).
use aeternixth_go_lib.Prelude.{
  ℕ, ◌≢◌, String, List, [], ◌∷◌, ◌++◌, Option, none, some, ◌≡◌, refl, sym, ap, ◌∙◌, ◌⊎◌, inl, inr,
  codes, length, arith,
}
use mathlib.Core.Path.{subst}
use aeternixth_go_lib.Prelude.Text.{before, Lacks, split-append, split_of_Lacks}
use aeternixth_go_lib.Aws.{
  FileExtension, extension_text, default_content_type, jpeg, png, gif, bmp, webp, tiff, pdf, txt,
  zip, mp4, UploadError, subtype_extension, of_parts, get_extension, after_comma, behind_comma, Put,
  Sdk, with_content, with_credentials, with_extension, after_put, upload,
}

-- The media that can be uploaded: the subtype in the data URL, the content type and the extension
-- of the object.
pub data Medium : String → String → String → Type 0 where
  a_jpeg : Medium "jpeg" "image/jpeg" "jpeg"
  a_jpg : Medium "jpg" "image/jpeg" "jpeg"
  a_png : Medium "png" "image/png" "png"
  a_gif : Medium "gif" "image/gif" "gif"
  a_bmp : Medium "bmp" "image/bmp" "bmp"
  a_webp : Medium "webp" "image/webp" "webp"
  a_tiff : Medium "tiff" "image/tiff" "tiff"
  a_pdf : Medium "pdf" "application/pdf" "pdf"
  a_text : Medium "plain" "text/plain" "txt"
  a_zip : Medium "zip" "application/zip" "zip"
  a_film : Medium "mp4" "video/mp4" "mp4"

-- A text without the separators of a data URL.
abbrev pub Clean : List ℕ → Type 0
Clean s = Lacks b'/' s × Lacks b';' s × Lacks b',' s

-- The extension that the code finds for a medium.
Supported : String → String → String → Type 0
Supported sub kind ext =
    (e : FileExtension) × (subtype_extension (codes sub) ≡ some e)
    × (extension_text e ≡ ext)
    × (default_content_type e ≡ kind)
    × Clean (codes sub)

Medium-Supported : {sub kind ext : String} → Medium sub kind ext → Supported sub kind ext
unfolding Supported subtype_extension default_content_type
Medium-Supported a_jpeg = (jpeg, refl, refl, refl, ground arith)
Medium-Supported a_jpg = (jpeg, refl, refl, refl, ground arith)
Medium-Supported a_png = (png, refl, refl, refl, ground arith)
Medium-Supported a_gif = (gif, refl, refl, refl, ground arith)
Medium-Supported a_bmp = (bmp, refl, refl, refl, ground arith)
Medium-Supported a_webp = (webp, refl, refl, refl, ground arith)
Medium-Supported a_tiff = (tiff, refl, refl, refl, ground arith)
Medium-Supported a_pdf = (pdf, refl, refl, refl, ground arith)
Medium-Supported a_text = (txt, refl, refl, refl, ground arith)
Medium-Supported a_zip = (zip, refl, refl, refl, ground arith)
Medium-Supported a_film = (mp4, refl, refl, refl, ground arith)

before-append : (sep : ℕ) (s t : List ℕ) → Lacks sep s → before sep (s ++ sep ∷ t) ≡ s
unfolding before
before-append sep [] t h = ground arith
before-append sep (c ∷ s) t (p, h) = ground (arith, before-append sep s t h)

after_comma-append : (s t : List ℕ) → Lacks b',' s → after_comma (s ++ b',' ∷ t) ≡ some t
unfolding after_comma
after_comma-append [] t h = refl
after_comma-append (c ∷ s) t (p, h) = ground (arith, after_comma-append s t h)

Lacks-append :
    (sep c : ℕ) (s t : List ℕ) → c ≢ sep → Lacks sep s → Lacks sep t → Lacks sep (s ++ c ∷ t)
Lacks-append sep c [] t ne h k = (ne, k)
Lacks-append sep c (d ∷ s) t ne (p, h) k = (p, Lacks-append sep c s t ne h k)

-- `kind/sub;enc,data`
abbrev pub data_url : List ℕ → List ℕ → List ℕ → List ℕ → List ℕ
data_url kind sub enc content = (kind ++ b'/' ∷ sub) ++ b';' ∷ (enc ++ b',' ∷ content)

get_extension_of :
    (kind sub enc content : List ℕ)
    → Clean kind
    → Clean sub
    → get_extension (data_url kind sub enc content)
      ≡ of_parts (kind ++ b'/' ∷ sub) (kind ∷ sub ∷ [])
unfolding get_extension
get_extension_of kind sub enc content (ks, kc, _) (ss, sc, _) =
    let mime = kind ++ b'/' ∷ sub in
    let rest = enc ++ b',' ∷ content in
    let e = before-append b';' mime rest (Lacks-append b';' b'/' kind sub (ground arith) kc sc) in
    rw e (rw (split-append b'/' kind sub ks, split_of_Lacks b'/' sub ss) refl)

after_comma_skip :
    (c : ℕ) (s t : List ℕ) → c ≢ b',' → Lacks b',' s → after_comma (s ++ c ∷ t) ≡ after_comma t
unfolding after_comma
after_comma_skip c [] t ne h = ground arith
after_comma_skip c (d ∷ s) t ne (p, h) = ground (arith, after_comma_skip c s t ne h)

content_of :
    (kind sub enc content : List ℕ)
    → Clean kind
    → Clean sub
    → Lacks b',' enc
    → after_comma (data_url kind sub enc content) ≡ some content
content_of kind sub enc content (_, _, kc) (_, _, sc) e =
    let mime = kind ++ b'/' ∷ sub in
    let clean = Lacks-append b',' b'/' kind sub (ground arith) kc sc in
    after_comma_skip b';' mime (enc ++ b',' ∷ content) (ground arith) clean
    ∙ after_comma-append enc content e

known :
    (e : FileExtension) (sub mime kind : List ℕ)
    → subtype_extension sub ≡ some e
    → of_parts mime (kind ∷ sub ∷ []) ≡ inl e
known e sub mime kind found = rw (found, of_parts) refl

module _ (sdk : Sdk) (bucket_name : String) (bucket_path : List ℕ) where
  -- The request for an object of the medium with that content.
  abbrev pub IsPut : String → String → List ℕ → Put → Type 0
  IsPut kind ext content p =
      (p.bucket ≡ bucket_name)
      × (p.key ≡ bucket_path ++ b'/' ∷ (sdk.uuid ++ b'.' ∷ codes ext))
      × (p.content_type ≡ kind)
      × (p.body ≡ content)
      × (p.content_length ≡ length content)

  -- What an upload does: an error with nothing stored where the data cannot be decoded or the
  -- credentials are bad, and else the request for one object; a URL is given only where that
  -- request succeeds.
  abbrev pub Uploaded : String → String → List ℕ → (List ℕ ⊎ UploadError) × Option Put → Type 0
  Uploaded kind ext raw (r, none) =
      ((err : UploadError) × (r ≡ inr err))
      × (((err : String) × (sdk.decode raw ≡ inr err))
          ⊎ ((err : String) × (sdk.credentials ≡ some err)))
  Uploaded kind ext raw (r, some p) =
      ((content : List ℕ) × (sdk.decode raw ≡ inl content) × IsPut kind ext content p)
      × (sdk.credentials ≡ none)
      × ((url : List ℕ) → r ≡ inl url → sdk.put p ≡ none)

  after_put_lem :
      (key : List ℕ) (answer : Option String) (url : List ℕ)
      → after_put sdk bucket_name bucket_path key answer ≡ inl url
      → answer ≡ none
  after_put_lem key none url e = refl
  after_put_lem key (some err) url e = cc

  credentials_lem :
      (kind ext : String) (raw content : List ℕ) (e : FileExtension)
      → extension_text e ≡ ext
      → default_content_type e ≡ kind
      → sdk.decode raw ≡ inl content
      → (answer : Option String) → sdk.credentials ≡ answer
      → Uploaded kind ext raw (with_credentials sdk bucket_name bucket_path e content answer)
  credentials_lem kind ext raw content e t m d (some err) c = ((_, refl), inr (err, c))
  credentials_lem kind ext raw content e t m d none c = (
    (
      content,
      d,
      (
        refl,
        ap (λ (x : String). bucket_path ++ b'/' ∷ (sdk.uuid ++ b'.' ∷ codes x)) t,
        m,
        refl,
        refl,
      ),
    ),
    c,
    λ url r. after_put_lem _ _ url r,
  )

  content_lem :
      (kind ext : String) (raw : List ℕ) (e : FileExtension)
      → extension_text e ≡ ext
      → default_content_type e ≡ kind
      → (answer : List ℕ ⊎ String) → sdk.decode raw ≡ answer
      → Uploaded kind ext raw (with_content sdk bucket_name bucket_path e answer)
  content_lem kind ext raw e t m (inr err) d = ((_, refl), inl (err, d))
  content_lem kind ext raw e t m (inl content) d =
      credentials_lem kind ext raw content e t m d sdk.credentials refl

  extension_lem :
      (kind ext : String) (raw src : List ℕ) (e : FileExtension)
      → extension_text e ≡ ext
      → default_content_type e ≡ kind
      → get_extension src ≡ inl e
      → after_comma src ≡ some raw
      → Uploaded kind ext raw (with_extension sdk bucket_name bucket_path src (get_extension src))
  extension_lem kind ext raw src e t m p q =
      let behind : behind_comma src ≡ raw =
        ap (λ (o : Option (List ℕ)). elim o [ some rest ↦ rest | none ↦ src ]) q in
      rw p (
        subst
          (λ x. Uploaded kind ext raw (with_content sdk bucket_name bucket_path e (sdk.decode x)))
          (sym behind) (content_lem kind ext raw e t m (sdk.decode raw) refl))

  -- An upload of a data URL of one of the eleven media stores nothing and ends in an error where
  -- its data cannot be decoded or the credentials are bad; else it asks for one object, whose key
  -- has the medium's extension and whose content type, body and length are those of the URL, and
  -- it gives a URL only where that request succeeds.
  pub upload-Uploaded :
      {sub kind ext : String} (medium : Medium sub kind ext) (top enc raw : List ℕ)
      → Clean top
      → Lacks b',' enc
      → Uploaded kind ext raw
          (upload sdk bucket_name bucket_path (data_url top (codes sub) enc raw))
  unfolding upload Supported
  upload-Uploaded {sub} {kind} {ext} medium top enc raw k l =
      let (e, found, t, m, s) = Medium-Supported medium in
      let src = data_url top (codes sub) enc raw in
      extension_lem kind ext raw src e t m
        (get_extension_of top (codes sub) enc raw k s
          ∙ known e (codes sub) (top ++ b'/' ∷ codes sub) top found)
        (content_of top (codes sub) enc raw k s l)
