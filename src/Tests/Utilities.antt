-- ===== src/Tests/Utilities.antt =====
-- The small packages at concrete inputs.
use aeternixth_go_lib.Prelude.{
  ℕ, ◌-◌, ◌*◌, ◌+◌, ◌^◌, ◌≤◌, ◌<◌, ◌==◌, Bool, true, false, String, [], ◌∷◌, ◌++◌, Option, none,
  some, inl, inr, codes, str_eq, if◌then◌else◌, ◌≡◌, refl, arith,
}
use aeternixth_go_lib.Pagination.{calculate_total_pages, calculate_offset}
use aeternixth_go_lib.Pagination.Laws.{On, pages_lem}
use aeternixth_go_lib.Timeutil.{now_plus_hour, now_plus_hour_lem}
use aeternixth_go_lib.Nulls.Dates.{
  to_null_date, time_pointer_to_string, to_null_date_pointer, dates_roundtrip,
}
use aeternixth_go_lib.Gmail.{Message, from_header, format_raw_rfc2822}
use aeternixth_go_lib.Gmail.Laws.{read_message, format_raw_rfc2822_lem}
use aeternixth_go_lib.Errors.{Registries}
use aeternixth_go_lib.Validator.{ValidatorError, validation_errors}
use aeternixth_go_lib.Fiberutil.Parsing.{get_request_body, get_query_params, Answered, requests_lem}
use aeternixth_go_lib.Web.{Request}
use aeternixth_go_lib.Tracer.{Config, Machine, Exporters, new_provider, detect_service_name}
use aeternixth_go_lib.Tracer.Laws.{Made, new_provider_lem}
use aeternixth_go_lib.Aws.{Sdk, upload}
use aeternixth_go_lib.Aws.Laws.{Uploaded, data_url, a_jpg, upload-Uploaded}

-- 95 items, 20 on a page.
five_pages : calculate_total_pages 95 20 ≡ 5
unfolding calculate_total_pages
five_pages = refl

-- A page size of less than zero is not refused.
minus_five_pages : calculate_total_pages 5 (2 ^ 64 - 1) ≡ 2 ^ 64 - 5
unfolding calculate_total_pages
minus_five_pages = refl

pages_lem_example :
    ((i : ℕ) → i < 95 → (page : ℕ) × On 95 20 i page × ((q : ℕ) → On 95 20 i q → q ≡ page))
    × ((page : ℕ) → 1 ≤ page → page ≤ calculate_total_pages 95 20 → calculate_offset page 20 < 95)
pages_lem_example = pages_lem 95 20 (omega arith) (omega arith) (omega arith)

-- One hour more than the theorem's bound goes to the past.
past : now_plus_hour 10000000000000000000 2562048 ≡ 776628726290448384
unfolding now_plus_hour
past = refl

now_plus_hour_lem_example :
    (now_plus_hour 63000000000 24 ≡ 63000000000 + 24 * 3600000000000)
    × (1 ≤ 24 → now_plus_hour 63000000000 (2 ^ 64 - 24) ≡ 63000000000 - 24 * 3600000000000)
now_plus_hour_lem_example = now_plus_hour_lem 63000000000 24 (omega arith)

-- A day and its hour; one of the two days is in the year 10000, which is not parsed.
abbrev parse_day : String → Option (Bool × ℕ)
parse_day s = if str_eq s "2024-03-15" then some (true, 0) else none

abbrev format_day : Bool × ℕ → String
format_day (true, hour) = "2024-03-15"
format_day (false, hour) = "10000-01-01"

abbrev midnight : Bool × ℕ → Bool × ℕ
midnight (day, hour) = (day, 0)

abbrev FourDigits : Bool × ℕ → Type 0
FourDigits (day, hour) = day ≡ true

parse_day-format_day : (t : Bool × ℕ) → FourDigits t → parse_day (format_day t) ≡ some (midnight t)
parse_day-format_day (true, hour) e = refl
parse_day-format_day (false, hour) e = cc

parse_day-FourDigits : (s : String) (t : Bool × ℕ) → parse_day s ≡ some t → FourDigits t
parse_day-FourDigits s (true, hour) e = refl
parse_day-FourDigits s (false, hour) e = ground arith

format_day-midnight : (t : Bool × ℕ) → format_day (midnight t) ≡ format_day t
format_day-midnight (true, hour) = refl
format_day-midnight (false, hour) = refl

format_day_nonempty : (t : Bool × ℕ) → str_eq (format_day t) "" ≡ false
format_day_nonempty (true, hour) = refl
format_day_nonempty (false, hour) = refl

dates_roundtrip_example :
    let stored = to_null_date (true, 0) parse_day format_day in
    let loaded = to_null_date_pointer (true, 0) parse_day format_day in
    let written = time_pointer_to_string (true, 0) parse_day format_day in
    ((t : Bool × ℕ) → FourDigits t → loaded (stored (written (some t))) ≡ written (some t))
    × ((s : Option String) → loaded (stored (loaded (stored s))) ≡ loaded (stored s))
dates_roundtrip_example =
    dates_roundtrip (true, 0) parse_day format_day midnight FourDigits parse_day-format_day
      parse_day-FourDigits format_day-midnight format_day_nonempty

abbrev mail : Message
mail = record { to = codes "a@b.c"; subject = codes "Hi"; html = codes "<p>\r\n</p>" }

format_raw_rfc2822_lem_example :
    read_message false [] (format_raw_rfc2822 (codes "Bank") (codes "x@y.z") mail) ≡ (
      (codes "From: " ++ from_header (codes "Bank") (codes "x@y.z"))
          ∷ (codes "To: " ++ mail.to)
          ∷ (codes "Subject: " ++ mail.subject)
          ∷ codes "Content-Type: text/html; charset=utf-8"
          ∷ [],
      mail.html,
    )
format_raw_rfc2822_lem_example =
    format_raw_rfc2822_lem (codes "Bank") (codes "x@y.z") mail (ground arith) (ground arith)
      (ground arith) (ground arith)

-- A line break in the subject adds a header line.
injected :
    (read_message false [] (
      format_raw_rfc2822
        (codes "Bank")
        (codes "x@y.z")
        (record mail { subject = codes "Hi\r\nBcc: evil@x.y" }))).0
    ≡ codes "From: \"Bank\" <x@y.z>"
      ∷ codes "To: a@b.c"
      ∷ codes "Subject: Hi"
      ∷ codes "Bcc: evil@x.y"
      ∷ codes "Content-Type: text/html; charset=utf-8"
      ∷ []
unfolding read_message format_raw_rfc2822
injected = refl

abbrev storage : Sdk
storage = record {
  decode = λ s. inl s;
  uuid = codes "u";
  credentials = none;
  put = λ p. if p.content_length == 0 then some "empty" else none;
  presign = λ key. inl (codes "https://s3/" ++ (key ++ codes "?sig"));
}

uploaded :
    (upload storage "bucket" (codes "img") (codes "data:image/jpg;base64,AAAA")).0
    ≡ inl (codes "https://s3/img/u.jpeg")
unfolding upload
uploaded = refl

upload-Uploaded_example :
    Uploaded storage "bucket" (codes "img") "image/jpeg" "jpeg" (codes "AAAA") (
      upload storage "bucket"
        (codes "img")
        (data_url (codes "data:image") (codes "jpg") (codes "base64") (codes "AAAA")))
upload-Uploaded_example =
    upload-Uploaded storage "bucket" (codes "img") a_jpg (codes "data:image") (codes "base64")
      (codes "AAAA") (ground arith) (ground arith)

abbrev has_name : String → Option ValidatorError
has_name s =
    if str_eq s ""
    then some (validation_errors (record { field = "Name"; tag = "required"; param = "" } ∷ []))
    else none

abbrev post : Request
post = record { method = "POST"; path = "/users"; header = λ name. "" }

abbrev no_registries : Registries
no_registries = record { registry = []; translations = [] }

requests_lem_example :
    Answered
      (λ s. s)
      ""
      has_name
      (λ s. s)
      (λ c. c)
      no_registries
      post
      (inl "")
      (get_request_body (λ s. s) "" has_name (inl ""))
    × Answered
        (λ s. s)
        ""
        has_name
        (λ s. s)
        (λ c. c)
        no_registries
        post
        (inl "")
        (get_query_params (λ s. s) "" has_name (inl ""))
requests_lem_example =
    requests_lem (λ s. s) "" has_name (λ s. s) (λ c. c) no_registries post (inl "")

abbrev machine : Machine
machine = record {
  hostname = inr "no name";
  executable = inl (codes "/opt/pay/server.exe");
  arguments = [];
}

abbrev exporters : Exporters
exporters = record { stdout = inl 1; otlp_http = λ endpoint insecure. inr "no endpoint" }

abbrev tracing : Config ℕ
tracing = record {
  enabled = true;
  service_name = [];
  service_version = codes "1";
  deploy_env = codes "dev";
  exporter = "stdout";
  endpoint = "";
  insecure = false;
  sample_rate = 1;
  span_queue_size = 2048;
}

detected : detect_service_name machine ≡ codes "server"
unfolding detect_service_name
detected = refl

new_provider_lem_example :
    Made machine exporters [] none tracing true (new_provider machine exporters tracing [] none)
new_provider_lem_example = new_provider_lem machine exporters [] none tracing
