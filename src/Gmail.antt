-- ===== src/Gmail.antt =====
-- gmail/model.go and gmail.go, over the code points of the texts. OAuth, the service of the Gmail
-- API and the base64 of a raw message are parameters.
pub mod Laws
use aeternixth_go_lib.Prelude.{
  ℕ, Bool, true, false, String, List, [], ◌∷◌, ◌++◌, Option, none, some, ◌⊎◌, inl, inr, codes,
  if◌then◌else◌,
}
use aeternixth_go_lib.Prelude.Text.{trim_space}

-- The errors of constants.go, and those that wrap one
pub data GmailError : Type 0 where
  empty_recipient empty_subject empty_body : GmailError
  empty_client_id empty_client_secret empty_refresh_token empty_sender_email : GmailError
  invalid_config : GmailError → GmailError
  no_service : String → GmailError
  not_sent : List ℕ → String → GmailError

pub record Config : Type 0 where
  pub client_id : List ℕ
  pub client_secret : List ℕ
  pub refresh_token : List ℕ
  pub sender_name : List ℕ
  pub sender_email : List ℕ

pub record Message : Type 0 where
  pub to : List ℕ
  pub subject : List ℕ
  pub html : List ℕ

abbrev is_empty : List ℕ → Bool
is_empty [] = true
is_empty (c ∷ s) = false

-- `strings.TrimSpace(s) == ""`
unfoldable pub is_blank : List ℕ → Bool
unfolding trim_space
is_blank s = is_empty (trim_space s)

-- `Config.Validate`
unfoldable pub validate_config : Config → Option GmailError
unfolding is_blank
validate_config c =
    if is_blank c.client_id
    then some empty_client_id
    else if is_blank c.client_secret
    then some empty_client_secret
    else if is_blank c.refresh_token
    then some empty_refresh_token
    else if is_blank c.sender_email
    then some empty_sender_email
    else none

-- `NewMessage`
unfoldable pub new_message : List ℕ → List ℕ → List ℕ → Message ⊎ GmailError
unfolding is_blank
new_message recipient title body =
    if is_blank recipient
    then inr empty_recipient
    else if is_blank title
    then inr empty_subject
    else if is_blank body
    then inr empty_body
    else inl (record { to = recipient; subject = title; html = body })

abbrev pub crlf : List ℕ
crlf = b'\r' ∷ b'\n' ∷ []

abbrev pub from_header : List ℕ → List ℕ → List ℕ
from_header [] email = email
from_header (c ∷ name) email = b'"' ∷ ((c ∷ name) ++ b'"' ∷ b' ' ∷ b'<' ∷ (email ++ b'>' ∷ []))

-- `formatRawRFC2822`
unfoldable pub format_raw_rfc2822 : List ℕ → List ℕ → Message → List ℕ
format_raw_rfc2822 name email msg =
    (codes "From: " ++ from_header name email)
    ++ (crlf
        ++ ((codes "To: " ++ msg.to)
            ++ (crlf
                ++ ((codes "Subject: " ++ msg.subject)
                    ++ (crlf
                        ++ (codes "Content-Type: text/html; charset=utf-8"
                            ++ (crlf ++ (crlf ++ msg.html))))))))

-- `GmailSender`, without its service
pub record GmailSender : Type 0 where
  pub name : List ℕ
  pub email : List ℕ

-- `NewGmailSender`; `service` is the error of the service's creation.
unfoldable pub new_gmail_sender : (Config → Option String) → Config → GmailSender ⊎ GmailError
unfolding validate_config
new_gmail_sender service cfg = elim (validate_config cfg) [
  | some err ↦ inr (invalid_config err)
  | none ↦ elim (service cfg) [
    | some err ↦ inr (no_service err)
    | none ↦ inl (record { name = cfg.sender_name; email = cfg.sender_email })
  ]
]

-- `Send`: `encode` is base64's URL encoding, and `deliver` the error of the API's call.
unfoldable pub send :
    (List ℕ → String) → (String → Option String) → GmailSender → Message → Option GmailError
unfolding format_raw_rfc2822
send encode deliver s msg = elim (deliver (encode (format_raw_rfc2822 s.name s.email msg))) [
  | some err ↦ some (not_sent msg.to err)
  | none ↦ none
]
