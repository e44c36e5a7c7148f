-- ===== src/Gmail/Laws.antt =====
-- What a mail reader makes of the raw message (gmail/model.go), by RFC 2822: the header's lines end
-- in CRLF, and an empty one ends the header.
use aeternixth_go_lib.Prelude.{
  ℕ, Bool, true, false, List, [], ◌∷◌, ◌++◌, ◌≡◌, refl, ap, ◌∙◌, codes, if◌then◌else◌, ◌==◌,
  All-append, append_assoc, append-nil, arith,
}
use aeternixth_go_lib.Prelude.Text.{Lacks}
use aeternixth_go_lib.Gmail.{Message, from_header, crlf, format_raw_rfc2822}

abbrev with_line : List ℕ → List (List ℕ) × List ℕ → List (List ℕ) × List ℕ
with_line line (header, body) = (line ∷ header, body)

-- At the end of a line: what follows an empty one is the body.
abbrev end_line : List ℕ → List ℕ → List (List ℕ) × List ℕ → List (List ℕ) × List ℕ
end_line [] body rest = ([], body)
end_line (c ∷ line) body rest = with_line (c ∷ line) rest

-- The header's lines and the body, where the line so far is given; the flag says that a CR was read.
unfoldable pub read_message : Bool → List ℕ → List ℕ → List (List ℕ) × List ℕ
read_message seen line [] = (line ∷ [], [])
read_message true line (c ∷ s) =
    let next = read_message false [] s in
    let same = read_message false (line ++ b'\r' ∷ c ∷ []) s in
    if c == b'\n' then end_line line s next else same
read_message false line (c ∷ s) =
    let after = read_message true line s in
    let same = read_message false (line ++ c ∷ []) s in if c == b'\r' then after else same

read_line :
    (line text rest : List ℕ)
    → Lacks b'\r' text
    → read_message false line (text ++ (crlf ++ rest))
      ≡ end_line (line ++ text) rest (read_message false [] rest)
unfolding read_message
read_line line [] rest h = rw (append-nil line) refl
read_line line (c ∷ text) rest (p, h) =
    ground (arith, read_line (line ++ c ∷ []) text rest h, append_assoc line (c ∷ []) text)

read_body : (html : List ℕ) → read_message false [] (crlf ++ html) ≡ ([], html)
unfolding read_message
read_body html = refl

next_line :
    (c : ℕ) (label text rest : List ℕ)
    → Lacks b'\r' ((c ∷ label) ++ text)
    → read_message false [] (((c ∷ label) ++ text) ++ (crlf ++ rest))
      ≡ with_line ((c ∷ label) ++ text) (read_message false [] rest)
next_line c label text rest h = read_line [] ((c ∷ label) ++ text) rest h

from_header-Lacks :
    (name email : List ℕ)
    → Lacks b'\r' name
    → Lacks b'\r' email
    → Lacks b'\r' (from_header name email)
from_header-Lacks [] email n e = e
from_header-Lacks (c ∷ name) email (p, n) e = (
  omega arith,
  (
    p,
    All-append _ name _ n
        (omega arith, (omega arith, (omega arith, All-append _ email _ e (omega arith, tt)))),
  ),
)

content_type :
    (html : List ℕ)
    → read_message false []
        (codes "Content-Type: text/html; charset=utf-8" ++ (crlf ++ (crlf ++ html)))
      ≡ (codes "Content-Type: text/html; charset=utf-8" ∷ [], html)
content_type html =
    read_line [] (codes "Content-Type: text/html; charset=utf-8") (crlf ++ html) (ground arith)
    ∙ ap (with_line (codes "Content-Type: text/html; charset=utf-8")) (read_body html)

-- Where no name, address or subject has a carriage return, a reader of the raw message finds
-- exactly the four header lines that the code means, and the HTML as it is for the body.
pub format_raw_rfc2822_lem :
    (name email : List ℕ) (msg : Message)
    → Lacks b'\r' name
    → Lacks b'\r' email
    → Lacks b'\r' msg.to
    → Lacks b'\r' msg.subject
    → read_message false [] (format_raw_rfc2822 name email msg) ≡ (
      (codes "From: " ++ from_header name email)
          ∷ (codes "To: " ++ msg.to)
          ∷ (codes "Subject: " ++ msg.subject)
          ∷ codes "Content-Type: text/html; charset=utf-8"
          ∷ [],
      msg.html,
    )
unfolding format_raw_rfc2822
format_raw_rfc2822_lem name email msg n e t s =
    let kind = codes "Content-Type: text/html; charset=utf-8" in
    let rest1 = kind ++ (crlf ++ (crlf ++ msg.html)) in
    let rest2 = (codes "Subject: " ++ msg.subject) ++ (crlf ++ rest1) in
    let rest3 = (codes "To: " ++ msg.to) ++ (crlf ++ rest2) in
    next_line b'F' (codes "rom: ") (from_header name email) rest3
      (All-append _ (codes "From: ") _ (ground arith) (from_header-Lacks name email n e))
    ∙ ap (with_line (codes "From: " ++ from_header name email)) (
        next_line b'T' (codes "o: ") msg.to rest2 (All-append _ (codes "To: ") _ (ground arith) t)
        ∙ ap (with_line (codes "To: " ++ msg.to)) (
            next_line b'S' (codes "ubject: ") msg.subject rest1
              (All-append _ (codes "Subject: ") _ (ground arith) s)
            ∙ ap (with_line (codes "Subject: " ++ msg.subject)) (content_type msg.html)))
