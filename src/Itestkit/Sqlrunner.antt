-- ===== src/Itestkit/Sqlrunner.antt =====
-- itestkit/internal/sqlrunner/clickhouse.go: the SQL splitter, over the runes of the script. The
-- five flags of the loop are one mode: each is set only where all are false, and cleared only in
-- its own case.

pub mod Pieces
pub mod Tokens
use aeternixth_go_lib.Prelude.{
  ℕ, Bool, true, false, ◌&&◌, ◌||◌, List, [], ◌∷◌, ◌++◌, ◌==◌, if◌then◌else◌,
}

pub data Mode : Type 0 where
  plain in_single in_double in_back in_line in_block : Mode

-- `skip` is set where the loop has taken the next rune too (`i++`).
pub record Scan : Type 0 where
  pub mode : Mode
  pub buf : List ℕ
  pub out : List (List ℕ)
  pub skip : Bool

-- `isSpace`
abbrev pub is_space : ℕ → Bool
is_space b = b == 32 || b == 9 || b == 10 || b == 13 || b == 12 || b == 11

unfoldable pub trim_start : List ℕ → List ℕ
trim_start [] = []
trim_start (b ∷ s) = if is_space b then trim_start s else b ∷ s

abbrev pub trim_cons : ℕ → List ℕ → List ℕ
trim_cons b [] = if is_space b then [] else b ∷ []
trim_cons b (c ∷ s) = b ∷ c ∷ s

unfoldable pub trim_end : List ℕ → List ℕ
trim_end [] = []
trim_end (b ∷ s) = trim_cons b (trim_end s)

-- `trimSpace`
unfoldable pub trim_space : List ℕ → List ℕ
unfolding trim_start trim_end
trim_space s = trim_end (trim_start s)

abbrev pub push_statement : List ℕ → List (List ℕ) → List (List ℕ)
push_statement [] out = out
push_statement (c ∷ stmt) out = out ++ (c ∷ stmt) ∷ []

unfoldable pub emit : Scan → Scan
unfolding trim_space
emit s = record s { out = push_statement (trim_space s.buf) s.out; buf = [] }

abbrev pub keep : Scan → ℕ → Mode → Scan
keep s r m = record s { buf = s.buf ++ r ∷ []; mode = m }

abbrev pub keep_two : Scan → ℕ → ℕ → Mode → Scan
keep_two s r next m = record s { buf = s.buf ++ r ∷ next ∷ []; mode = m; skip = true }

-- One round of the loop. `next` is 0 at the end of the script.
unfoldable pub step : Mode → Scan → ℕ → ℕ → Scan
unfolding emit
step in_line s r next = keep s r (if r == b'\n' then plain else in_line)
step in_block s r next =
    if r == b'*' && next == b'/' then keep_two s r next plain else keep s r in_block
step in_single s r next = keep s r (if r == b'\'' then plain else in_single)
step in_double s r next = keep s r (if r == b'"' then plain else in_double)
step in_back s r next = keep s r (if r == b'`' then plain else in_back)
step plain s r next =
    if r == b'-' && next == b'-'
    then keep_two s r next in_line
    else if r == b'/' && next == b'*'
    then keep_two s r next in_block
    else if r == b'\''
    then keep s r in_single
    else if r == b'"'
    then keep s r in_double
    else if r == b'`'
    then keep s r in_back
    else if r == b';'
    then emit s
    else keep s r plain

abbrev pub peek : List ℕ → ℕ
peek [] = 0
peek (r ∷ rest) = r

unfoldable pub advance : Scan → ℕ → ℕ → Scan
unfolding step
advance s r next = if s.skip then record s { skip = false } else step s.mode s r next

unfoldable pub run : Scan → List ℕ → Scan
unfolding advance
run s [] = s
run s (r ∷ rest) = run (advance s r (peek rest)) rest

abbrev pub start : Scan
start = record { mode = plain; buf = []; out = []; skip = false }

-- `splitSQL`
unfoldable pub split_sql : List ℕ → List (List ℕ)
unfolding run emit
split_sql script = (emit (run start script)).out
