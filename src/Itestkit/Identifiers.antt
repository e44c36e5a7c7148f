-- ===== src/Itestkit/Identifiers.antt =====
-- itestkit/cleanup.go: `quoteIdentifier` and the statement of `TruncatePostgres`, over the runes of
-- the names, against SQL's rule for reading quoted identifiers.
use aeternixth_go_lib.Prelude.{
  ℕ, Bool, true, false, ◌==◌, List, [], ◌∷◌, ◌++◌, Option, none, some, ◌≡◌, ◌≢◌, refl, arith,
  if◌then◌else◌, codes, append_assoc, ap, ◌∙◌,
}

-- `strings.ReplaceAll(s, "\"", "\"\"")`
unfoldable pub doubled : List ℕ → List ℕ
doubled [] = []
doubled (c ∷ s) = if c == b'"' then b'"' ∷ b'"' ∷ doubled s else c ∷ doubled s

-- `quoteIdentifier`
unfoldable pub quote_identifier : List ℕ → List ℕ
unfolding doubled
quote_identifier s = b'"' ∷ (doubled s ++ b'"' ∷ [])

-- `strings.Join(parts, ", ")`, on the quoted names
unfoldable pub join_quoted : List (List ℕ) → List ℕ
unfolding quote_identifier
join_quoted [] = []
join_quoted (t ∷ []) = quote_identifier t
join_quoted (t ∷ u ∷ tables) = quote_identifier t ++ b',' ∷ b' ' ∷ join_quoted (u ∷ tables)

-- The statement that `TruncatePostgres` executes, if any
unfoldable pub truncate_statement : List (List ℕ) → Option (List ℕ)
unfolding join_quoted
truncate_statement [] = none
truncate_statement (t ∷ tables) =
    some (codes "TRUNCATE " ++ (join_quoted (t ∷ tables) ++ codes " RESTART IDENTITY CASCADE"))

abbrev pub held_rune : ℕ → Option (List ℕ × List ℕ) → Option (List ℕ × List ℕ)
held_rune c none = none
held_rune c (some (name, rest)) = some (c ∷ name, rest)

-- SQL behind an opening quote: two quotes stand for one, and a single one ends the identifier. What
-- is read, with the text behind it; the flag says that a quote was just read.
unfoldable pub read_quoted : Bool → List ℕ → Option (List ℕ × List ℕ)
read_quoted true [] = some ([], [])
read_quoted false [] = none
read_quoted true (c ∷ text) =
    if c == b'"' then held_rune b'"' (read_quoted false text) else some ([], c ∷ text)
read_quoted false (c ∷ text) =
    if c == b'"' then read_quoted true text else held_rune c (read_quoted false text)

unfoldable pub read_identifier : List ℕ → Option (List ℕ × List ℕ)
unfolding read_quoted
read_identifier [] = none
read_identifier (c ∷ text) = if c == b'"' then read_quoted false text else none

-- A list of quoted identifiers with ", " between them, and the text behind it.
pub data Names : List ℕ → List (List ℕ) → List ℕ → Type 0 where
  one : {text rest t : List ℕ} → read_identifier text ≡ some (t, rest) → Names text (t ∷ []) rest
  more :
      {text text' rest t : List ℕ} {tables : List (List ℕ)}
      → read_identifier text ≡ some (t, b',' ∷ b' ' ∷ text')
      → Names text' tables rest
      → Names text (t ∷ tables) rest

read_quoted-doubled :
    (s rest : List ℕ) (d : ℕ)
    → d ≢ b'"'
    → read_quoted false (doubled s ++ b'"' ∷ d ∷ rest) ≡ some (s, d ∷ rest)
unfolding read_quoted doubled
read_quoted-doubled [] rest d h = ground arith
read_quoted-doubled (c ∷ s) rest d h = ground (arith, read_quoted-doubled s rest d h)

read_identifier-quote_identifier :
    (s rest : List ℕ) (d : ℕ)
    → d ≢ b'"'
    → read_identifier (quote_identifier s ++ d ∷ rest) ≡ some (s, d ∷ rest)
unfolding read_identifier quote_identifier
read_identifier-quote_identifier s rest d h =
    rw (append_assoc (doubled s) (b'"' ∷ []) (d ∷ rest)) (read_quoted-doubled s rest d h)

read-Names :
    (t : List ℕ) (tables : List (List ℕ)) (rest : List ℕ) (d : ℕ)
    → d ≢ b'"'
    → Names (join_quoted (t ∷ tables) ++ d ∷ rest) (t ∷ tables) (d ∷ rest)
unfolding join_quoted
read-Names t [] rest d h = one (read_identifier-quote_identifier t rest d h)
read-Names t (u ∷ tables) rest d h =
    more
      (ap read_identifier
          (append_assoc (quote_identifier t) (b',' ∷ b' ' ∷ join_quoted (u ∷ tables)) (d ∷ rest))
        ∙ read_identifier-quote_identifier t _ b',' (omega arith))
      (read-Names u tables rest d h)

-- Whatever runes the names of one or more tables have, by SQL's rule for quoted identifiers the
-- statement of TruncatePostgres is a TRUNCATE of exactly these tables, with RESTART IDENTITY
-- CASCADE behind them.
pub truncate_statement-Names :
    (t : List ℕ) (tables : List (List ℕ))
    → (text : List ℕ) × (truncate_statement (t ∷ tables) ≡ some (codes "TRUNCATE " ++ text))
      × Names text (t ∷ tables) (codes " RESTART IDENTITY CASCADE")
unfolding truncate_statement
truncate_statement-Names t tables =
    (_, refl, read-Names t tables (codes "RESTART IDENTITY CASCADE") b' ' (omega arith))
