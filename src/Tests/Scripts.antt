-- ===== src/Tests/Scripts.antt =====
-- The SQL splitter at concrete scripts.
use aeternixth_go_lib.Prelude.{ℕ, List, some, [], ◌∷◌, ◌++◌, ◌≡◌, refl, arith, map, codes}
use aeternixth_go_lib.Itestkit.Identifiers.{truncate_statement, Names, truncate_statement-Names}
use aeternixth_go_lib.Itestkit.Sqlrunner.{split_sql, run, step, emit, trim_space}
use aeternixth_go_lib.Itestkit.Sqlrunner.Pieces.{join_onto, statements, split_sql_pieces}
use aeternixth_go_lib.Itestkit.Sqlrunner.Tokens.{
  Token, rune, single, line, render, split_sql_tokens,
}

abbrev script : List ℕ
script = codes "A '; ';\n-- c;\nB; ;"

split_sql-script : split_sql script ≡ codes "A '; '" ∷ codes "-- c;\nB" ∷ []
unfolding split_sql run step emit trim_space
split_sql-script = refl

split_sql_pieces_example :
    (pieces : List (List ℕ)) × (last : List ℕ) × (script ≡ join_onto pieces last)
    × (split_sql script ≡ statements (pieces ++ last ∷ []))
split_sql_pieces_example = split_sql_pieces script

abbrev first : List Token
first = rune b'A' ∷ single (b';' ∷ []) ∷ []

abbrev second : List Token
second = line (codes " c;") ∷ rune b'B' ∷ []

split_sql_tokens_example :
    split_sql (join_onto (map render (first ∷ [])) (render second))
    ≡ statements (map render (first ∷ []) ++ render second ∷ [])
split_sql_tokens_example = split_sql_tokens (first ∷ []) second (ground arith) (ground arith)

truncate_statement-Names_example :
    (text : List ℕ) × (truncate_statement (codes "a\"; --" ∷ codes "b" ∷ [])
      ≡ some (codes "TRUNCATE " ++ text))
    × Names text (codes "a\"; --" ∷ codes "b" ∷ []) (codes " RESTART IDENTITY CASCADE")
truncate_statement-Names_example = truncate_statement-Names (codes "a\"; --") (codes "b" ∷ [])
