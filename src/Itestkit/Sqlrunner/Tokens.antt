-- ===== src/Itestkit/Sqlrunner/Tokens.antt =====
-- What a semicolon of a script means to SQL: it ends a statement outside quotes and comments. The
-- splitter of itestkit/internal/sqlrunner/clickhouse.go against this grammar.
use aeternixth_go_lib.Prelude.{
  ℕ, false, ◌&&◌, ◌||◌, List, [], ◌∷◌, ◌++◌, ◌==◌, ◌≡◌, ◌≢◌, refl, ◌∙◌, ap, sym, arith, map,
  append_assoc, append-nil, All,
}
use aeternixth_go_lib.Itestkit.Sqlrunner.{
  Mode, plain, in_single, in_double, in_back, in_line, in_block, Scan, push_statement, trim_space,
  peek, emit, run, split_sql,
}
use aeternixth_go_lib.Itestkit.Sqlrunner.Pieces.{join_onto, statements, push-append}

-- A plain rune, a quoted text without its quote, or a comment without its end.
pub data Token : Type 0 where
  rune : ℕ → Token
  single double back line block : List ℕ → Token

abbrev pub render : List Token → List ℕ
render [] = []
render (rune c ∷ ts) = c ∷ render ts
render (single body ∷ ts) = b'\'' ∷ (body ++ b'\'' ∷ render ts)
render (double body ∷ ts) = b'"' ∷ (body ++ b'"' ∷ render ts)
render (back body ∷ ts) = b'`' ∷ (body ++ b'`' ∷ render ts)
render (line body ∷ ts) = b'-' ∷ b'-' ∷ (body ++ b'\n' ∷ render ts)
render (block body ∷ ts) = b'/' ∷ b'*' ∷ (body ++ b'*' ∷ b'/' ∷ render ts)

abbrev Lacks : ℕ → List ℕ → Type 0
Lacks q = All (λ c. c ≢ q)

-- No end of a block comment.
abbrev pub NoClose : List ℕ → Type 0
NoClose [] = Unit
NoClose (c ∷ s) = ((c == b'*' && peek s == b'/') ≡ false) × NoClose s

-- A rune that opens nothing and ends nothing, with what follows it.
abbrev pub IsPlain : ℕ → ℕ → Type 0
IsPlain c next =
    ((c == b'\'' || c == b'"' || c == b'`' || c == b';') ≡ false)
    × ((c == b'-' && next == b'-') ≡ false)
    × ((c == b'/' && next == b'*') ≡ false)

abbrev pub IsScript : List Token → Type 0
IsScript [] = Unit
IsScript (rune c ∷ ts) = IsPlain c (peek (render ts)) × IsScript ts
IsScript (single body ∷ ts) = Lacks b'\'' body × IsScript ts
IsScript (double body ∷ ts) = Lacks b'"' body × IsScript ts
IsScript (back body ∷ ts) = Lacks b'`' body × IsScript ts
IsScript (line body ∷ ts) = Lacks b'\n' body × IsScript ts
IsScript (block body ∷ ts) = NoClose body × IsScript ts

abbrev at : Mode → List ℕ → List (List ℕ) → Scan
at m buf out = record { mode = m; buf = buf; out = out; skip = false }

module _ (out : List (List ℕ)) (rest : List ℕ) where
  run-single :
      (body buf : List ℕ)
      → Lacks b'\'' body
      → run (at in_single buf out) (body ++ b'\'' ∷ rest)
        ≡ run (at plain (buf ++ (body ++ b'\'' ∷ [])) out) rest
  unfolding run
  run-single [] buf h = refl
  run-single (c ∷ body) buf (p, h) =
      ground
        (arith, run-single body (buf ++ c ∷ []) h, append_assoc buf (c ∷ []) (body ++ b'\'' ∷ []))

  run-double :
      (body buf : List ℕ)
      → Lacks b'"' body
      → run (at in_double buf out) (body ++ b'"' ∷ rest)
        ≡ run (at plain (buf ++ (body ++ b'"' ∷ [])) out) rest
  unfolding run
  run-double [] buf h = refl
  run-double (c ∷ body) buf (p, h) =
      ground
        (arith, run-double body (buf ++ c ∷ []) h, append_assoc buf (c ∷ []) (body ++ b'"' ∷ []))

  run-back :
      (body buf : List ℕ)
      → Lacks b'`' body
      → run (at in_back buf out) (body ++ b'`' ∷ rest)
        ≡ run (at plain (buf ++ (body ++ b'`' ∷ [])) out) rest
  unfolding run
  run-back [] buf h = refl
  run-back (c ∷ body) buf (p, h) =
      ground (arith, run-back body (buf ++ c ∷ []) h, append_assoc buf (c ∷ []) (body ++ b'`' ∷ []))

  run-line :
      (body buf : List ℕ)
      → Lacks b'\n' body
      → run (at in_line buf out) (body ++ b'\n' ∷ rest)
        ≡ run (at plain (buf ++ (body ++ b'\n' ∷ [])) out) rest
  unfolding run
  run-line [] buf h = refl
  run-line (c ∷ body) buf (p, h) =
      ground
        (arith, run-line body (buf ++ c ∷ []) h, append_assoc buf (c ∷ []) (body ++ b'\n' ∷ []))

  run-block :
      (body buf : List ℕ)
      → NoClose body
      → run (at in_block buf out) (body ++ b'*' ∷ b'/' ∷ rest)
        ≡ run (at plain (buf ++ (body ++ b'*' ∷ b'/' ∷ [])) out) rest
  unfolding run
  run-block [] buf h = refl
  run-block (c ∷ []) buf (p, h) =
      ground (arith, run-block [] (buf ++ c ∷ []) h, append_assoc buf (c ∷ []) (b'*' ∷ b'/' ∷ []))
  run-block (c ∷ d ∷ body) buf (p, h) = ground (
    arith,
    run-block (d ∷ body) (buf ++ c ∷ []) h,
    append_assoc buf (c ∷ []) (d ∷ body ++ b'*' ∷ b'/' ∷ []),
  )

  run-rune :
      (c : ℕ) (buf text : List ℕ)
      → IsPlain c (peek text)
      → run (at plain buf out) (c ∷ text) ≡ run (at plain (buf ++ c ∷ []) out) text
  unfolding run
  run-rune c buf text h = ground arith

-- The text cannot continue a token that ends before it.
abbrev IsBreak : List ℕ → Type 0
IsBreak rest = (peek rest ≢ b'-') × (peek rest ≢ b'*')

peek-append :
    (ts : List Token) (c : ℕ) (rest : List ℕ)
    → IsPlain c (peek (render ts))
    → IsBreak rest
    → IsPlain c (peek (render ts ++ rest))
peek-append [] c rest h b = ground arith
peek-append (rune d ∷ ts) c rest h b = h
peek-append (single _ ∷ ts) c rest h b = h
peek-append (double _ ∷ ts) c rest h b = h
peek-append (back _ ∷ ts) c rest h b = h
peek-append (line _ ∷ ts) c rest h b = h
peek-append (block _ ∷ ts) c rest h b = h

-- One token with delimiters `l` and `r`, read in its own mode, and then what follows.
enclosed :
    (l body r tail rest buf : List ℕ) (out : List (List ℕ))
    → run (at plain (((buf ++ l) ++ (body ++ r)) ++ tail) out) rest
      ≡ run (at plain (buf ++ (l ++ (body ++ (r ++ tail)))) out) rest
enclosed l body r tail rest buf out = simp append_assoc

run-render :
    (out : List (List ℕ)) (ts : List Token) (buf rest : List ℕ)
    → IsScript ts
    → IsBreak rest
    → run (at plain buf out) (render ts ++ rest) ≡ run (at plain (buf ++ render ts) out) rest
unfolding run
run-render out [] buf rest h b = rw append-nil
run-render out (rune c ∷ ts) buf rest (p, h) b =
    run-rune out rest c buf (render ts ++ rest) (peek-append ts c rest p b)
    ∙ run-render out ts (buf ++ c ∷ []) rest h b
    ∙ rw append_assoc
run-render out (single body ∷ ts) buf rest (p, h) b =
    ap (run (at in_single (buf ++ b'\'' ∷ []) out)) (append_assoc body (b'\'' ∷ render ts) rest)
    ∙ run-single out (render ts ++ rest) body (buf ++ b'\'' ∷ []) p
    ∙ run-render out ts ((buf ++ b'\'' ∷ []) ++ (body ++ b'\'' ∷ [])) rest h b
    ∙ enclosed (b'\'' ∷ []) body (b'\'' ∷ []) (render ts) rest buf out
run-render out (double body ∷ ts) buf rest (p, h) b =
    ap (run (at in_double (buf ++ b'"' ∷ []) out)) (append_assoc body (b'"' ∷ render ts) rest)
    ∙ run-double out (render ts ++ rest) body (buf ++ b'"' ∷ []) p
    ∙ run-render out ts ((buf ++ b'"' ∷ []) ++ (body ++ b'"' ∷ [])) rest h b
    ∙ enclosed (b'"' ∷ []) body (b'"' ∷ []) (render ts) rest buf out
run-render out (back body ∷ ts) buf rest (p, h) b =
    ap (run (at in_back (buf ++ b'`' ∷ []) out)) (append_assoc body (b'`' ∷ render ts) rest)
    ∙ run-back out (render ts ++ rest) body (buf ++ b'`' ∷ []) p
    ∙ run-render out ts ((buf ++ b'`' ∷ []) ++ (body ++ b'`' ∷ [])) rest h b
    ∙ enclosed (b'`' ∷ []) body (b'`' ∷ []) (render ts) rest buf out
run-render out (line body ∷ ts) buf rest (p, h) b =
    ap (run (at in_line (buf ++ b'-' ∷ b'-' ∷ []) out)) (append_assoc body (b'\n' ∷ render ts) rest)
    ∙ run-line out (render ts ++ rest) body (buf ++ b'-' ∷ b'-' ∷ []) p
    ∙ run-render out ts ((buf ++ b'-' ∷ b'-' ∷ []) ++ (body ++ b'\n' ∷ [])) rest h b
    ∙ enclosed (b'-' ∷ b'-' ∷ []) body (b'\n' ∷ []) (render ts) rest buf out
run-render out (block body ∷ ts) buf rest (p, h) b =
    ap (run (at in_block (buf ++ b'/' ∷ b'*' ∷ []) out))
      (append_assoc body (b'*' ∷ b'/' ∷ render ts) rest)
    ∙ run-block out (render ts ++ rest) body (buf ++ b'/' ∷ b'*' ∷ []) p
    ∙ run-render out ts ((buf ++ b'/' ∷ b'*' ∷ []) ++ (body ++ b'*' ∷ b'/' ∷ [])) rest h b
    ∙ enclosed (b'/' ∷ b'*' ∷ []) body (b'*' ∷ b'/' ∷ []) (render ts) rest buf out

cut :
    (seg : List Token) (out : List (List ℕ)) (text : List ℕ)
    → (emit (run (at plain (render seg) out) (b';' ∷ text))).out
      ≡ (emit (run (at plain [] (push_statement (trim_space (render seg)) out)) text)).out
unfolding run
cut seg out text = refl

run-segments :
    (segments : List (List Token)) (last : List Token) (out : List (List ℕ))
    → All IsScript segments
    → IsScript last
    → (emit (run (at plain [] out) (join_onto (map render segments) (render last)))).out
      ≡ out ++ statements (map render segments ++ render last ∷ [])
run-segments [] last out h k =
    ap (λ text. (emit (run (at plain [] out) text)).out) (sym (append-nil (render last)))
    ∙ ap (λ s. (emit s).out) (run-render out last [] [] k (omega arith))
    ∙ unfold run emit in rw append-nil (push-append (trim_space (render last)) out)
run-segments (seg ∷ segments) last out (p, h) k =
    let text = join_onto (map render segments) (render last) in
    let out' = push_statement (trim_space (render seg)) out in
    ap (λ s. (emit s).out) (run-render out seg [] (b';' ∷ text) p (omega arith))
    ∙ cut seg out text
    ∙ run-segments segments last out' h k
    ∙ rw (push-append (trim_space (render seg)) out) (
        append_assoc out (push_statement (trim_space (render seg)) [])
          (statements (map render segments ++ render last ∷ [])))

-- A script of statements of SQL tokens with semicolons between them is split into exactly these
-- statements, trimmed, without the blank ones: a semicolon in quotes or in a comment splits
-- nothing, and every other one does.
pub split_sql_tokens :
    (segments : List (List Token)) (last : List Token)
    → All IsScript segments
    → IsScript last
    → split_sql (join_onto (map render segments) (render last))
      ≡ statements (map render segments ++ render last ∷ [])
unfolding split_sql
split_sql_tokens segments last h k = run-segments segments last [] h k
