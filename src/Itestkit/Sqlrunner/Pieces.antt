-- ===== src/Itestkit/Sqlrunner/Pieces.antt =====
-- The statements of the splitter are the trimmed pieces of the script between some semicolons.
use aeternixth_go_lib.Prelude.{
  ℕ, Bool, true, false, List, [], ◌∷◌, ◌++◌, ◌≡◌, ◌⊎◌, refl, ◌∙◌, ap, sym, arith, append_assoc,
  append-nil, Bool-cases, inl, inr,
}
use mathlib.Core.List.{tail}
use aeternixth_go_lib.Itestkit.Sqlrunner.{
  Mode, plain, Scan, trim_space, push_statement, emit, step, peek, advance, run, start, split_sql,
}

-- The pieces with a semicolon behind each, and then the last one.
abbrev pub join_onto : List (List ℕ) → List ℕ → List ℕ
join_onto [] last = last
join_onto (piece ∷ pieces) last = piece ++ b';' ∷ join_onto pieces last

-- The pieces that are not blank, trimmed.
abbrev pub statements : List (List ℕ) → List (List ℕ)
statements [] = []
statements (piece ∷ pieces) = push_statement (trim_space piece) [] ++ statements pieces

-- What is still to be read.
abbrev unread : Bool → List ℕ → List ℕ
unread true text = tail text
unread false text = text

record Divides (s t : Scan) (text : List ℕ) : Type 0 where
  pieces : List (List ℕ)
  joined : s.buf ++ unread s.skip text ≡ join_onto pieces t.buf
  listed : t.out ≡ s.out ++ statements pieces

-- Either the runes taken go to the buffer, or a piece ends at a semicolon.
step-cases :
    (m : Mode) (s : Scan) (r : ℕ) (rest : List ℕ)
    → s.skip ≡ false
    → (((step m s r (peek rest)).out ≡ s.out)
        × ((step m s r (peek rest)).buf ++ unread (step m s r (peek rest)).skip rest
            ≡ s.buf ++ r ∷ rest))
      ⊎ ((r ≡ b';') × (step m s r (peek rest) ≡ emit s))
unfolding step
step-cases plain s r [] h = ground (arith, append_assoc s.buf (r ∷ []) [])
step-cases _ s r [] h = ground (arith, append_assoc s.buf (r ∷ []) [])
step-cases _ s r (n ∷ rest) h =
    ground (arith, append_assoc s.buf (r ∷ []) (n ∷ rest), append_assoc s.buf (r ∷ n ∷ []) rest)

pub push-append :
    (stmt : List ℕ) (out : List (List ℕ)) → push_statement stmt out ≡ out ++ push_statement stmt []
push-append [] out = sym (append-nil out)
push-append (c ∷ stmt) out = refl

Divides-keep :
    (s s' t : Scan) (r : ℕ) (rest : List ℕ)
    → s.skip ≡ false
    → s'.out ≡ s.out
    → s'.buf ++ unread s'.skip rest ≡ s.buf ++ r ∷ rest
    → Divides s' t rest
    → Divides s t (r ∷ rest)
Divides-keep s s' t r rest h o b d = record {
  pieces = d.pieces;
  joined = rw h (sym b ∙ d.joined);
  listed = rw (← o) d.listed;
}

Divides-cut :
    (s t : Scan) (rest : List ℕ)
    → s.skip ≡ false
    → Divides (emit s) t rest
    → Divides s t (b';' ∷ rest)
unfolding emit
Divides-cut s t rest h d = record {
  pieces = s.buf ∷ d.pieces;
  joined = rw h (ap (λ u. s.buf ++ b';' ∷ u) (rw h at d.joined));
  listed =
      d.listed
      ∙ rw (push-append (trim_space s.buf) s.out)
          (append_assoc s.out (push_statement (trim_space s.buf) []) (statements d.pieces));
}

Divides-skip :
    (s t : Scan) (r : ℕ) (rest : List ℕ)
    → s.skip ≡ true
    → Divides (record s { skip = false }) t rest
    → Divides s t (r ∷ rest)
Divides-skip s t r rest h d = record {
  pieces = d.pieces;
  joined = rw h d.joined;
  listed = d.listed;
}

advance_skip :
    (s : Scan) (r next : ℕ) → s.skip ≡ true → advance s r next ≡ record s { skip = false }
unfolding advance
advance_skip s r next h = ground arith

advance_read : (s : Scan) (r next : ℕ) → s.skip ≡ false → advance s r next ≡ step s.mode s r next
unfolding advance
advance_read s r next h = ground arith

Divides-nil : (s : Scan) → Divides s s []
Divides-nil s = record {
  pieces = [];
  joined = elim s.skip as (λ b. s.buf ++ unread b [] ≡ s.buf) [
    | true ↦ append-nil s.buf
    | false ↦ append-nil s.buf
  ];
  listed = sym (append-nil s.out);
}

run-Divides : (text : List ℕ) (s : Scan) → Divides s (run s text) text
unfolding run
run-Divides [] s = Divides-nil s
run-Divides (r ∷ rest) s = elim (Bool-cases s.skip) [
  | inl skipped ↦
      rw (advance_skip s r (peek rest) skipped)
        (Divides-skip s _ r rest skipped (run-Divides rest (record s { skip = false })))
  | inr read ↦ elim (step-cases s.mode s r rest read) [
    | inl (o, b) ↦
        let s' = step s.mode s r (peek rest) in
        rw (advance_read s r (peek rest) read)
          (Divides-keep s s' _ r rest read o b (run-Divides rest s'))
    | inr (semi, e) ↦
        rw (advance_read s r (peek rest) read, e, semi)
          (Divides-cut s _ rest read (run-Divides rest (emit s)))
  ]
]

pub statements-append :
    (ps qs : List (List ℕ)) → statements (ps ++ qs) ≡ statements ps ++ statements qs
statements-append [] qs = refl
statements-append (p ∷ ps) qs =
    rw (statements-append ps qs)
      (sym (append_assoc (push_statement (trim_space p) []) (statements ps) (statements qs)))

-- For every script the statements are the pieces of the script between some of its semicolons,
-- trimmed, without the blank ones: no rune is lost, changed or moved.
pub split_sql_pieces :
    (script : List ℕ)
    → (pieces : List (List ℕ)) × (last : List ℕ) × (script ≡ join_onto pieces last)
      × (split_sql script ≡ statements (pieces ++ last ∷ []))
unfolding split_sql emit
split_sql_pieces script =
    let d = run-Divides script start in
    (
      d.pieces,
      (run start script).buf,
      d.joined,
      push-append (trim_space (run start script).buf) (run start script).out
          ∙ rw (d.listed, statements-append)
              (ap (λ u. statements d.pieces ++ u)
                (sym (append-nil (push_statement (trim_space (run start script).buf) [])))),
    )
