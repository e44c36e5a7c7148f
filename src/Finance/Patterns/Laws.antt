-- ===== src/Finance/Patterns/Laws.antt =====
-- What the patterns for amounts and for UUIDs accept.
use aeternixth_go_lib.Prelude.{
  ℕ, ◌≤◌, ◌<◌, List, [], ◌∷◌, ◌++◌, true, ◌≡◌, ◌⊎◌, inl, inr, ◌↔◌, arith, refl, ◌==◌, ap, sym, ◌∙◌,
  length, ==_iff, append-nil,
}
use mathlib.Core.Path.{subst}
use aeternixth_go_lib.Prelude.Regex.{
  Regex, class, seq, repeat, at_most, Language, match_string, match_string_iff,
}
use aeternixth_go_lib.Prelude.Regex.Classes.{
  Within, plus_class_iff, at_most_class_iff, repeat_class_iff, first_of_class,
}
use aeternixth_go_lib.Finance.Patterns.{is_digit, is_hex, literal, amount_pattern, uuid_pattern}

-- Digits, or digits, a point and one to six digits.
abbrev pub IsAmount : List ℕ → Type 0
IsAmount s =
    (whole : List ℕ) × (fraction : List ℕ) × (0 < length whole)
    × Within is_digit whole
    × ((s ≡ whole)
        ⊎ ((s ≡ whole ++ b'.' ∷ fraction)
            × (0 < length fraction)
            × (length fraction ≤ 6)
            × Within is_digit fraction))

literal_seq :
    (c : ℕ) (q : Regex) (s : List ℕ)
    → Language (seq (literal c) q) s
    → (t : List ℕ) × (s ≡ c ∷ t) × Language q t
literal_seq c q s l =
    let (d, t, e, h, k) = first_of_class (λ d. d == c) q s l in
    (t, e ∙ ap (λ (x : ℕ). x ∷ t) ((==_iff d c).0 h), k)

literal_lem : (c : ℕ) → Language (literal c) (c ∷ [])
literal_lem c = (c, refl, (==_iff c c).1 refl)

IsAmount-sound : (s : List ℕ) → Language amount_pattern s → IsAmount s
unfolding amount_pattern
IsAmount-sound s (a, b, e, l, inl n) =
    let (long, digits) = (plus_class_iff is_digit a).0 l in
    (a, [], long, digits, inl (e ∙ ap (λ (x : List ℕ). a ++ x) n ∙ append-nil a))
IsAmount-sound s (a, b, e, l, inr m) =
    let (long, digits) = (plus_class_iff is_digit a).0 l in
    let (t, point, k) = literal_seq b'.' (seq (class is_digit) (at_most 5 (class is_digit))) b m in
    let (d, u, first, h, j) = first_of_class is_digit (at_most 5 (class is_digit)) t k in
    let (short, digits') = (at_most_class_iff is_digit 5 u).0 j in
    (
      a,
      d ∷ u,
      long,
      digits,
      inr (
        e ∙ ap (λ (x : List ℕ). a ++ x) (point ∙ ap (λ (x : List ℕ). b'.' ∷ x) first),
        omega arith,
        omega arith,
        (h, digits'),
      ),
    )

IsAmount-complete : (s : List ℕ) → IsAmount s → Language amount_pattern s
unfolding amount_pattern
IsAmount-complete s (a, f, long, digits, inl e) =
    (a, [], e ∙ sym (append-nil a), (plus_class_iff is_digit a).1 (long, digits), inl refl)
IsAmount-complete s (a, [], long, digits, inr (e, some_digit, short, w)) = absurd (omega arith)
IsAmount-complete s (a, d ∷ u, long, digits, inr (e, some_digit, short, (h, w))) = (
  a,
  b'.' ∷ d ∷ u,
  e,
  (plus_class_iff is_digit a).1 (long, digits),
  inr (
    b'.' ∷ [],
    d ∷ u,
    refl,
    literal_lem b'.',
    (d ∷ [], u, refl, (d, refl, h), (at_most_class_iff is_digit 5 u).1 (omega arith, w)),
  ),
)

pub amount_pattern_iff : (s : List ℕ) → (match_string amount_pattern s ≡ true) ↔ IsAmount s
amount_pattern_iff s = (
  λ h. IsAmount-sound s ((match_string_iff amount_pattern s).0 h),
  λ h. (match_string_iff amount_pattern s).1 (IsAmount-complete s h),
)

-- A group of a UUID.
abbrev pub IsGroup : ℕ → List ℕ → Type 0
IsGroup n s = (length s ≡ n) × Within is_hex s

-- Groups of 8, 4, 4, 4 and 12 hexadecimal digits, with dashes between them.
abbrev pub IsUuid : List ℕ → Type 0
IsUuid s =
    (a : List ℕ) × (b : List ℕ) × (c : List ℕ) × (d : List ℕ) × (e : List ℕ) × (s
      ≡ a ++ b'-' ∷ (b ++ b'-' ∷ (c ++ b'-' ∷ (d ++ b'-' ∷ e))))
    × IsGroup 8 a
    × IsGroup 4 b
    × IsGroup 4 c
    × IsGroup 4 d
    × IsGroup 12 e

-- A group, a dash and what follows.
abbrev dashed : ℕ → Regex → Regex
dashed n q = seq (repeat n (class is_hex)) (seq (literal b'-') q)

dashed_sound :
    (n : ℕ) (q : Regex) (s : List ℕ)
    → Language (dashed n q) s
    → (a : List ℕ) × (t : List ℕ) × (s ≡ a ++ b'-' ∷ t) × IsGroup n a × Language q t
dashed_sound n q s (a, b, e, l, m) =
    let (t, dash, k) = literal_seq b'-' q b m in
    (a, t, e ∙ ap (λ (x : List ℕ). a ++ x) dash, (repeat_class_iff is_hex n a).0 l, k)

dashed_complete :
    (n : ℕ) (q : Regex) (a t : List ℕ)
    → IsGroup n a
    → Language q t
    → Language (dashed n q) (a ++ b'-' ∷ t)
dashed_complete n q a t g k = (
  a,
  b'-' ∷ t,
  refl,
  (repeat_class_iff is_hex n a).1 g,
  (b'-' ∷ [], t, refl, literal_lem b'-', k),
)

abbrev last_group : Regex
last_group = repeat 12 (class is_hex)

abbrev after_dash : List ℕ → List ℕ → List ℕ
after_dash a t = a ++ b'-' ∷ t

IsUuid-sound : (s : List ℕ) → Language uuid_pattern s → IsUuid s
unfolding uuid_pattern
IsUuid-sound s l =
    let (a, t, p, ga, l1) = dashed_sound 8 (dashed 4 (dashed 4 (dashed 4 last_group))) s l in
    let (b, u, q, gb, l2) = dashed_sound 4 (dashed 4 (dashed 4 last_group)) t l1 in
    let (c, v, r, gc, l3) = dashed_sound 4 (dashed 4 last_group) u l2 in
    let (d, e, o, gd, l4) = dashed_sound 4 last_group v l3 in
    (
      a,
      b,
      c,
      d,
      e,
      p ∙ ap (after_dash a) (q ∙ ap (after_dash b) (r ∙ ap (after_dash c) o)),
      ga,
      gb,
      gc,
      gd,
      (repeat_class_iff is_hex 12 e).0 l4,
    )

IsUuid-complete : (s : List ℕ) → IsUuid s → Language uuid_pattern s
unfolding uuid_pattern
IsUuid-complete s (a, b, c, d, e, p, ga, gb, gc, gd, ge) =
    subst (Language (dashed 8 (dashed 4 (dashed 4 (dashed 4 last_group))))) (sym p) (
      dashed_complete 8 (dashed 4 (dashed 4 (dashed 4 last_group))) a
        (after_dash b (after_dash c (after_dash d e))) ga
        (dashed_complete 4 (dashed 4 (dashed 4 last_group)) b (after_dash c (after_dash d e)) gb (
          dashed_complete 4 (dashed 4 last_group) c (after_dash d e) gc
            (dashed_complete 4 last_group d e gd ((repeat_class_iff is_hex 12 e).1 ge)))))

pub uuid_pattern_iff : (s : List ℕ) → (match_string uuid_pattern s ≡ true) ↔ IsUuid s
uuid_pattern_iff s = (
  λ h. IsUuid-sound s ((match_string_iff uuid_pattern s).0 h),
  λ h. (match_string_iff uuid_pattern s).1 (IsUuid-complete s h),
)
