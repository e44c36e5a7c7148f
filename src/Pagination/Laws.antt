-- ===== src/Pagination/Laws.antt =====
-- The pages of a listing cover it (pagination/pagination.go).
use aeternixth_go_lib.Prelude.{
  ℕ, suc, ◌+◌, ◌-◌, ◌*◌, ◌/◌, ◌%◌, ◌^◌, ◌≤◌, ◌<◌, ◌≡◌, ◌==◌, true, false, if◌then◌else◌, arith,
  refl,
}
use native.Mathlib.Nat.{
  mod-eq_of_lt, div-le_self, le-div_iff_mul-le, div-lt_iff_lt-mul, div-add-mod', mod-lt,
  mul-le-mul_right, suc-mul, le-mul_of_pos_right,
}
use aeternixth_go_lib.Prelude.Words.{
  IsNatural, add_words, mul_words, mul_words-exact, quotient_natural, remainder_natural,
}
use aeternixth_go_lib.Pagination.{calculate_offset, calculate_total_pages}

total_pages_lem :
    (total limit : ℕ)
    → IsNatural total
    → IsNatural limit
    → 1 ≤ limit
    → calculate_total_pages total limit
      ≡ (if total % limit == 0 then total / limit else total / limit + 1)
unfolding calculate_total_pages add_words
total_pages_lem total limit h k l =
    rw (quotient_natural total limit h k, remainder_natural total limit h k)
      (ground (
        arith,
        mod-lt total {m = limit} l,
        div-le_self total limit,
        mod-eq_of_lt {n = total / limit + 1} {m = 2 ^ 64} (omega (arith, div-le_self total limit)),
      ))

less_one : (p : ℕ) → p < 2 ^ 63 → (suc p + (2 ^ 64 - 1)) % 2 ^ 64 ≡ p
less_one p h = omega arith

offset_lem :
    (p limit : ℕ) → p < 2 ^ 63 → p * limit < 2 ^ 63 → calculate_offset (suc p) limit ≡ p * limit
unfolding calculate_offset add_words mul_words
offset_lem p limit h k = rw (less_one p h) (mul_words-exact p limit (omega arith))

-- Every page before the last has a first item, so its offset does not overflow.
pages_within :
    (total limit p : ℕ)
    → IsNatural total
    → IsNatural limit
    → 1 ≤ limit
    → suc p ≤ calculate_total_pages total limit
    → p * limit < total
pages_within total limit p h k l e =
    elim (total % limit == 0) as (λ b. b ≡ (total % limit == 0) → p * limit < total) [
      | true ↦ λ z.
          let step : p * limit + limit ≤ total / limit * limit =
            omega (arith, suc-mul p limit, mul-le-mul_right limit (full z)) in
          omega (arith, step, div-add-mod' total limit)
      | false ↦
          λ z. omega (arith, rest z, mul-le-mul_right limit (part z), div-add-mod' total limit)
    ]
      refl
  where
    full : true ≡ (total % limit == 0) → suc p ≤ total / limit
    full z = ground (arith, total_pages_lem total limit h k l, e, z)

    part : false ≡ (total % limit == 0) → p ≤ total / limit
    part z = ground (arith, total_pages_lem total limit h k l, e, z)

    rest : false ≡ (total % limit == 0) → 1 ≤ total % limit
    rest z = ground (arith, z)

page_offset :
    (total limit p : ℕ)
    → IsNatural total
    → IsNatural limit
    → 1 ≤ limit
    → suc p ≤ calculate_total_pages total limit
    → calculate_offset (suc p) limit ≡ p * limit
page_offset total limit p h k l e =
    let within : p * limit < total = pages_within total limit p h k l e in
    offset_lem p limit (omega (arith, within, le-mul_of_pos_right {m = limit} p l))
      (omega (arith, within))

-- Item number `i` stands on the page.
abbrev pub On : ℕ → ℕ → ℕ → ℕ → Type 0
On total limit i page =
    (1 ≤ page)
    × (page ≤ calculate_total_pages total limit)
    × (calculate_offset page limit ≤ i)
    × (i < calculate_offset page limit + limit)

last_page :
    (total limit i : ℕ)
    → IsNatural total
    → IsNatural limit
    → 1 ≤ limit
    → i < total
    → suc (i / limit) ≤ calculate_total_pages total limit
last_page total limit i h k l b =
    elim (total % limit == 0)
        as (λ t. t ≡ (total % limit == 0) → suc (i / limit) ≤ calculate_total_pages total limit) [
          | true ↦ λ z.
              let below : i / limit < total / limit =
                (div-lt_iff_lt-mul {x = i} {y = total / limit} l).1 (full z) in
              ground (arith, total_pages_lem total limit h k l, z, below)
          | false ↦ λ z.
              let below : i / limit < suc (total / limit) =
                (div-lt_iff_lt-mul {x = i} {y = suc (total / limit)} l).1 part in
              ground (arith, total_pages_lem total limit h k l, z, below)
        ]
      refl
  where
    full : true ≡ (total % limit == 0) → i < total / limit * limit
    full z = ground (arith, div-add-mod' total limit, b, z)

    part : i < suc (total / limit) * limit
    part = omega (
      arith,
      div-add-mod' total limit,
      suc-mul (total / limit) limit,
      mod-lt total {m = limit} l,
      b,
    )

own_page_lem :
    (total limit i : ℕ)
    → IsNatural total
    → IsNatural limit
    → 1 ≤ limit
    → i < total
    → On total limit i (suc (i / limit))
own_page_lem total limit i h k l b =
    let exact : calculate_offset (suc (i / limit)) limit ≡ i / limit * limit =
      offset_lem (i / limit) limit (omega (arith, div-le_self i limit))
        (omega (arith, div-add-mod' i limit)) in
    (
      omega arith,
      last_page total limit i h k l b,
      omega (arith, exact, div-add-mod' i limit),
      omega (arith, exact, div-add-mod' i limit, mod-lt i {m = limit} l),
    )

only_page :
    (total limit i page : ℕ)
    → IsNatural total
    → IsNatural limit
    → 1 ≤ limit
    → On total limit i page
    → page ≡ suc (i / limit)
only_page total limit i ℕ.zero h k l (a, b, c, d) = omega arith
only_page total limit i (suc p) h k l (a, b, c, d) =
    let exact : calculate_offset (suc p) limit ≡ p * limit = page_offset total limit p h k l b in
    let low : p ≤ i / limit = (le-div_iff_mul-le {x = p} {y = i} l).1 (omega (arith, exact)) in
    let high : i / limit < suc p =
      (div-lt_iff_lt-mul {x = i} {y = suc p} l).1 (omega (arith, exact, suc-mul p limit)) in
    omega (arith, low, high)

-- For fewer than 2^63 items and a page size from 1 to 2^63 less 1, each item stands on exactly one
-- of the pages from 1 to the number of pages, and each of these pages has its first item among the
-- items; no step overflows.
pub pages_lem :
    (total limit : ℕ)
    → IsNatural total
    → IsNatural limit
    → 1 ≤ limit
    → ((i : ℕ)
        → i < total
        → (page : ℕ) × On total limit i page × ((q : ℕ) → On total limit i q → q ≡ page))
      × ((page : ℕ)
          → 1 ≤ page
          → page ≤ calculate_total_pages total limit
          → calculate_offset page limit < total)
pages_lem total limit h k l = (
  λ i b. (
    suc (i / limit),
    own_page_lem total limit i h k l b,
    λ q on. only_page total limit i q h k l on,
  ),
  λ page a b. first_item page a b,
)
  where
    first_item :
        (page : ℕ)
        → 1 ≤ page
        → page ≤ calculate_total_pages total limit
        → calculate_offset page limit < total
    first_item ℕ.zero a b = omega arith
    first_item (suc p) a b =
        omega (arith, page_offset total limit p h k l b, pages_within total limit p h k l b)
