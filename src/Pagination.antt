-- ===== src/Pagination.antt =====
-- pagination/pagination.go: the arithmetic of pages, on 64-bit words.
pub mod Laws
use aeternixth_go_lib.Prelude.{ℕ, ◌+◌, ◌^◌, ◌-◌, ◌==◌, if◌then◌else◌}
use aeternixth_go_lib.Prelude.Words.{add_words, mul_words, quotient, remainder, is_positive}

pub record Response (T : Type 0) : Type 0 where
  pub items : T
  pub page_index : ℕ
  pub page_size : ℕ
  pub total_items : ℕ
  pub total_pages : ℕ

-- `CalculateOffset`
unfoldable pub calculate_offset : ℕ → ℕ → ℕ
unfolding add_words mul_words
calculate_offset page limit = mul_words (add_words page (2 ^ 64 - 1)) limit

-- `CalculateTotalPages`; `int` has 64 bits, so `int(totalItems)` is the same word.
unfoldable pub calculate_total_pages : ℕ → ℕ → ℕ
unfolding quotient remainder add_words
calculate_total_pages total_items limit =
    if limit == 0
    then 0
    else let total_pages = quotient total_items limit in
      if is_positive (remainder total_items limit) then add_words total_pages 1 else total_pages

-- `NewResponse`
unfoldable pub new_response : {T : Type 0} → T → ℕ → ℕ → ℕ → Response T
unfolding calculate_total_pages
new_response items page limit total_items = record {
  items = items;
  page_index = page;
  page_size = limit;
  total_items = total_items;
  total_pages = calculate_total_pages total_items limit;
}
