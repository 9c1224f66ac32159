-- ===== src/Pagination/Parse.antt =====
-- Parse and RemainingItemCount (internal/pagination/pagination.go).
use rezuscloud.Prelude.{ℕ, ◌-◌, Option, none, some, String, ◌==◌, ltb, leb, if◌then◌else◌}

-- An `int` that strconv.Atoi returns: `pos n` is n, `negsuc n` is -(n + 1).
pub data ℤ : Type 0 where
  pos negsuc : ℕ → ℤ

abbrev pub default_limit : ℕ
default_limit = 100

abbrev pub max_limit : ℕ
max_limit = 500

pub record Params : Type 0 where
  pub limit : ℕ
  pub offset : ℕ

unfoldable pub limit_of : Option ℤ → ℕ
limit_of none = default_limit
limit_of (some (negsuc n)) = default_limit
limit_of (some (pos n)) =
    if leb n 0 then default_limit else if ltb max_limit n then max_limit else n

unfoldable pub offset_of : Option ℤ → ℕ
offset_of (some (pos n)) = n
offset_of _ = 0

-- `limit` and `offset` are the query's values, "" where it has none; `atoi` is strconv.Atoi, with
-- `none` for its error.
unfoldable pub parse : (String → Option ℤ) → String → String → Params
unfolding limit_of offset_of
parse atoi limit offset = record {
  limit = if limit == "" then default_limit else limit_of (atoi limit);
  offset = if offset == "" then 0 else offset_of (atoi offset);
}

-- The arguments are counts, and not negative; the difference is clamped at 0.
unfoldable pub remaining_item_count : ℕ → ℕ → ℕ → ℕ
remaining_item_count total offset returned = total - offset - returned
