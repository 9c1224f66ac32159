-- ===== src/Pagination/Bounds.antt =====
-- What a client can ask for, and what it is told is left (internal/pagination/pagination.go).
use rezuscloud.Prelude.{
  ℕ, zero, suc, ◌+◌, ◌-◌, ◌≤◌, ◌≡◌, ap, refl, inl, inr, false, Option, none, some, String, List, [],
  ◌∷◌, arith, ◌==◌, Bool-cases, length, take, drop,
}
use rezuscloud.Pagination.Parse.{
  ℤ, pos, negsuc, max_limit, limit_of, offset_of, parse, remaining_item_count,
}

limit_of-bounds : (o : Option ℤ) → (1 ≤ limit_of o) × (limit_of o ≤ max_limit)
unfolding limit_of
limit_of-bounds none = (omega arith, omega arith)
limit_of-bounds (some (negsuc n)) = (omega arith, omega arith)
limit_of-bounds (some (pos n)) = (ground arith, ground arith)

exact : (n : ℕ) → 1 ≤ n → n ≤ max_limit → limit_of (some (pos n)) ≡ n
unfolding limit_of
exact n low high = ground arith

-- Whatever the query holds, the limit is between 1 and 500.
pub parse-bounds :
    (atoi : String → Option ℤ) (limit offset : String)
    → (1 ≤ (parse atoi limit offset).limit) × ((parse atoi limit offset).limit ≤ max_limit)
unfolding parse
parse-bounds atoi limit offset = elim (Bool-cases (limit == "")) [
  | inl e ↦ rw e (omega arith, omega arith)
  | inr e ↦ rw e (limit_of-bounds (atoi limit))
]

-- A limit between 1 and 500 and an offset from 0 on are taken as they are.
pub parse_exact :
    (atoi : String → Option ℤ) (limit offset : String) (n m : ℕ)
    → (limit == "") ≡ false
    → (offset == "") ≡ false
    → atoi limit ≡ some (pos n)
    → atoi offset ≡ some (pos m)
    → 1 ≤ n
    → n ≤ max_limit
    → parse atoi limit offset ≡ record { limit = n; offset = m }
unfolding parse limit_of offset_of
parse_exact atoi limit offset n m given given' read read' low high =
    rw (given, given', read, read') (ap (λ k. record { limit = k; offset = m }) (exact n low high))

length-drop : {A : Type 0} (n : ℕ) (xs : List A) → length (drop n xs) ≡ length xs - n
length-drop zero xs = omega arith
length-drop (suc n) [] = omega arith
length-drop (suc n) (x ∷ xs) = omega (arith, length-drop n xs)

left_over : {A : Type 0} (n : ℕ) (xs : List A) → length xs - length (take n xs) ≡ length xs - n
left_over zero xs = refl
left_over (suc n) [] = omega arith
left_over (suc n) (x ∷ xs) = omega (arith, left_over n xs)

-- A client that got the page of a list at an offset, of at most `limit` items, is told how many
-- items of the list stand behind the page.
pub remaining-drop :
    {A : Type 0} (limit offset : ℕ) (xs : List A)
    → remaining_item_count (length xs) offset (length (take limit (drop offset xs)))
      ≡ length (drop (offset + limit) xs)
unfolding remaining_item_count
remaining-drop limit offset xs = omega (
  arith,
  length-drop offset xs,
  length-drop (offset + limit) xs,
  left_over limit (drop offset xs),
)
