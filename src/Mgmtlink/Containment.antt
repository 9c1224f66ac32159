-- ===== src/Mgmtlink/Containment.antt =====
-- Whether a node's /64 lies in the link's prefix (internal/mgmtlink/store.go, prefixNth).
use rezuscloud.Prelude.{
  ℕ, zero, suc, ◌+◌, ◌-◌, ◌*◌, ◌/◌, ◌%◌, ◌^◌, ◌≤◌, ◌<◌, ◌≡◌, ◌≢◌, refl, sym, ◌∙◌, ap, inl, inr,
  List, [], ◌∷◌, ◌++◌, arith, leb, if◌then◌else◌, Bool-cases, All, length, le→leb,
}
use rezuscloud.Effects.{ok}
use rezuscloud.Mgmtlink.Uniqueness.{byte_at, length-masked, with_index-bytes, prefix_nth-value}
use rezuscloud.Mgmtlink.Prefix.{NetPrefix, prefix_nth, masked, with_index, IsInside}

abbrev cut : ℕ → ℕ → ℕ
cut bits b = if leb 8 bits then b else b - b % 2 ^ (8 - bits)

low-cut : (bits b : ℕ) → bits < 8 → (b - b % 2 ^ (8 - bits)) % 2 ^ (8 - bits) ≡ 0
low-cut zero b h = omega arith
low-cut (suc zero) b h = omega arith
low-cut (suc (suc zero)) b h = omega arith
low-cut (suc (suc (suc zero))) b h = omega arith
low-cut (suc (suc (suc (suc zero)))) b h = omega arith
low-cut (suc (suc (suc (suc (suc zero))))) b h = omega arith
low-cut (suc (suc (suc (suc (suc (suc zero)))))) b h = omega arith
low-cut (suc (suc (suc (suc (suc (suc (suc zero))))))) b h = omega arith
low-cut (suc (suc (suc (suc (suc (suc (suc (suc n)))))))) b h = absurd (omega arith)

cut-cut : (bits b : ℕ) → cut bits (cut bits b) ≡ cut bits b
cut-cut bits b = elim (Bool-cases (leb 8 bits)) [
  | inl e ↦ rw e refl
  | inr e ↦ rw (e, low-cut bits b (ground arith)) (omega arith)
]

masked-none : (bs : List ℕ) → All (λ b. b < 256) bs → (n : ℕ) → All (λ b. b < 256) (masked n bs)
unfolding masked
masked-none [] small n = tt
masked-none (b ∷ bs) small n = (ground arith, masked-none bs small.1 (n - 8))

zero_byte : (b c : ℕ) → b < 256 → c < 256 → cut 0 b ≡ cut 0 c
zero_byte b c hb hc = omega arith

zero_mask :
    (bs cs : List ℕ)
    → All (λ b. b < 256) bs
    → All (λ b. b < 256) cs
    → length bs ≡ length cs
    → masked 0 bs ≡ masked 0 cs
unfolding masked
zero_mask [] [] hb hc e = refl
zero_mask [] (c ∷ cs) hb hc e = absurd (omega arith)
zero_mask (b ∷ bs) [] hb hc e = absurd (omega arith)
zero_mask (b ∷ bs) (c ∷ cs) hb hc e =
    rw (zero_mask bs cs hb.1 hc.1 (omega arith))
      (ap (λ x. x ∷ masked 0 cs) (zero_byte b c hb.0 hc.0))

mask_cons :
    (bits b c : ℕ) (bs cs : List ℕ)
    → cut bits b ≡ cut bits c
    → masked (bits - 8) bs ≡ masked (bits - 8) cs
    → masked bits (b ∷ bs) ≡ masked bits (c ∷ cs)
unfolding masked
mask_cons bits b c bs cs h t = rw (t) (ap (λ x. x ∷ masked (bits - 8) cs) h)

tail_mask :
    (bits : ℕ) (bs cs : List ℕ)
    → bits ≡ 0
    → All (λ b. b < 256) bs
    → All (λ b. b < 256) cs
    → length bs ≡ length cs
    → masked bits bs ≡ masked bits cs
tail_mask bits bs cs e hb hc same = rw e (zero_mask bs cs hb hc same)

-- What is left of the prefix after some bytes.
abbrev left_after : ℕ → List ℕ → ℕ
left_after bits [] = bits
left_after bits (b ∷ bs) = left_after (bits - 8) bs

mask_front :
    (xs : List ℕ) (bits : ℕ) (ys zs : List ℕ)
    → masked (left_after bits xs) ys ≡ masked (left_after bits xs) zs
    → masked bits (masked bits xs ++ ys) ≡ masked bits (xs ++ zs)
unfolding masked
mask_front [] bits ys zs h = h
mask_front (x ∷ xs) bits ys zs h =
    mask_cons bits (cut bits x) x (masked (bits - 8) xs ++ ys) (xs ++ zs) (cut-cut bits x)
      (mask_front xs (bits - 8) ys zs h)

index-IsInside :
    (bits n : ℕ) (bs : List ℕ)
    → bits ≤ 48
    → 8 ≤ length bs
    → All (λ b. b < 256) bs
    → IsInside bits bs (with_index n (masked bits bs))
unfolding masked
index-IsInside bits n (b0 ∷ b1 ∷ b2 ∷ b3 ∷ b4 ∷ b5 ∷ b6 ∷ b7 ∷ rest) few long small =
    let m = bits - 8 - 8 - 8 - 8 - 8 - 8 in
    mask_front (b0 ∷ b1 ∷ b2 ∷ b3 ∷ b4 ∷ b5 ∷ []) bits
      ((n / 256) % 256 ∷ n % 256 ∷ masked (m - 8 - 8) rest) (b6 ∷ b7 ∷ rest)
      (tail_mask m ((n / 256) % 256 ∷ n % 256 ∷ masked (m - 8 - 8) rest) (b6 ∷ b7 ∷ rest)
        (omega arith)
        (omega arith, (omega arith, masked-none rest small.1.1.1.1.1.1.1.1 (m - 8 - 8)))
        small.1.1.1.1.1.1 (ap (λ l. suc (suc l)) (length-masked (m - 8 - 8) rest)))
index-IsInside bits n [] few long small = absurd (omega arith)
index-IsInside bits n (b0 ∷ []) few long small = absurd (omega arith)
index-IsInside bits n (b0 ∷ b1 ∷ []) few long small = absurd (omega arith)
index-IsInside bits n (b0 ∷ b1 ∷ b2 ∷ []) few long small = absurd (omega arith)
index-IsInside bits n (b0 ∷ b1 ∷ b2 ∷ b3 ∷ []) few long small = absurd (omega arith)
index-IsInside bits n (b0 ∷ b1 ∷ b2 ∷ b3 ∷ b4 ∷ []) few long small = absurd (omega arith)
index-IsInside bits n (b0 ∷ b1 ∷ b2 ∷ b3 ∷ b4 ∷ b5 ∷ []) few long small = absurd (omega arith)
index-IsInside bits n (b0 ∷ b1 ∷ b2 ∷ b3 ∷ b4 ∷ b5 ∷ b6 ∷ []) few long small = absurd (omega arith)

byte-masked :
    (k bits : ℕ) (bs : List ℕ) → 8 * (k + 1) ≤ bits → byte_at k (masked bits bs) ≡ byte_at k bs
unfolding masked
byte-masked k bits [] wide = refl
byte-masked zero bits (b ∷ bs) wide = rw (le→leb 8 bits (omega arith)) refl
byte-masked (suc k) bits (b ∷ bs) wide = byte-masked k (bits - 8) bs (omega arith)

-- The /64 of a node lies in the link's prefix where that is a /48 or shorter.
pub prefix_nth-IsInside :
    (p q : NetPrefix) (n : ℕ)
    → 8 ≤ length p.addr
    → All (λ b. b < 256) p.addr
    → p.bits ≤ 48
    → prefix_nth p n ≡ ok q
    → IsInside p.bits p.addr q.addr
prefix_nth-IsInside p q n long small few e =
    rw (prefix_nth-value p n q e) (index-IsInside p.bits n p.addr few long small)

-- Where the link's prefix is between /56 and /63, bytes 6 and 7 of it, counted from 0, are
-- overwritten, so that the /64 lies outside the prefix for every index whose high byte is not the
-- prefix's byte 6.
pub prefix_nth_escapes :
    (p q : NetPrefix) (n : ℕ)
    → 8 ≤ length p.addr
    → 56 ≤ p.bits
    → byte_at 6 p.addr ≢ (n / 256) % 256
    → prefix_nth p n ≡ ok q
    → ¬ IsInside p.bits p.addr q.addr
prefix_nth_escapes p q n long wide differs e inside = differs (
    sym (byte-masked 6 p.bits p.addr wide)
    ∙ ap (byte_at 6) (sym inside)
    ∙ byte-masked 6 p.bits q.addr wide
    ∙ ap (byte_at 6) (prefix_nth-value p n q e)
    ∙ (with_index-bytes n (masked p.bits p.addr) (rw (length-masked p.bits p.addr) long)).0)
