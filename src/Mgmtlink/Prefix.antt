-- ===== src/Mgmtlink/Prefix.antt =====
-- IPv6 prefixes (net/netip) and the n-th /64 of one (internal/mgmtlink/store.go, prefixNth). An
-- address is its 16 bytes. An IPv4 prefix is not modelled: the link's prefix is an IPv6 ULA.
use rezuscloud.Prelude.{ℕ, ◌-◌, ◌/◌, ◌%◌, ◌^◌, ◌≡◌, List, [], ◌∷◌, leb, if◌then◌else◌}
use rezuscloud.Effects.{Result, ok, err, message}

pub record NetPrefix : Type 0 where
  pub addr : List ℕ
  pub bits : ℕ

-- Masked().Addr(): the bits after the first `bits` are zero.
unfoldable pub masked : ℕ → List ℕ → List ℕ
masked bits [] = []
masked bits (b ∷ bs) = (if leb 8 bits then b else b - b % 2 ^ (8 - bits)) ∷ masked (bits - 8) bs

-- Prefix.Contains, on the bytes.
abbrev pub IsInside : ℕ → List ℕ → List ℕ → Type 0
IsInside bits base addr = masked bits addr ≡ masked bits base

-- base[6] = byte(n >> 8); base[7] = byte(n).
abbrev pub with_index : ℕ → List ℕ → List ℕ
with_index n (b0 ∷ b1 ∷ b2 ∷ b3 ∷ b4 ∷ b5 ∷ b6 ∷ b7 ∷ rest) =
    b0 ∷ b1 ∷ b2 ∷ b3 ∷ b4 ∷ b5 ∷ (n / 256) % 256 ∷ n % 256 ∷ rest
with_index n short = short

unfoldable pub prefix_nth : NetPrefix → ℕ → Result NetPrefix
unfolding masked
prefix_nth p n =
    if leb 64 p.bits
    then err (message "mgmtlink prefix must be shorter than /64")
    else ok (record { addr = with_index n (masked p.bits p.addr); bits = 64 })
