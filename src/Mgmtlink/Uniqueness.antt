-- ===== src/Mgmtlink/Uniqueness.antt =====
-- Which nodes of the management link share a prefix (internal/mgmtlink/store.go).
use rezuscloud.Prelude.{
  ℕ, zero, suc, ◌-◌, ◌/◌, ◌%◌, ◌≤◌, ◌≡◌, ◌≢◌, refl, sym, ◌∙◌, ap, inl, inr, true, false, Option,
  none, some, String, List, [], ◌∷◌, arith, ◌==◌, eq_iff, leb, Bool-cases, length,
}
use rezuscloud.Sql.{select_row}
use rezuscloud.Sql.Rows.{All-select_row}
use rezuscloud.Effects.{Db, Result, ok, err, Error}
use rezuscloud.Mgmtlink.Prefix.{NetPrefix, prefix_nth, masked, with_index}
use rezuscloud.Mgmtlink.Store.{PeerRow, LinkTables, peer_key, index_taken}
use rezuscloud.Mgmtlink.Allocation.{
  IsDistinct, Fits, IsAllocated, HasPrefix, LinkCall, run_calls, run_calls-Stays,
}

abbrev idx_or : ℕ → Option PeerRow → ℕ
idx_or n none = n
idx_or n (some r) = r.idx

index_taken-select :
    (i : String) (rs : List PeerRow) (r : PeerRow)
    → select_row (λ x. i == peer_key x) rs ≡ some r
    → index_taken r.idx rs ≡ true
unfolding select_row
index_taken-select i [] r h = absurd (ground arith)
index_taken-select i (x ∷ rs) r h = elim (Bool-cases (i == peer_key x)) [
  | inl hit ↦ let same = ap (idx_or 0) (rw hit at h) in ground arith
  | inr miss ↦ ground (arith, index_taken-select i rs r (rw miss at h))
]

-- A row found by one key at the head and one found by another in the tail have two indices.
head_apart :
    (j : String) (x r s : PeerRow) (rs : List PeerRow)
    → index_taken x.idx rs ≡ false
    → some x ≡ some r
    → select_row (λ y. j == peer_key y) rs ≡ some s
    → r.idx ≢ s.idx
head_apart j x r s rs free at_head in_tail same =
    let e = ap (idx_or 0) at_head in
    let taken = index_taken-select j rs s in_tail in
    let moved = ap (λ n. index_taken n rs) (e ∙ same) in ground arith

IsDistinct-same :
    (i j : String) (rs : List PeerRow) (r s : PeerRow)
    → IsDistinct rs
    → select_row (λ x. i == peer_key x) rs ≡ some r
    → select_row (λ x. j == peer_key x) rs ≡ some s
    → r.idx ≡ s.idx
    → i ≡ j
unfolding select_row
IsDistinct-same i j [] r s d hi hj e = absurd (ground arith)
IsDistinct-same i j (x ∷ rs) r s d hi hj e = elim (Bool-cases (i == peer_key x)) [
  | inl at_i ↦ elim (Bool-cases (j == peer_key x)) [
    | inl at_j ↦ (eq_iff i _).0 at_i ∙ sym ((eq_iff j _).0 at_j)
    | inr past_j ↦ absurd (head_apart j x r s rs d.0 (rw at_i at hi) (rw past_j at hj) e)
  ]
  | inr past_i ↦ elim (Bool-cases (j == peer_key x)) [
    | inl at_j ↦ absurd (head_apart i x s r rs d.0 (rw at_j at hj) (rw past_i at hi) (sym e))
    | inr past_j ↦ IsDistinct-same i j rs r s d.1 (rw past_i at hi) (rw past_j at hj) e
  ]
]

abbrev pub byte_at : ℕ → List ℕ → ℕ
byte_at n [] = 0
byte_at zero (b ∷ bs) = b
byte_at (suc n) (b ∷ bs) = byte_at n bs

pub length-masked : (bits : ℕ) (bs : List ℕ) → length (masked bits bs) ≡ length bs
unfolding masked
length-masked bits [] = refl
length-masked bits (b ∷ bs) = ap suc (length-masked (bits - 8) bs)

pub with_index-bytes :
    (n : ℕ) (bs : List ℕ)
    → 8 ≤ length bs
    → (byte_at 6 (with_index n bs) ≡ (n / 256) % 256) × (byte_at 7 (with_index n bs) ≡ n % 256)
with_index-bytes n (b0 ∷ b1 ∷ b2 ∷ b3 ∷ b4 ∷ b5 ∷ b6 ∷ b7 ∷ rest) long = (refl, refl)
with_index-bytes n [] long = absurd (omega arith)
with_index-bytes n (b0 ∷ []) long = absurd (omega arith)
with_index-bytes n (b0 ∷ b1 ∷ []) long = absurd (omega arith)
with_index-bytes n (b0 ∷ b1 ∷ b2 ∷ []) long = absurd (omega arith)
with_index-bytes n (b0 ∷ b1 ∷ b2 ∷ b3 ∷ []) long = absurd (omega arith)
with_index-bytes n (b0 ∷ b1 ∷ b2 ∷ b3 ∷ b4 ∷ []) long = absurd (omega arith)
with_index-bytes n (b0 ∷ b1 ∷ b2 ∷ b3 ∷ b4 ∷ b5 ∷ []) long = absurd (omega arith)
with_index-bytes n (b0 ∷ b1 ∷ b2 ∷ b3 ∷ b4 ∷ b5 ∷ b6 ∷ []) long = absurd (omega arith)

bytes-injective :
    (n m : ℕ)
    → n ≤ 65535
    → m ≤ 65535
    → (n / 256) % 256 ≡ (m / 256) % 256
    → n % 256 ≡ m % 256
    → n ≡ m
bytes-injective n m small_n small_m high low = omega arith

with_index-injective :
    (n m : ℕ) (bs : List ℕ)
    → 8 ≤ length bs
    → n ≤ 65535
    → m ≤ 65535
    → with_index n bs ≡ with_index m bs
    → n ≡ m
with_index-injective n m bs long small_n small_m e =
    let high = ap (byte_at 6) e in
    let low = ap (byte_at 7) e in
    let bn = with_index-bytes n bs long in
    let bm = with_index-bytes m bs long in
    bytes-injective n m small_n small_m (sym bn.0 ∙ high ∙ bm.0) (sym bn.1 ∙ low ∙ bm.1)

abbrev addr_or : List ℕ → Result NetPrefix → List ℕ
addr_or d (ok q) = q.addr
addr_or d (err e) = d

err_not_ok : {A : Type 0} {e : Error} {a : A} → err e ≢ ok a
err_not_ok h = absurd (ground arith)

-- What prefixNth computes, where it returns.
pub prefix_nth-value :
    (p : NetPrefix) (n : ℕ) (q : NetPrefix)
    → prefix_nth p n ≡ ok q
    → q.addr ≡ with_index n (masked p.bits p.addr)
unfolding prefix_nth
prefix_nth-value p n q e = elim (Bool-cases (leb 64 p.bits)) [
  | inl wide ↦ absurd (err_not_ok (rw wide at e))
  | inr fine ↦ sym (ap (addr_or []) (rw fine at e))
]

IsAllocated-distinct :
    (prefix : NetPrefix) (t : LinkTables)
    → 8 ≤ length prefix.addr
    → IsAllocated prefix t
    → (i j : String) (p : NetPrefix) → HasPrefix prefix i p t
    → HasPrefix prefix j p t
    → i ≡ j
IsAllocated-distinct prefix t long w i j p (r, found_r, same_r) (s, found_s, same_s) =
    let fr = All-select_row (Fits prefix) _ t.peers w.2 found_r in
    let fs = All-select_row (Fits prefix) _ t.peers w.2 found_s in
    let one_addr =
      sym (prefix_nth-value prefix r.idx r.prefix fr.2)
      ∙ ap (λ (q : NetPrefix). q.addr) (same_r ∙ sym same_s)
      ∙ prefix_nth-value prefix s.idx s.prefix fs.2 in
    IsDistinct-same i j t.peers r s w.1 found_r found_s (
      with_index-injective r.idx s.idx (masked prefix.bits prefix.addr)
        (rw (length-masked prefix.bits prefix.addr) long) fr.1 fs.1 one_addr)

-- Whatever nodes join, come back, or rotate their keys, and whatever statements fail: from
-- well-formed tables (the empty ones are), the peer table stays well-formed (no identity twice, no
-- index twice, each index between 1 and 65535 and each prefix the /64 of its index), a node that
-- has a prefix keeps it, and two nodes with one prefix are one node.
pub allocation :
    (prefix : NetPrefix) (cs : List LinkCall) (d : Db LinkTables)
    → 8 ≤ length prefix.addr
    → IsAllocated prefix d.tables
    → let t = (run_calls prefix cs d).1.tables in
      IsAllocated prefix t
      × ((i : String) (p : NetPrefix) → HasPrefix prefix i p d.tables → HasPrefix prefix i p t)
      × ((i j : String) (p : NetPrefix) → HasPrefix prefix i p t → HasPrefix prefix j p t → i ≡ j)
allocation prefix cs d long w =
    let kept = (run_calls-Stays prefix cs).at d in
    (kept.0 w, kept.1, IsAllocated-distinct prefix (run_calls prefix cs d).1.tables long (kept.0 w))
