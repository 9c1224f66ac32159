-- ===== src/Mgmtlink/Allocation.antt =====
-- Which addresses the management link's nodes hold (internal/mgmtlink/store.go).
use rezuscloud.Prelude.{
  ℕ, ◌≤◌, ◌≡◌, refl, ◌∙◌, ap, inl, inr, Bool, false, ◌||◌, Option, none, some, String, List, [],
  ◌∷◌, ◌++◌, arith, ◌==◌, eq_iff, eqb, Bool-cases, Option-cases, All,
}
use rezuscloud.Sql.{select_row, update_where}
use rezuscloud.Sql.Keyed.{IsUnique, lookup-append, found_or, IsUnique-append, IsUnique-update_where}
use rezuscloud.Sql.Rows.{All-append, All-update_where}
use rezuscloud.Effects.{Db, Result, ok, err, driver, no_rows, Exec, pure, query, attempt, ◌>>◌}
use rezuscloud.Effects.Keeps.{
  IsPreorder, Keeps, keeps_rules, Keeps-pure, Keeps-bind, Keeps-bind_post, Keeps-exec,
  Keeps-context, Keeps-attempt, Keeps-lift,
}
use rezuscloud.Mgmtlink.Prefix.{NetPrefix, prefix_nth}
use rezuscloud.Mgmtlink.Store.{
  PeerRow, SettingRow, LinkTables, peer_key, select_peer, index_taken, max_index, index_after,
  next_index, update_pubkey, insert_peer, found_peer, new_row, allocate, located, find_or_allocate,
  touch_rows, touch, upsert_setting, set_setting,
}

-- The allocations of rows are different.
abbrev pub IsDistinct : List PeerRow → Type 0
IsDistinct [] = Unit
IsDistinct (r ∷ rs) = (index_taken r.idx rs ≡ false) × IsDistinct rs

abbrev prefix_or : NetPrefix → Option PeerRow → NetPrefix
prefix_or d none = d
prefix_or d (some r) = r.prefix

-- The calls of the peer store that write; the prefix is the server's.
pub data LinkCall : Type 0 where
  finds : String → String → String → ℕ → LinkCall
  touches : String → LinkCall
  sets : String → String → LinkCall

module _ (prefix : NetPrefix) where
  -- A row holds the /64 of its index, which is between 1 and 65535.
  abbrev pub Fits : PeerRow → Type 0
  Fits r = (1 ≤ r.idx) × (r.idx ≤ 65535) × (prefix_nth prefix r.idx ≡ ok r.prefix)

  abbrev pub IsAllocated : LinkTables → Type 0
  IsAllocated t = IsUnique peer_key ◌==◌ t.peers × IsDistinct t.peers × All Fits t.peers

  abbrev pub HasPrefix : String → NetPrefix → LinkTables → Type 0
  HasPrefix i p t = (r : PeerRow) × (select_peer i t ≡ some r) × (r.prefix ≡ p)

  -- Well-formed tables stay so, and no node's prefix changes.
  abbrev pub Stays : LinkTables → LinkTables → Type 0
  Stays t u =
      (IsAllocated t → IsAllocated u)
      × ((i : String) (p : NetPrefix) → HasPrefix i p t → HasPrefix i p u)

  pub Stays-preorder : IsPreorder Stays
  Stays-preorder = record {
    same = λ t. ((λ w. w), λ i p h. h);
    trans = λ t u v f g. ((λ w. g.0 (f.0 w)), λ i p h. g.1 i p (f.1 i p h));
  }

  index_taken-update :
      (i : ℕ) (p : PeerRow → Bool) (f : PeerRow → PeerRow)
      → ((r : PeerRow) → (f r).idx ≡ r.idx)
      → (rs : List PeerRow) → index_taken i (update_where p f rs) ≡ index_taken i rs
  unfolding update_where
  index_taken-update i p f same [] = refl
  index_taken-update i p f same (r ∷ rs) = elim (Bool-cases (p r)) [
    | inl e ↦ rw (e, same r, index_taken-update i p f same rs) refl
    | inr e ↦ rw (e, index_taken-update i p f same rs) refl
  ]

  IsDistinct-update :
      (p : PeerRow → Bool) (f : PeerRow → PeerRow)
      → ((r : PeerRow) → (f r).idx ≡ r.idx)
      → (rs : List PeerRow) → IsDistinct rs
      → IsDistinct (update_where p f rs)
  unfolding update_where
  IsDistinct-update p f same [] d = tt
  IsDistinct-update p f same (r ∷ rs) d = elim (Bool-cases (p r)) [
    | inl e ↦
        rw (e, same r, index_taken-update r.idx p f same rs)
          (d.0, IsDistinct-update p f same rs d.1)
    | inr e ↦ rw (e, index_taken-update r.idx p f same rs) (d.0, IsDistinct-update p f same rs d.1)
  ]

  index_taken-append :
      (i : ℕ) (rs : List PeerRow) (r : PeerRow)
      → index_taken i (rs ++ r ∷ []) ≡ (index_taken i rs || eqb r.idx i)
  index_taken-append i [] r = ground arith
  index_taken-append i (x ∷ rs) r = ground (arith, index_taken-append i rs r)

  IsDistinct-append :
      (rs : List PeerRow) (r : PeerRow)
      → index_taken r.idx rs ≡ false
      → IsDistinct rs
      → IsDistinct (rs ++ r ∷ [])
  IsDistinct-append [] r free d = (refl, tt)
  IsDistinct-append (x ∷ rs) r free d =
      (ground (arith, index_taken-append x.idx rs r), IsDistinct-append rs r (ground arith) d.1)

  -- An UPDATE of columns other than the key, the index and the prefix.
  module _ (i : String) (f : PeerRow → PeerRow)
      (key_same : (r : PeerRow) → (f r).identity ≡ r.identity)
      (idx_same : (r : PeerRow) → (f r).idx ≡ r.idx)
      (prefix_same : (r : PeerRow) → (f r).prefix ≡ r.prefix) where
    Fits-same : (r : PeerRow) → Fits r → Fits (f r)
    Fits-same r h = rw (idx_same r, prefix_same r) h

    select-update :
        (p : PeerRow → Bool) (j : String) (rs : List PeerRow) (r : PeerRow)
        → select_row (λ x. j == peer_key x) rs ≡ some r
        → (u : PeerRow) × (select_row (λ x. j == peer_key x) (update_where p f rs) ≡ some u)
          × (u.prefix ≡ r.prefix)
    unfolding select_row update_where
    select-update p j [] r h = absurd (ground arith)
    select-update p j (x ∷ rs) r h = elim (Bool-cases (j == peer_key x)) [
      | inl hit ↦
          let same = ap (λ (o : Option PeerRow). prefix_or x.prefix o) (rw hit at h) in
          elim (Bool-cases (p x)) [
            | inl e ↦ (f x, rw (e, key_same x, hit) refl, prefix_same x ∙ same)
            | inr e ↦ (x, rw (e, hit) refl, same)
          ]
      | inr miss ↦
          let later = select-update p j rs r (rw miss at h) in
          elim (Bool-cases (p x)) [
            | inl e ↦ (later.0, rw (e, key_same x, miss) (later.1), later.2)
            | inr e ↦ (later.0, rw (e, miss) (later.1), later.2)
          ]
    ]

    update-Stays :
        (t : LinkTables)
        → Stays t (record t { peers = update_where (λ r. i == peer_key r) f t.peers })
    update-Stays t = (
      (λ w. (
        IsUnique-update_where peer_key ◌==◌ eq_iff _ f key_same t.peers w.0,
        IsDistinct-update _ f idx_same t.peers w.1,
        All-update_where Fits _ f Fits-same t.peers w.2,
      )),
      λ j p h. let (u, found, same) = select-update _ j t.peers h.0 h.1 in (u, found, same ∙ h.2),
    )

  insert-Stays : (row : PeerRow) (t : LinkTables) → Fits row → Stays t (insert_peer row t).1
  unfolding insert_peer
  insert-Stays row t fits = elim (Option-cases (select_peer row.identity t)) [
    | inr (old, found) ↦ rw (insert_peer, found) ((λ w. w), λ i p h. h)
    | inl free ↦ elim (Bool-cases (index_taken row.idx t.peers)) [
      | inl used ↦ rw (insert_peer, free, used) ((λ w. w), λ i p h. h)
      | inr unused ↦
          rw (insert_peer, free, unused)
            (
              (λ w. (
                IsUnique-append peer_key ◌==◌ eq_iff t.peers row free w.0,
                IsDistinct-append t.peers row unused w.1,
                All-append Fits t.peers row w.2 fits,
              )),
              λ i p h. (
                h.0,
                lookup-append peer_key ◌==◌ eq_iff i t.peers row ∙ rw (h.1, found_or) refl,
                h.2,
              ),
            )
    ]
  ]

  index_after-bounds : (m : Option ℕ) (i : ℕ) → index_after m ≡ ok i → (1 ≤ i) × (i ≤ 65535)
  unfolding index_after
  index_after-bounds none i e = ground arith
  index_after-bounds (some m) i e = ground arith

  next_index-bounds : (d : Db LinkTables) (i : ℕ) → (next_index d).0 ≡ ok i → (1 ≤ i) × (i ≤ 65535)
  unfolding next_index query
  next_index-bounds d i e = elim (Bool-cases (d.faulty d.statements)) [
    | inl broken ↦ absurd (ground arith)
    | inr fine ↦ index_after-bounds (max_index d.tables.peers) i (rw fine at e)
  ]

  next_index-Stays : Keeps Stays next_index
  unfolding next_index
  next_index-Stays = search (keeps_rules, Stays-preorder) depth 8

  update_pubkey-Stays :
      (i k : String) (at : ℕ) (t : LinkTables) → Stays t (update_pubkey i k at t).1
  unfolding update_pubkey
  update_pubkey-Stays i k at t = update-Stays i _ (λ r. refl) (λ r. refl) (λ r. refl) t

  touch_rows-Stays : (i : String) (at : ℕ) (t : LinkTables) → Stays t (touch_rows i at t).1
  unfolding touch_rows
  touch_rows-Stays i at t = update-Stays i _ (λ r. refl) (λ r. refl) (λ r. refl) t

  upsert_setting-Stays : (r : SettingRow) (t : LinkTables) → Stays t (upsert_setting r t).1
  unfolding upsert_setting
  upsert_setting-Stays r t = ((λ w. w), λ i p h. h)

  touch-Stays : (i : String) → Keeps Stays (touch i)
  unfolding touch
  touch-Stays i = search (keeps_rules, Stays-preorder, touch_rows-Stays) depth 10

  set_setting-Stays : (k v : String) → Keeps Stays (set_setting k v)
  unfolding set_setting
  set_setting-Stays k v = search (keeps_rules, Stays-preorder, upsert_setting-Stays) depth 8

  found_peer-Stays : (i k : String) (at : ℕ) (r : PeerRow) → Keeps Stays (found_peer i k at r)
  unfolding found_peer
  found_peer-Stays i k at r = search (keeps_rules, Stays-preorder, update_pubkey-Stays) depth 10

  allocate-Stays : (i u k : String) (port at : ℕ) → Keeps Stays (allocate i u k prefix port at)
  unfolding allocate
  allocate-Stays i u k port at =
      Keeps-bind_post Stays-preorder _ _ next_index-Stays next_index-bounds (λ idx bounds.
        Keeps-bind_post Stays-preorder {P = λ p. prefix_nth prefix idx ≡ ok p} _ _
          (Keeps-lift Stays-preorder (prefix_nth prefix idx)) (λ d p e. e)
          (λ p nth.
            Keeps-bind Stays-preorder _ _
              (Keeps-context Stays-preorder _ _ (
                Keeps-exec Stays-preorder _
                  (λ t. insert-Stays (new_row i u k p port idx at) t (bounds.0, bounds.1, nth))))
              (λ done. Keeps-pure Stays-preorder _)))

  located-Stays :
      (i u k : String) (port at : ℕ) (r : Result PeerRow)
      → Keeps Stays (located i u k prefix port at r)
  unfolding located
  located-Stays i u k port at (ok r) = found_peer-Stays i k at r
  located-Stays i u k port at (err (driver no_rows)) = allocate-Stays i u k port at
  located-Stays i u k port at (err e) = search (keeps_rules, Stays-preorder)

  find_or_allocate-Stays :
      (i u k : String) (port : ℕ) → Keeps Stays (find_or_allocate i u k prefix port)
  unfolding find_or_allocate
  find_or_allocate-Stays i u k port = search (keeps_rules, Stays-preorder, located-Stays) depth 12

  unfoldable pub run_calls : List LinkCall → Exec LinkTables (Unit {0})
  run_calls [] = pure tt
  run_calls (finds i u k port ∷ cs) = do attempt (find_or_allocate i u k prefix port); run_calls cs
  run_calls (touches i ∷ cs) = do attempt (touch i); run_calls cs
  run_calls (sets k v ∷ cs) = do attempt (set_setting k v); run_calls cs

  pub run_calls-Stays : (cs : List LinkCall) → Keeps Stays (run_calls cs)
  unfolding run_calls
  run_calls-Stays [] = Keeps-pure Stays-preorder _
  run_calls-Stays (finds i u k port ∷ cs) =
      Keeps-bind Stays-preorder _ _
        (Keeps-attempt Stays-preorder _ (find_or_allocate-Stays i u k port))
        (λ r. run_calls-Stays cs)
  run_calls-Stays (touches i ∷ cs) =
      Keeps-bind Stays-preorder _ _ (Keeps-attempt Stays-preorder _ (touch-Stays i))
        (λ r. run_calls-Stays cs)
  run_calls-Stays (sets k v ∷ cs) =
      Keeps-bind Stays-preorder _ _ (Keeps-attempt Stays-preorder _ (set_setting-Stays k v))
        (λ r. run_calls-Stays cs)
