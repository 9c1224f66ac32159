-- ===== src/State/BindingToken.antt =====
-- FindMachineByBindingToken (store.go) maps a connecting node to its machine record. It asks for
-- one list page, and newListOptions limits that to 50 machines.
use rezuscloud.Prelude.{
  ℕ, zero, suc, ◌≡◌, ◌≤◌, refl, sym, ◌∙◌, ap, inl, inr, false, Option, none, some, String, List, [],
  ◌∷◌, ◌++◌, map, arith, ◌==◌, eq_refl, All, length, take, take-all, text-cases,
}
use mathlib.Core.List.{Memᴰ}
use rezuscloud.Effects.{Db, Result, ok}
use rezuscloud.State.Types.{Machine, MachineSpec, MachineStatus}
use rezuscloud.State.Tables.{Tables}
use rezuscloud.State.Json.{Codec}
use rezuscloud.State.Amend.{IsHealthy}
use rezuscloud.State.Listing.{Sqlite, new_list_options}
use rezuscloud.State.Listing.Queries.{answers, everything}
use rezuscloud.State.Listing.Pages.{as_loaded, list_resources-limited}
use rezuscloud.State.Machines.{
  find_machine_by_binding_token, list_machines, build_machine, first_with_token,
}

module _ (spec_codec : Codec MachineSpec) (status_codec : Codec MachineStatus)
    (sqlite : Sqlite) where
  -- The machine records, in name order.
  abbrev pub machines_of : Tables → List Machine
  machines_of t =
      map (build_machine spec_codec status_codec) (map as_loaded (answers "machine" everything t))

  abbrev pub find : String → Db Tables → Result (Option Machine)
  find token d = (find_machine_by_binding_token spec_codec status_codec sqlite token d).0

  abbrev pub NoToken : String → Machine → Type 0
  NoToken token m = (m.spec.binding_token == token) ≡ false

  take-map :
      {A B : Type 0} (n : ℕ) (f : A → B) (xs : List A) → map f (take n xs) ≡ take n (map f xs)
  take-map zero f xs = refl
  take-map (suc n) f [] = refl
  take-map (suc n) f (x ∷ xs) = ap (◌∷◌ (f x)) (take-map n f xs)

  take-append : {A : Type 0} (xs ys : List A) → take (length xs) (xs ++ ys) ≡ xs
  take-append [] ys = refl
  take-append (x ∷ xs) ys = ap (◌∷◌ x) (take-append xs ys)

  first_with_token-none :
      (token : String) (ms : List Machine)
      → All (NoToken token) ms
      → first_with_token token ms ≡ none
  unfolding first_with_token
  first_with_token-none token [] others = refl
  first_with_token-none token (m ∷ ms) others =
      rw (others.0) (first_with_token-none token ms others.1)

  first_with_token-found :
      (token : String) (ms : List Machine) {m : Machine}
      → Memᴰ m ms
      → m.spec.binding_token ≡ token
      → (n : Machine) × (first_with_token token ms ≡ some n) × (n.spec.binding_token ≡ token)
  unfolding first_with_token
  first_with_token-found token [] member carries = elim member [ ]
  first_with_token-found token (x ∷ ms) (Memᴰ.head e) carries =
      let hit = sym (ap (λ (n : Machine). n.spec.binding_token) e) ∙ carries in
      (x, rw (hit, eq_refl) refl, hit)
  first_with_token-found token (x ∷ ms) (Memᴰ.tail member) carries =
      let later = first_with_token-found token ms member carries in
      elim (text-cases x.spec.binding_token token) [
        | inl hit ↦ (x, rw (hit, eq_refl) refl, hit)
        | inr miss ↦ (later.0, rw miss (later.1), later.2)
      ]

  -- With a working database the search sees the first 50 machines, and no other.
  find_lem :
      (token : String) (d : Db Tables)
      → IsHealthy d
      → (token == "") ≡ false
      → find token d ≡ ok (first_with_token token (take 50 (machines_of d.tables)))
  unfolding find_machine_by_binding_token list_machines new_list_options
  find_lem token d fine given =
      rw
        (
          given,
          find,
          find_machine_by_binding_token,
          list_resources-limited sqlite "machine" everything tt tt 50 0 d fine (omega arith),
        )
        (ap (λ (ms : List Machine). ok (first_with_token token ms))
          (ap (map (build_machine spec_codec status_codec)) (take-map 50 as_loaded _)
            ∙ take-map 50 _ _))

  -- At most 50 machines: whenever a record carries the token, one that does is returned.
  pub find_finds :
      (token : String) (d : Db Tables)
      → IsHealthy d
      → (token == "") ≡ false
      → length (machines_of d.tables) ≤ 50
      → {m : Machine} → Memᴰ m (machines_of d.tables)
      → m.spec.binding_token ≡ token
      → (n : Machine) × (find token d ≡ ok (some n)) × (n.spec.binding_token ≡ token)
  find_finds token d fine given few member carries =
      let (n, first, same_token) =
        first_with_token-found token (machines_of d.tables) member carries in
      (
        n,
        find_lem token d fine given ∙ rw (take-all 50 (machines_of d.tables) few, first) refl,
        same_token,
      )

  -- With more, a record that stands behind 50 others in name order is not found.
  pub find_misses :
      (token : String) (d : Db Tables)
      → IsHealthy d
      → (token == "") ≡ false
      → (before : List Machine) (m : Machine) (rest : List Machine)
      → machines_of d.tables ≡ before ++ m ∷ rest
      → length before ≡ 50
      → All (NoToken token) before
      → m.spec.binding_token ≡ token
      → find token d ≡ ok none
  find_misses token d fine given before m rest order fifty others carries =
      find_lem token d fine given
      ∙ rw
          (order, ← fifty, take-append before (m ∷ rest), first_with_token-none token before others)
          refl
