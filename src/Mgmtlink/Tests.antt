-- ===== src/Mgmtlink/Tests.antt =====
-- The management link's peer store (internal/mgmtlink/store.go) on a small network.
use rezuscloud.Prelude.{ℕ, ◌≡◌, ◌≢◌, refl, ◌/◌, ◌%◌, false, String, List, [], ◌∷◌, arith}
use rezuscloud.Effects.{Db, ok}
use rezuscloud.Mgmtlink.Prefix.{NetPrefix, prefix_nth, IsInside, masked}
use rezuscloud.Mgmtlink.Store.{LinkTables}
use rezuscloud.Mgmtlink.Allocation.{
  IsAllocated, HasPrefix, finds, touches, sets, LinkCall, run_calls,
}
use rezuscloud.Mgmtlink.Uniqueness.{allocation, byte_at}
use rezuscloud.Mgmtlink.Containment.{prefix_nth-IsInside, prefix_nth_escapes}

abbrev net : ℕ → NetPrefix
net bits = record {
  addr = 253 ∷ 140 ∷ 66 ∷ 22 ∷ 154 ∷ 16 ∷ 7 ∷ 0 ∷ 0 ∷ 0 ∷ 0 ∷ 0 ∷ 0 ∷ 0 ∷ 0 ∷ 0 ∷ [];
  bits = bits;
}

abbrev empty : Db LinkTables
empty = record {
  tables = record { peers = []; settings = [] };
  clock = λ n. n;
  readings = 0;
  faulty = λ n. false;
  statements = 0;
}

abbrev calls : List LinkCall
calls =
    finds "uuid:1" "1" "K1" 4000
    ∷ finds "uuid:2" "2" "K2" 4000
    ∷ finds "uuid:1" "1" "K3" 4000
    ∷ touches "uuid:2"
    ∷ sets "wg" "key"
    ∷ []

abbrev after : LinkTables
after = (run_calls (net 48) calls empty).1.tables

allocation_example :
    IsAllocated (net 48) after
    × ((i : String) (p : NetPrefix)
        → HasPrefix (net 48) i p empty.tables
        → HasPrefix (net 48) i p after)
    × ((i j : String) (p : NetPrefix)
        → HasPrefix (net 48) i p after
        → HasPrefix (net 48) j p after
        → i ≡ j)
allocation_example = allocation (net 48) calls empty (omega arith) (tt, tt, tt)

abbrev first_node : NetPrefix
first_node = record {
  addr = 253 ∷ 140 ∷ 66 ∷ 22 ∷ 154 ∷ 16 ∷ 0 ∷ 1 ∷ 0 ∷ 0 ∷ 0 ∷ 0 ∷ 0 ∷ 0 ∷ 0 ∷ 0 ∷ [];
  bits = 64;
}

computed_48 : prefix_nth (net 48) 1 ≡ ok first_node
unfolding prefix_nth masked
computed_48 = refl

computed_56 : prefix_nth (net 56) 1 ≡ ok first_node
unfolding prefix_nth masked
computed_56 = refl

prefix_nth-IsInside_example : IsInside 48 (net 48).addr first_node.addr
prefix_nth-IsInside_example =
    prefix_nth-IsInside (net 48) first_node 1 (omega arith)
      (
        omega arith,
        (
          omega arith,
          (
            omega arith,
            (
              omega arith,
              (
                omega arith,
                (
                  omega arith,
                  (
                    omega arith,
                    (
                      omega arith,
                      (
                        omega arith,
                        (
                          omega arith,
                          (
                            omega arith,
                            (
                              omega arith,
                              (omega arith, (omega arith, (omega arith, (omega arith, tt)))),
                            ),
                          ),
                        ),
                      ),
                    ),
                  ),
                ),
              ),
            ),
          ),
        ),
      )
      (omega arith) computed_48

byte_differs : byte_at 6 (net 56).addr ≢ (1 / 256) % 256
byte_differs = λ e. absurd (omega arith)

prefix_nth_escapes_example : ¬ IsInside 56 (net 56).addr first_node.addr
prefix_nth_escapes_example =
    prefix_nth_escapes (net 56) first_node 1 (omega arith) (omega arith) byte_differs computed_56
