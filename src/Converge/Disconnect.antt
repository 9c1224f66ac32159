-- ===== src/Converge/Disconnect.antt =====
-- The events of the management link that change nothing (onPeer, markDisconnected and
-- resolveMachine in internal/converge/engine.go).
use rezuscloud.Prelude.{ℕ, ◌≡◌, refl, ap, ◌∙◌, false, none, String, List, [], ◌∷◌, ◌==◌, arith, All}
use rezuscloud.Effects.{Db, Result, ok, err, Exec}
use rezuscloud.Effects.Keeps.{IsPreorder}
use rezuscloud.State.Types.{Machine}
use rezuscloud.State.Tables.{Tables}
use rezuscloud.State.Machines.{list_machines}
use rezuscloud.State.Reads.{Keeps-list_machines}
use rezuscloud.Converge.World.{World, Outside, in_store}
use rezuscloud.Converge.Marks.{first_linked, disconnect_first, mark_disconnected}

abbrev Unchanged : Tables → Tables → Type 0
Unchanged t u = u ≡ t

Unchanged-preorder : IsPreorder Unchanged
Unchanged-preorder = record { same = λ t. refl; trans = λ t u v h k. k ∙ h }

-- No machine of the list has this management address.
abbrev pub Elsewhere : String → Machine → Type 0
Elsewhere addr m = (m.spec.management_address == addr) ≡ false

first_linked-none :
    (addr : String) (machines : List Machine)
    → All (Elsewhere addr) machines
    → first_linked addr machines ≡ none
unfolding first_linked
first_linked-none addr [] others = refl
first_linked-none addr (m ∷ machines) others =
    let rest = first_linked-none addr machines others.1 in ground (arith, others.0, rest)

module _ (o : Outside) where
  abbrev pub listing : Exec World (List Machine × ℕ)
  listing = in_store (list_machines o.machine_spec o.machine_status o.sqlite [])

  listing-Unchanged : (d : Db World) → (listing d).1.tables ≡ d.tables
  unfolding in_store
  listing-Unchanged d =
      let keeps =
        Keeps-list_machines Unchanged-preorder o.machine_spec o.machine_status o.sqlite [] in
      ap (λ t. record d.tables { store = t }) (keeps.at _)

  disconnect_first-unmatched :
      (addr : String) (r : Result (List Machine × ℕ)) (d : Db World)
      → ((machines : List Machine) (total : ℕ)
          → r ≡ ok (machines, total)
          → All (Elsewhere addr) machines)
      → (disconnect_first o addr r d).1.tables ≡ d.tables
  unfolding disconnect_first
  disconnect_first-unmatched addr (err e) d others = refl
  disconnect_first-unmatched addr (ok (machines, total)) d others =
      rw (disconnect_first, first_linked-none addr machines (others machines total refl)) refl

  -- A disconnect event changes nothing where no machine that ListMachines returns has the event's
  -- node address, port included, as its management address.
  pub mark_disconnected-unmatched :
      (addr : String) (d : Db World)
      → ((machines : List Machine) (total : ℕ)
          → (listing d).0 ≡ ok (machines, total)
          → All (Elsewhere addr) machines)
      → (mark_disconnected o addr d).1.tables ≡ d.tables
  unfolding mark_disconnected
  mark_disconnected-unmatched addr d others =
      disconnect_first-unmatched addr (listing d).0 (listing d).1 others ∙ listing-Unchanged d
