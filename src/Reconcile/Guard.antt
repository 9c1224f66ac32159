-- ===== src/Reconcile/Guard.antt =====
-- What an apply leaves alone (Apply in internal/reconcile/applier.go): the working directories of
-- other tenants, and, until the tenant's infrastructure is gone, its rows.
use rezuscloud.Prelude.{◌≡◌, ◌≢◌, refl, ◌∙◌, inl, inr, false, Option, String, ◌==◌, text-cases}
use rezuscloud.Effects.{Db, Error}
use rezuscloud.Effects.Keeps.{Keeps, Anything, Anything-preorder}
use rezuscloud.Tfexec.{sanitize_tenant, finish}
use rezuscloud.Tfexec.World.{World, Command, Event, file_at, ended}
use rezuscloud.Tfexec.Isolation.{file_at-set, file_at-remove}
use rezuscloud.Reconcile.Applier.{Platform, apply, destroy_prepared}
use rezuscloud.Reconcile.Changes.{Allows, amends-Anything}
use rezuscloud.Reconcile.Applied.{Keeps-finish, Keeps-destroy_prepared, Keeps-apply}
use rezuscloud.Reconcile.Order.{Keeps-clear}

-- The files of every other directory are as they were.
abbrev pub LeavesOthers : String → World → World → Type 0
LeavesOthers dir v w =
    (dir' name : String)
    → (dir == dir') ≡ false
    → file_at dir' name w.files ≡ file_at dir' name v.files

module _ (p : Platform) (tenant : String) where
  elsewhere : Allows (sanitize_tenant tenant) Anything (LeavesOthers (sanitize_tenant tenant))
  elsewhere = record {
    order = record {
      same = λ w dir' name apart. refl;
      trans = λ u v w f g dir' name apart. g dir' name apart ∙ f dir' name apart;
    };
    store_order = Anything-preorder;
    amends = amends-Anything;
    stores = λ w t h dir' name apart. refl;
    sets = λ w name text dir' name' apart.
        file_at-set (sanitize_tenant tenant) dir' apart name' name text w.files;
    removes = λ w name dir' name' apart.
        file_at-remove (sanitize_tenant tenant) dir' apart name' name w.files;
  }

  -- If the commands write in the tenant's own directory only, and no other apply runs meanwhile,
  -- an apply leaves every file of the other tenants' directories as it was, whatever fails.
  pub apply-LeavesOthers :
      ((w : World) (e : Event) (dir name : String)
        → (sanitize_tenant tenant == dir) ≡ false
        → file_at dir name (p.outside.files_during w e) ≡ file_at dir name w.files)
      → (d : Db World) (other name : String) → sanitize_tenant tenant ≢ sanitize_tenant other
      → file_at (sanitize_tenant other) name (apply p tenant d).1.tables.files
        ≡ file_at (sanitize_tenant other) name d.tables.files
  apply-LeavesOthers alone d other name apart =
      (Keeps-apply p tenant elsewhere finishes destroys).at d (sanitize_tenant other) name
        (elim (text-cases (sanitize_tenant tenant) (sanitize_tenant other)) [
          | inl e ↦ absurd (apart e)
          | inr e ↦ e
        ])
    where
      finishes :
          (c : Command) (result : Option Error)
          → Keeps (LeavesOthers (sanitize_tenant tenant)) (finish p.outside c result)
      finishes =
          Keeps-finish p.outside elsewhere.order
            (λ w e dir' name' far. unfold ended in alone w e dir' name' far)

      destroys : Keeps (LeavesOthers (sanitize_tenant tenant)) (destroy_prepared p tenant)
      destroys = Keeps-destroy_prepared p tenant elsewhere finishes (Keeps-clear tenant)
