-- ===== src/Reconcile/Teardown.antt =====
-- What an apply does to the state store before the tenant's infrastructure is gone (destroy in
-- internal/reconcile/applier.go).
use rezuscloud.Prelude.{
  ℕ, ◌≡◌, refl, sym, ap, ◌∙◌, ◌⊎◌, inl, inr, Bool, false, Option, none, some, String, List, [], ◌∷◌,
  ◌++◌, arith, ◌==◌, eq_iff,
}
use mathlib.Core.List.{append-nil, append_assoc}
use rezuscloud.Maps.{StringMap}
use rezuscloud.Sql.{delete_where}
use rezuscloud.Effects.{Db, Result, ok, err, Error, exec, continue, wrapped}
use rezuscloud.Effects.Keeps.{
  IsPreorder, Keeps, Keeps-exec, Keeps-modify, keeps_rules, Anything, Anything-preorder,
}
use rezuscloud.State.Types.{Metadata}
use rezuscloud.State.Tables.{Tables, Row, key, select, publish}
use rezuscloud.State.Resources.{
  update_resource, update_rows, update_resource_metadata_and_publish, marshal,
}
use rezuscloud.State.Rows.{select-update_rows}
use rezuscloud.Tfexec.{sanitize_tenant, run, finish}
use rezuscloud.Tfexec.World.{World, File, Command, Event, tofu, ended, in_store, set_file, at_place}
use rezuscloud.Tfexec.Trace.{done, Traced}
use rezuscloud.Reconcile.Applier.{Platform, apply, destroy_prepared, clear_tenant, destroy_args}
use rezuscloud.Reconcile.Changes.{Allows, amends-Anything}
use rezuscloud.Reconcile.Applied.{Keeps-finish, Keeps-destroy_prepared, Keeps-run, Keeps-apply}
use rezuscloud.Reconcile.Order.{Keeps-clear, Emits-run}

-- The rows of every type but node groups, and the secrets bundles, are the same.
pub record KeepsRows (t u : Tables) : Type 0 where
  pub rows : (ty nm : String) → (ty == "nodegroup") ≡ false → select ty nm u ≡ select ty nm t
  pub secrets : u.tenant_secrets ≡ t.tenant_secrets

pub KeepsRows-preorder : IsPreorder KeepsRows
KeepsRows-preorder = record {
  same = λ t. record { rows = λ ty nm h. refl; secrets = refl };
  trans = λ t u v f g. record {
    rows = λ ty nm h. g.rows ty nm h ∙ f.rows ty nm h;
    secrets = g.secrets ∙ f.secrets;
  };
}

KeepsRows-update_rows :
    (ng : String) (extra : Row → Bool) (f : Row → Row)
    → ((r : Row) → key (f r) ≡ key r)
    → (t : Tables) → KeepsRows t (update_rows "nodegroup" ng extra f t).1
KeepsRows-update_rows ng extra f keeps t = record {
  rows = λ ty nm h.
      select-update_rows "nodegroup" ng extra f t keeps ty nm
      ∙ ground (arith, h, eq_iff "nodegroup" ty, eq_iff ty "nodegroup");
  secrets = unfold update_rows in refl;
}

Keeps-notify :
    (event_type mutation ty : String) (md : Metadata) (spec status : Option String)
    → Keeps KeepsRows (publish event_type mutation ty md spec status)
unfolding publish
Keeps-notify event_type mutation ty md spec status =
    Keeps-modify KeepsRows-preorder _ (λ t. record { rows = λ ty nm h. refl; secrets = refl })

Keeps-marshal : (v : Option String) → Keeps KeepsRows (marshal v)
Keeps-marshal none = search (keeps_rules, KeepsRows-preorder)
Keeps-marshal (some text) = search (keeps_rules, KeepsRows-preorder)

Keeps-update_rows :
    (ng : String) (extra : Row → Bool) (f : Row → Row)
    → ((r : Row) → key (f r) ≡ key r)
    → Keeps KeepsRows (exec (update_rows "nodegroup" ng extra f))
Keeps-update_rows ng extra f keeps =
    Keeps-exec KeepsRows-preorder _ (KeepsRows-update_rows ng extra f keeps)

amends_groups :
    (ng : String) (v : ℕ) (spec : Option String) (labels annotations : StringMap)
    → Keeps KeepsRows (update_resource "nodegroup" ng v spec labels annotations)
unfolding update_resource update_resource_metadata_and_publish
amends_groups ng v spec labels annotations =
    search (keeps_rules, KeepsRows-preorder, Keeps-notify, Keeps-marshal, Keeps-update_rows) depth
      14

module _ (tenant : String) where
  -- `tofu destroy` of the tenant, and it returned nil.
  abbrev pub IsDestroyed : List Event → Type 0
  IsDestroyed [] = ⊥
  IsDestroyed (e ∷ es) = (e ≡ done (tofu tenant destroy_args)) ⊎ IsDestroyed es

  -- What was run since, and either the store keeps its rows or the infrastructure is gone.
  abbrev pub Guarded : World → World → Type 0
  Guarded v w =
      (es : List Event) × (w.log ≡ v.log ++ es) × (KeepsRows v.store w.store ⊎ IsDestroyed es)

  IsDestroyed-left : (es fs : List Event) → IsDestroyed es → IsDestroyed (es ++ fs)
  IsDestroyed-left [] fs h = absurd h
  IsDestroyed-left (e ∷ es) fs (inl h) = inl h
  IsDestroyed-left (e ∷ es) fs (inr h) = inr (IsDestroyed-left es fs h)

  IsDestroyed-right : (es fs : List Event) → IsDestroyed fs → IsDestroyed (es ++ fs)
  IsDestroyed-right [] fs h = h
  IsDestroyed-right (e ∷ es) fs h = inr (IsDestroyed-right es fs h)

  Guarded-trans : (u v w : World) → Guarded u v → Guarded v w → Guarded u w
  Guarded-trans u v w (es, log, either) (fs, log', either') = (
    es ++ fs,
    log' ∙ ap (λ (x : List Event). x ++ fs) log ∙ append_assoc u.log es fs,
    both either either',
  )
    where
      both :
          KeepsRows u.store v.store ⊎ IsDestroyed es
          → KeepsRows v.store w.store ⊎ IsDestroyed fs
          → KeepsRows u.store w.store ⊎ IsDestroyed (es ++ fs)
      both (inr h) x = inr (IsDestroyed-left es fs h)
      both (inl h) (inr k) = inr (IsDestroyed-right es fs k)
      both (inl h) (inl k) = inl (KeepsRows-preorder.trans u.store v.store w.store h k)

  same_log :
      (w : World) (t : Tables)
      → KeepsRows w.store t
      → (f : List File) → Guarded w (record w { store = t; files = f })
  same_log w t h f = ([], sym (append-nil w.log), inl h)

  guarded : Allows (sanitize_tenant tenant) KeepsRows Guarded
  guarded = record {
    order = record {
      same = λ w. same_log w w.store (KeepsRows-preorder.same w.store) w.files;
      trans = Guarded-trans;
    };
    store_order = KeepsRows-preorder;
    amends = amends_groups;
    stores = λ w t h. same_log w t h w.files;
    sets = λ w name text.
        same_log w w.store (KeepsRows-preorder.same w.store)
          (set_file (record { dir = sanitize_tenant tenant; name = name; text = text }) w.files);
    removes = λ w name.
        same_log w w.store (KeepsRows-preorder.same w.store)
          (delete_where (at_place (sanitize_tenant tenant) name) w.files);
  }

  -- After `tofu destroy`: nothing if it returned an error.
  Guarded-cleared :
      (r : Result (Unit {0})) (v : World) (d : Db World)
      → Guarded v d.tables
      → Traced (tofu tenant destroy_args ∷ []) v r d.tables
      → Guarded v
          (continue (wrapped "tofu destroy" r) (λ u. in_store (clear_tenant tenant)) d).1.tables
  Guarded-cleared (err e) v d before traced = before
  Guarded-cleared (ok u) v d before (es, log, all) =
      (es, unfold in_store in log, inr (rw all (inl refl)))

module _ (p : Platform) (tenant : String)
    (calm : (w : World) (e : Event) → KeepsRows w.store (p.outside.store_during w e)) where
  finishes :
      (c : Command) (result : Option Error) → Keeps (Guarded tenant) (finish p.outside c result)
  finishes =
      Keeps-finish p.outside (guarded tenant).order
        (λ w e. unfold ended in (e ∷ [], refl, inl (calm w e)))

  loose : Allows (sanitize_tenant tenant) Anything Anything
  loose = record {
    order = Anything-preorder;
    store_order = Anything-preorder;
    amends = amends-Anything;
    stores = λ w t h. tt;
    sets = λ w name text. tt;
    removes = λ w name. tt;
  }

  loose_finishes :
      (c : Command) (result : Option Error) → Keeps Anything (finish p.outside c result)
  loose_finishes = Keeps-finish p.outside Anything-preorder (λ w e. tt)

  destroys : Keeps (Guarded tenant) (destroy_prepared p tenant)
  unfolding destroy_prepared
  destroys = record {
    at = λ d.
        Guarded-cleared tenant (run p.outside tenant destroy_args d).0 d.tables
          (run p.outside tenant destroy_args d).1
          ((Keeps-run p tenant (guarded tenant) finishes destroy_args).at d)
          ((Emits-run p tenant destroy_args).at d);
    env = (Keeps-destroy_prepared p tenant loose loose_finishes (Keeps-clear tenant)).env;
    time = (Keeps-destroy_prepared p tenant loose loose_finishes (Keeps-clear tenant)).time;
  }

  -- If what runs beside the commands leaves the rows alone, then an apply, whatever fails in it,
  -- removes or changes no row but those of node groups, and no secrets bundle, unless
  -- `tofu destroy` of the tenant has returned nil.
  pub apply-Guarded : (d : Db World) → Guarded tenant d.tables (apply p tenant d).1.tables
  apply-Guarded d = (Keeps-apply p tenant (guarded tenant) finishes destroys).at d
