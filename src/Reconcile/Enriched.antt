-- ===== src/Reconcile/Enriched.antt =====
-- What an enrichment (internal/reconcile/enricher.go) leaves alone.
use rezuscloud.Prelude.{
  ℕ, ◌≡◌, refl, ap, ◌∙◌, inl, inr, Bool, false, Option, none, some, String, arith, ◌==◌, eq_iff,
  Bool-cases, Option-cases,
}
use rezuscloud.Maps.{StringMap}
use rezuscloud.Sql.Keyed.{lookup-append, amend, found_or}
use rezuscloud.Effects.{exec}
use rezuscloud.Effects.Keeps.{IsPreorder, Keeps, Keeps-exec, Keeps-modify, keeps_rules}
use rezuscloud.State.Types.{Metadata}
use rezuscloud.State.Tables.{Tables, Row, key, same, same_iff, select, publish}
use rezuscloud.State.Resources.{
  Value, marshal, insert_row, update_rows, create_resource, update_resource,
  update_resource_metadata_and_publish,
}
use rezuscloud.State.Rows.{select-update_rows}

-- The same status, finalizers and deletion mark.
abbrev pub Alike : Row → Row → Type 0
Alike r s =
    (s.status ≡ r.status)
    × ((s.finalizers ≡ r.finalizers) × (s.deletion_timestamp ≡ r.deletion_timestamp))

-- The rows of every type but machines are the same, and so are secrets and tokens; a machine stays
-- with its status, finalizers and deletion mark.
pub record Enriches (t u : Tables) : Type 0 where
  pub others : (ty nm : String) → (ty == "machine") ≡ false → select ty nm u ≡ select ty nm t
  pub stays :
      (nm : String) (r : Row)
      → select "machine" nm t ≡ some r
      → (s : Row) × (select "machine" nm u ≡ some s) × Alike r s
  pub secrets : u.tenant_secrets ≡ t.tenant_secrets
  pub tokens : u.api_tokens ≡ t.api_tokens

Enriches-same : (t : Tables) → Enriches t t
Enriches-same t = record {
  others = λ ty nm h. refl;
  stays = λ nm r found. (r, found, (refl, (refl, refl)));
  secrets = refl;
  tokens = refl;
}

pub Enriches-preorder : IsPreorder Enriches
Enriches-preorder = record {
  same = Enriches-same;
  trans = λ t u v f g. record {
    others = λ ty nm h. g.others ty nm h ∙ f.others ty nm h;
    stays = λ nm r found.
        let (s, at, alike) = f.stays nm r found in
        let (w, at', alike') = g.stays nm s at in
        (w, at', (alike'.0 ∙ alike.0, (alike'.1.0 ∙ alike.1.0, alike'.1.1 ∙ alike.1.1)));
    secrets = g.secrets ∙ f.secrets;
    tokens = g.tokens ∙ f.tokens;
  };
}

found_or-none : (o : Option Row) → found_or key same o none ≡ o
found_or-none none = refl
found_or-none (some r) = refl

insert_row-Enriches :
    (row : Row) → row.type ≡ "machine" → (t : Tables) → Enriches t (insert_row row t).1
unfolding insert_row
insert_row-Enriches row typed t = elim (Option-cases (select row.type row.name t)) [
  | inl free ↦
      rw (free, insert_row)
        (record {
          others = λ ty nm h.
              lookup-append key same same_iff (ty, nm) t.resources row
              ∙ rw (typed, h) (found_or-none _);
          stays = λ nm r found. (
            r,
            lookup-append key same same_iff ("machine", nm) t.resources row ∙ rw found refl,
            (refl, (refl, refl)),
          );
          secrets = refl;
          tokens = refl;
        })
  | inr (r, taken) ↦ rw (taken, insert_row) (Enriches-same t)
]

amend-Alike :
    (extra : Row → Bool) (f : Row → Row)
    → ((r : Row) → Alike r (f r))
    → (r : Row) → Alike r (amend key same extra f r)
amend-Alike extra f alike r = elim (Bool-cases (extra r)) [
  | inl e ↦ rw e (alike r)
  | inr e ↦ rw e (refl, (refl, refl))
]

update_rows-Enriches :
    (id : String) (extra : Row → Bool) (f : Row → Row)
    → ((r : Row) → key (f r) ≡ key r)
    → ((r : Row) → Alike r (f r))
    → (t : Tables) → Enriches t (update_rows "machine" id extra f t).1
update_rows-Enriches id extra f keeps alike t = record {
  others = λ ty nm h.
      select-update_rows "machine" id extra f t keeps ty nm
      ∙ ground (arith, h, eq_iff "machine" ty, eq_iff ty "machine");
  stays = λ nm r found. elim (Bool-cases (same ("machine", id) ("machine", nm))) [
    | inl e ↦
        let named : id ≡ nm =
          ap (λ (k : String × String). k.1) ((same_iff ("machine", id) ("machine", nm)).0 e) in
        let at : select "machine" id t ≡ some r = rw named found in
        (
          amend key same extra f r,
          select-update_rows "machine" id extra f t keeps "machine" nm ∙ rw (e, at) refl,
          amend-Alike extra f alike r,
        )
    | inr e ↦ (
      r,
      select-update_rows "machine" id extra f t keeps "machine" nm ∙ rw (e, found) refl,
      (refl, (refl, refl)),
    )
  ];
  secrets = unfold update_rows in refl;
  tokens = unfold update_rows in refl;
}

Keeps-marshalled : (v : Value) → Keeps Enriches (marshal v)
Keeps-marshalled none = search (keeps_rules, Enriches-preorder)
Keeps-marshalled (some text) = search (keeps_rules, Enriches-preorder)

Keeps-published :
    (event_type mutation ty : String) (md : Metadata) (spec status : Option String)
    → Keeps Enriches (publish event_type mutation ty md spec status)
unfolding publish
Keeps-published event_type mutation ty md spec status = Keeps-modify Enriches-preorder _ (λ t.
    record {
      others = λ ty nm h. refl;
      stays = λ nm r found. (r, found, (refl, (refl, refl)));
      secrets = refl;
      tokens = refl;
    })

Keeps-inserted : (row : Row) → row.type ≡ "machine" → Keeps Enriches (exec (insert_row row))
Keeps-inserted row typed = Keeps-exec Enriches-preorder _ (insert_row-Enriches row typed)

Keeps-updated :
    (id : String) (extra : Row → Bool) (f : Row → Row)
    → ((r : Row) → key (f r) ≡ key r)
    → ((r : Row) → Alike r (f r))
    → Keeps Enriches (exec (update_rows "machine" id extra f))
Keeps-updated id extra f keeps alike =
    Keeps-exec Enriches-preorder _ (update_rows-Enriches id extra f keeps alike)

pub Keeps-create_resource :
    (id : String) (spec status : Value) (labels annotations : StringMap)
    → Keeps Enriches (create_resource "machine" id spec status labels annotations)
unfolding create_resource update_resource_metadata_and_publish
Keeps-create_resource id spec status labels annotations =
    search (keeps_rules, Enriches-preorder, Keeps-marshalled, Keeps-published, Keeps-inserted) depth
      14

pub Keeps-update_resource :
    (id : String) (v : ℕ) (spec : Value) (labels annotations : StringMap)
    → Keeps Enriches (update_resource "machine" id v spec labels annotations)
unfolding update_resource update_resource_metadata_and_publish
Keeps-update_resource id v spec labels annotations =
    search (keeps_rules, Enriches-preorder, Keeps-marshalled, Keeps-published, Keeps-updated) depth
      14
