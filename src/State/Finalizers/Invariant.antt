-- ===== src/State/Finalizers/Invariant.antt =====
-- The invariant of the `resources` table under AddFinalizer and RemoveFinalizer (store.go).
use rezuscloud.Prelude.{
  ℕ, suc, ◌≡◌, refl, inl, inr, Bool, true, false, not, Option, none, some, String, List, [], ◌∷◌,
  ◌++◌, arith, ◌==◌, eq_iff, any, filter, Bool-cases, Option-cases,
}
use rezuscloud.Sql.Rows.{All-select_row}
use rezuscloud.Effects.{
  Db, Result, ok, err, err_not_found, Error, driver, io_failure, wrap, Exec, exec, ◌>>=◌,
}
use rezuscloud.Effects.Keeps.{
  Keeps, Keeps-exec, Keeps-pure, Keeps-if, Keeps-bind, Keeps-attempt, keeps_rules, Anything,
  Anything-preorder, Keeps-Anything,
}
use rezuscloud.State.Tables.{Tables, Row, select, metadata_of}
use rezuscloud.State.Resources.{get_resource, update_rows, Loaded}
use rezuscloud.State.WellFormed.{
  IsDistinct, IsGoodRow, Preserves, Preserves-preorder, update_rows-Preserves,
  remove_resource-Preserves,
}
use rezuscloud.State.Finalizers.Defs.{write_finalizers, add_finalizer, remove_finalizer, without}

abbrev pub loaded : Row → Loaded
loaded r = record { metadata = metadata_of r; spec = r.spec; status = r.status }

abbrev pub found_or_missing : Option Row → Result Loaded
found_or_missing none = err err_not_found
found_or_missing (some r) = ok (loaded r)

-- GetResource, when its statement does not fail.
pub get_resource_lem :
    (ty nm : String) (d : Db Tables)
    → d.faulty d.statements ≡ false
    → get_resource ty nm d
      ≡ (found_or_missing (select ty nm d.tables), record d { statements = suc d.statements })
unfolding get_resource
get_resource_lem ty nm d fine = elim (Option-cases (select ty nm d.tables)) [
  | inl missing ↦ rw (fine, missing)
  | inr (r, found) ↦ rw (fine, found)
]

any-append_one :
    (p : String → Bool) (fs : List String) (f : String)
    → any p fs ≡ false
    → p f ≡ false
    → any p (fs ++ f ∷ []) ≡ false
any-append_one p [] f h k = ground arith
any-append_one p (g ∷ fs) f h k = ground (arith, any-append_one p fs f)

IsDistinct-append :
    (fs : List String) (f : String)
    → IsDistinct fs
    → any (λ g. g == f) fs ≡ false
    → IsDistinct (fs ++ f ∷ [])
IsDistinct-append [] f h k = (refl, tt)
IsDistinct-append (g ∷ fs) f h k = (
  any-append_one (λ x. x == g) fs f h.0 (ground (arith, eq_iff g f, eq_iff f g)),
  IsDistinct-append fs f h.1 (ground arith),
)

any-filter :
    (p q : String → Bool) (fs : List String) → any p fs ≡ false → any p (filter q fs) ≡ false
any-filter p q [] h = refl
any-filter p q (g ∷ fs) h = ground (arith, any-filter p q fs)

IsDistinct-filter :
    (q : String → Bool) (fs : List String) → IsDistinct fs → IsDistinct (filter q fs)
IsDistinct-filter q [] h = tt
IsDistinct-filter q (g ∷ fs) h = elim (Bool-cases (q g)) [
  | inl e ↦ rw e (any-filter (λ x. x == g) q fs h.0, IsDistinct-filter q fs h.1)
  | inr e ↦ rw e (IsDistinct-filter q fs h.1)
]

write_finalizers-Anything :
    (ty nm : String) (fs : List String) → Keeps Anything (write_finalizers ty nm fs)
unfolding write_finalizers
write_finalizers-Anything ty nm fs = search (keeps_rules, Anything-preorder, tt)

write_finalizers-Preserves :
    (ty nm : String) (fs : List String)
    → IsDistinct fs
    → Keeps Preserves (write_finalizers ty nm fs)
unfolding write_finalizers
write_finalizers-Preserves ty nm fs distinct = search (keeps_rules, Preserves-preorder, written_ok)
  where
    written_ok :
        (at : ℕ)
        → Keeps Preserves (
            exec
              (update_rows ty nm (λ r. true) (λ r. record r { finalizers = fs; updated_at = at })))
    written_ok at =
        Keeps-exec Preserves-preorder _
          (update_rows-Preserves ty nm _ _ (λ r. refl) (λ r good. (good.0, distinct)))

get_resource_failed :
    (ty nm : String) (d : Db Tables)
    → d.faulty d.statements ≡ true
    → (e : Error) × (get_resource ty nm d ≡ (err e, record d { statements = suc d.statements }))
unfolding get_resource
get_resource_failed ty nm d broken = (wrap "scan resource" (driver io_failure), rw broken)

-- What follows a read may rely on what the invariant says of the row that was read.
Keeps-get_resource :
    {A : Type 0} (ty nm : String) (f : Loaded → Exec Tables A)
    → ((r : Row) → Keeps Anything (f (loaded r)))
    → ((r : Row) → IsGoodRow r → Keeps Preserves (f (loaded r)))
    → Keeps Preserves (get_resource ty nm >>= f)
Keeps-get_resource ty nm f faults rest = record {
  at = λ d w. elim (Bool-cases (d.faulty d.statements)) [
    | inl broken ↦ rw ((get_resource_failed ty nm d broken).1) w
    | inr fine ↦ elim (Option-cases (select ty nm d.tables)) [
      | inl missing ↦ rw (get_resource_lem ty nm d fine, missing) w
      | inr (r, found) ↦
          rw (get_resource_lem ty nm d fine, found)
            ((rest r (All-select_row IsGoodRow _ d.tables.resources w.rows found)).at _ w)
    ]
  ];
  env = λ d. elim (Bool-cases (d.faulty d.statements)) [
    | inl broken ↦ rw ((get_resource_failed ty nm d broken).1) refl
    | inr fine ↦ elim (Option-cases (select ty nm d.tables)) [
      | inl missing ↦ rw (get_resource_lem ty nm d fine, missing) refl
      | inr (r, found) ↦ rw (get_resource_lem ty nm d fine, found) ((faults r).env _)
    ]
  ];
  time = λ d. elim (Bool-cases (d.faulty d.statements)) [
    | inl broken ↦ rw ((get_resource_failed ty nm d broken).1) (refl, omega arith)
    | inr fine ↦ elim (Option-cases (select ty nm d.tables)) [
      | inl missing ↦ rw (get_resource_lem ty nm d fine, missing) (refl, omega arith)
      | inr (r, found) ↦
          rw (get_resource_lem ty nm d fine, found)
            (let later = (faults r).time (record d { statements = suc d.statements }) in
              (later.0, omega arith))
    ]
  ];
}

pub add_finalizer-Preserves : (ty nm f : String) → Keeps Preserves (add_finalizer ty nm f)
unfolding add_finalizer metadata_of
add_finalizer-Preserves ty nm f =
    Keeps-get_resource ty nm _
      (λ r. search (keeps_rules, Anything-preorder, write_finalizers-Anything))
      λ r good. elim (Bool-cases (any (λ g. g == f) r.finalizers)) [
        | inl present ↦ rw present (Keeps-pure Preserves-preorder tt)
        | inr absent ↦
            rw absent
              (write_finalizers-Preserves ty nm _ (IsDistinct-append r.finalizers f good.1 absent))
      ]

pub remove_finalizer-Preserves : (ty nm f : String) → Keeps Preserves (remove_finalizer ty nm f)
unfolding remove_finalizer metadata_of
remove_finalizer-Preserves ty nm f =
    Keeps-get_resource ty nm _
      (λ r. Keeps-if Anything-preorder _ _ _ (Keeps-pure Anything-preorder false) (
        Keeps-if Anything-preorder _ _ _
          (Keeps-bind Anything-preorder _ _
            (Keeps-Anything (Keeps-attempt Preserves-preorder _ (remove_resource-Preserves ty nm)))
            (λ _. Keeps-pure Anything-preorder true))
          (Keeps-bind Anything-preorder _ _
            (write_finalizers-Anything ty nm (without f r.finalizers))
            (λ _. Keeps-pure Anything-preorder true))))
      λ r good. Keeps-if Preserves-preorder _ _ _ (Keeps-pure Preserves-preorder false) (
        Keeps-if Preserves-preorder _ _ _
          (Keeps-bind Preserves-preorder _ _
            (Keeps-attempt Preserves-preorder _ (remove_resource-Preserves ty nm))
            (λ _. Keeps-pure Preserves-preorder true))
          (Keeps-bind Preserves-preorder _ _
            (write_finalizers-Preserves ty nm (without f r.finalizers)
              (IsDistinct-filter (λ g. not (g == f)) r.finalizers good.1))
            (λ _. Keeps-pure Preserves-preorder true)))
