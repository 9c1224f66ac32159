-- ===== src/Reconcile/Rendered.antt =====
-- Which configurations stand in the working directory after a render (renderConfig in
-- internal/reconcile/applier.go).
use mathlib.Core.Option
use Prim.Native.String.{◌++◌ as concat}
use rezuscloud.Prelude.{
  ◌≡◌, refl, sym, ap, ◌∙◌, inl, inr, Bool, true, false, ◌||◌, Option, none, some, String, List, [],
  ◌∷◌, arith, ◌==◌, eq_iff, eq_refl, any, if◌then◌else◌, Option-cases,
}
use rezuscloud.Sql.{select_row, update_where}
use rezuscloud.Sql.Keyed.{lookup-append_free}
use rezuscloud.Effects.Keeps.{ok-injective}
use rezuscloud.Effects.{Db, Result, ok, err, pure, Exec, context, continue, wrapped, ◌>>=◌}
use rezuscloud.State.Types.{Tenant, NodeGroupSpec}
use rezuscloud.State.Tables.{same, same_iff}
use rezuscloud.Tfexec.World.{World, File, place, at_place, file_at, set_file, write_file}
use rezuscloud.Reconcile.Keys.{filter_by_provider}
use rezuscloud.Reconcile.Minting.{IsSound}
use rezuscloud.Reconcile.Cleaning.{clean_provider_configs-exact}
use rezuscloud.Reconcile.Render.{
  Renderer, Provider, RenderRequest, is_provider_config, render_provider, render_matching,
  render_each, render_config, clean_provider_configs,
}

-- The text of a file of the directory.
abbrev pub text_at : String → String → List File → Option String
text_at dir name files = Option.map (λ (f : File). f.text) (file_at dir name files)

module _ (dir n name text : String) where
  text_at-update :
      (files : List File)
      → text_at dir name (update_where (at_place dir n) (λ g. record g { text = text }) files) ≡ (
          if n == name
          then Option.map (λ _. text) (file_at dir n files)
          else text_at dir name files)
  unfolding select_row update_where
  text_at-update [] = ground arith
  text_at-update (f ∷ files) =
      ground (arith, text_at-update files, eq_iff n name, eq_iff n f.name, eq_iff name f.name)

  pub text_at-set :
      (files : List File)
      → text_at dir name (set_file (record { dir = dir; name = n; text = text }) files)
        ≡ (if n == name then some text else text_at dir name files)
  unfolding set_file
  text_at-set files = elim (Option-cases (file_at dir n files)) [
    | inl e ↦
        rw (set_file, e)
          (ap (Option.map (λ (f : File). f.text)) (
              lookup-append_free place same same_iff (dir, name) files
                (record { dir = dir; name = n; text = text }) e)
            ∙ ground (arith, eq_refl dir))
    | inr (g, e) ↦ rw (set_file, e) (text_at-update files ∙ rw e refl)
  ]

module _ (r : Renderer) (dir : String) (t : Tenant) (ngs : List NodeGroupSpec)
    (req : RenderRequest) where
  abbrev request : List NodeGroupSpec → RenderRequest
  request matching = record {
    tenant = some t;
    node_groups = matching;
    bootstrap_config = req.bootstrap_config;
    binding_tokens = req.binding_tokens;
    mgmt_endpoint = req.mgmt_endpoint;
  }

  abbrev pub is_some : List NodeGroupSpec → Bool
  is_some [] = false
  is_some (ng ∷ rest) = true

  abbrev pub has_groups : Provider → Bool
  has_groups p = is_some (filter_by_provider ngs p.type)

  abbrev text_of : Result String → Option String
  text_of (ok raw) = some raw
  text_of (err e) = none

  -- What a provider with groups writes under a name.
  abbrev pub writes : Provider → List NodeGroupSpec → String → Option String
  writes p [] name = none
  writes p (ng ∷ rest) name =
      if concat p.type ".tf.json" == name then text_of (p.render (request (ng ∷ rest))) else none

  abbrev pub or_else : Option String → Option String → Option String
  or_else none x = x
  or_else (some s) x = some s

  -- The text that the providers leave under a name; of two that write it, the later.
  abbrev pub written_by : List Provider → String → Option String
  written_by [] name = none
  written_by (p ∷ ps) name =
      or_else (written_by ps name) (writes p (filter_by_provider ngs p.type) name)

  -- A turn, or a loop, that started with `wrote` in `d` and returned: what it wrote, over what was
  -- there.
  abbrev Leaves : Bool → (String → Option String) → Db World → Result Bool → Db World → Type 0
  Leaves wrote texts d result d' =
      (b : Bool)
      → result ≡ ok b
      → IsSound d'
        × (b ≡ wrote)
        × ((name : String)
            → text_at dir name d'.tables.files
              ≡ or_else (texts name) (text_at dir name d.tables.files))

  render_matching-Leaves :
      (p : Provider) (matching : List NodeGroupSpec) (wrote : Bool) (d : Db World)
      → IsSound d
      → Leaves
          (is_some matching || wrote)
          (writes p matching)
          d
          (render_matching r dir t req p matching wrote d).0
          (render_matching r dir t req p matching wrote d).1
  unfolding render_provider write_file
  render_matching-Leaves p [] wrote d fine = λ b e. (fine, sym (ok-injective (sym e)), λ name. refl)
  render_matching-Leaves p (ng ∷ rest) wrote d fine = go (p.render (request (ng ∷ rest))) refl
    where
      go :
          (raw : Result String)
          → p.render (request (ng ∷ rest)) ≡ raw
          → Leaves true
              (writes p (ng ∷ rest))
              d
              (render_matching r dir t req p (ng ∷ rest) wrote d).0
              (render_matching r dir t req p (ng ∷ rest) wrote d).1
      go (ok raw) h =
          rw (h, fine d.statements)
            (λ b e. (
              fine,
              sym (ok-injective (sym e)),
              λ name.
                  text_at-set dir (concat p.type ".tf.json") name raw d.tables.files ∙ ground arith,
            ))
      go (err f) h = rw h (λ b e. absurd (cc))

  or_else_assoc : (x y z : Option String) → or_else x (or_else y z) ≡ or_else (or_else x y) z
  or_else_assoc none y z = refl
  or_else_assoc (some s) y z = refl

  render_each-Leaves :
      (ps : List Provider) (wrote : Bool) (d : Db World)
      → IsSound d
      → Leaves
          (any has_groups ps || wrote)
          (written_by ps)
          d
          (render_each r dir t ngs req ps wrote d).0
          (render_each r dir t ngs req ps wrote d).1
  unfolding render_each
  render_each-Leaves [] wrote d fine = λ b e. (fine, sym (ok-injective (sym e)), λ name. refl)
  render_each-Leaves (p ∷ ps) wrote d fine =
      go (render_matching r dir t req p (filter_by_provider ngs p.type) wrote d).0
        (render_matching r dir t req p (filter_by_provider ngs p.type) wrote d).1
        (render_matching-Leaves p (filter_by_provider ngs p.type) wrote d fine)
        (render_each-Leaves ps)
    where
      go :
          (x : Result Bool) (d1 : Db World)
          → Leaves (has_groups p || wrote) (writes p (filter_by_provider ngs p.type)) d x d1
          → ((b1 : Bool) (d1 : Db World)
              → IsSound d1
              → Leaves
                  (any has_groups ps || b1)
                  (written_by ps)
                  d1
                  (render_each r dir t ngs req ps b1 d1).0
                  (render_each r dir t ngs req ps b1 d1).1)
          → Leaves
              (any has_groups (p ∷ ps) || wrote)
              (written_by (p ∷ ps))
              d
              (continue x (render_each r dir t ngs req ps) d1).0
              (continue x (render_each r dir t ngs req ps) d1).1
      go (err f) d1 first ih b e = absurd (cc)
      go (ok b1) d1 first ih b e =
          let (sound, hit, left) = first b1 refl in
          let (sound', hit', left') = ih b1 d1 sound b e in
          (
            sound',
            hit' ∙ ground (arith, hit),
            λ name.
                left' name
                ∙ ap (or_else (written_by ps name)) (left name)
                ∙ or_else_assoc (written_by ps name) _ _,
          )

  written_by-none :
      (ps : List Provider) (name : String) → any has_groups ps ≡ false → written_by ps name ≡ none
  written_by-none [] name h = refl
  written_by-none (p ∷ ps) name h =
      rw (written_by-none ps name (ground (arith, h)))
        (no_groups (filter_by_provider ngs p.type) (ground (arith, h)))
    where
      no_groups :
          (matching : List NodeGroupSpec) → is_some matching ≡ false → writes p matching name ≡ none
      no_groups [] e = refl
      no_groups (ng ∷ rest) e = absurd (cc)

  abbrev pub minimal : String
  minimal = "{\"terraform\":{}}"

  -- The configurations of the node groups: the providers', or the minimal one.
  abbrev pub configs : String → Option String
  configs name =
      if any has_groups r.providers
      then written_by r.providers name
      else if "main.tf.json" == name
      then some minimal
      else none

  finished :
      (d1 d2 : Db World) (x : Result Bool)
      → Leaves (any has_groups r.providers || false) (written_by r.providers) d1 x d2
      → let m =
          continue x
            (λ b.
              if b
              then pure tt
              else context "write minimal main.tf.json"
                  (write_file r.torn dir "main.tf.json" minimal))
            d2 in
        m.0 ≡ ok tt
        → (name : String)
        → text_at dir name m.1.tables.files
          ≡ or_else (configs name) (text_at dir name d1.tables.files)
  finished d1 d2 (err f) leaves done name = absurd (cc)
  finished d1 d2 (ok true) leaves done name =
      let (sound, hit, left) = leaves true refl in
      let some_groups : any has_groups r.providers ≡ true = ground (arith, hit) in
      rw some_groups (left name)
  finished d1 d2 (ok false) leaves done name =
      let (sound, hit, left) = leaves false refl in
      let none_at : any has_groups r.providers ≡ false = ground (arith, hit) in
      let old : text_at dir name d2.tables.files ≡ text_at dir name d1.tables.files =
        left name
        ∙ ap (λ (x : Option String). or_else x (text_at dir name d1.tables.files))
            (written_by-none r.providers name none_at) in
      rw none_at (
        unfold write_file in
        rw (sound d2.statements)
          (text_at-set dir "main.tf.json" name minimal d2.tables.files ∙ ground (arith, old)))

  -- What renderConfig does after the stale configurations are gone.
  abbrev fill : Exec World Unit
  fill = render_each r dir t ngs req r.providers false >>= λ b.
      if b
      then pure tt
      else context "write minimal main.tf.json" (write_file r.torn dir "main.tf.json" minimal)

  filled :
      (c : Result (Unit {0})) (d1 : Db World)
      → c ≡ ok tt
      → IsSound d1
      → let m = continue (wrapped "clean stale configs" c) (λ u. fill) d1 in
        m.0 ≡ ok tt
        → (name : String)
        → text_at dir name m.1.tables.files
          ≡ or_else (configs name) (text_at dir name d1.tables.files)
  filled (ok u) d1 cleaned sound =
      finished d1 (render_each r dir t ngs req r.providers false d1).1
        (render_each r dir t ngs req r.providers false d1).0
        (render_each-Leaves r.providers false d1 sound)
  filled (err f) d1 cleaned sound = absurd (cc)

  text_at-if :
      (b : Bool) (f : Option File)
      → Option.map (λ (f : File). f.text) (if b then none else f)
        ≡ (if b then none else Option.map (λ (f : File). f.text) f)
  text_at-if true f = refl
  text_at-if false f = refl

  -- With a working file system, a render that returned nil leaves in the directory the
  -- configuration of each provider that has node groups, or the minimal one where none has, no
  -- other configuration but tfexec's own, and every file that is no configuration as it was.
  pub render_config-exact :
      (d : Db World)
      → IsSound d
      → (render_config r dir t ngs req d).0 ≡ ok tt
      → (name : String)
      → text_at dir name (render_config r dir t ngs req d).1.tables.files
        ≡ or_else
            (configs name)
            (if is_provider_config name then none else text_at dir name d.tables.files)
  unfolding render_config
  render_config-exact d fine done name =
      let (cleaned, sound, left) = clean_provider_configs-exact dir d fine in
      filled (clean_provider_configs dir d).0 (clean_provider_configs dir d).1 cleaned sound done
        name
      ∙ ap (or_else (configs name)) (
          ap (Option.map (λ (f : File). f.text)) (left name)
          ∙ text_at-if (is_provider_config name) _)
