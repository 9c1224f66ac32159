-- ===== src/Tfexec/Segments.antt =====
-- Which tenants share a working directory (sanitizeTenant in internal/tfexec/exec.go). The same
-- segment is the ID of the tenant's state and of its lock in the HTTP backend.
use Prim.Native.Char.{Char}
use Prim.Native.String.{◌++◌ as concat}
use Prim.Native.String.append
use text.Mathlib.TextLemmas.{cons≢nil}
use rezuscloud.Prelude.{
  ◌≡◌, ◌≢◌, refl, sym, ap, ◌∙◌, inl, inr, true, false, String, arith, ◌==◌, Bool-cases, text-cases,
}
use rezuscloud.Tfexec.Run.{is_safe, safe_char, safe_text, sanitize_tenant}

-- Every character is a letter, a digit, `-` or `_`.
abbrev pub IsSafe : String → Type 0
IsSafe String.[] = Unit
IsSafe (String.◌∷◌ c s) = (is_safe c ≡ true) × IsSafe s

safe_text-IsSafe : (s : String) → IsSafe s → safe_text s ≡ s
unfolding safe_text safe_char
safe_text-IsSafe String.[] h = refl
safe_text-IsSafe (String.◌∷◌ c s) h = rw (h.0, safe_text-IsSafe s h.1) refl

safe_char-is_safe : (c : Char) → is_safe (safe_char c) ≡ true
unfolding safe_char
safe_char-is_safe c = elim (Bool-cases (is_safe c)) [
  | inl e ↦ rw (e) e
  | inr e ↦ rw e (unfold is_safe in refl)
]

IsSafe-safe_text : (s : String) → IsSafe (safe_text s)
unfolding safe_text
IsSafe-safe_text String.[] = tt
IsSafe-safe_text (String.◌∷◌ c s) = (safe_char-is_safe c, IsSafe-safe_text s)

cons-nonempty : (c : Char) (s : String) → (String.◌∷◌ c s == "") ≡ false
cons-nonempty c s = elim (text-cases (String.◌∷◌ c s) "") [
  | inl e ↦ absurd (cons≢nil {x = c} {xs = s} e)
  | inr e ↦ e
]

append-nonempty : (s : String) (c : Char) (t : String) → (concat s (String.◌∷◌ c t) == "") ≡ false
append-nonempty String.[] c t = rw (append.nil (String.◌∷◌ c t)) (cons-nonempty c t)
append-nonempty (String.◌∷◌ d s) c t =
    rw (append.cons d s (String.◌∷◌ c t)) (cons-nonempty d (concat s (String.◌∷◌ c t)))

sanitize_tenant-nonempty : (s : String) → (s == "") ≡ false → sanitize_tenant s ≡ safe_text s
unfolding sanitize_tenant safe_text
sanitize_tenant-nonempty String.[] e = absurd (ground arith)
sanitize_tenant-nonempty (String.◌∷◌ c s) e = rw (e, cons-nonempty (safe_char c) (safe_text s)) refl

sanitize_tenant-IsSafe : (s : String) → IsSafe (sanitize_tenant s)
sanitize_tenant-IsSafe String.[] =
    unfold sanitize_tenant is_safe in (refl, (refl, (refl, (refl, (refl, (refl, (refl, tt)))))))
sanitize_tenant-IsSafe (String.◌∷◌ c s) =
    rw (sanitize_tenant-nonempty (String.◌∷◌ c s) (cons-nonempty c s))
      (IsSafe-safe_text (String.◌∷◌ c s))

sanitized-nonempty : (s : String) → (sanitize_tenant s == "") ≡ false
sanitized-nonempty String.[] = unfold sanitize_tenant in refl
sanitized-nonempty (String.◌∷◌ c s) =
    rw (sanitize_tenant-nonempty (String.◌∷◌ c s) (cons-nonempty c s))
      (unfold safe_text in cons-nonempty (safe_char c) (safe_text s))

sanitize_tenant-fixes : (s : String) → IsSafe s → (s == "") ≡ false → sanitize_tenant s ≡ s
sanitize_tenant-fixes s h e = sanitize_tenant-nonempty s e ∙ safe_text-IsSafe s h

-- A tenant's directory has a safe name whatever the tenant's name is; a second pass changes
-- nothing; and two tenants with safe names that are not empty have two directories.
pub sanitize_tenant-separates :
    (s t : String)
    → IsSafe (sanitize_tenant s)
      × (sanitize_tenant (sanitize_tenant s) ≡ sanitize_tenant s)
      × (IsSafe s
          → IsSafe t
          → (s == "") ≡ false
          → (t == "") ≡ false
          → s ≢ t
          → sanitize_tenant s ≢ sanitize_tenant t)
sanitize_tenant-separates s t = (
  sanitize_tenant-IsSafe s,
  sanitize_tenant-fixes (sanitize_tenant s) (sanitize_tenant-IsSafe s) (sanitized-nonempty s),
  λ hs ht ns nt apart same_dir.
      apart (sym (sanitize_tenant-fixes s hs ns) ∙ same_dir ∙ sanitize_tenant-fixes t ht nt),
)

safe_text-append : (s t : String) → safe_text (concat s t) ≡ concat (safe_text s) (safe_text t)
unfolding safe_text
safe_text-append String.[] t = rw (append.nil t) (sym (append.nil (safe_text t)))
safe_text-append (String.◌∷◌ c s) t = rw (append.cons c s t) (
    ap (String.◌∷◌ (safe_char c)) (safe_text-append s t)
    ∙ sym (append.cons (safe_char c) (safe_text s) (safe_text t)))

safe_text-odd :
    (c : Char) (t : String)
    → is_safe c ≡ false
    → safe_text (String.◌∷◌ c t) ≡ safe_text (String.◌∷◌ "-" t)
unfolding safe_text safe_char is_safe
safe_text-odd c t odd = rw odd refl

-- Two tenants whose names differ in one unsafe character, which is a dash in the other, share one
-- directory, and with it one state.
pub sanitize_tenant-shared :
    (s t : String) (c : Char)
    → is_safe c ≡ false
    → sanitize_tenant (concat s (String.◌∷◌ c t)) ≡ sanitize_tenant (concat s (String.◌∷◌ "-" t))
sanitize_tenant-shared s t c odd =
    sanitize_tenant-nonempty _ (append-nonempty s c t)
    ∙ safe_text-append s (String.◌∷◌ c t)
    ∙ ap (concat (safe_text s)) (safe_text-odd c t odd)
    ∙ sym (safe_text-append s (String.◌∷◌ "-" t))
    ∙ sym (sanitize_tenant-nonempty _ (append-nonempty s "-" t))
