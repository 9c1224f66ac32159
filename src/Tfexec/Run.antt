-- ===== src/Tfexec/Run.antt =====
-- Workdir, Run and sanitizeTenant (internal/tfexec/exec.go).
use Prim.Native.Char.{Char, code}
use Prim.Native.String.{◌++◌ as concat}
use rezuscloud.Prelude.{
  Bool, true, false, ◌&&◌, ◌||◌, Option, none, some, String, List, ◌==◌, eqb, leb, if◌then◌else◌,
}
use rezuscloud.Effects.{
  Error, Exec, Result, ok, err, pure, lift, context, gets, modify, exec, ◌>>=◌, ◌>>◌,
}
use rezuscloud.Tfexec.World.{World, Outside, Command, tofu, ended, write_file}

abbrev pub between : Char → Char → Char → Bool
between lo hi c = leb (code lo) (code c) && leb (code c) (code hi)

-- The cases of the switch in sanitizeTenant.
unfoldable pub is_safe : Char → Bool
is_safe c =
    between "a" "z" c
    || between "A" "Z" c
    || between "0" "9" c
    || eqb (code c) (code "-")
    || eqb (code c) (code "_")

unfoldable pub safe_char : Char → Char
unfolding is_safe
safe_char c = if is_safe c then c else "-"

unfoldable pub safe_text : String → String
unfolding safe_char
safe_text String.[] = String.[]
safe_text (String.◌∷◌ c s) = String.◌∷◌ (safe_char c) (safe_text s)

unfoldable pub sanitize_tenant : String → String
unfolding safe_text
sanitize_tenant tenant =
    if tenant == ""
    then "default"
    else if safe_text tenant == ""
    then "default"
    else safe_text tenant

abbrev pub backend_file : String
backend_file = "backend.tf.json"

abbrev pub is_none : Option Error → Bool
is_none none = true
is_none (some e) = false

abbrev pub error_result : Option Error → Result (Unit {0})
error_result none = ok tt
error_result (some e) = err e

module _ (o : Outside) where
  unfoldable pub write_backend : String → Exec World Unit
  write_backend dir = context "tfexec: write backend.tf.json" (
      write_file o.torn dir backend_file
        (o.backend_block (concat o.backend_url (concat "?ID=" dir))))

  -- os.MkdirAll may fail; a directory that is there needs nothing. A directory is named by its
  -- last part, the root being the same for all.
  unfoldable pub workdir : String → Exec World String
  unfolding exec
  workdir tenant = do
    let dir = sanitize_tenant tenant
    context "tfexec: create workdir" (exec (λ w. (ok tt, w)))
    if o.backend_url == "" then pure tt else write_backend dir
    pure dir

  -- The command ends with this result; the log has it.
  unfoldable pub finish : Command → Option Error → Exec World Unit
  unfolding ended modify
  finish command result = do
    modify (ended o (record { command = command; succeeded = is_none result }))
    lift (error_result result)

  -- `tofu <args>` in the tenant's directory.
  unfoldable pub run : String → List String → Exec World Unit
  unfolding finish
  run tenant args = do
    workdir tenant
    result ← gets (λ w. o.tofu_error w tenant args)
    finish (tofu tenant args) result
