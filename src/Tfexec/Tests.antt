-- ===== src/Tfexec/Tests.antt =====
-- Two tenants of one working directory, and of two (internal/tfexec/exec.go).
use rezuscloud.Prelude.{◌≡◌, ◌≢◌, refl, false, String, ◌==◌}
use rezuscloud.Tfexec.Run.{sanitize_tenant, is_safe}
use rezuscloud.Tfexec.Segments.{IsSafe, sanitize_tenant-separates, sanitize_tenant-shared}

abbrev acme : String
acme = "acme"

abbrev other : String
other = "other"

sanitize_tenant-separates_example :
    IsSafe (sanitize_tenant acme)
    × (sanitize_tenant (sanitize_tenant acme) ≡ sanitize_tenant acme)
    × (IsSafe acme
        → IsSafe other
        → (acme == "") ≡ false
        → (other == "") ≡ false
        → acme ≢ other
        → sanitize_tenant acme ≢ sanitize_tenant other)
sanitize_tenant-separates_example = sanitize_tenant-separates acme other

dot-odd : is_safe "." ≡ false
unfolding is_safe
dot-odd = refl

sanitize_tenant-shared_example : sanitize_tenant "acme.eu" ≡ sanitize_tenant "acme-eu"
sanitize_tenant-shared_example = sanitize_tenant-shared "acme" "eu" "." dot-odd
