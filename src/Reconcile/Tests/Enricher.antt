-- ===== src/Reconcile/Tests/Enricher.antt =====
-- An enrichment (internal/reconcile/enricher.go) with one instance and its binding.
use rezuscloud.Prelude.{some, String, [], ◌∷◌, ◌==◌}
use rezuscloud.Effects.Keeps.{Keeps}
use rezuscloud.Reconcile.Enricher.{Resource, enrich}
use rezuscloud.Reconcile.Enriched.{Enriches}
use rezuscloud.Reconcile.Merging.{enrich-Enriches}
use rezuscloud.Reconcile.Tests.{platform}

abbrev instance_of : String → String → String → Resource
instance_of nm k v = record {
  name = nm;
  tf_type = "oci_core_instance";
  tf_address = "oci_core_instance.node";
  spec = (k, some v) ∷ [];
}

enrich-Enriches_example : Keeps Enriches (
    enrich platform.machine_spec platform.machine_status platform.sqlite
      (λ s. s)
      (λ s part. s == part)
      "acme"
      (instance_of "node" "public_ip" "203.0.113.7" ∷ [])
      (instance_of "node" "token" "t1" ∷ []))
enrich-Enriches_example =
    enrich-Enriches platform.machine_spec platform.machine_status platform.sqlite (λ s. s)
      (λ s part. s == part) "acme" (instance_of "node" "public_ip" "203.0.113.7" ∷ [])
      (instance_of "node" "token" "t1" ∷ [])
