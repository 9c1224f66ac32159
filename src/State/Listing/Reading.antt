-- ===== src/State/Listing/Reading.antt =====
-- A SQLite (for ListResources in store.go) whose json_extract reads one key, and which refuses a
-- statement that an unusual key is spliced into.
use Prim.Native.String.{◌++◌ as concat}
use rezuscloud.Prelude.{refl, none, String, ◌==◌, eq_refl, if◌then◌else◌}
use rezuscloud.Maps.{lookup}
use rezuscloud.Effects.{err, driver, syntax_error}
use rezuscloud.State.Listing.Defs.{Sqlite, json_path_key}
use rezuscloud.State.Listing.Queries.{ReadsKey}

abbrev pub reading : String → Sqlite
reading k = record {
  json_extract =
      λ labels path. if path == concat "$." (json_path_key k) then lookup k labels else none;
  spliced_count = λ ty opts rows. err (driver syntax_error);
  spliced_rows = λ ty opts rows. err (driver syntax_error);
}

pub reading-ReadsKey : (k : String) → ReadsKey (reading k) k
reading-ReadsKey k labels = rw (eq_refl (concat "$." (json_path_key k))) refl
