-- ===== src/Tfexec/World.antt =====
-- What an apply touches: the state store, the files of the working directories (package os), and
-- the commands it has run, oldest first. A call of the file system may fail like a statement of
-- the database does, at the environment's choice.
use rezuscloud.Prelude.{
  suc, Bool, true, false, Option, none, some, String, List, [], ◌∷◌, ◌++◌, map, filter, ◌==◌,
}
use rezuscloud.Sql.{select_row, delete_where, update_where}
use rezuscloud.Effects.{Result, ok, err, driver, io_failure, Error, Exec, exec, query}
use rezuscloud.State.Tables.{Tables, Key, same}
use rezuscloud.State.Listing.Names.{text_leb, sort_by}

pub record File : Type 0 where
  pub dir : String
  pub name : String
  pub text : String

abbrev pub place : File → Key
place f = (f.dir, f.name)

abbrev pub at_place : String → String → File → Bool
at_place dir name f = same (dir, name) (place f)

-- The text of a file, and `none` where there is no such file.
abbrev pub file_at : String → String → List File → Option File
file_at dir name files = select_row (at_place dir name) files

-- The file is made where it is not there, and its text replaced where it is.
unfoldable pub set_file : File → List File → List File
set_file f files = elim (file_at f.dir f.name files) [
  | none ↦ files ++ f ∷ []
  | some _ ↦ update_where (at_place f.dir f.name) (λ g. record g { text = f.text }) files
]

-- `tofu <args>` for a tenant, and a rolling upgrade of a tenant from a version to another.
pub data Command : Type 0 where
  tofu : String → List String → Command
  upgrade : String → String → String → Command

-- A command that was run, and whether it returned nil.
pub record Event : Type 0 where
  pub command : Command
  pub succeeded : Bool

pub record World : Type 0 where
  pub store : Tables
  pub files : List File
  pub log : List Event

-- What is not the program's: `torn` is what a failed write leaves of the text; `tofu_error` and
-- `upgrade_error` what a command and an upgrade return; `store_during` and `files_during` what
-- the store and the files are when it ends, with what other requests did meanwhile. `backend_url`
-- is the option of that name, `backend_block` the text of backend.tf.json for an address.
pub record Outside : Type 0 where
  pub torn : String → String
  pub tofu_error : World → String → List String → Option Error
  pub upgrade_error : World → String → String → String → Option Error
  pub store_during : World → Event → Tables
  pub files_during : World → Event → List File
  pub backend_url : String
  pub backend_block : String → String

-- An operation of the state store, on the store of the world.
unfoldable pub in_store : {A : Type 0} → Exec Tables A → Exec World A
in_store m d =
    let r = m (record {
      tables = d.tables.store;
      clock = d.clock;
      readings = d.readings;
      faulty = d.faulty;
      statements = d.statements;
    }) in
    (
      r.0,
      record {
        tables = record d.tables { store = r.1.tables };
        clock = r.1.clock;
        readings = r.1.readings;
        faulty = r.1.faulty;
        statements = r.1.statements;
      },
    )

abbrev pub written : Bool → Result (Unit {0})
written true = err (driver io_failure)
written false = ok tt

abbrev pub text_left : (String → String) → Bool → String → String
text_left torn true text = torn text
text_left torn false text = text

-- os.WriteFile.
unfoldable pub write_file : (String → String) → String → String → String → Exec World Unit
unfolding set_file
write_file torn dir name text d =
    let fails = d.faulty d.statements in
    (
      written fails,
      record d {
        statements = suc d.statements;
        tables = record d.tables {
          files =
              set_file (record { dir = dir; name = name; text = text_left torn fails text })
                d.tables.files;
        };
      },
    )

-- os.Remove of a file that is there.
unfoldable pub remove_file : String → String → Exec World Unit
unfolding exec
remove_file dir name =
    exec (λ w. (ok tt, record w { files = delete_where (at_place dir name) w.files }))

-- os.ReadDir: the names of the files, in order.
unfoldable pub read_dir : String → Exec World (List String)
unfolding query
read_dir dir =
    query
      (λ w. ok (sort_by text_leb (map (λ (f : File). f.name) (filter (λ f. dir == f.dir) w.files))))

unfoldable pub read_file : String → String → Exec World String
unfolding query
read_file dir name =
    query
      (λ w. elim (file_at dir name w.files) [ none ↦ err (driver io_failure) | some f ↦ ok f.text ])

-- A command ended: the log has it, and the world is what it left.
unfoldable pub ended : Outside → Event → World → World
ended o event w = record {
  store = o.store_during w event;
  files = o.files_during w event;
  log = w.log ++ event ∷ [];
}
