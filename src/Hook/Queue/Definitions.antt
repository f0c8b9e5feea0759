-- ===== src/Hook/Queue/Definitions.antt =====
-- internal/hook/crud.go, DeleteDefinition: a definition is deleted under its revision, and the foreign
-- key of migrations/0010_hooks.sql deletes the deliveries of its hook with it.
use anti_nat.Common.{
  ℕ, Bool, true, false, not, Option, none, some, if◌then◌else◌, ◌==◌, String, str_eq,
}
use anti_nat.Hook.Queue.{Answer, done, refused, db_failed, not_found, cas_conflict}
use anti_nat.Hook.Queue.Rows.{either}
use anti_nat.Hook.Queue.Table.{Delivery, Db, filter_rows}

abbrev pub of_other_hook : String → Delivery → Bool
of_other_hook id d = not (str_eq d.hook_id id)

-- `stored` is the revision of the definition, if there is one.
unfoldable pub delete_definition : Db → String → ℕ → Option ℕ → Bool → Db × Answer
delete_definition db id expected_rev none commits =
    (db, refused (if commits then not_found else db_failed))
delete_definition db id expected_rev (some revision) commits =
    if not commits
    then (db, refused db_failed)
    else if revision == expected_rev
    then (record db { rows = filter_rows (of_other_hook id) db.rows }, done)
    else (db, refused cas_conflict)

-- A property of the state is kept by a deletion when it is kept by the loss of a hook's rows.
pub delete_definition-keeps {ℓ} :
    (P : Db → Type ℓ) (db : Db) (id : String) (expected_rev : ℕ) (stored : Option ℕ)
    (commits : Bool)
    → P db
    → P (record db { rows = filter_rows (of_other_hook id) db.rows })
    → P (delete_definition db id expected_rev stored commits).0
unfolding delete_definition
delete_definition-keeps P db id expected_rev none commits p q = p
delete_definition-keeps P db id expected_rev (some revision) false p q = p
delete_definition-keeps P db id expected_rev (some revision) true p q =
    either P (revision == expected_rev) _ _ q p
