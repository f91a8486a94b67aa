-- ===== src/Host/Sidecar/Examples.antt =====
-- A store on a file system where every call succeeds, and an instance of its theorem.
use agentmesh_private.Common.{bytes, true, false, none, ◌++◌, ◌≡◌, refl}
use agentmesh_private.Common.Results.{ok, err}
use agentmesh_private.Host.Sidecar.{PersistResult, path_escape}
use agentmesh_private.Host.Sidecar.Store.{
  FileSystem, escapes, write_once, in_parent, persist_in, IsPersisted, persist_in-IsPersisted,
}

abbrev disk : FileSystem
disk = record {
  create_dir_all = λ path. none;
  canonicalize = λ path. ok path;
  join = λ path name. path ++ bytes "/" ++ name;
  starts_with = λ path parent. true;
  is_there = λ path. false;
  create = λ path. none;
  write_all = λ path content. none;
  sync_all = λ path. none;
  rename = λ old new. none;
  today = bytes "2026-08-22";
}

abbrev kept : PersistResult
kept = record {
  path = bytes "/runs/2026-08-22/r1/full.json";
  sync_level = bytes "file_sync";
  commit_method = bytes "same_dir_rename_no_overwrite";
}

persists : persist_in disk (bytes "r1") (bytes "{}") (bytes "/runs") 16 ≡ ok kept
unfolding persist_in in_parent write_once escapes
persists = refl

refuses_parent : persist_in disk (bytes "a/../b") (bytes "{}") (bytes "/runs") 16 ≡ err path_escape
unfolding persist_in in_parent write_once escapes
refuses_parent = refl

persist_in-IsPersisted_example : IsPersisted disk (bytes "r1") (bytes "{}") (bytes "/runs") 16 kept
persist_in-IsPersisted_example =
    persist_in-IsPersisted disk (bytes "r1") (bytes "{}") (bytes "/runs") 16 kept persists
