-- ===== src/Host/Sidecar/Store.antt =====
-- crates/agentmesh-host/src/audit.rs: `FsAuditStore::persist`, on the calls of the file system that it
-- makes, and the store for tests. A call that can fail gives the text of its error. The permissions, and
-- the removal of the temporary file after a failed rename, are left out: their results are dropped.
use agentmesh_private.Common.{
  ℕ, ◌≤◌, Text, bytes, Bool, true, false, not, ◌||◌, ◌&&◌, Option, none, some, [], ◌∷◌, ◌++◌,
  length, ltb, All, ◌≢◌, ◌==◌, ◌≡◌, refl, sym, ap, arith,
}
use agentmesh_private.Common.Results.{Result, ok, err, ◌>>=◌, ◌>>◌, >>=-eq-ok}
use agentmesh_private.Host.Sidecar.{
  AuditError, dir_create, temp_write, sync, rename_failed, too_large, already_exists, path_escape,
  PersistResult, AuditStore,
}

-- The calls of `std::fs` and `std::path`, and the day of `Local::now()`.
pub record FileSystem : Type 0 where
  pub create_dir_all : Text → Option Text
  pub canonicalize : Text → Result Text Text
  pub join : Text → Text → Text
  pub starts_with : Text → Text → Bool
  pub is_there : Text → Bool
  pub create : Text → Option Text
  pub write_all : Text → Text → Option Text
  pub sync_all : Text → Option Text
  pub rename : Text → Text → Option Text
  pub today : Text

-- `map_err(..)?` on a call without a value, and on one with a value.
abbrev pub tried : Option Text → (Text → AuditError) → Result AuditError (Unit {0})
tried none failure = ok tt
tried (some e) failure = err (failure e)

abbrev pub tried_value : Result Text Text → (Text → AuditError) → Result AuditError Text
tried_value (ok v) failure = ok v
tried_value (err e) failure = err (failure e)

abbrev pub guarded : Bool → AuditError → Result AuditError (Unit {0})
guarded true e = err e
guarded false e = ok tt

-- `contains('/') || contains('\\') || contains("..")`.
unfoldable pub escapes : Text → Bool
escapes [] = false
escapes (a ∷ []) = a == b'/' || a == b'\\'
escapes (a ∷ b ∷ s) = a == b'/' || a == b'\\' || (a == b'.' && b == b'.') || escapes (b ∷ s)

module _ (fs : FileSystem) (run_id content : Text) where
  abbrev pub tmp_name : Text
  tmp_name = bytes ".full." ++ run_id ++ bytes ".tmp"

  -- From the directory of the run on.
  unfoldable pub write_once : Text → Result AuditError PersistResult
  write_once dest_dir =
      guarded (fs.is_there (fs.join dest_dir (bytes "full.json"))) already_exists
      >> (tried (fs.create (fs.join dest_dir tmp_name)) temp_write
          >> (tried (fs.write_all (fs.join dest_dir tmp_name) content) temp_write
              >> (tried (fs.sync_all (fs.join dest_dir tmp_name)) sync
                  >> (tried
                        (fs.rename (fs.join dest_dir tmp_name)
                          (fs.join dest_dir (bytes "full.json")))
                        rename_failed
                      >> ok (record {
                        path = fs.join dest_dir (bytes "full.json");
                        sync_level = bytes "file_sync";
                        commit_method = bytes "same_dir_rename_no_overwrite";
                      })))))

  -- The directory of the run, under the canonical parent.
  unfoldable pub in_parent : Text → Result AuditError PersistResult
  in_parent parent =
      guarded (escapes run_id) path_escape
      >> (tried (fs.create_dir_all (fs.join (fs.join parent fs.today) run_id)) dir_create
          >> (tried_value (fs.canonicalize (fs.join (fs.join parent fs.today) run_id)) dir_create
              >>= λ canonical.
                  (guarded (not (fs.starts_with canonical parent)) path_escape
                    >> write_once (fs.join (fs.join parent fs.today) run_id))))

  unfoldable pub persist_in : Text → ℕ → Result AuditError PersistResult
  persist_in parent max_bytes =
      guarded (ltb max_bytes (length content)) (too_large (length content))
      >> (tried (fs.create_dir_all parent) dir_create
          >> (tried_value (fs.canonicalize parent) dir_create >>= in_parent))

-- `FsAuditStore`.
abbrev pub fs_audit_store : FileSystem → AuditStore
fs_audit_store fs = record {
  persist = λ parent run_id content cap. persist_in fs run_id content parent cap;
}

-- `InMemoryAuditStore`, without the copy of the bytes that it keeps for the tests.
unfoldable pub persist_in_memory :
    (Text → Text → Text)
    → Option AuditError
    → Text
    → Text
    → Text
    → ℕ
    → Result AuditError PersistResult
persist_in_memory join (some fault) parent run_id content max_bytes = err fault
persist_in_memory join none parent run_id content max_bytes =
    guarded (ltb max_bytes (length content)) (too_large (length content))
    >> ok (record {
      path = join (join parent run_id) (bytes "full.json");
      sync_level = bytes "memory";
      commit_method = bytes "in_memory";
    })

guarded-ok : (b : Bool) (e : AuditError) (u : Unit {0}) → guarded b e ≡ ok u → b ≡ false
guarded-ok true e u h = absurd cc
guarded-ok false e u h = refl

tried-ok :
    (r : Option Text) (failure : Text → AuditError) (u : Unit {0})
    → tried r failure ≡ ok u
    → r ≡ none
tried-ok none failure u h = refl
tried-ok (some e) failure u h = absurd cc

tried_value-ok :
    (r : Result Text Text) (failure : Text → AuditError) (v : Text)
    → tried_value r failure ≡ ok v
    → r ≡ ok v
tried_value-ok (ok w) failure v h = cc
tried_value-ok (err e) failure v h = absurd cc

-- No byte of a name is a separator, and no two dots stand side by side in it.
pub record IsName (name : Text) : Type 0 where
  pub no_separator : All (λ b. (b ≢ b'/') × (b ≢ b'\\')) name
  pub no_parent : (xs ys : Text) → name ≢ xs ++ b'.' ∷ b'.' ∷ ys

escapes-All : (s : Text) → escapes s ≡ false → All (λ b. (b ≢ b'/') × (b ≢ b'\\')) s
unfolding escapes
escapes-All [] h = tt
escapes-All (a ∷ []) h = (ground arith, tt)
escapes-All (a ∷ b ∷ s) h = (ground arith, escapes-All (b ∷ s) (ground arith))

escapes-dots : (xs ys : Text) → escapes (xs ++ b'.' ∷ b'.' ∷ ys) ≡ true
unfolding escapes
escapes-dots [] ys = refl
escapes-dots (x ∷ []) ys = ground (arith, escapes-dots [] ys)
escapes-dots (x ∷ y ∷ xs) ys = ground (arith, escapes-dots (y ∷ xs) ys)

escapes-IsName : (name : Text) → escapes name ≡ false → IsName name
escapes-IsName name h = record {
  no_separator = escapes-All name h;
  no_parent = λ xs ys same. (let dots = escapes-dots xs ys in absurd cc);
}

path_of : Result AuditError PersistResult → Text
path_of (ok res) = res.path
path_of (err e) = []

module _ (fs : FileSystem) (run_id content : Text) where
  -- The document was written whole to the temporary file, which was renamed to a name that was free.
  pub record IsWrittenOnce (dest_dir : Text) (res : PersistResult) : Type 0 where
    pub free : fs.is_there (fs.join dest_dir (bytes "full.json")) ≡ false
    pub whole : fs.write_all (fs.join dest_dir (tmp_name fs run_id content)) content ≡ none
    pub synced : fs.sync_all (fs.join dest_dir (tmp_name fs run_id content)) ≡ none
    pub renamed :
        fs.rename
          (fs.join dest_dir (tmp_name fs run_id content))
          (fs.join dest_dir (bytes "full.json"))
        ≡ none
    pub at_path : res.path ≡ fs.join dest_dir (bytes "full.json")

  write_once-IsWrittenOnce :
      (dest_dir : Text) (res : PersistResult)
      → write_once fs run_id content dest_dir ≡ ok res
      → IsWrittenOnce dest_dir res
  unfolding write_once path_of
  write_once-IsWrittenOnce dest_dir res done =
      by_calls (fs.is_there dest) (fs.create tmp) (fs.write_all tmp content) (fs.sync_all tmp)
        (fs.rename tmp dest) refl refl refl refl done
    where
      dest : Text
      dest = fs.join dest_dir (bytes "full.json")

      tmp : Text
      tmp = fs.join dest_dir (tmp_name fs run_id content)

      by_calls :
          (there : Bool) (created wrote synced renamed : Option Text)
          → fs.is_there dest ≡ there
          → fs.write_all tmp content ≡ wrote
          → fs.sync_all tmp ≡ synced
          → fs.rename tmp dest ≡ renamed
          → (guarded there already_exists
              >> (tried created temp_write
                  >> (tried wrote temp_write
                      >> (tried synced sync
                          >> (tried renamed rename_failed
                              >> ok (record {
                                path = dest;
                                sync_level = bytes "file_sync";
                                commit_method = bytes "same_dir_rename_no_overwrite";
                              }))))))
            ≡ ok res
          → IsWrittenOnce dest_dir res
      by_calls true created wrote synced renamed a b c d h = absurd cc
      by_calls false (some e) wrote synced renamed a b c d h = absurd cc
      by_calls false none (some e) synced renamed a b c d h = absurd cc
      by_calls false none none (some e) renamed a b c d h = absurd cc
      by_calls false none none none (some e) a b c d h = absurd cc
      by_calls false none none none none a b c d h = record {
        free = a;
        whole = b;
        synced = c;
        renamed = d;
        at_path = at h;
      }
        where
          at :
              ◌≡◌ {A = Result AuditError PersistResult}
                (ok (record {
                  path = dest;
                  sync_level = bytes "file_sync";
                  commit_method = bytes "same_dir_rename_no_overwrite";
                }))
                (ok res)
              → res.path ≡ dest
          at h = sym (ap path_of h)

  -- What `persist` has checked and done.
  pub record IsPersisted (parent : Text) (max_bytes : ℕ) (res : PersistResult) : Type 0 where
    pub small : length content ≤ max_bytes
    pub contained : IsName run_id
    pub home : Text
    pub canonical_home : fs.canonicalize parent ≡ ok home
    pub place : Text
    pub canonical_place : fs.canonicalize (fs.join (fs.join home fs.today) run_id) ≡ ok place
    pub inside : fs.starts_with place home ≡ true
    pub once : IsWrittenOnce (fs.join (fs.join home fs.today) run_id) res

  not-false : (b : Bool) → not b ≡ false → b ≡ true
  not-false true h = refl
  not-false false h = absurd cc

  -- If the document is persisted, it is not larger than the limit, the identifier of the run has no
  -- "/", no "\\" and no two dots side by side, the directory is inside the parent after both are made canonical, and the
  -- document was written whole to a temporary file that was renamed to a name that was free.
  pub persist_in-IsPersisted :
      (parent : Text) (max_bytes : ℕ) (res : PersistResult)
      → persist_in fs run_id content parent max_bytes ≡ ok res
      → IsPersisted parent max_bytes res
  unfolding persist_in in_parent
  persist_in-IsPersisted parent max_bytes res done =
      let (u1, small, rest1) =
        >>=-eq-ok (guarded (ltb max_bytes (length content)) (too_large (length content)))
          (λ _.
            tried (fs.create_dir_all parent) dir_create
            >> (tried_value (fs.canonicalize parent) dir_create >>= in_parent fs run_id content))
          done in
      let (u2, _, rest2) =
        >>=-eq-ok (tried (fs.create_dir_all parent) dir_create)
          (λ _. tried_value (fs.canonicalize parent) dir_create >>= in_parent fs run_id content)
          rest1 in
      let (home, at_home, rest3) =
        >>=-eq-ok (tried_value (fs.canonicalize parent) dir_create) (in_parent fs run_id content)
          rest2 in
      let day : Text = fs.join (fs.join home fs.today) run_id in
      let checked_place : Text → Result AuditError PersistResult = λ place.
        guarded (not (fs.starts_with place home)) path_escape >> write_once fs run_id content day in
      let (u4, contained, rest4) =
        >>=-eq-ok (guarded (escapes run_id) path_escape)
          (λ _.
            tried (fs.create_dir_all day) dir_create
            >> (tried_value (fs.canonicalize day) dir_create >>= checked_place))
          rest3 in
      let (u5, _, rest5) =
        >>=-eq-ok (tried (fs.create_dir_all day) dir_create)
          (λ _. tried_value (fs.canonicalize day) dir_create >>= checked_place) rest4 in
      let (place, at_place, rest6) =
        >>=-eq-ok (tried_value (fs.canonicalize day) dir_create) checked_place rest5 in
      let (u7, inside, rest7) =
        >>=-eq-ok (guarded (not (fs.starts_with place home)) path_escape)
          (λ _. write_once fs run_id content day) rest6 in
      let fits = guarded-ok _ _ u1 small in
      record {
        small = ground arith;
        contained = escapes-IsName run_id (guarded-ok _ _ u4 contained);
        home = home;
        canonical_home = tried_value-ok _ _ home at_home;
        place = place;
        canonical_place = tried_value-ok _ _ place at_place;
        inside = not-false _ (guarded-ok _ _ u7 inside);
        once = write_once-IsWrittenOnce day res rest7;
      }
