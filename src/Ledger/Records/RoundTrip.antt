-- ===== src/Ledger/Records/RoundTrip.antt =====
-- plugins/local-control-ledger/src/lib.rs: what is read after it was set.
use agentmesh_private.Common.{
  Text, Bool, true, ◌&&◌, Option, none, some, ◌≡◌, refl, ap, ◌∙◌, arith, str_eq, str_eq_iff,
}
use agentmesh_private.Common.Results.{ok}
use agentmesh_private.Ledger.Input.{
  LedgerInput, Answer, answer, watermark_set, watermark_found, mode_set, mode_found,
}
use agentmesh_private.Ledger.Rows.{Tables, Watermark, Authority}
use agentmesh_private.Ledger.Sql.{select}
use agentmesh_private.Ledger.Sql.Keys.{select-upsert, upserted}
use agentmesh_private.Ledger.Args.{
  WatermarkArgs, WatermarkKeyArgs, ModeArgs, watermark_args, watermark_key_args, mode_args,
  controller_arg,
}
use agentmesh_private.Ledger.Store.{Environment, reading, writing}
use agentmesh_private.Ledger.Store.Answered.{answered-ok}
use agentmesh_private.Ledger.Records.{
  ok_answer, put_watermark, set_watermark, find_watermark, watermark_answer, get_watermark,
  find_mode, mode_answer, get_authority_mode, put_mode, set_authority_mode,
}

own_mark : (scope key : Text) → (str_eq scope scope && str_eq key key) ≡ true
own_mark scope key = ground (arith, (str_eq_iff scope scope).1 refl, (str_eq_iff key key).1 refl)

find_watermark-put_watermark :
    (a : WatermarkArgs) (t : Tables)
    → (r : Watermark) × ((find_watermark a.scope_key a.watermark_key (put_watermark a t).1).0
        ≡ some r)
      × (r.value_hash ≡ a.value_hash)
      × (r.updated_at ≡ a.updated_at)
unfolding find_watermark put_watermark
find_watermark-put_watermark a t = go (select is_own t.watermarks) found
  where
    is_own : Watermark → Bool
    is_own r = str_eq r.scope_key a.scope_key && str_eq r.watermark_key a.watermark_key

    set_mark : Watermark → Watermark
    set_mark r = record r { value_hash = a.value_hash; updated_at = a.updated_at }

    new : Watermark
    new = record {
      scope_key = a.scope_key;
      watermark_key = a.watermark_key;
      value_hash = a.value_hash;
      updated_at = a.updated_at;
    }

    found :
        select is_own (put_watermark a t).1.watermarks
        ≡ (upserted is_own (λ r. true) set_mark (λ r. refl) new (select is_own t.watermarks)).0
    found =
        (select-upsert is_own (λ r. true) set_mark (λ r. refl) new
          (own_mark a.scope_key a.watermark_key) t.watermarks).0

    go :
        (o : Option Watermark)
        → select is_own (put_watermark a t).1.watermarks
          ≡ (upserted is_own (λ r. true) set_mark (λ r. refl) new o).0
        → (r : Watermark) × (select is_own (put_watermark a t).1.watermarks ≡ some r)
          × (r.value_hash ≡ a.value_hash)
          × (r.updated_at ≡ a.updated_at)
    go none h = (new, h, refl, refl)
    go (some r) h = (set_mark r, h, refl, refl)

find_mode-put_mode :
    (a : ModeArgs) (t : Tables)
    → (r : Authority) × ((find_mode a.controller_id (put_mode a t).1).0 ≡ some r)
      × (r.mode ≡ a.authority_mode)
      × (r.updated_at ≡ a.updated_at)
unfolding find_mode put_mode
find_mode-put_mode a t = go (select is_own t.authority_modes) found
  where
    is_own : Authority → Bool
    is_own r = str_eq r.controller_id a.controller_id

    set_mark : Authority → Authority
    set_mark r = record r { mode = a.authority_mode; updated_at = a.updated_at }

    new : Authority
    new = record {
      controller_id = a.controller_id;
      mode = a.authority_mode;
      updated_at = a.updated_at;
    }

    found :
        select is_own (put_mode a t).1.authority_modes
        ≡ (upserted is_own (λ r. true) set_mark (λ r. refl) new (select is_own t.authority_modes)).0
    found =
        (select-upsert is_own (λ r. true) set_mark (λ r. refl) new
          ((str_eq_iff a.controller_id a.controller_id).1 refl) t.authority_modes).0

    go :
        (o : Option Authority)
        → select is_own (put_mode a t).1.authority_modes
          ≡ (upserted is_own (λ r. true) set_mark (λ r. refl) new o).0
        → (r : Authority) × (select is_own (put_mode a t).1.authority_modes ≡ some r)
          × (r.mode ≡ a.authority_mode)
          × (r.updated_at ≡ a.updated_at)
    go none h = (new, h, refl, refl)
    go (some r) h = (set_mark r, h, refl, refl)

-- A watermark that was set is what a read of the same scope and key answers next, if the database
-- carries out both.
pub get_watermark-set_watermark :
    (env later : Environment) (set get : LedgerInput) (a : WatermarkArgs) (t : Tables)
    (x y : Answer)
    → watermark_args set ≡ ok a
    → watermark_key_args get
      ≡ ok (record { scope_key = a.scope_key; watermark_key = a.watermark_key })
    → (set_watermark env set t).0 ≡ ok x
    → (get_watermark later get (set_watermark env set t).1).0 ≡ ok y
    → y
      ≡ answer
          (watermark_found a.scope_key a.watermark_key a.value_hash a.updated_at)
          ok_answer
          true
unfolding set_watermark get_watermark
get_watermark-set_watermark env later set get a t x y args_a args_k done_a done_k =
    let (_, left) =
      answered-ok env writing (watermark_args set) put_watermark
        (λ b n. answer (watermark_set b.scope_key b.watermark_key) ok_answer true) t a x args_a
        done_a in
    let k : WatermarkKeyArgs = record {
      scope_key = a.scope_key;
      watermark_key = a.watermark_key;
    } in
    let (said, _) =
      answered-ok later reading (watermark_key_args get)
        (λ b. find_watermark b.scope_key b.watermark_key) (λ b o. watermark_answer b o)
        (set_watermark env set t).1 k y args_k done_k in
    let (r, found, hash, time) = find_watermark-put_watermark a t in
    said
    ∙ ap (λ u. watermark_answer k (find_watermark a.scope_key a.watermark_key u).0) left
    ∙ ap (watermark_answer k) found
    ∙ (λ i. answer (watermark_found a.scope_key a.watermark_key (hash i) (time i)) ok_answer true)

-- The authority mode that was set for a controller is what a read for the controller answers next, if
-- the database carries out both.
pub get_authority_mode-set_authority_mode :
    (env later : Environment) (set get : LedgerInput) (a : ModeArgs) (t : Tables) (x y : Answer)
    → mode_args set ≡ ok a
    → controller_arg get ≡ ok a.controller_id
    → (set_authority_mode env set t).0 ≡ ok x
    → (get_authority_mode later get (set_authority_mode env set t).1).0 ≡ ok y
    → y ≡ answer (mode_found a.controller_id a.authority_mode a.updated_at) ok_answer true
unfolding set_authority_mode get_authority_mode
get_authority_mode-set_authority_mode env later set get a t x y args_a args_k done_a done_k =
    let (_, left) =
      answered-ok env writing (mode_args set) put_mode
        (λ b n. answer (mode_set b.controller_id b.authority_mode) ok_answer true) t a x args_a
        done_a in
    let (said, _) =
      answered-ok later reading (controller_arg get) find_mode mode_answer
        (set_authority_mode env set t).1 a.controller_id y args_k done_k in
    let (r, found, mode, time) = find_mode-put_mode a t in
    said
    ∙ ap (λ u. mode_answer a.controller_id (find_mode a.controller_id u).0) left
    ∙ ap (mode_answer a.controller_id) found
    ∙ (λ i. answer (mode_found a.controller_id (mode i) (time i)) ok_answer true)
