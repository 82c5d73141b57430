-- ===== src/Rollover/Exclusive.antt =====
-- What whole preparations achieve, and that one rollover alone can run for a source thread.
use context_rollover_guard.Prelude.{
  false, str_eq, ◌∷◌, ◌≡◌, refl, sym, ◌∙◌, String, eq_iff, some, Result, ok, err, arith, ◌≢◌,
}
use mathlib.Core.List.{Memᴰ}
use context_rollover_guard.Errors.{Exc, transaction_error}
use context_rollover_guard.Session.{SessionState, Platform}
use context_rollover_guard.Settings.{Settings}
use context_rollover_guard.Rollover.Effects.{
  Answer, returns, leaves, raises, stops, Journal, written,
}
use context_rollover_guard.Rollover.Checks.{Site, Context, context}
use context_rollover_guard.Rollover.Prepare.{
  then_claim, store_archive, Office, Registry, lookup, source_key, claim_source, keep, then_record,
  prepare_checked, prepare, check_source,
}
use context_rollover_guard.Rollover.Contexts.{context-claimed}
use context_rollover_guard.Rollover.Claims.{
  Pool, after_claim, Reach, here, next, archives, claims, records, Reach-Grows,
}

-- What a site reads is what the registry holds.
abbrev pub Reads : Platform → Site → Registry → Type 0
Reads p site r =
    (workspace thread : String)
    → site.claim workspace thread ≡ lookup (source_key p workspace thread) r.claims

-- The context of a rollover that is intact at one time keeps every other rollover of that source
-- thread from running at any later time, however preparations interleave in between: a second one
-- whose context is intact is the same rollover.
pub context-exclusive :
    {p : Platform} {w w' : Pool} (site site' : Site) (j j' : Journal) (c c' : Context)
    → Reach p w w'
    → Reads p site w.registry
    → Reads p site' w'.registry
    → context p site j ≡ ok c
    → context p site' j' ≡ ok c'
    → c.prepared.source.workspace_id ≡ c'.prepared.source.workspace_id
    → c.prepared.source.thread_id ≡ c'.prepared.source.thread_id
    → site.rid ≡ site'.rid
context-exclusive {p} site site' j j' c c' reach reads reads' h h' same_workspace same_thread =
    let first = context-claimed p site j c h in
    let second = context-claimed p site' j' c' h' in
    let s = c.prepared.source in
    let kept =
      Reach-Grows reach (source_key p s.workspace_id s.thread_id) site.rid
        (sym (reads s.workspace_id s.thread_id) ∙ first) in
    let s' = c'.prepared.source in let later = reads' s'.workspace_id s'.thread_id in ground arith

-- A pool with a given registry that is reached from a given pool.
abbrev pub Reaches : Platform → Pool → Registry → Type 0
Reaches p w r = (w' : Pool) × Reach p w w' × (w'.registry ≡ r)

-- The first step after those taken so far.
claimed-Reaches :
    (p : Platform) (o : Office) (s : SessionState) (prompt : String) (settings : Settings)
    (rid : String) (w v : Pool) (end : Answer (Unit {0}) × Registry)
    → Reach p w (after_claim v s rid end)
    → Reaches p w (then_record p o s prompt settings rid end).1
unfolding after_claim
claimed-Reaches p o s prompt settings rid w v (returns done, r) t =
    (_, next t (records o s prompt settings rid (Memᴰ.head refl)), refl)
claimed-Reaches p o s prompt settings rid w v (leaves x, r) t = (_, t, refl)
claimed-Reaches p o s prompt settings rid w v (raises x, r) t = (_, t, refl)
claimed-Reaches p o s prompt settings rid w v (stops, r) t = (_, t, refl)

stored-Reaches :
    (p : Platform) (o : Office) (s : SessionState) (prompt : String) (settings : Settings)
    (rid : String) (w : Pool) (end : Answer (Unit {0}) × Registry)
    → Reach p w (record w { registry = end.1 })
    → Reaches p w (then_claim p o s prompt settings rid end).1
stored-Reaches p o s prompt settings rid w (returns done, r) t =
    claimed-Reaches p o s prompt settings rid w (record w { registry = r }) _
      (next t (claims o s rid))
stored-Reaches p o s prompt settings rid w (leaves x, r) t = (_, t, refl)
stored-Reaches p o s prompt settings rid w (raises x, r) t = (_, t, refl)
stored-Reaches p o s prompt settings rid w (stops, r) t = (_, t, refl)

prepare_checked-Reaches :
    (p : Platform) (o : Office) (s : SessionState) (prompt : String) (settings : Settings)
    (checked : Result Exc String) (w : Pool)
    → Reaches p w (prepare_checked p o s prompt settings checked w.registry).1
unfolding prepare_checked
prepare_checked-Reaches p o s prompt settings (err e) w = (w, here, refl)
prepare_checked-Reaches p o s prompt settings (ok rid) w =
    stored-Reaches p o s prompt settings rid w (store_archive o rid w.registry)
      (next here (archives o rid))

-- A whole preparation in any pool, wherever its writes fail or it dies, is a chain of the steps: it
-- leaves the registry of a pool that they reach.
pub prepare-Reach :
    (p : Platform) (o : Office) (s : SessionState) (prompt : String) (settings : Settings)
    (w : Pool)
    → Reaches p w (prepare p o s prompt settings w.registry).1
unfolding prepare
prepare-Reach p o s prompt settings w =
    prepare_checked-Reaches p o s prompt settings (check_source p o s prompt settings) w

-- A preparation for a source thread that another rollover has claimed does not return and leaves all
-- claims and records, however its writes end; and where its archive is written, it raises a
-- transaction error and its prompt stays in that archive.
pub prepare-claimed :
    (p : Platform) (o : Office) (s : SessionState) (prompt : String) (settings : Settings)
    (rid other : String) (r : Registry)
    → check_source p o s prompt settings ≡ ok rid
    → lookup (source_key p s.workspace_id s.thread_id) r.claims ≡ some other
    → other ≢ rid
    → let end = prepare p o s prompt settings r in
      ((a : String) → end.0 ≢ returns a)
      × (end.1.claims ≡ r.claims)
      × (end.1.journals ≡ r.journals)
      × (o.archive_write ≡ written
          → (end.0 ≡ raises transaction_error) × (end.1.archives ≡ rid ∷ r.archives))
unfolding prepare prepare_checked store_archive claim_source keep
prepare-claimed p o s prompt settings rid other r checked held differs =
    let no : str_eq other rid ≡ false = ground (arith, eq_iff other rid) in
    (λ a e. ground arith, ground arith, ground arith, λ w. (ground arith, ground arith))
