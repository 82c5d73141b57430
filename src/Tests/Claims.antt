-- ===== src/Tests/Claims.antt =====
-- Two preparations for one source thread.
use context_rollover_guard.Prelude.{◌≡◌, ◌≢◌, refl, ap, str_eq, String, true, some, [], ◌∷◌, ok}
use mathlib.Core.List.{Memᴰ}
use context_rollover_guard.Errors.{transaction_error}
use context_rollover_guard.Session.{validate, same_state}
use context_rollover_guard.Settings.{thread_params}
use context_rollover_guard.Json.{get, same}
use context_rollover_guard.Rollover.Effects.{Answer, Prepared, returns, raises, written}
use context_rollover_guard.Rollover.Checks.{Site, Context, context}
use context_rollover_guard.Rollover.Prepare.{
  Office, Registry, lookup, source_key, rollover_id_of, check_source, prepare, prepare_checked,
  store_archive, claim_source, record_prepared, keep, payload,
}
use context_rollover_guard.Rollover.Claims.{
  Reach, Reach-exclusive, unclaimed, Pool, opening, after_claim, here, next, archives, claims,
  records,
}
use context_rollover_guard.Rollover.Exclusive.{
  Reaches, context-exclusive, prepare-Reach, prepare-claimed,
}
use context_rollover_guard.Rollover.History.{fresh}
use context_rollover_guard.Tests.Session.{small, session}
use context_rollover_guard.Tests.Rollover.{settings, place}

abbrev office : Office
office = record {
  workspace = "/w";
  archive_source = true;
  archived = ok tt;
  archive_write = written;
  archive_root = "/archives";
  claim_write = written;
  prepared_write = written;
}

abbrev first_rid : String
first_rid = "crg_/w,old,turn,hello,"

abbrev first_plan : Prepared
first_plan = record {
  source = session;
  settings = settings;
  archive = first_rid;
  prompt_sha256 = "hello";
  client_message_id = first_rid;
  archive_source = some true;
}

abbrev one_claim : Registry
one_claim = record {
  archives = first_rid ∷ [];
  claims = ("source-/w,old,", first_rid) ∷ [];
  journals = (first_rid, first_plan) ∷ [];
}

abbrev refused : Answer String × Registry
refused = prepare small office session "other" settings one_claim

prepare-claimed_example :
    ((a : String) → refused.0 ≢ returns a)
    × (refused.1.claims ≡ one_claim.claims)
    × (refused.1.journals ≡ one_claim.journals)
    × (office.archive_write ≡ written
        → (refused.0 ≡ raises transaction_error)
          × (refused.1.archives ≡ "crg_/w,old,turn,other," ∷ one_claim.archives))
unfolding same_state check_source validate thread_params same get rollover_id_of source_key lookup
prepare-claimed_example =
    prepare-claimed small office session "other" settings "crg_/w,old,turn,other," first_rid
      one_claim refl refl (λ e. let q = ap (str_eq first_rid) e in cc)

prepare-Reach_example :
    Reaches small opening (prepare small office session "hello" settings unclaimed).1
prepare-Reach_example = prepare-Reach small office session "hello" settings opening

abbrev claimed_pool : Pool
claimed_pool = record { registry = one_claim; ready = (session, first_rid) ∷ [] }

reached : Reach small opening claimed_pool
unfolding store_archive after_claim same_state prepare prepare_checked check_source validate
    thread_params same get rollover_id_of source_key lookup payload claim_source record_prepared
    keep
reached =
    next (next (next here (archives office first_rid)) (claims office session first_rid))
      (records office session "hello" settings first_rid (Memᴰ.head refl))

Reach-exclusive_example : first_rid ≡ first_rid
unfolding lookup
Reach-exclusive_example =
    Reach-exclusive reached first_rid first_rid first_plan first_plan refl refl refl refl

abbrev site_of : Registry → Site
site_of r = record place {
  rid = first_rid;
  claim = λ workspace thread. lookup (source_key small workspace thread) r.claims;
}

abbrev first_context : Context
first_context = record { prepared = first_plan; prompt = "hello" }

-- Another preparation, whose claim is refused.
abbrev later_pool : Pool
later_pool = record claimed_pool {
  registry = record one_claim { archives = "crg_/w,old,turn,other," ∷ first_rid ∷ [] };
}

later : Reach small claimed_pool later_pool
unfolding store_archive after_claim source_key lookup claim_source keep
later =
    next (next here (archives office "crg_/w,old,turn,other,"))
      (claims office session "crg_/w,old,turn,other,")

context-exclusive_example : first_rid ≡ first_rid
unfolding context validate lookup source_key
context-exclusive_example =
    context-exclusive (site_of one_claim) (site_of later_pool.registry) (fresh first_plan).journal
      (fresh first_plan).journal first_context first_context later (λ w t. refl) (λ w t. refl) refl
      refl refl refl
