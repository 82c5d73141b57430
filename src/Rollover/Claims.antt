-- ===== src/Rollover/Claims.antt =====
-- One rollover for each source thread, however the preparations of several processes interleave.
use context_rollover_guard.Prelude.{
  List, All, ◌∙◌, ap, sym, ◌⊎◌, subst, ◌≡◌, refl, inl, inr, String, eq_iff, none, some, [], ◌∷◌,
  Option-cases, arith,
}
use mathlib.Core.List.{Memᴰ}
use mathlib.Core.List.Memᴰ
use context_rollover_guard.Session.{SessionState, Platform}
use context_rollover_guard.Settings.{Settings}
use context_rollover_guard.Rollover.Effects.{stops, raises, leaves, returns, Answer, Prepared, Fate}
use context_rollover_guard.Rollover.Prepare.{
  store_archive, Office, Registry, lookup, source_key, claim_source, keep, record_prepared, payload,
}

-- The registry, and the processes whose claim returned: with each source that a process claimed, the
-- identifier of its rollover.
pub record Pool : Type 0 where
  pub registry : Registry
  pub ready : List (SessionState × String)

-- A process whose claim returns is ready for the second lock.
unfoldable pub after_claim : Pool → SessionState → String → Answer (Unit {0}) × Registry → Pool
after_claim w s rid (returns done, r) = record { registry = r; ready = (s, rid) ∷ w.ready }
after_claim w s rid (leaves report, r) = record w { registry = r }
after_claim w s rid (raises e, r) = record w { registry = r }
after_claim w s rid (stops, r) = record w { registry = r }

-- The parts of a preparation that write, as steps. A process reaches the second lock of the
-- coordinator only where its first returned; what the registry holds by then is not looked at.
pub data Step (p : Platform) (w : Pool) : Pool → Type 0 where
  archives :
      (o : Office) (rid : String)
      → Step p w (record w { registry = (store_archive o rid w.registry).1 })
  claims :
      (o : Office) (s : SessionState) (rid : String)
      → Step p w (after_claim w s rid (claim_source p o s rid w.registry))
  records :
      (o : Office) (s : SessionState) (prompt : String) (settings : Settings) (rid : String)
      → Memᴰ (s, rid) w.ready
      → Step p w (record w { registry = (record_prepared p o s prompt settings rid w.registry).1 })

pub data Reach (p : Platform) (w : Pool) : Pool → Type 0 where
  here : Reach p w w
  next : {u v : Pool} → Reach p w u → Step p u v → Reach p w v

abbrev pub unclaimed : Registry
unclaimed = record { archives = []; claims = []; journals = [] }

abbrev pub opening : Pool
opening = record { registry = unclaimed; ready = [] }

abbrev Held : Platform → Registry → SessionState × String → Type 0
Held p r (s, rid) = lookup (source_key p s.workspace_id s.thread_id) r.claims ≡ some rid

-- The source thread of each prepared record is claimed by the record's own rollover, and that of
-- each process that is ready by that process's.
record Inv (p : Platform) (w : Pool) : Type 0 where
  claimed :
      (rid : String) (d : Prepared)
      → lookup rid w.registry.journals ≡ some d
      → lookup (source_key p d.source.workspace_id d.source.thread_id) w.registry.claims ≡ some rid
  held : All (Held p w.registry) w.ready

abbrev Grows : Registry → Registry → Type 0
Grows r r' = (k v : String) → lookup k r.claims ≡ some v → lookup k r'.claims ≡ some v

All-Grows :
    (p : Platform) (r r' : Registry) (es : List (SessionState × String))
    → Grows r r'
    → All (Held p r) es
    → All (Held p r') es
All-Grows p r r' [] grows hs = tt
All-Grows p r r' ((s, rid) ∷ es) grows (h, hs) = (grows _ rid h, All-Grows p r r' es grows hs)

All-Memᴰ : {A : Type 0} (P : A → Type 0) (xs : List A) {x : A} → All P xs → Memᴰ x xs → P x
All-Memᴰ P [] h m = absurd (Memᴰ.not-nil m)
All-Memᴰ P (y ∷ ys) (h, hs) m = elim (Memᴰ.cases_cons m) [
  | inl e ↦ subst P (sym e) h
  | inr there ↦ All-Memᴰ P ys hs there
]

pub store_archive-rest :
    (o : Office) (rid : String) (r : Registry)
    → ((store_archive o rid r).1.claims ≡ r.claims)
      × ((store_archive o rid r).1.journals ≡ r.journals)
unfolding store_archive keep
store_archive-rest o rid r = (ground arith, ground arith)

keep-claims :
    (fate : Fate) (r : Registry) (k v : String)
    → lookup k r.claims ≡ none
    → Grows r (keep fate r (record r { claims = (k, v) ∷ r.claims })).1
unfolding keep lookup
keep-claims fate r k v absent j u h = ground (arith, eq_iff k j)

claim_source-Grows :
    (p : Platform) (o : Office) (s : SessionState) (rid : String) (r : Registry)
    → Grows r (claim_source p o s rid r).1
unfolding claim_source
claim_source-Grows p o s rid r j u h =
    elim (Option-cases (lookup (source_key p s.workspace_id s.thread_id) r.claims)) [
      | inl absent ↦ ground (arith, keep-claims o.claim_write r _ rid absent j u h)
      | inr (claimed, e) ↦ ground arith
    ]

claim_source-journals :
    (p : Platform) (o : Office) (s : SessionState) (rid : String) (r : Registry)
    → (claim_source p o s rid r).1.journals ≡ r.journals
unfolding claim_source keep
claim_source-journals p o s rid r = ground arith

record_prepared-claims :
    (p : Platform) (o : Office) (s : SessionState) (prompt : String) (settings : Settings)
    (rid : String) (r : Registry)
    → (record_prepared p o s prompt settings rid r).1.claims ≡ r.claims
unfolding record_prepared keep
record_prepared-claims p o s prompt settings rid r = ground arith

record_prepared-found :
    (p : Platform) (o : Office) (s : SessionState) (prompt : String) (settings : Settings)
    (rid : String) (r : Registry) (a : String) (d : Prepared)
    → lookup a (record_prepared p o s prompt settings rid r).1.journals ≡ some d
    → (lookup a r.journals ≡ some d) ⊎ ((a ≡ rid) × (d.source ≡ s))
unfolding record_prepared keep lookup payload
record_prepared-found p o s prompt settings rid r a d h = ground (arith, eq_iff rid a)

claim_source-returns :
    (p : Platform) (o : Office) (s : SessionState) (rid : String) (r r' : Registry)
    → claim_source p o s rid r ≡ (returns tt, r')
    → lookup (source_key p s.workspace_id s.thread_id) r'.claims ≡ some rid
unfolding claim_source keep lookup
claim_source-returns p o s rid r r' h =
    let key = source_key p s.workspace_id s.thread_id in
    elim (Option-cases (lookup key r.claims)) [
      | inl absent ↦ ground (arith, eq_iff key key)
      | inr (claimed, e) ↦ ground (arith, eq_iff claimed rid)
    ]

pub after_claim-registry :
    (w : Pool) (s : SessionState) (rid : String) (end : Answer (Unit {0}) × Registry)
    → (after_claim w s rid end).registry ≡ end.1
unfolding after_claim
after_claim-registry w s rid (returns done, r) = refl
after_claim-registry w s rid (leaves x, r) = refl
after_claim-registry w s rid (raises e, r) = refl
after_claim-registry w s rid (stops, r) = refl

-- A claim that returns is held.
after_claim-Held :
    (p : Platform) (w : Pool) (s : SessionState) (rid : String) (end : Answer (Unit {0}) × Registry)
    → Grows w.registry end.1
    → ((r : Registry) → end ≡ (returns tt, r) → Held p r (s, rid))
    → All (Held p w.registry) w.ready
    → All (Held p (after_claim w s rid end).registry) (after_claim w s rid end).ready
unfolding after_claim
after_claim-Held p w s rid (returns done, r) grows own hs =
    (own r refl, All-Grows p w.registry r w.ready grows hs)
after_claim-Held p w s rid (leaves x, r) grows own hs = All-Grows p w.registry r w.ready grows hs
after_claim-Held p w s rid (raises e, r) grows own hs = All-Grows p w.registry r w.ready grows hs
after_claim-Held p w s rid (stops, r) grows own hs = All-Grows p w.registry r w.ready grows hs

store_archive-Grows : (o : Office) (rid : String) (r : Registry) → Grows r (store_archive o rid r).1
store_archive-Grows o rid r k v h =
    subst (λ cs. lookup k cs ≡ some v) (sym (store_archive-rest o rid r).0) h

record_prepared-Grows :
    (p : Platform) (o : Office) (s : SessionState) (prompt : String) (settings : Settings)
    (rid : String) (r : Registry)
    → Grows r (record_prepared p o s prompt settings rid r).1
record_prepared-Grows p o s prompt settings rid r k v h =
    subst (λ cs. lookup k cs ≡ some v) (sym (record_prepared-claims p o s prompt settings rid r)) h

Step-Grows : {p : Platform} {w w' : Pool} → Step p w w' → Grows w.registry w'.registry
Step-Grows {p} {w} (archives o rid) = store_archive-Grows o rid w.registry
Step-Grows {p} {w} (claims o s rid) =
    subst (Grows w.registry) (sym (after_claim-registry w s rid _))
      (claim_source-Grows p o s rid w.registry)
Step-Grows {p} {w} (records o s prompt settings rid m) =
    record_prepared-Grows p o s prompt settings rid w.registry

-- A record that a step leaves was there, or is of a source that was claimed for it.
Step-found :
    {p : Platform} {w w' : Pool} (i : Inv p w) (t : Step p w w') (a : String) (d : Prepared)
    → lookup a w'.registry.journals ≡ some d
    → (lookup a w.registry.journals ≡ some d) ⊎ Held p w.registry (d.source, a)
Step-found {p} {w} i (archives o rid) a d h =
    inl (subst (λ js. lookup a js ≡ some d) (store_archive-rest o rid w.registry).1 h)
Step-found {p} {w} i (claims o s rid) a d h = inl (
    subst (λ js. lookup a js ≡ some d)
      (ap (λ r. r.journals) (after_claim-registry w s rid _)
        ∙ claim_source-journals p o s rid w.registry)
      h)
Step-found {p} {w} i (records o s prompt settings rid m) a d h =
    elim (record_prepared-found p o s prompt settings rid w.registry a d h) [
      | inl old ↦ inl old
      | inr (same_rid, same_source) ↦
          let own : Held p w.registry (s, rid) = All-Memᴰ (Held p w.registry) w.ready i.held m in
          inr (ground arith)
    ]

Step-Held : {p : Platform} {w w' : Pool} → Step p w w' → Inv p w → All (Held p w'.registry) w'.ready
Step-Held {p} {w} (archives o rid) i =
    All-Grows p w.registry (store_archive o rid w.registry).1 w.ready
      (store_archive-Grows o rid w.registry) i.held
Step-Held {p} {w} (claims o s rid) i =
    after_claim-Held p w s rid (claim_source p o s rid w.registry)
      (claim_source-Grows p o s rid w.registry)
      (λ r h. claim_source-returns p o s rid w.registry r h) i.held
Step-Held {p} {w} (records o s prompt settings rid m) i =
    All-Grows p w.registry (record_prepared p o s prompt settings rid w.registry).1 w.ready
      (record_prepared-Grows p o s prompt settings rid w.registry) i.held

Step-Inv : {p : Platform} {w w' : Pool} → Step p w w' → Inv p w → Inv p w'
Step-Inv t i = record {
  claimed = λ a d h. elim (Step-found i t a d h) [
    | inl old ↦ Step-Grows t _ a (i.claimed a d old)
    | inr own ↦ Step-Grows t _ a own
  ];
  held = Step-Held t i;
}

Reach-Inv : {p : Platform} {w : Pool} → Reach p opening w → Inv p w
unfolding lookup
Reach-Inv here = record { claimed = λ a d h. cc; held = tt }
Reach-Inv (next t s) = Step-Inv s (Reach-Inv t)

pub Reach-Grows : {p : Platform} {w w' : Pool} → Reach p w w' → Grows w.registry w'.registry
Reach-Grows here k v h = h
Reach-Grows (next t s) k v h = Step-Grows s k v (Reach-Grows t k v h)

-- However the parts of preparations interleave and wherever they die: of the rollovers with the same
-- source thread, at most one is ever recorded as prepared.
pub Reach-exclusive :
    {p : Platform} {w : Pool}
    → Reach p opening w
    → (a b : String) (d e : Prepared) → lookup a w.registry.journals ≡ some d
    → lookup b w.registry.journals ≡ some e
    → d.source.workspace_id ≡ e.source.workspace_id
    → d.source.thread_id ≡ e.source.thread_id
    → a ≡ b
Reach-exclusive t a b d e h k same_workspace same_thread =
    let i = Reach-Inv t in let x = i.claimed a d h in let y = i.claimed b e k in ground arith
