-- ===== src/Rollover/Evidence.antt =====
-- A receipt that a reconciliation records stands on one matching message in a readback.
use context_rollover_guard.Prelude.{
  Option-cases, sym, ◌≡◌, inl, inr, refl, true, none, some, List, [], ◌∷◌, arith, ok, Result-cases,
}
use context_rollover_guard.Json.{Members, Json}
use context_rollover_guard.Session.{Platform}
use context_rollover_guard.Rollover.Effects.{
  ForwardIntent, World, Fate, Reply, replies, lost, unsent, cut, Accepted, write, call,
}
use context_rollover_guard.Rollover.Checks.{thread_id_of, Site, Context, context}
use context_rollover_guard.Rollover.Reconcile.{
  Thread, Turn, Item, judge, carries, accepted_status, matches, record_receipt, read_back,
  reconcile_in, with_context, reconcile_forward,
}

-- What a receipt rests on: one message with the client's identity, whose content is the prompt, in
-- a turn that runs or has completed.
pub record Supported (c : Context) (turns : List Turn) (a : Accepted) : Type 0 where
  pub turn : Turn
  pub message : Item
  pub unique : matches c.prepared.client_message_id turns ≡ (turn, message) ∷ []
  pub exact : carries c.prompt message.content ≡ true
  pub alive : accepted_status turn.status ≡ true
  pub turn_id : turn.id ≡ some a.turn_id
  pub prompt_sha : a.prompt_sha256 ≡ c.prepared.prompt_sha256
  pub client_id : a.client_message_id ≡ c.prepared.client_message_id

judge-Supported :
    (c : Context) (new : Json) (turns : List Turn) (found : List (Turn × Item)) (a : Accepted)
    → matches c.prepared.client_message_id turns ≡ found
    → judge c new found ≡ ok a
    → Supported c turns a
unfolding judge
judge-Supported c new turns [] a e h = cc
judge-Supported c new turns ((t, i) ∷ []) a e h = record {
  turn = t;
  message = i;
  unique = e;
  exact = ground arith;
  alive = ground arith;
  turn_id = ground arith;
  prompt_sha = ground arith;
  client_id = ground arith;
}
judge-Supported c new turns (x ∷ y ∷ l) a e h = cc

module _ (p : Platform) (c : Context) (intent : ForwardIntent) (started : Members)
    (reply : Reply Thread) (fate : Fate) (w : World) (a : Accepted)
    (absent : w.journal.accepted ≡ none)
    (recorded : (read_back p c intent started reply fate w).1.journal.accepted ≡ some a) where
  identified : (tid : Json) × (thread_id_of started ≡ ok tid)
  unfolding read_back
  identified = elim (Result-cases (thread_id_of started)) [
    | inl found ↦ found
    | inr (e, failed) ↦ absurd (ground (arith, failed))
  ]

  answered : (native : Thread) × (reply ≡ replies native)
  unfolding read_back record_receipt call write
  answered =
      elim reply as (λ r. r ≡ reply → (native : Thread) × (reply ≡ replies native)) [
        | replies n ↦ λ e. (n, sym e)
        | lost ↦ λ e. ground arith
        | unsent ↦ λ e. ground arith
        | cut ↦ λ e. ground arith
      ]
        refl

  read_back-Supported : (native : Thread) × (reply ≡ replies native) × Supported c native.turns a
  unfolding read_back record_receipt call write
  read_back-Supported =
      let (native, e) = answered in
      let (tid, t) = identified in
      (native, e, judge-Supported c tid native.turns _ a refl (ground (arith, e, t)))

reconcile_in-Supported :
    (p : Platform) (c : Context) (reply : Reply Thread) (fate : Fate) (w : World) (a : Accepted)
    → w.journal.accepted ≡ none
    → (reconcile_in p c reply fate w).1.journal.accepted ≡ some a
    → (native : Thread) × (reply ≡ replies native) × Supported c native.turns a
unfolding reconcile_in
reconcile_in-Supported p c reply fate w a absent recorded =
    elim (Option-cases w.journal.forward_intent) [
      | inl e ↦ absurd (ground arith)
      | inr (intent, e) ↦ elim (Option-cases w.journal.started) [
        | inl f ↦ absurd (ground arith)
        | inr (started, f) ↦
            read_back-Supported p c intent started reply fate w a absent (ground arith)
      ]
    ]

-- Where `reconcile_forward` puts a receipt into a journal that had none, the context of the
-- rollover is intact, and the thread was read back with exactly one message of the rollover, whose
-- content is the prompt, in a running or completed turn, which the receipt names.
pub reconcile_forward-Supported :
    (p : Platform) (site : Site) (reply : Reply Thread) (fate : Fate) (w : World) (a : Accepted)
    → w.journal.accepted ≡ none
    → (reconcile_forward p site reply fate w).1.journal.accepted ≡ some a
    → (c : Context) × (native : Thread) × (context p site w.journal ≡ ok c)
      × (reply ≡ replies native)
      × Supported c native.turns a
unfolding reconcile_forward with_context
reconcile_forward-Supported p site reply fate w a absent recorded =
    elim (Result-cases (context p site w.journal)) [
      | inl (c, e) ↦
          let (native, r, s) = reconcile_in-Supported p c reply fate w a absent (ground arith) in
          (c, native, e, r, s)
      | inr (x, e) ↦ absurd (ground arith)
    ]
