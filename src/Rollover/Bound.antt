-- ===== src/Rollover/Bound.antt =====
-- Every run keeps what the requests of a rollover name.
use context_rollover_guard.Prelude.{
  inl, inr, ◌≡◌, refl, sym, ap, ◌∙◌, subst, All, none, some, Result, ok, err, arith, Option-cases,
  Result-cases,
}
use context_rollover_guard.Json.{Json, null, Members}
use context_rollover_guard.Errors.{Exc}
use context_rollover_guard.Session.{Platform}
use context_rollover_guard.Settings.{thread_params, turn_params}
use context_rollover_guard.Rollover.Effects.{
  returns, World, turn_start, thread_archive, thread_read, Prepared,
}
use context_rollover_guard.Rollover.Checks.{Site, Context, context, check_thread, thread_id_of}
use context_rollover_guard.Rollover.Contexts.{context-prepared}
use context_rollover_guard.Rollover.Run.{
  Env, begin_thread, ensure_started, settle, handoff_index, checked_thread, ensure_accepted,
  from_receipt, from_thread, from_response, stages, run_in, run,
}
use context_rollover_guard.Rollover.Naming.{
  Names, Bound, Sends-Bound, Goes, Anything, Goes-bind, Bound-Goes, Goes-Bound, Names-none,
  turn_params-thread, from_receipt-Sends, begin_thread-sent, begin_thread-refused,
  ensure_started-blocked, ensure_accepted-Sends, ensure_accepted-refused, settle-Sends,
  settle-returns, check_thread-thread_id,
}

-- The stages of a run, on the record of the rollover.
module _ (p : Platform) (site : Site) (env : Env) (c : Context) (d : Prepared)
    (same_record : c.prepared ≡ d) where
  HasResponse : Members → World → Type 0
  HasResponse r w = w.journal.started ≡ some r

  HasThread : Json → World → Type 0
  HasThread new w = (r : Members) × (w.journal.started ≡ some r) × (thread_id_of r ≡ ok new)

  begin_thread-Goes :
      (w : World)
      → w.journal.started ≡ none
      → Bound d w
      → Goes d HasResponse (begin_thread p site env c w)
  unfolding HasResponse Names
  begin_thread-Goes w missing b =
      elim (Result-cases
        (thread_params p c.prepared.settings (some (handoff_index p site env c)))) [
          | inr (e, refused) ↦
              subst (Goes d HasResponse) (sym (begin_thread-refused p site env c w e refused)) b
          | inl (params, made) ↦
              let (same_prepared, sent, responds) = begin_thread-sent p site env c w params made in
              let end = begin_thread p site env c w in
              let old =
                Names-none d end.1.journal.started w.sent
                  (subst (λ s. All (Names d s) w.sent) missing b.named) in
              Bound-Goes d HasResponse end.0 end.1
                (record {
                  prepared = same_prepared ∙ b.prepared;
                  named = elim sent [
                    | inl stays ↦ subst (All (Names d end.1.journal.started)) (sym stays) old
                    | inr more ↦ subst (All (Names d end.1.journal.started)) (sym more) (tt, old)
                  ];
                })
                responds
        ]

  ensure_started-Goes : (w : World) → Bound d w → Goes d HasResponse (ensure_started p site env c w)
  unfolding ensure_started HasResponse Names
  ensure_started-Goes w b = elim (Option-cases w.journal.started) [
    | inr (response, there) ↦
        let same_end : ensure_started p site env c w ≡ (returns response, w) = ground arith in
        subst (Goes d HasResponse) (sym same_end) (b, there)
    | inl missing ↦ elim (Option-cases w.journal.start_intent) [
      | inl free ↦
          let same_end : ensure_started p site env c w ≡ begin_thread p site env c w =
            ground arith in
          subst (Goes d HasResponse) (sym same_end) (begin_thread-Goes w missing b)
      | inr (intent, there) ↦
          let end = ensure_started p site env c w in
          let (sends, silent) =
            ensure_started-blocked p site env c w intent (thread_read null) missing there in
          Bound-Goes d HasResponse end.0 end.1 (Sends-Bound d w end.1 (thread_read null) tt b sends)
            (λ m h. absurd (silent m h))
    ]
  ]

  settle-Goes :
      (r : Members) (w : World)
      → Bound d w
      → HasResponse r w
      → Goes d HasThread (checked_thread p site env c r w)
  unfolding checked_thread settle HasResponse HasThread Names
  settle-Goes r w b has = elim (Result-cases (check_thread p c r)) [
    | inl (new, made) ↦
        subst (λ x. Goes d HasThread (settle p site env c x w)) (sym made)
          (b, (r, has, check_thread-thread_id p c r new made))
    | inr (e, refused) ↦
        let end = settle p site env c (err e) w in
        subst (λ x. Goes d HasThread (settle p site env c x w)) (sym refused)
          (Bound-Goes d HasThread end.0 end.1
            (Sends-Bound d w end.1 (thread_read null) tt b
              (settle-Sends p site env c w e (thread_read null)))
            (λ new h. absurd (settle-returns p site env c w e new h)))
  ]

  from_thread-Goes :
      (new : Json) (w : World)
      → Bound d w
      → HasThread new w
      → Goes d Anything (from_thread p site env c new w)
  unfolding from_thread HasThread Names
  from_thread-Goes new w b (r, has, is_id) =
      Goes-bind d Anything Anything (ensure_accepted p site env c new)
        (from_receipt p site env c new) w
        (let end = ensure_accepted p site env c new w in
          Bound-Goes d Anything end.0 end.1
            (elim (Result-cases
              (turn_params c.prepared.settings new c.prompt c.prepared.client_message_id)) [
                | inr (e, refused) ↦
                    Sends-Bound d w end.1 (thread_read new) tt b
                      (ensure_accepted-refused p site env c new w e (thread_read new) refused)
                | inl (params, made) ↦
                    Sends-Bound d w end.1 (turn_start params)
                      (r, new, has, is_id, turn_params-thread c new params made) b
                      (ensure_accepted-Sends p site env c new w params made)
              ])
            (λ a e. tt))
        (λ a u v t.
          let end = from_receipt p site env c new a u in
          Bound-Goes d Anything end.0 end.1
            (Sends-Bound d u end.1 (thread_archive c.prepared.source.thread_id)
              (ap (λ x. x.source.thread_id) same_record) v
              (from_receipt-Sends p site env c new a u))
            (λ a e. tt))

  stages-Goes : (w : World) → Bound d w → Goes d Anything (stages p site env c w)
  unfolding stages from_response
  stages-Goes w b =
      Goes-bind d HasResponse Anything (ensure_started p site env c) (from_response p site env c) w
        (ensure_started-Goes w b)
        (λ r u v has.
          Goes-bind d HasThread Anything (checked_thread p site env c r) (from_thread p site env c)
            u (settle-Goes r u v has) (λ new u' v' at. from_thread-Goes new u' v' at))

run_in-Bound :
    (p : Platform) (site : Site) (env : Env) (o : Result Exc Context) (d : Prepared) (w : World)
    → ((c : Context) → o ≡ ok c → c.prepared ≡ d)
    → Bound d w
    → Bound d (run_in p site env o w).1
unfolding run_in
run_in-Bound p site env (err e) d w s b = b
run_in-Bound p site env (ok c) d w s b = elim (Option-cases w.journal.committed) [
  | inl missing ↦
      let end = stages p site env c w in
      let done = Goes-Bound d Anything end.0 end.1 (stages-Goes p site env c d (s c refl) w b) in
      let same_end : run_in p site env (ok c) w ≡ end = ground arith in
      subst (λ x. Bound d x.1) (sym same_end) done
  | inr (o, there) ↦
      let same_end : (run_in p site env (ok c) w).1 ≡ w = ground arith in
      subst (Bound d) (sym same_end) b
]

same_record :
    (p : Platform) (site : Site) (d : Prepared) (w : World)
    → Bound d w
    → (c : Context) → context p site w.journal ≡ ok c
    → c.prepared ≡ d
same_record p site d w b c h =
    let recorded = context-prepared p site w.journal c h in let own = b.prepared in ground arith

pub run-Bound :
    (p : Platform) (site : Site) (env : Env) (d : Prepared) (w : World)
    → Bound d w
    → Bound d (run p site env w).1
unfolding run
run-Bound p site env d w b =
    run_in-Bound p site env (context p site w.journal) d w (same_record p site d w b) b
