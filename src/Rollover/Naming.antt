-- ===== src/Rollover/Naming.antt =====
-- What the requests of a rollover name: the prompt goes to the thread that was recorded, and the
-- source thread is archived. Each piece of a run sends at most one such request.
use context_rollover_guard.Prelude.{
  ◌≢◌, ◌⊎◌, inl, inr, ◌≡◌, refl, sym, ◌∙◌, subst, All, String, false, Option, none, some, List, [],
  ◌∷◌, ok, err, arith,
}
use context_rollover_guard.Json.{Json, Members, member, get, bool}
use context_rollover_guard.Errors.{Exc}
use context_rollover_guard.Session.{Platform}
use context_rollover_guard.Settings.{thread_params, turn_params}
use context_rollover_guard.Rollover.Effects.{
  M, Answer, returns, leaves, raises, stops, ◌>>=◌, continue, World, Request, thread_start,
  turn_start, thread_archive, thread_resume, thread_read, thread_list, Prepared, write, call,
  at_forward, Accepted,
}
use context_rollover_guard.Rollover.Checks.{Site, Context, check_thread, thread_id_of}
use context_rollover_guard.Rollover.Run.{
  Env, block, handle, guarded, start_request, begin_thread, ensure_started, settle, handoff_index,
  turn_request, begin_turn, ensure_accepted, commit, archive_request, begin_archive, finish,
  from_receipt,
}

-- What a request names, for the record of the rollover and the recorded response to thread/start.
unfoldable pub Names : Prepared → Option Members → Request → Type 0
Names d started (turn_start params) =
    (response : Members) × (new : Json) × (started ≡ some response)
    × (thread_id_of response ≡ ok new)
    × (get "threadId" params ≡ some new)
Names d started (thread_archive t) = t ≡ d.source.thread_id
Names d started (thread_start m) = Unit
Names d started (thread_resume m) = Unit
Names d started (thread_read t) = Unit
Names d started (thread_list cursor) = Unit

pub record Bound (d : Prepared) (w : World) : Type 0 where
  pub prepared : w.journal.prepared ≡ some d
  pub named : All (Names d w.journal.started) w.sent

-- What a piece of a run changes: nothing that is looked at here, or it sent one request.
abbrev pub Sends : World → World → Request → Type 0
Sends w w' r =
    (w'.journal.started ≡ w.journal.started)
    × (w'.journal.prepared ≡ w.journal.prepared)
    × ((w'.sent ≡ w.sent) ⊎ (w'.sent ≡ r ∷ w.sent))

pub Sends-Bound :
    (d : Prepared) (w w' : World) (r : Request)
    → Names d w.journal.started r
    → Bound d w
    → Sends w w' r
    → Bound d w'
Sends-Bound d w w' r n b (same_started, same_prepared, sent) = record {
  prepared = same_prepared ∙ b.prepared;
  named =
      subst (λ s. All (Names d s) w'.sent) (sym same_started)
        (elim sent [
          | inl stays ↦ subst (All (Names d w.journal.started)) (sym stays) b.named
          | inr more ↦ subst (All (Names d w.journal.started)) (sym more) (n, b.named)
        ]);
}

-- `Bound d` at the end of a piece, and `Q` where it returns.
abbrev pub Goes {ℓ} : {A : Type ℓ} → Prepared → (A → World → Type 0) → Answer A × World → Type 0
Goes d Q (returns a, w) = Bound d w × Q a w
Goes d Q (leaves r, w) = Bound d w
Goes d Q (raises e, w) = Bound d w
Goes d Q (stops, w) = Bound d w

abbrev pub Anything {ℓ} : {A : Type ℓ} → A → World → Type 0
Anything a w = Unit {0}

module _ {ℓ} {A : Type ℓ} (d : Prepared) (Q : A → World → Type 0) where
  pub Bound-Goes :
      (r : Answer A) (w : World) → Bound d w → ((a : A) → r ≡ returns a → Q a w) → Goes d Q (r, w)
  Bound-Goes (returns a) w b q = (b, q a refl)
  Bound-Goes (leaves x) w b q = b
  Bound-Goes (raises e) w b q = b
  Bound-Goes stops w b q = b

  pub Goes-Bound : (r : Answer A) (w : World) → Goes d Q (r, w) → Bound d w
  Goes-Bound (returns a) w h = h.0
  Goes-Bound (leaves x) w h = h
  Goes-Bound (raises e) w h = h
  Goes-Bound stops w h = h

module _ {ℓ κ} {A : Type ℓ} {B : Type κ} (d : Prepared) (P : A → World → Type 0)
    (Q : B → World → Type 0) where
  pub Goes-continue :
      (r : Answer A) (w : World) (f : A → M B)
      → Goes d P (r, w)
      → ((a : A) (u : World) → Bound d u → P a u → Goes d Q (f a u))
      → Goes d Q (continue r f w)
  Goes-continue (returns a) w f h k = k a w h.0 h.1
  Goes-continue (leaves x) w f h k = h
  Goes-continue (raises e) w f h k = h
  Goes-continue stops w f h k = h

  pub Goes-bind :
      (m : M A) (f : A → M B) (w : World)
      → Goes d P (m w)
      → ((a : A) (u : World) → Bound d u → P a u → Goes d Q (f a u))
      → Goes d Q ((m >>= f) w)
  Goes-bind m f w h k = let (r, u) = m w in Goes-continue r u f h k

pub Names-none :
    (d : Prepared) (s : Option Members) (rs : List Request)
    → All (Names d none) rs
    → All (Names d s) rs
unfolding Names
Names-none d s [] h = tt
Names-none d s (thread_start m ∷ rs) (x, h) = (tt, Names-none d s rs h)
Names-none d s (turn_start m ∷ rs) ((response, new, e, is_id, is_named), h) = absurd (ground arith)
Names-none d s (thread_archive t ∷ rs) (x, h) = (x, Names-none d s rs h)
Names-none d s (thread_resume t ∷ rs) (x, h) = (tt, Names-none d s rs h)
Names-none d s (thread_read t ∷ rs) (x, h) = (tt, Names-none d s rs h)
Names-none d s (thread_list t ∷ rs) (x, h) = (tt, Names-none d s rs h)

pub turn_params-thread :
    (c : Context) (new : Json) (m : Members)
    → turn_params c.prepared.settings new c.prompt c.prepared.client_message_id ≡ ok m
    → get "threadId" m ≡ some new
unfolding turn_params get
turn_params-thread c new m h = ground arith

module _ (p : Platform) (site : Site) (env : Env) (c : Context) where
  pub finish-Sends :
      (new : Json) (a : Accepted) (w : World)
      → Sends w (finish p site env c new a w).1 (thread_archive c.prepared.source.thread_id)
  unfolding finish begin_archive archive_request guarded handle block commit write call
  finish-Sends new a w = ground arith

  pub from_receipt-Sends :
      (new : Json) (a : Accepted) (w : World)
      → Sends w (from_receipt p site env c new a w).1 (thread_archive c.prepared.source.thread_id)
  unfolding from_receipt
  from_receipt-Sends new a w = ground (arith, finish-Sends new a w)

  pub begin_turn-Sends :
      (new : Json) (w : World) (params : Members)
      → turn_params c.prepared.settings new c.prompt c.prepared.client_message_id ≡ ok params
      → Sends w (begin_turn p site env c new w).1 (turn_start params)
  unfolding begin_turn turn_request guarded handle block write call
  begin_turn-Sends new w params h = ground arith

  pub block-Sends : (w : World) (r : Request) → Sends w (block {A = Accepted} env at_forward w).1 r
  unfolding block write
  block-Sends w r = ground arith

  pub begin_thread-sent :
      (w : World) (params : Members)
      → thread_params p c.prepared.settings (some (handoff_index p site env c)) ≡ ok params
      → let end = begin_thread p site env c w in
        (end.1.journal.prepared ≡ w.journal.prepared)
        × ((end.1.sent ≡ w.sent)
            ⊎ (end.1.sent ≡ thread_start (member "ephemeral" (bool false) params) ∷ w.sent))
        × ((r : Members) → end.0 ≡ returns r → end.1.journal.started ≡ some r)
  unfolding begin_thread start_request guarded handle block write call
  begin_thread-sent w params h = (ground arith, ground arith, λ r e. ground arith)

  pub ensure_accepted-Sends :
      (new : Json) (w : World) (params : Members)
      → turn_params c.prepared.settings new c.prompt c.prepared.client_message_id ≡ ok params
      → Sends w (ensure_accepted p site env c new w).1 (turn_start params)
  unfolding ensure_accepted block write
  ensure_accepted-Sends new w params h = ground (arith, begin_turn-Sends new w params h)

  pub ensure_accepted-refused :
      (new : Json) (w : World) (e : Exc) (r : Request)
      → turn_params c.prepared.settings new c.prompt c.prepared.client_message_id ≡ err e
      → Sends w (ensure_accepted p site env c new w).1 r
  unfolding ensure_accepted begin_turn block write
  ensure_accepted-refused new w e r h = ground arith

  pub begin_thread-refused :
      (w : World) (e : Exc)
      → thread_params p c.prepared.settings (some (handoff_index p site env c)) ≡ err e
      → begin_thread p site env c w ≡ (raises e, w)
  unfolding begin_thread
  begin_thread-refused w e h = ground arith

  pub ensure_started-blocked :
      (w : World) (intent : String) (r : Request)
      → w.journal.started ≡ none
      → w.journal.start_intent ≡ some intent
      → let end = ensure_started p site env c w in
        Sends w end.1 r × ((m : Members) → end.0 ≢ returns m)
  unfolding ensure_started block write
  ensure_started-blocked w intent r missing there = (ground arith, λ m e. ground arith)

  pub settle-returns :
      (w : World) (e : Exc) (new : Json) → (settle p site env c (err e) w).0 ≢ returns new
  unfolding settle block write
  settle-returns w e new h = ground arith

  pub settle-Sends :
      (w : World) (e : Exc) (r : Request) → Sends w (settle p site env c (err e) w).1 r
  unfolding settle block write
  settle-Sends w e r = ground arith

pub check_thread-thread_id :
    (p : Platform) (c : Context) (m : Members) (new : Json)
    → check_thread p c m ≡ ok new
    → thread_id_of m ≡ ok new
unfolding check_thread thread_id_of
check_thread-thread_id p c m new h = ground arith
