-- ===== src/Rollover/Invariant.antt =====
-- The order of the records in a journal, and how often each request was sent: true of an empty
-- journal and kept by every operation on it, however its effects fail.
use context_rollover_guard.Prelude.{
  ◌≡◌, ℕ, suc, ◌≤◌, Bool, true, false, Option, none, some, List, [], ◌∷◌, if◌then◌else◌,
}
use context_rollover_guard.Rollover.Effects.{
  ◌>>=◌, stops, raises, leaves, returns, continue, M, Answer, World, Request, thread_start,
  turn_start, thread_archive,
}

-- 1 where the record exists.
abbrev pub flag {ℓ} : {A : Type ℓ} → Option A → ℕ
flag none = 0
flag (some a) = 1

abbrev pub is_start : Request → Bool
is_start (thread_start m) = true
is_start _ = false

abbrev pub is_turn : Request → Bool
is_turn (turn_start m) = true
is_turn _ = false

abbrev pub is_archive : Request → Bool
is_archive (thread_archive t) = true
is_archive _ = false

abbrev pub times : (Request → Bool) → List Request → ℕ
times p [] = 0
times p (r ∷ rs) = if p r then suc (times p rs) else times p rs

pub record Inv (w : World) : Type 0 where
  pub starts : times is_start w.sent ≤ flag w.journal.start_intent
  pub turns : times is_turn w.sent ≤ flag w.journal.forward_intent
  pub archives : times is_archive w.sent ≤ flag w.journal.archive_intent
  pub started_last : flag w.journal.started ≤ flag w.journal.start_intent
  pub forward_last : flag w.journal.forward_intent ≤ flag w.journal.started
  pub accepted_last : flag w.journal.accepted ≤ flag w.journal.forward_intent
  pub archive_last : flag w.journal.archive_intent ≤ flag w.journal.accepted
  pub archived_last : flag w.journal.archived ≤ flag w.journal.archive_intent
  pub committed_last : flag w.journal.committed ≤ flag w.journal.accepted

-- `Goes I Q end`: `I` holds at the end of a piece of a run, and `Q` too where it goes on.
abbrev pub Goes {ℓ} : {A : Type ℓ} → (World → Type 0) → (World → Type 0) → Answer A × World → Type 0
Goes I Q (returns a, w) = I w × Q w
Goes I Q (leaves r, w) = I w
Goes I Q (raises e, w) = I w
Goes I Q (stops, w) = I w

abbrev pub Anywhere : World → Type 0
Anywhere w = Unit {0}

abbrev pub HasStarted : World → Type 0
HasStarted w = flag w.journal.started ≡ 1

abbrev pub HasAccepted : World → Type 0
HasAccepted w = flag w.journal.accepted ≡ 1

module _ {ℓ κ} {A : Type ℓ} {B : Type κ} where
  Goes-continue :
      (I P Q : World → Type 0) (r : Answer A) (w : World) (f : A → M B)
      → Goes I P (r, w)
      → ((a : A) (u : World) → I u → P u → Goes I Q (f a u))
      → Goes I Q (continue r f w)
  Goes-continue I P Q (returns a) w f h k = k a w h.0 h.1
  Goes-continue I P Q (leaves r) w f h k = h
  Goes-continue I P Q (raises e) w f h k = h
  Goes-continue I P Q stops w f h k = h

  pub Goes-bind :
      (I P Q : World → Type 0) (m : M A) (f : A → M B) (w : World)
      → Goes I P (m w)
      → ((a : A) (u : World) → I u → P u → Goes I Q (f a u))
      → Goes I Q ((m >>= f) w)
  Goes-bind I P Q m f w h k = let (r, u) = m w in Goes-continue I P Q r u f h k

module _ {ℓ} {A : Type ℓ} where
  Goes-at : (I Q : World → Type 0) (r : Answer A) (w : World) → Goes I Q (r, w) → I w
  Goes-at I Q (returns a) w h = h.0
  Goes-at I Q (leaves r) w h = h
  Goes-at I Q (raises e) w h = h
  Goes-at I Q stops w h = h

  pub Goes-world : (I Q : World → Type 0) (end : Answer A × World) → Goes I Q end → I end.1
  Goes-world I Q (r, w) h = Goes-at I Q r w h
