-- ===== src/Rollover/Effects.antt =====
-- The journal of one rollover, the requests that its client was sent, and the effects on both
-- (crg/coordinator.py, `_write`, `_read`, `_blocked`; crg/durable.py, `immutable_write`). A file is as
-- it was written: what `_read` raises on a damaged one, or one of another version, is left out.
use context_rollover_guard.Prelude.{String, Bool, true, Option, List, ◌∷◌, Result, ok, err}
use context_rollover_guard.Json.{Json, Members}
use context_rollover_guard.Errors.{Exc, os_error, client_error}
use context_rollover_guard.Session.{SessionState}
use context_rollover_guard.Settings.{Settings}

pub record Prepared : Type 0 where
  pub source : SessionState
  pub settings : Settings
  pub archive : String
  pub prompt_sha256 : String
  pub client_message_id : String
  -- `none`: a record written before the key existed
  pub archive_source : Option Bool

pub record ForwardIntent : Type 0 where
  pub new_thread_id : Json
  pub client_message_id : String
  pub prompt_sha256 : String

pub record Accepted : Type 0 where
  pub thread_id : Json
  pub turn_id : String
  pub client_message_id : String
  pub prompt_sha256 : String
  -- "turn/start response", or a reconciliation
  pub source : String

pub record ArchiveIntent : Type 0 where
  pub old_thread_id : String
  pub accepted_turn_id : String

-- The committed result; its constant fields (`state`, `surface`, `desktop_switched`) are left out.
pub record Outcome : Type 0 where
  pub rollover_id : String
  pub old_thread_id : String
  pub new_thread_id : Json
  pub accepted_turn_id : String
  pub old_thread_archived : Bool
  pub source_retention_reason : Option String
  pub handoff_index : String

pub data Operation : Type 0 where
  at_start at_settings at_forward at_archive : Operation

-- Which of the four `recovery-…` files exist; the content of each is fixed.
pub record Recoveries : Type 0 where
  pub start : Bool
  pub settings : Bool
  pub forward : Bool
  pub archive : Bool

unfoldable pub mark : Operation → Recoveries → Recoveries
mark at_start r = record r { start = true }
mark at_settings r = record r { settings = true }
mark at_forward r = record r { forward = true }
mark at_archive r = record r { archive = true }

-- A field is what `_read` gives: `none` where the file does not exist.
pub record Journal : Type 0 where
  pub prepared : Option Prepared
  pub start_intent : Option String
  pub started : Option Members
  pub forward_intent : Option ForwardIntent
  pub accepted : Option Accepted
  pub archive_intent : Option ArchiveIntent
  pub archived : Option String
  pub committed : Option Outcome
  pub recoveries : Recoveries

pub data Request : Type 0 where
  thread_start : Members → Request
  thread_resume : Members → Request
  turn_start : Members → Request
  thread_archive : String → Request
  thread_read : Json → Request
  thread_list : Option Json → Request

-- The newest request stands first.
pub record World : Type 0 where
  pub journal : Journal
  pub sent : List Request

pub data Report : Type 0 where
  blocked : Operation → Report
  finished : Outcome → Report

-- How a piece of a run ends: it goes on with a value, the run returns early, an exception is
-- raised, or the process dies.
pub data Answer {ℓ} (A : Type ℓ) : Type ℓ where
  returns : A → Answer A
  leaves : Report → Answer A
  raises : Exc → Answer A
  stops : Answer A

abbrev pub M {ℓ} : Type ℓ → Type ℓ
M A = World → Answer A × World

-- What becomes of one durable write.
pub data Fate : Type 0 where
  written failed failed_durable stopped stopped_durable : Fate

-- What becomes of one request. `lost` raises after the request was sent, `unsent` before.
pub data Reply {ℓ} (A : Type ℓ) : Type ℓ where
  replies : A → Reply A
  lost unsent cut : Reply A

module _ {ℓ} {A : Type ℓ} where
  abbrev pub pure : A → M A
  pure a w = (returns a, w)

  abbrev pub leave : Report → M A
  leave r w = (leaves r, w)

  abbrev pub raise : Exc → M A
  raise e w = (raises e, w)

  abbrev pub lift : Result Exc A → M A
  lift (ok a) w = (returns a, w)
  lift (err e) w = (raises e, w)

module _ {ℓ κ} {A : Type ℓ} {B : Type κ} where
  abbrev pub continue : Answer A → (A → M B) → M B
  continue (returns a) f w = f a w
  continue (leaves r) f w = (leaves r, w)
  continue (raises e) f w = (raises e, w)
  continue stops f w = (stops, w)

  infixl 5 ◌>>=◌
  abbrev pub ◌>>=◌ : M A → (A → M B) → M B
  ◌>>=◌ m f w = let (r, w') = m w in continue r f w'

infixl 5 ◌>>◌
abbrev pub ◌>>◌ {ℓ} : {B : Type ℓ} → M (Unit {0}) → M B → M B
m >> n = m >>= λ _. n

abbrev pub journal : M Journal
journal w = (returns w.journal, w)

-- _write: the record is durable exactly where the fate says so.
unfoldable pub write : Fate → (Journal → Journal) → M (Unit {0})
write written f w = (returns tt, record w { journal = f w.journal })
write failed f w = (raises os_error, w)
write failed_durable f w = (raises os_error, record w { journal = f w.journal })
write stopped f w = (stops, w)
write stopped_durable f w = (stops, record w { journal = f w.journal })

-- client.request
unfoldable pub call {ℓ} : {A : Type ℓ} → Request → Reply A → M A
call r (replies a) w = (returns a, record w { sent = r ∷ w.sent })
call r lost w = (raises client_error, record w { sent = r ∷ w.sent })
call r unsent w = (raises client_error, w)
call r cut w = (stops, record w { sent = r ∷ w.sent })
