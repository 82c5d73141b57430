-- ===== src/Owned/Blocks.antt =====
-- A submission that fails after its prompt is recorded blocks its session.
use context_rollover_guard.Owned.Files.{install, input, source}
use context_rollover_guard.Owned.Records.{source_record}
use context_rollover_guard.Owned.Submit.{thread_or_null}
use context_rollover_guard.Owned.Events.{Output}
use context_rollover_guard.Settings.{Settings}
use context_rollover_guard.Errors.{type_error, Exc, value_error}
use context_rollover_guard.Owned.Answer.{Host}
use context_rollover_guard.Owned.Files.{Answer, returns, raises, stops, continue}
use context_rollover_guard.Owned.Submit.{
  SubmitEnv, protected, attempt, submit, numbered, alarm, no_thread,
}
use context_rollover_guard.Owned.Session.{Session, block, write}
use context_rollover_guard.Prelude.{
  ℕ, suc, String, ◌≡◌, sym, ap, ◌⊎◌, inl, inr, Bool, true, ◌||◌, Option, none, some, arith,
  Bool-cases,
}
use context_rollover_guard.Json.{Json}

-- A session that refuses every submission and is not changed by one.
abbrev pub Refuses : Session → Type 0
Refuses s =
    (t : Host) (env : SubmitEnv) (prompt : String) (fresh : Bool)
    → submit t env prompt fresh s ≡ (raises value_error, s)

blocked-Refuses : (s : Session) → s.blocked ≡ true → Refuses s
unfolding submit
blocked-Refuses s h t env prompt fresh = ground arith

alarm-blocked :
    (t : Host) (env : SubmitEnv) (a : Answer Output) (s s' : Session) (e : Exc)
    → alarm t env (block (a, s)) ≡ (raises e, s')
    → s'.blocked ≡ true
unfolding block
alarm-blocked t env (returns output) s s' e h = absurd (ground arith)
alarm-blocked t env (raises x) s s' e h = ap (λ r. r.1.blocked) (sym h)
alarm-blocked t env stops s s' e h = absurd (ground arith)

protected-blocked :
    (t : Host) (env : SubmitEnv) (n : ℕ) (prompt : String) (fresh : Bool) (v : Option Settings)
    (thread : Option Json) (s s' : Session) (e : Exc)
    → protected t env n prompt fresh v thread s ≡ (raises e, s')
    → s'.blocked ≡ true
unfolding protected
protected-blocked t env n prompt fresh (some v) (some thread) s s' e h =
    alarm-blocked t env (attempt t env n v prompt fresh thread s).0
      (attempt t env n v prompt fresh thread s).1 s' e h
protected-blocked t env n prompt fresh (some v) none s s' e h =
    alarm-blocked t env (raises type_error) s s' e h
protected-blocked t env n prompt fresh none thread s s' e h =
    alarm-blocked t env (raises type_error) s s' e h

recorded-raises :
    (t : Host) (env : SubmitEnv) (n : ℕ) (prompt : String) (fresh : Bool) (v : Option Settings)
    (thread : Option Json) (a : Answer (Unit {0})) (s s' : Session) (e : Exc)
    → continue a (λ done. protected t env n prompt fresh v thread) s ≡ (raises e, s')
    → (s'.sent ≡ s.sent) ⊎ (s'.blocked ≡ true)
recorded-raises t env n prompt fresh v thread (returns done) s s' e h =
    inr (protected-blocked t env n prompt fresh v thread s s' e h)
recorded-raises t env n prompt fresh v thread (raises x) s s' e h = inl (ap (λ r. r.1.sent) (sym h))
recorded-raises t env n prompt fresh v thread stops s s' e h = absurd (ground arith)

numbered-raises :
    (t : Host) (env : SubmitEnv) (prompt : String) (fresh : Bool) (s s' : Session) (e : Exc)
    → numbered t env prompt fresh s ≡ (raises e, s')
    → (s'.sent ≡ s.sent) ⊎ (s'.blocked ≡ true)
unfolding numbered write
numbered-raises t env prompt fresh s s' e h =
    let value = source_record (thread_or_null t env s.thread) prompt fresh in
    let end_of = install t.codec env.source_write (input s.sequence source) value s.files in
    recorded-raises t env s.sequence prompt fresh s.settings s.thread end_of.0
      (record s { files = end_of.1 }) s' e h

-- A submission that raises has sent no request, or has blocked its session: from then on every
-- submission raises, sends nothing and changes nothing.
pub submit-Refuses :
    (t : Host) (env : SubmitEnv) (prompt : String) (fresh : Bool) (s s' : Session) (e : Exc)
    → submit t env prompt fresh s ≡ (raises e, s')
    → (s'.sent ≡ s.sent) ⊎ Refuses s'
unfolding submit
submit-Refuses t env prompt fresh s s' e h = elim (Bool-cases (s.blocked || no_thread s.thread)) [
  | inl refused ↦ inl (ground arith)
  | inr accepts ↦
      elim (numbered-raises t env prompt fresh (record s { sequence = suc s.sequence }) s' e
        (ground arith)) [ inl unsent ↦ inl unsent | inr stuck ↦ inr (blocked-Refuses s' stuck) ]
]
