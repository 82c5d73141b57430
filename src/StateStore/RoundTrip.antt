-- ===== src/StateStore/RoundTrip.antt =====
-- A state that is written is read back unchanged.
use context_rollover_guard.Prelude.{
  String, ◌≡◌, refl, ap, true, false, Option, none, some, arith, eq_iff, ok,
}
use context_rollover_guard.Json.{Members, int, str, obj, get}
use context_rollover_guard.Prelude.Int.{ℤ, pos}
use context_rollover_guard.Session.{
  SessionState, Platform, State, Mode, Real, fraction, not_finite, not_finite, validate, mode_a,
  mode_b, mode_c, normal, armed, preparing, starting, forwarding, archiving, emergency, recovery,
  invalid_risk_score, within_unit, workspace_id_of,
}
use context_rollover_guard.Session.Dict.{
  state_value, mode_value, dict_of, text_or_null, count_or_null, risk_or_null,
}
use context_rollover_guard.StateStore.Codec.{
  Codec, text_of, count_of, risk_of, state_of, mode_of, named_state, named_mode, known_fields,
  state_from, unique, envelope, encode, decode, decode_document, decode_payload, payload_of,
  version_of,
}

text_of-text_or_null : (o : Option String) → text_of (text_or_null o) ≡ ok o
text_of-text_or_null none = refl
text_of-text_or_null (some s) = refl

count_of-count_or_null : (o : Option ℤ) → count_of (count_or_null o) ≡ ok o
count_of-count_or_null none = refl
count_of-count_or_null (some n) = refl

risk_of-risk_or_null :
    (o : Option Real) → invalid_risk_score o ≡ false → risk_of (risk_or_null o) ≡ ok o
unfolding within_unit
risk_of-risk_or_null none h = refl
risk_of-risk_or_null (some (fraction n d)) h = refl
risk_of-risk_or_null (some not_finite) h = cc

state_of-state_value : (s : State) → state_of (str (state_value s)) ≡ ok s
unfolding named_state
state_of-state_value normal = refl
state_of-state_value armed = refl
state_of-state_value preparing = refl
state_of-state_value starting = refl
state_of-state_value forwarding = refl
state_of-state_value archiving = refl
state_of-state_value emergency = refl
state_of-state_value recovery = refl

mode_of-mode_value : (m : Mode) → mode_of (str (mode_value m)) ≡ ok m
unfolding named_mode
mode_of-mode_value mode_a = refl
mode_of-mode_value mode_b = refl
mode_of-mode_value mode_c = refl

pub validate-checks :
    (p : Platform) (s : SessionState)
    → validate p s ≡ ok s
    → (s.schema_version ≡ pos 1) × (invalid_risk_score s.risk_score ≡ false)
unfolding validate workspace_id_of within_unit
validate-checks p s h = ground arith

state_from-dict_of :
    (now : String) (s : SessionState)
    → invalid_risk_score s.risk_score ≡ false
    → state_from now (dict_of s) ≡ ok s
unfolding state_from dict_of known_fields get
state_from-dict_of now s h = simp (
  text_of-text_or_null,
  count_of-count_or_null,
  risk_of-risk_or_null s.risk_score h,
  state_of-state_value,
  mode_of-mode_value,
)

unique-text_or_null : (o : Option String) → unique (text_or_null o) ≡ true
unfolding unique
unique-text_or_null none = refl
unique-text_or_null (some s) = refl

unique-count_or_null : (o : Option ℤ) → unique (count_or_null o) ≡ true
unfolding unique
unique-count_or_null none = refl
unique-count_or_null (some n) = refl

unique-risk_or_null : (o : Option Real) → unique (risk_or_null o) ≡ true
unfolding unique
unique-risk_or_null none = refl
unique-risk_or_null (some (fraction n d)) = refl
unique-risk_or_null (some not_finite) = refl

unique-envelope :
    (p : Platform) (k : Codec) (s : SessionState)
    → unique (obj s.telemetry) ≡ true
    → unique (envelope p k s) ≡ true
unfolding unique envelope dict_of get
unique-envelope p k s h = simp (unique-text_or_null, unique-count_or_null, unique-risk_or_null, h)

get-dict_of : (s : SessionState) → get "schema_version" (dict_of s) ≡ some (int s.schema_version)
unfolding get dict_of
get-dict_of s = refl

decode_payload-dict_of :
    (p : Platform) (now : String) (s : SessionState)
    → validate p s ≡ ok s
    → decode_payload p now (dict_of s) ≡ ok s
unfolding decode_payload
decode_payload-dict_of p now s v =
    let (version, risk) = validate-checks p s v in
    let one : version_of (some (int s.schema_version)) ≡ ok 1 =
      ap (λ n. version_of (some (int n))) version in
    simp (get-dict_of s, one, state_from-dict_of now s risk) (ground (arith, v))

payload_of-envelope :
    (p : Platform) (k : Codec) (s : SessionState) (outer : Members)
    → envelope p k s ≡ obj outer
    → payload_of p k outer ≡ ok (obj (dict_of s))
unfolding payload_of envelope get
payload_of-envelope p k s outer h =
    let sha = p.sha256 (k.print (obj (dict_of s))) in ground (arith, eq_iff sha sha)

decode_document-envelope :
    (p : Platform) (k : Codec) (now : String) (s : SessionState)
    → validate p s ≡ ok s
    → unique (obj s.telemetry) ≡ true
    → decode_document p k now (envelope p k s) ≡ ok s
unfolding decode_document
decode_document-envelope p k now s v u =
    rw (unique-envelope p k s u)
      (unfold envelope in simp (payload_of-envelope p k s _ refl, decode_payload-dict_of p now s v))

-- What `encode` writes of a valid state, `decode` reads as that state again, where the printed
-- envelope parses to itself and the telemetry has no duplicate keys.
pub decode-encode :
    (p : Platform) (k : Codec) (now : String) (s : SessionState) (raw : String)
    → encode p k s ≡ ok raw
    → validate p s ≡ ok s
    → unique (obj s.telemetry) ≡ true
    → k.parse (k.print (envelope p k s)) ≡ some (envelope p k s)
    → decode p k now raw ≡ ok s
unfolding decode encode
decode-encode p k now s raw e v u h = ground (arith, decode_document-envelope p k now s v u)
