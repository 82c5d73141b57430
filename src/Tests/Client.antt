-- ===== src/Tests/Client.antt =====
-- A request whose response arrives between two events.
use context_rollover_guard.Prelude.{ℕ, ◌≡◌, refl, ◌⊎◌, false, none, some, [], ◌∷◌, All, ok}
use context_rollover_guard.Json.{Members, int, str, obj, end, member, get, same}
use context_rollover_guard.Prelude.Int.{pos}
use context_rollover_guard.Protocol.Client.{
  reading, Client, replied, fresh, register, receive, value, fate_of, has_failed, requests,
  receives, Reach, here, next, eof, deliver, on_event, resolve, found,
}
use context_rollover_guard.Protocol.Waiting.{Carries}
use context_rollover_guard.Protocol.Matching.{Reach-answers, Reach-silent}

abbrev response : Members
response = member "id" (int (pos 1)) (member "result" (str "started") end)

abbrev one_request : Client
one_request = record fresh { counter = 1; pending = 1 ∷ [] }

abbrev one_response : Client
one_response = receive (value (obj response)) one_request

abbrev no_stream : Client
no_stream = receive eof one_response

asked : register fresh ≡ ok one_request
unfolding register
asked = refl

reads : one_response.reader ≡ reading
unfolding receive on_event deliver resolve found same get
reads = refl

answered : fate_of 1 one_response.fates ≡ some (replied response)
unfolding receive on_event deliver resolve found same get fate_of
answered = refl

to_response : Reach fresh one_response
to_response = next (next here (requests one_request asked)) (receives (value (obj response)) refl)

to_end : Reach fresh no_stream
to_end = next to_response (receives eof reads)

Reach-answers_example :
    Carries 1 (replied response) × (fate_of 1 no_stream.fates ≡ some (replied response))
Reach-answers_example =
    Reach-answers to_response (next here (receives eof reads)) 1 response answered

Reach-silent_example :
    All (λ (i : ℕ). fate_of i no_stream.fates ≡ none) no_stream.pending
    × ((has_failed no_stream.reader ≡ false) ⊎ (no_stream.pending ≡ []))
Reach-silent_example = Reach-silent to_end
