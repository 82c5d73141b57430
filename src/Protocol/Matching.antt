-- ===== src/Protocol/Matching.antt =====
-- Which response a request gets.
use context_rollover_guard.Prelude.Int.{pos}
use context_rollover_guard.Prelude.{
  on_option, on_bool, ℕ, suc, ◌≡◌, refl, sym, ap, ◌∙◌, subst, ◌⊎◌, inl, inr, true, false, Option,
  none, some, List, [], ◌∷◌, arith, ltb, ◌==◌, length, All, ok, Bool-cases,
}
use context_rollover_guard.Json.{Json, Members, null, bool, int, real, str, arr, obj, get, same}
use context_rollover_guard.Prelude.{
  ℕ, suc, ◌≡◌, refl, sym, ap, ◌∙◌, subst, ◌⊎◌, inl, inr, true, false, Option, none, some, List, [],
  ◌∷◌, arith, ltb, ◌==◌, length, All, ok, Bool-cases,
}
use context_rollover_guard.Json.{Json, Members, null, bool, int, real, str, arr, obj, get, same}
use context_rollover_guard.Protocol.Schema.{has}
use context_rollover_guard.Protocol.Client.{
  taken, ended_by, is_unhashable, Fate, replied, unavailable, Reader, reading, failed, died, Client,
  fresh, has_failed, found, without, register, break, resolve, deliver, enqueue, on_event, receive,
  forget, fate_of, finish_request, next_event, Step, requests, receives, ends, gives_up, takes,
  Reach, here, next, Frame, eof, unreadable, value,
}
use context_rollover_guard.Protocol.Waiting.{
  Carries, Waits, Known, Silent, Inv, All-map, fate_of_new, All-without, found_waits, mark-Known,
  fate_of_other, fate_of-mark,
}

Silent-live : (r : Reader) (ps : List ℕ) → has_failed r ≡ false → Silent r ps
Silent-live reading ps h = tt
Silent-live failed ps h = cc
Silent-live died ps h = tt

Silent-without : (r : Reader) (i : ℕ) (ps : List ℕ) → Silent r ps → Silent r (without i ps)
unfolding without
Silent-without reading i ps h = tt
Silent-without failed i ps h = ap (without i) h
Silent-without died i ps h = tt

by_reader : (r : Reader) (ps : List ℕ) → Silent r ps → (has_failed r ≡ false) ⊎ (ps ≡ [])
by_reader reading ps h = inl refl
by_reader failed ps h = inr h
by_reader died ps h = inl refl

-- The invariant, and that the futures that have ended stay as they are.
record Keeps (c d : Client) : Type 0 where
  inv : Inv d
  ended : (i : ℕ) (f : Fate) → fate_of i c.fates ≡ some f → fate_of i d.fates ≡ some f

break-Keeps : (c : Client) → Inv c → Keeps c (break c)
unfolding break
break-Keeps c v = record {
  inv = record {
    waiting = tt;
    known =
        mark-Known c.counter c.pending c.fates (All-map (λ i w. w.0) c.pending v.waiting) v.known;
    silent = refl;
  };
  ended = λ i f h. fate_of-mark c.pending c.fates i f (All-map (λ j w. w.1) c.pending v.waiting) h;
}

register-Keeps : (c d : Client) → Inv c → register c ≡ ok d → Keeps c d
unfolding register
register-Keeps c d v h = elim (Bool-cases (has_failed c.reader)) [
  | inl closed ↦ absurd (ground arith)
  | inr live ↦
      let new : Client = record c {
        counter = suc c.counter;
        pending = suc c.counter ∷ c.pending;
      } in
      let same_one : new ≡ d = ground arith in
      subst (Keeps c) same_one (record {
        inv = record {
          waiting = (
            (omega arith, fate_of_new (suc c.counter) c.fates c.counter v.known (omega arith)),
            All-map (λ i w. (omega (arith, w.0), w.1)) c.pending v.waiting,
          );
          known = All-map (λ p k. (omega (arith, k.0), k.1)) c.fates v.known;
          silent = Silent-live c.reader _ live;
        };
        ended = λ i f h. h;
      })
]

resolve-Keeps :
    (c : Client) (o : Option ℕ) (m : Members) (id : Json)
    → Inv c
    → has_failed c.reader ≡ false
    → get "id" m ≡ some id
    → has "method" m ≡ false
    → ((i : ℕ) → o ≡ some i → Waits c i × (same (int (pos i)) id ≡ true))
    → Keeps c (resolve o m c)
unfolding resolve Carries
resolve-Keeps c none m id v live g n w = record { inv = v; ended = λ i f h. h }
resolve-Keeps c (some i) m id v live g n w =
    let ((bound, unanswered), is_id) = w i refl in
    record {
      inv = record {
        waiting =
            All-without (Waits (resolve (some i) m c)) i
              (λ j p ne. (p.0, fate_of_other i j (replied m) c.fates (λ e. ne (sym e)) ∙ p.1))
              c.pending v.waiting;
        known = ((bound, (id, g, is_id, n)), v.known);
        silent = Silent-live c.reader (without i c.pending) live;
      };
      ended = λ j f h. fate_of_other i j (replied m) c.fates (λ e. cc) ∙ h;
    }

forget-Keeps : (c : Client) (i : ℕ) → Inv c → Keeps c (forget i c)
unfolding forget
forget-Keeps c i v = record {
  inv = record {
    waiting = All-without (Waits c) i (λ j p ne. p) c.pending v.waiting;
    known = v.known;
    silent = Silent-without c.reader i c.pending v.silent;
  };
  ended = λ j f h. h;
}

enqueue-Keeps : (c : Client) (event : Json) → Inv c → Keeps c (enqueue event c)
unfolding enqueue
enqueue-Keeps c event v =
    on_bool (Keeps c) (ltb (length c.events) 2048) _ _
      (λ room. record {
        inv = record { waiting = v.waiting; known = v.known; silent = v.silent };
        ended = λ i f h. h;
      })
      (λ full. break-Keeps c v)

deliver-Keeps :
    (c : Client) (id : Json) (m : Members)
    → Inv c
    → has_failed c.reader ≡ false
    → get "id" m ≡ some id
    → has "method" m ≡ false
    → Keeps c (deliver id m c)
unfolding deliver
deliver-Keeps c id m v live g n =
    on_bool (Keeps c) (is_unhashable id) _ _
      (λ bad. record {
        inv = record { waiting = v.waiting; known = v.known; silent = tt };
        ended = λ i f h. h;
      })
      (λ good.
        resolve-Keeps c (found id c.pending) m id v live g n
          (λ i. found_waits id (Waits c) c.pending i v.waiting))

on_event-Keeps :
    (c : Client) (m : Members) → Inv c → has_failed c.reader ≡ false → Keeps c (on_event m c)
unfolding on_event
on_event-Keeps c m v live =
    on_option (Keeps c) (get "id" m) _ _ (λ absent. enqueue-Keeps c (obj m) v)
      (λ id g.
        on_bool (Keeps c) (has "method" m) _ _ (λ call. enqueue-Keeps c (obj m) v)
          (λ response. deliver-Keeps c id m v live g response))

receive-Keeps :
    (c : Client) (f : Frame) → Inv c → has_failed c.reader ≡ false → Keeps c (receive f c)
unfolding receive
receive-Keeps c eof v live = break-Keeps c v
receive-Keeps c unreadable v live = break-Keeps c v
receive-Keeps c (value (obj m)) v live = on_event-Keeps c m v live
receive-Keeps c (value null) v live = break-Keeps c v
receive-Keeps c (value (bool b)) v live = break-Keeps c v
receive-Keeps c (value (int n)) v live = break-Keeps c v
receive-Keeps c (value (real n d)) v live = break-Keeps c v
receive-Keeps c (value (str s)) v live = break-Keeps c v
receive-Keeps c (value (arr xs)) v live = break-Keeps c v

ended_by-Keeps : (c : Client) (i : ℕ) (o : Option Fate) → Inv c → Keeps c (ended_by o i c).1
unfolding ended_by
ended_by-Keeps c i none v = forget-Keeps c i v
ended_by-Keeps c i (some unavailable) v = forget-Keeps c i v
ended_by-Keeps c i (some (replied m)) v = record { inv = v; ended = λ j f h. h }

taken-Keeps : (c : Client) (events : List Json) → Inv c → Keeps c (taken events c).1
unfolding taken
taken-Keeps c [] v = record { inv = v; ended = λ i f h. h }
taken-Keeps c (event ∷ rest) v = record {
  inv = record { waiting = v.waiting; known = v.known; silent = v.silent };
  ended = λ i f h. h;
}

Step-Keeps : {c d : Client} → Step c d → Inv c → Keeps c d
unfolding finish_request next_event
Step-Keeps {c} (requests d made) v = register-Keeps c d v made
Step-Keeps {c} (receives f live) v = receive-Keeps c f v (ground arith)
Step-Keeps {c} (ends i) v = ended_by-Keeps c i (fate_of i c.fates) v
Step-Keeps {c} (gives_up i) v = forget-Keeps c i v
Step-Keeps {c} takes v = taken-Keeps c c.events v

Reach-Keeps : {c d : Client} → Reach c d → Inv c → Keeps c d
Reach-Keeps here v = record { inv = v; ended = λ i f h. h }
Reach-Keeps (next path step) v =
    let k = Reach-Keeps path v in
    let l = Step-Keeps step k.inv in
    record { inv = l.inv; ended = λ i f h. l.ended i f (k.ended i f h) }

fresh-Inv : Inv fresh
fresh-Inv = record { waiting = tt; known = tt; silent = tt }

Known-fate_of :
    (n i : ℕ) (f : Fate) (fates : List (ℕ × Fate))
    → All (Known n) fates
    → fate_of i fates ≡ some f
    → Carries i f
unfolding fate_of
Known-fate_of n i f [] h e = cc
Known-fate_of n i f ((j, g) ∷ fates) ((b, k), h) e = elim (Bool-cases (j == i)) [
  | inl hit ↦
      let same_number : j ≡ i = ground arith in
      let same_fate : g ≡ f = ground arith in
      subst (λ a. Carries a f) same_number (subst (Carries j) same_fate k)
  | inr miss ↦ Known-fate_of n i f fates h (ground arith)
]

-- In every state of a client that is reached from its start, a request that has ended with a
-- response got one that carries its own number and no method, and keeps it in every later state.
pub Reach-answers :
    {c d : Client} (before : Reach fresh c) (after : Reach c d) (i : ℕ) (m : Members)
    → fate_of i c.fates ≡ some (replied m)
    → Carries i (replied m) × (fate_of i d.fates ≡ some (replied m))
Reach-answers {c} before after i m h =
    let v = (Reach-Keeps before fresh-Inv).inv in
    (
      Known-fate_of c.counter i (replied m) c.fates v.known h,
      (Reach-Keeps after v).ended i (replied m) h,
    )

-- In every state that is reached from the start, the requests that wait have no response yet, and
-- no request waits once the reader has recorded a failure.
pub Reach-silent :
    {c : Client} (path : Reach fresh c)
    → All (λ (i : ℕ). fate_of i c.fates ≡ none) c.pending
      × ((has_failed c.reader ≡ false) ⊎ (c.pending ≡ []))
Reach-silent {c} path =
    let v = (Reach-Keeps path fresh-Inv).inv in
    (All-map (λ i w. w.1) c.pending v.waiting, by_reader c.reader c.pending v.silent)
