-- ===== src/Owned/Resumed.antt =====
-- A run that `reconcile_run` reports as ready passes the loop of `resume`.
use context_rollover_guard.Owned.Concluded.{conclude-Leaves, asks-open}
use context_rollover_guard.Rollover.Checks.{thread_id_of}
use context_rollover_guard.Owned.Files.{started, load}
use context_rollover_guard.Prelude.{or_raise-eq-ok}
use context_rollover_guard.Rollover.Effects.{Reply, replies, lost, unsent, cut}
use context_rollover_guard.Settings.{item}
use context_rollover_guard.Owned.Calls.{lift-eq-returns, >>=-eq-returns}
use context_rollover_guard.Owned.Evidence.{verdict_of-Confirmed}
use context_rollover_guard.Owned.Reconcile.{verdict_of, first_scan, Desk, RecoveryEnv}
use context_rollover_guard.Owned.Answer.{Host}
use context_rollover_guard.Errors.{os_error, value_error}
use context_rollover_guard.Owned.Files.{lift}
use context_rollover_guard.Prelude.{raise_if-eq-ok}
use context_rollover_guard.Owned.Reconciled.{on_scan, read_thread, reconcile_run, conclude}
use context_rollover_guard.Owned.Kept.{Grows}
use context_rollover_guard.Rollover.Effects.{lost}
use context_rollover_guard.Owned.Resumable.{scan-walk, Fits, Kept}
use context_rollover_guard.Owned.Walk.{walk, load_dict, numbers}
use context_rollover_guard.Owned.Files.{Name, Files, find, completed, input, returns}
use context_rollover_guard.Owned.Recovery.{
  Reason, Scan, Query, scan, settled, asks, ready_to_resume,
}
use context_rollover_guard.Prelude.{
  ◌≡◌, refl, sym, ap, ◌∙◌, subst, not, Option, none, arith, Result, ok, err, >>=-eq-ok,
}
use context_rollover_guard.Json.{Json, Members, str, same}

-- The run's own thread, and the inputs in order on the threads that its routes give.
abbrev pub Resumes : Files → Json → Type 0
Resumes fs last =
    (first : Members) × (thread : Json) × (load_dict started fs ≡ ok first)
    × (thread_id_of first ≡ ok thread)
    × ((receipt : Option Members) × (walk fs 1 thread none (numbers fs) ≡ ok (last, receipt)))

load_dict-Grows :
    (n : Name) (fs fs' : Files) (m : Members)
    → Grows fs fs'
    → load_dict n fs ≡ ok m
    → load_dict n fs' ≡ ok m
load_dict-Grows n fs fs' m grows h =
    let (v, loaded, is_dict) = >>=-eq-ok (load n fs) _ h in
    let there = grows n v (or_raise-eq-ok (find n fs) os_error loaded) in ground arith

scan-Resumes :
    (t : Host) (env : RecoveryEnv) (fs fs' : Files) (s : Scan) (last : Json)
    → first_scan t env fs ≡ ok s
    → Kept fs fs'
    → numbers fs' ≡ numbers fs
    → Fits fs' s last
    → Resumes fs' last
unfolding first_scan
scan-Resumes t env fs fs' s last h kept same_numbers fits =
    let (_, h1) = raise_if-eq-ok env.symlinked value_error _ h in
    let (_, h2) = raise_if-eq-ok (not env.own_run) value_error _ h1 in
    let (first, there, h3) = >>=-eq-ok (load_dict started fs) _ h2 in
    let (cwd, _, h4) = >>=-eq-ok (item "cwd" first) _ h3 in
    let (_, h5) = raise_if-eq-ok (not (same cwd (str t.workspace))) value_error _ h4 in
    let (thread, has_id, h6) = >>=-eq-ok (thread_id_of first) _ h5 in
    (
      first,
      thread,
      load_dict-Grows started fs fs' first kept.grows there,
      has_id,
      subst (λ ns. (receipt : Option Members) × (walk fs' 1 thread none ns ≡ ok (last, receipt)))
          (sym same_numbers) (scan-walk fs fs' 1 thread last (numbers fs) s kept h6 fits none),
    )

scan_thread :
    (t : Host) (env : RecoveryEnv) (fs : Files) (s : Scan)
    → first_scan t env fs ≡ ok s
    → (thread : Json) × (scan fs 1 thread (numbers fs) ≡ ok s)
unfolding first_scan
scan_thread t env fs s h =
    let (_, h1) = raise_if-eq-ok env.symlinked value_error _ h in
    let (_, h2) = raise_if-eq-ok (not env.own_run) value_error _ h1 in
    let (first, there, h3) = >>=-eq-ok (load_dict started fs) _ h2 in
    let (cwd, _, h4) = >>=-eq-ok (item "cwd" first) _ h3 in
    let (_, h5) = raise_if-eq-ok (not (same cwd (str t.workspace))) value_error _ h4 in
    let (thread, has_id, h6) = >>=-eq-ok (thread_id_of first) _ h5 in (thread, h6)

read_thread-files :
    (thread : Json) (reply : Reply Members) (d d' : Desk) (response : Members)
    → read_thread thread reply d ≡ (returns response, d')
    → d'.files ≡ d.files
unfolding read_thread
read_thread-files thread (replies r) d d' response h = ap (λ x. x.1.files) (sym h)
read_thread-files thread lost d d' response h = absurd (ground arith)
read_thread-files thread unsent d d' response h = absurd (ground arith)
read_thread-files thread cut d d' response h = absurd (ground arith)

conclude-Resumes :
    (t : Host) (env : RecoveryEnv) (q : Query) (response : Members) (judged : Result Reason Members)
    (fs : Files) (d d' : Desk) (last : Json)
    → first_scan t env fs ≡ ok (asks q)
    → d.files ≡ fs
    → verdict_of t env.stores q response ≡ ok judged
    → conclude t env q judged d ≡ (returns (ready_to_resume last), d')
    → Resumes d'.files last
unfolding conclude
conclude-Resumes t env q response (err reason) fs d d' last scanned same_files h done =
    absurd (ground arith)
conclude-Resumes t env q response (ok turn) fs d d' last scanned same_files h done =
    let (thread, open_scan) = scan_thread t env fs (asks q) scanned in
    let absent : find (input q.number completed) d.files ≡ none =
      subst (λ x. find (input q.number completed) x ≡ none) (sym same_files)
        (asks-open fs 1 thread (numbers fs) q open_scan) in
    let confirmed = verdict_of-Confirmed t env.stores q response turn h in
    let (kept, same_numbers, fits) =
      conclude-Leaves t env q response turn d d' (ready_to_resume last) last absent confirmed done
        refl in
    scan-Resumes t env fs d'.files (asks q) last scanned
      (subst (λ x. Kept x d'.files) same_files kept) (same_numbers ∙ ap numbers same_files) fits

scanned-Resumes :
    (t : Host) (env : RecoveryEnv) (s : Scan) (d d' : Desk) (last : Json)
    → first_scan t env d.files ≡ ok s
    → on_scan t env s d ≡ (returns (ready_to_resume last), d')
    → Resumes d'.files last
unfolding on_scan
scanned-Resumes t env (settled v) d d' last scanned h =
    let same_desk : d ≡ d' = ap (λ r. r.1) h in
    let at : v ≡ ready_to_resume last = ground arith in
    subst (λ x. Resumes x.files last) same_desk
      (scan-Resumes t env d.files d.files (settled v) last scanned
        (record { grows = λ n w e. e; routes = λ n. refl }) refl at)
scanned-Resumes t env (asks q) d d' last scanned h =
    let (response, d1, asked, h1) = >>=-eq-returns (read_thread q.thread env.reply) _ d h in
    let (judged, d2, looked, h2) =
      >>=-eq-returns (lift (verdict_of t env.stores q response)) _ d1 h1 in
    let (verdict, same_desk) = lift-eq-returns (verdict_of t env.stores q response) d1 looked in
    conclude-Resumes t env q response judged d.files d2 d' last scanned
      (sym (ap (λ x. x.files) same_desk) ∙ read_thread-files q.thread env.reply d d1 response asked)
      verdict h2

-- A run that a reconciliation reports as ready to resume on a thread has, in the files that the
-- reconciliation leaves, its inputs numbered from 1 without a gap, each with the receipt of a
-- completed turn on the thread that the routes give, and the last of these threads is the reported
-- one: the loop of `resume` accepts them and ends on that thread.
pub reconcile_run-Resumes :
    (t : Host) (env : RecoveryEnv) (d d' : Desk) (last : Json)
    → reconcile_run t env d ≡ (returns (ready_to_resume last), d')
    → Resumes d'.files last
unfolding reconcile_run
reconcile_run-Resumes t env d d' last h =
    let (s, d1, looked, h1) = >>=-eq-returns (lift (first_scan t env d.files)) _ d h in
    let (scanned, same_desk) = lift-eq-returns (first_scan t env d.files) d looked in
    scanned-Resumes t env s d d' last scanned
      (subst (λ x. on_scan t env s x ≡ (returns (ready_to_resume last), d')) (sym same_desk) h1)
