-- ===== src/Tests/Features.antt =====
-- The projection of a small task.
use context_rollover_guard.Errors.{Exc}
use context_rollover_guard.Prelude.{
  String, ◌≡◌, refl, true, Option, none, some, arith, str_eq, Result, ok,
}
use context_rollover_guard.Json.{
  Json, Members, null, bool, int, real, str, arr, obj, nil, cons, end, member, get, same,
}
use context_rollover_guard.Prelude.Int.{pos}
use context_rollover_guard.Events.{within, in_texts, each_key, or_null, check_integer}
use context_rollover_guard.Features.{
  Tools, has_all, all_filled, all_short, text_list, count_texts, snapshot_of, confirmed, features,
  validate_snapshot, matches,
}
use context_rollover_guard.Features.Snapshot.{features-valid}

abbrev at_text : Json → Option String
at_text (str s) = some s
at_text _ = none

abbrev tools : Tools
tools = record {
  identity = λ v. "hash";
  instants = record { instant = at_text; length_of = λ s. 4 };
  is_hash = λ s. str_eq s "hash";
}

stable : (v : Json) (i : String) → at_text v ≡ some i → at_text (str i) ≡ some i
stable (str s) i h = refl
stable null i h = cc
stable (bool b) i h = cc
stable (int n) i h = cc
stable (real n d) i h = cc
stable (arr xs) i h = cc
stable (obj m) i h = cc

abbrev intent : Members
intent = member "task_id" (str "t") (
    member "confirmed" (bool true) (
      member "kind" (str "docs") (
        member "risk" (str "low") (
          member "files" (arr (cons (str "README.md") nil))
            (member "acceptance" (arr nil) (member "input_bytes" (int (pos 12)) end))))))

abbrev policy : Members
policy = member "model_id" (str "m") (
    member "effort" (str "low") (
      member "runtime_version" (str "1") (
        member "service_tier" (str "flex")
          (member "execution_mode" (str "single_agent") (member "tool_family" (str "cli") end)))))

abbrev or_end : Result Exc (Option Members) → Members
or_end (ok (some m)) = m
or_end _ = end

abbrev snapshot : Members
snapshot = or_end (features tools (some intent) policy (str "now"))

made : features tools (some intent) policy (str "now") ≡ ok (some snapshot)
unfolding features confirmed snapshot_of within has_all all_filled count_texts in_texts each_key
    or_null check_integer get
made = refl

-- A snapshot agrees with itself.
agrees : matches snapshot snapshot ≡ true
unfolding matches features confirmed snapshot_of within has_all all_filled count_texts in_texts
    each_key or_null check_integer get same
agrees = refl

listed : text_list (get "files" intent) ≡ ok 1
unfolding get count_texts
listed = refl

none_listed : text_list (get "acceptance" intent) ≡ ok 0
unfolding get count_texts
none_listed = refl

short : all_short tools.instants policy ≡ true
unfolding all_short
short = refl

features-valid_example : validate_snapshot tools snapshot ≡ ok tt
features-valid_example =
    features-valid tools intent policy (str "now") snapshot 1 0 (λ v. refl) stable listed
      none_listed (omega arith) (omega arith) short made
