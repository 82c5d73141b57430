-- ===== src/Redemption/Refine.antt =====
-- A whole call of `submit` or `reconcile` is a chain of the atomic steps.
use context_rollover_guard.Prelude.{
  on_result, on_option, on_bool, str_eq, ◌≡◌, refl, String, Bool, true, false, some, List, [], ◌∷◌,
  Result, ok, err,
}
use context_rollover_guard.Redemption.Table.{Intent, find, is_prepared, is_submitting, is_accepted}
use context_rollover_guard.Redemption.{
  Receipt, Refusal, Approval, claim, put_receipt, check_submit, reads_back,
}
use context_rollover_guard.Redemption.Calls.{
  World, Reach, claims, loses, dispatch, receives, verifies, here, next, Adapter, confirm,
  confirm_found, settle, look_up, reconcile_row, reconcile, dispatched, claim_and_dispatch,
  submit_row, submit,
}

Reach-trans : {w u v : World} → Reach w u → Reach u v → Reach w v
Reach-trans r here = r
Reach-trans r (next q s) = next (Reach-trans r q) s

confirm-Reach : (id : String) (a : Adapter) (i : Intent) (w : World) → Reach w (confirm id a i w)
unfolding confirm
confirm-Reach id a i w =
    on_bool (Reach w) (is_accepted i.status) _ w
      (λ _.
        on_option (Reach w) a.after w _ (λ _. here)
          λ s _.
            on_bool (Reach w) (reads_back id i s) _ w (λ _. next here (verifies id)) (λ _. here))
      (λ _. here)

confirm_found-Reach : (id : String) (a : Adapter) (w : World) → Reach w (confirm_found id a w)
unfolding confirm_found
confirm_found-Reach id a w =
    on_option (Reach w) (find id w.rows) w (λ i. confirm id a i w) (λ _. here)
      (λ i _. confirm-Reach id a i w)

settle-Reach :
    (id : String) (a : Adapter) (r : Receipt) (w : World)
    → Reach w (settle id a (put_receipt id r w.rows) w)
settle-Reach id a r w = go (put_receipt id r w.rows) refl
  where
    go :
        (q : Result Refusal (List Intent)) → put_receipt id r w.rows ≡ q → Reach w (settle id a q w)
    go (ok rows) e =
        unfold settle in Reach-trans (next here (receives id r rows e)) (confirm_found-Reach id a _)
    go (err x) e = unfold settle in here

look_up-Reach : (id : String) (a : Adapter) (w : World) → Reach w (look_up id a w)
unfolding look_up
look_up-Reach id a w =
    on_option (Reach w) a.lookup w _ (λ _. here)
      λ found _. on_option (Reach w) found w _ (λ _. here) (λ r _. settle-Reach id a r w)

reconcile-Reach : (id : String) (a : Adapter) (w : World) → Reach w (reconcile id a w)
unfolding reconcile reconcile_row
reconcile-Reach id a w =
    on_option (Reach w) (find id w.rows) w (λ i. reconcile_row id a i w) (λ _. here)
      λ i _.
        on_bool (Reach w) (str_eq a.contract i.payload.contract) _ w
          (λ _.
            on_bool (Reach w) (is_submitting i.status) _ _ (λ _. look_up-Reach id a w)
              (λ _. confirm-Reach id a i w))
          (λ _. here)

dispatch-now :
    (id : String) (w : World)
    → Reach (record w { claimed = id ∷ w.claimed }) (record w { calls = id ∷ w.calls })
dispatch-now id w = next here (dispatch [] w.claimed id refl)

dispatched-Reach :
    (id : String) (a : Adapter) (w : World)
    → Reach (record w { claimed = id ∷ w.claimed }) (dispatched id a w)
unfolding dispatched
dispatched-Reach id a w =
    on_option (Reach (record w { claimed = id ∷ w.claimed })) a.receipt _ _ (λ _. dispatch-now id w)
      λ r _.
        on_result (Reach (record w { claimed = id ∷ w.claimed })) (put_receipt id r w.rows) _ _
          (λ rows e.
            Reach-trans (next (dispatch-now id w) (receives id r rows e))
              (reconcile-Reach id a (record w { rows = rows; calls = id ∷ w.calls })))
          (λ x _. dispatch-now id w)

claim-Reach :
    (id : String) (a : Adapter) (i : Intent) (w : World)
    → find id w.rows ≡ some i
    → Reach w (claim_and_dispatch id a (claim id i.payload.account w.rows) w)
claim-Reach id a i w f = go (claim id i.payload.account w.rows) refl
  where
    go :
        (q : Result Refusal (List Intent × Bool))
        → claim id i.payload.account w.rows ≡ q
        → Reach w (claim_and_dispatch id a q w)
    go (err x) e = unfold claim_and_dispatch in here
    go (ok (rows, false)) e =
        unfold claim_and_dispatch in next here (loses id i.payload.account rows e)
    go (ok (rows, true)) e =
        unfold claim_and_dispatch in
        Reach-trans (next here (claims id i.payload.account rows e i f refl))
          (dispatched-Reach id a (record w { rows = rows }))

-- A call of `submit`, with any approval and any adapter, is a chain of atomic steps: what holds in
-- every interleaving of the steps holds around whole calls too.
pub submit-Reach :
    (id : String) (approval : Approval) (a : Adapter) (w : World) → Reach w (submit id approval a w)
unfolding submit submit_row
submit-Reach id approval a w =
    on_option (Reach w) (find id w.rows) w (λ i. submit_row id approval a i w) (λ _. here)
      λ i f.
        on_bool (Reach w) (is_prepared i.status) _ w
          (λ _.
            on_option (Reach w) a.before w _ (λ _. here)
              λ s _.
                on_result (Reach w) (check_submit approval a.contract s i) _ _
                  (λ _ _. claim-Reach id a i w f) (λ _ _. here))
          (λ _. here)
