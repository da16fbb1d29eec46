-- ===== src/Store/Outbox/Leases.antt =====
-- A leased event stays with its relay until the lease ends (repository/outbox.py).
use true_nas_controller.Common.{
  ℕ, zero, suc, ◌+◌, ◌≤◌, ◌<◌, ◌≡◌, refl, ◌∙◌, Bool, true, false, List, [], ◌∷◌, arith, Text, any,
  keep_if, update_if, take, length, order_by, any-order_by, ◌==◌, Bool-cases, inl, inr,
}
use true_nas_controller.Domain.Outbox.{pending}
use true_nas_controller.Store.Database.{OutboxRow}
use true_nas_controller.Store.Outbox.{claimable, claimed, created_before, lease, has_row}

-- A row that has just been leased is out of reach while the lease runs.
leased_out :
    (worker_id : Text) (now lease_for later : ℕ) (row : OutboxRow)
    → later < now + lease_for
    → claimable later (lease worker_id now lease_for row) ≡ false
unfolding claimable lease
leased_out worker_id now lease_for later row h = ground arith

any-take :
    {A : Type 0} (p : A → Bool) (n : ℕ) (xs : List A) → any xs p ≡ false → any (take n xs) p ≡ false
any-take p zero xs h = refl
any-take p (suc n) [] h = refl
any-take p (suc n) (x ∷ xs) h = ground (arith, any-take p n xs)

abbrev pub row_in : List OutboxRow → OutboxRow → Bool
row_in taken r = any taken (λ (t : OutboxRow). t.id == r.id)

-- Among the rows of the table after the leases are written, no claimable one was taken.
kept_untaken :
    (worker_id : Text) (now lease_for later : ℕ) (taken rows : List OutboxRow)
    → later < now + lease_for
    → any
        (keep_if (claimable later) (update_if (has_row taken) (lease worker_id now lease_for) rows))
        (row_in taken)
      ≡ false
kept_untaken worker_id now lease_for later taken [] h = refl
kept_untaken worker_id now lease_for later taken (row ∷ rows) h =
    elim (Bool-cases (has_row taken row)) [
      | inl e ↦
          rw (e, leased_out worker_id now lease_for later row h)
            (kept_untaken worker_id now lease_for later taken rows h)
      | inr e ↦ ground (arith, e, kept_untaken worker_id now lease_for later taken rows h)
    ]

-- Two polls, of one worker or of two, never take the same event while the first one's lease runs: what
-- the second poll claims from the table that the first has left shares no row with what the first took.
pub claims_disjoint :
    (worker_id : Text) (limit limit' now later lease_for : ℕ) (rows : List OutboxRow)
    → later < now + lease_for
    → let taken = claimed limit now rows in
      any
        (claimed limit' later (update_if (has_row taken) (lease worker_id now lease_for) rows))
        (row_in taken)
      ≡ false
unfolding claimed
claims_disjoint worker_id limit limit' now later lease_for rows h =
    let taken = take limit (order_by created_before (keep_if (claimable now) rows)) in
    any-take (row_in taken) limit' _ (
      any-order_by created_before (row_in taken) _
      ∙ kept_untaken worker_id now lease_for later taken rows h)

length-take : {A : Type 0} (n : ℕ) (xs : List A) → length (take n xs) ≤ n
length-take zero xs = omega arith
length-take (suc n) [] = omega arith
length-take (suc n) (x ∷ xs) = omega (arith, length-take n xs)

-- A finished or failed event is never claimed again, nor one whose retry time has not come.
pub claimable_needs :
    (now : ℕ) (row : OutboxRow)
    → claimable now row ≡ true
    → (row.status ≡ pending) × (row.available_at ≤ now)
unfolding claimable
claimable_needs now row h = ground arith
