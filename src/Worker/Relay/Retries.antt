-- ===== src/Worker/Relay/Retries.antt =====
-- The retries of an event that cannot be delivered (worker/outbox_relay.py, repository/outbox.py).
use true_nas_controller.Common.{ℕ, zero, suc, ◌+◌, ◌*◌, ◌^◌, ◌≤◌, ◌<◌, min, ◌≡◌, arith, Text}
use true_nas_controller.Domain.Outbox.{pending, failed}
use true_nas_controller.Store.Database.{OutboxRow}
use true_nas_controller.Store.Outbox.{undelivered}
use true_nas_controller.Worker.Relay.{retry_delay, second}

power_bounds : (m : ℕ) → 1 ≤ m → m ≤ 8 → (2 ≤ 2 ^ m) × (2 ^ m ≤ 256)
power_bounds zero h k = absurd (omega arith)
power_bounds (suc zero) h k = omega arith
power_bounds (suc (suc zero)) h k = omega arith
power_bounds (suc (suc (suc zero))) h k = omega arith
power_bounds (suc (suc (suc (suc zero)))) h k = omega arith
power_bounds (suc (suc (suc (suc (suc zero))))) h k = omega arith
power_bounds (suc (suc (suc (suc (suc (suc zero)))))) h k = omega arith
power_bounds (suc (suc (suc (suc (suc (suc (suc zero))))))) h k = omega arith
power_bounds (suc (suc (suc (suc (suc (suc (suc (suc zero)))))))) h k = omega arith
power_bounds (suc (suc (suc (suc (suc (suc (suc (suc (suc m))))))))) h k = absurd (omega arith)

-- The delay doubles from two seconds and stops at 256.
pub retry_delay_bounds :
    (attempts : ℕ) → (2 * second ≤ retry_delay attempts) × (retry_delay attempts ≤ 256 * second)
unfolding retry_delay
retry_delay_bounds attempts =
    omega (arith, power_bounds (min (attempts + 1) 8) (omega arith) (omega arith))

-- A row after `n` failed deliveries, the k-th of them at the time `times k`.
pub fail_times : Text → (ℕ → ℕ) → ℕ → ℕ → OutboxRow → OutboxRow
fail_times message times max_attempts zero row = row
fail_times message times max_attempts (suc n) row =
    undelivered message (times n) max_attempts (fail_times message times max_attempts n row)

fail_times_attempts :
    (message : Text) (times : ℕ → ℕ) (max_attempts n : ℕ) (row : OutboxRow)
    → (fail_times message times max_attempts n row).attempts ≡ row.attempts + n
unfolding fail_times undelivered
fail_times_attempts message times max_attempts zero row = omega arith
fail_times_attempts message times max_attempts (suc n) row =
    omega (arith, fail_times_attempts message times max_attempts n row)

-- A fresh pending event is given up after exactly `max_attempts` failed deliveries; until then
-- it stays pending.
pub fail_times_status :
    (message : Text) (times : ℕ → ℕ) (max_attempts n : ℕ) (row : OutboxRow)
    → row.status ≡ pending
    → row.attempts ≡ 0
    → 0 < max_attempts
    → ((n < max_attempts → (fail_times message times max_attempts n row).status ≡ pending)
        × (max_attempts ≤ n → (fail_times message times max_attempts n row).status ≡ failed))
unfolding fail_times undelivered
fail_times_status message times max_attempts zero row p z m = (λ h. p, λ h. absurd (omega arith))
fail_times_status message times max_attempts (suc n) row p z m =
    let count = fail_times_attempts message times max_attempts n row in
    (λ h. ground (arith, count), λ h. ground (arith, count))
