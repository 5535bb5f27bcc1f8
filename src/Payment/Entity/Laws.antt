-- ===== src/Payment/Entity/Laws.antt =====
-- The statuses of internal/payment/payment.go.
use expense_management.Prelude.{
  String, ◌≡◌, refl, ◌⊎◌, inl, inr, ◌↔◌, true, pos, ◌<ℤ◌, eq_iff, to_lower, arith, Bool-cases,
}
use expense_management.Payment.Entity.{Payment, map_external_status, is_one_of, can_retry}

-- Whatever status the gateway sends, it becomes pending, success or failed, and mapping it again
-- changes nothing.
map_external_status_lem :
    (s : String)
    → ((map_external_status s ≡ "pending")
        ⊎ (map_external_status s ≡ "success")
        ⊎ (map_external_status s ≡ "failed"))
      × (map_external_status (map_external_status s) ≡ map_external_status s)
unfolding map_external_status
map_external_status_lem s =
    elim (Bool-cases (is_one_of (to_lower s) "success" "completed" "paid")) [
      | inl good ↦ rw good (inr (inl refl), refl)
      | inr other ↦ elim (Bool-cases (is_one_of (to_lower s) "failed" "cancelled" "declined")) [
        | inl bad ↦ rw (other, bad) (inr (inr refl), refl)
        | inr unknown ↦ rw (other, unknown) (inl refl, refl)
      ]
    ]

-- A payment can be retried exactly when its status is failed and it was retried less than three
-- times.
can_retry_iff :
    (p : Payment) → (can_retry p ≡ true) ↔ ((p.status ≡ "failed") × (p.retry_count <ℤ pos 3))
unfolding can_retry
can_retry_iff p =
    (λ h. ground (arith, eq_iff p.status "failed"), λ h. ground (arith, eq_iff p.status "failed"))
