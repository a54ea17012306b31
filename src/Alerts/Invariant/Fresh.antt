-- ===== src/Alerts/Invariant/Fresh.antt =====
-- The leases of a claim with a fresh token.
use gitops_dashboard.Prelude.{ℕ, ◌+◌, ◌≡◌, refl, true, false, some, ◌==◌, All}
use gitops_dashboard.Prelude.Text.{Text, is_empty, text_eq}
use gitops_dashboard.Prelude.Rows.{All-update_where}
use gitops_dashboard.Prelude.Keys.{All-update_where_to}
use gitops_dashboard.Alerts.Types.{Tables}
use gitops_dashboard.Alerts.Claim.{lease_to, lease_due, expire, claim_tables}
use gitops_dashboard.Alerts.Invariant.Leases.{expire-dispatches, no_claim}

module _ (now lease limit max_attempts : ℕ) (worker claim : Text) (t : Tables) where
  -- A row under the token was leased by this claim.
  pub claim_tables-lease :
      is_empty claim ≡ false
      → All (λ d. text_eq d.claim_id claim ≡ false) t.dispatches
      → All
          (λ d. text_eq d.claim_id claim ≡ true → d.lease_expires_at ≡ some (now + lease))
          (claim_tables now lease limit max_attempts worker claim t).dispatches
  unfolding claim_tables lease_due
  claim_tables-lease real fresh =
      All-update_where_to (λ d. text_eq d.claim_id claim ≡ false) _ _
        (lease_to worker claim now lease) (expire now max_attempts t).dispatches
        (λ d m hit h own. refl) (λ d m hit h own. cc)
        (rw (expire-dispatches now max_attempts t)
          (All-update_where _ _ _ t.dispatches (λ d _ _. no_claim claim real) fresh))

  -- Ids stay positive.
  pub claim_tables-ids :
      All (λ d. (d.id == 0) ≡ false) t.dispatches
      → All
          (λ d. (d.id == 0) ≡ false)
          (claim_tables now lease limit max_attempts worker claim t).dispatches
  unfolding claim_tables lease_due
  claim_tables-ids h =
      All-update_where _ _ _ (expire now max_attempts t).dispatches (λ d _ h'. h')
        (rw (expire-dispatches now max_attempts t)
          (All-update_where _ _ _ t.dispatches (λ d _ h'. h') h))
