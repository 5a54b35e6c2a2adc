-- ===== src/Pki/Renewal.antt =====
-- `NeedRenewCertificate`: when a certificate counts as one to renew.
use opensearch_operator.Common.{
  ℕ, ◌+◌, ◌<◌, ◌≤◌, ◌≡◌, ◌↔◌, refl, Bool, true, false, none, some, arith, ltb, if◌then◌else◌,
}
use opensearch_operator.Common.Outcome.{ok, err, new}
use opensearch_operator.Common.Action.{next}
use opensearch_operator.Pki.{Goca, need_renew_certificate, renew_duration}

module _ (goca : Goca) (crt : goca.Cert) (w w' : goca.World) (t : ℕ)
    (clock : goca.now w ≡ (ok t, w')) where
  -- NeedRenewCertificate refuses a nil certificate. For any other, where the clock can be read, it
  -- returns, and says so exactly if the certificate ended more than seven days of 24 hours ago, in
  -- nanoseconds; so it never says so of a certificate that is still valid.
  pub need_renew_certificate_iff :
      (need_renew_certificate goca none w ≡ (err (new "Cert must be provided"), w))
      × ((need : Bool) × (need_renew_certificate goca (some crt) w ≡ (ok need, w'))
          × ((need ≡ true) ↔ (goca.not_after crt + 604800000000000 < t))
          × (t ≤ goca.not_after crt → need ≡ false))
  unfolding need_renew_certificate next
  need_renew_certificate_iff = (
    refl,
    (
      (if ltb (goca.not_after crt + renew_duration) t then true else false),
      rw clock refl,
      (λ e. ground arith, λ h. ground arith),
      λ h. ground arith,
    ),
  )
