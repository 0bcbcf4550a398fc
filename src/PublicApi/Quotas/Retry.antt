-- ===== src/PublicApi/Quotas/Retry.antt =====
-- The number of seconds that a denied caller is told to wait.
use inherent.Prelude.{
  ℕ, ◌+◌, ◌-◌, ◌*◌, ◌≤◌, ◌≡◌, ◌⊎◌, refl, inl, inr, none, some, arith, Option-cases,
}
use inherent.PublicApi.RateLimit.Types.{second}
use inherent.PublicApi.Quotas.{QuotaDenial, round_seconds, quota_denial_to_rate_limit_error}

-- The rounding is within half a second of the time.
round_seconds-near :
    (time : ℕ)
    → (2 * (round_seconds time * second) ≤ 2 * time + second)
      × (2 * time ≤ 2 * (round_seconds time * second) + second)
unfolding round_seconds second
round_seconds-near time = (ground arith, ground arith)

-- A denial without a time of reset promises no retry. One with a time of reset names a number of
-- seconds within half a second of the time that is left, and 0 if the time has passed.
pub quota_denial_to_rate_limit_error-Near :
    (now : ℕ) (d : QuotaDenial)
    → ((d.reset_at ≡ none) × ((quota_denial_to_rate_limit_error now d).retry_after ≡ none))
      ⊎ ((reset : ℕ) × (wait : ℕ) × (d.reset_at ≡ some reset)
          × ((quota_denial_to_rate_limit_error now d).retry_after ≡ some wait)
          × (2 * (wait * second) ≤ 2 * (reset - now) + second)
          × (2 * (reset - now) ≤ 2 * (wait * second) + second)
          × (reset ≤ now → wait ≡ 0))
unfolding quota_denial_to_rate_limit_error
quota_denial_to_rate_limit_error-Near now d = elim (Option-cases d.reset_at) [
  | inl unset ↦ inl (unset, rw unset refl)
  | inr (reset, set) ↦
      let (above, below) = round_seconds-near (reset - now) in
      inr (
        reset,
        round_seconds (reset - now),
        set,
        rw set refl,
        above,
        below,
        (λ past.
            let gone : reset - now ≡ 0 = omega arith in
            unfold second round_seconds in rw gone refl),
      )
]
