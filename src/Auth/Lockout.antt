-- ===== src/Auth/Lockout.antt =====
-- The lockout after failed logins.
use autodeploy_web.Base.{
  ℕ, suc, ◌+◌, ◌-◌, ◌≤◌, ◌<◌, ◌≡◌, refl, ap, ◌++◌, ◌∙◌, Bool, false, List, [], ◌∷◌, Text, arith,
  All, length,
}
use autodeploy_web.Auth.{
  lock_threshold, lock_window, AuthManager, locked_for, record_login, check_login, attempts,
}

module _ (check_password : Text → Text → Bool) where
  -- While the lock lasts every login is refused, the right password too, with the time that is
  -- left, and nothing changes.
  pub check_login-locked :
      (pw : Text) (now : ℕ) (m : AuthManager)
      → now < m.lock_until
      → check_login check_password pw now m ≡ (false, m.lock_until - now, m)
  unfolding check_login locked_for
  check_login-locked pw now m h = ground arith

  -- A login keeps the number of counted failures below the threshold.
  pub check_login-bounded :
      (pw : Text) (now : ℕ) (m : AuthManager)
      → m.fails < lock_threshold
      → (check_login check_password pw now m).2.fails < lock_threshold
  unfolding check_login locked_for record_login
  check_login-bounded pw now m h = ground arith

  record_failure :
      (now : ℕ) (m : AuthManager)
      → suc m.fails < lock_threshold
      → record_login false now m ≡ record m { fails = suc m.fails }
  unfolding record_login
  record_failure now m h = ground arith

  record_last :
      (now : ℕ) (m : AuthManager)
      → suc m.fails ≡ lock_threshold
      → record_login false now m ≡ record m { lock_until = now + lock_window; fails = 0 }
  unfolding record_login
  record_last now m h = ground arith

  -- A login that fails, outside a lock.
  fails_once :
      (pw : Text) (now : ℕ) (m : AuthManager)
      → check_password m.hash pw ≡ false
      → m.lock_until ≤ now
      → check_login check_password pw now m ≡ (false, 0, record_login false now m)
  unfolding check_login locked_for
  fails_once pw now m wrong h = ground (arith, wrong)

  attempts-failed :
      (pw : Text) (now : ℕ) (rest : List (Text × ℕ)) (m : AuthManager)
      → check_password m.hash pw ≡ false
      → m.lock_until ≤ now
      → attempts check_password ((pw, now) ∷ rest) m
        ≡ attempts check_password rest (record_login false now m)
  unfolding attempts
  attempts-failed pw now rest m wrong h =
      ap (λ (r : Bool × ℕ × AuthManager). attempts check_password rest r.2)
        (fails_once pw now m wrong h)

  -- Failed logins, none of them under a lock.
  abbrev pub Wrong : Text → ℕ → List (Text × ℕ) → Type 0
  Wrong hash locked ps =
      All (λ (p : Text × ℕ). (check_password hash p.0 ≡ false) × (locked ≤ p.1)) ps

  -- After failed logins outside a lock that bring the count to the threshold, the manager is
  -- locked for the window from the time of the last, and the count starts again.
  pub attempts-lock :
      (ps : List (Text × ℕ)) (pw : Text) (now : ℕ) (m : AuthManager)
      → Wrong m.hash m.lock_until ps
      → check_password m.hash pw ≡ false
      → m.lock_until ≤ now
      → m.fails + suc (length ps) ≡ lock_threshold
      → attempts check_password (ps ++ (pw, now) ∷ []) m
        ≡ record m { lock_until = now + lock_window; fails = 0 }
  attempts-lock [] pw now m w wrong h n =
      attempts-failed pw now [] m wrong h
      ∙ ap (attempts check_password []) (record_last now m (omega (arith, n)))
      ∙ none_left _
    where
      none_left : (m : AuthManager) → attempts check_password [] m ≡ m
      none_left m = unfold attempts in refl
  attempts-lock ((pw1, now1) ∷ ps) pw now m w wrong h n =
      attempts-failed pw1 now1 (ps ++ (pw, now) ∷ []) m w.0.0 w.0.1
      ∙ ap (attempts check_password (ps ++ (pw, now) ∷ []))
          (record_failure now1 m (omega (arith, n)))
      ∙ attempts-lock ps pw now (record m { fails = suc m.fails }) w.1 wrong h (omega (arith, n))
