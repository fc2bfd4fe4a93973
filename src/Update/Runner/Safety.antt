-- ===== src/Update/Runner/Safety.antt =====
-- Which ends the update loop can have, and that it has one.
use spacechat.Prelude.{
  ℕ, zero, suc, ◌≡◌, Bool, true, false, not, ◌&&◌, Option, none, some, arith, if_intro,
  if◌then◌else◌, subst,
}
use spacechat.Update.Version.{Decision, current, optional, required, ahead}
use spacechat.Update.Runner.{
  Setting, Check, Checked, Outcome, Action, RunError, InstallResult, update, skip, retry, exit,
  unknown, found, stopped, continue, relaunched, exits_with, rollback_failed, no_installer,
  not_configured, is_settled, after_prompt, check_failed, check_round, check_loop, install_prompt,
  install_failed, install_round, install_loop, chosen, raise, after_check, proceed, run,
}

-- An end that is not the start of the present client.
abbrev Blocks : Option Outcome → Type 0
Blocks none = Unit
Blocks (some continue) = ⊥
Blocks (some _) = Unit

abbrev BlocksCheck : Option Checked → Type 0
BlocksCheck none = Unit
BlocksCheck (some (found c)) = is_settled c.decision ≡ false
BlocksCheck (some (stopped o)) = Blocks (some o)

module _ (w : Setting) where
  after_prompt-Blocks :
      (a : Action) (e : RunError) (again : Option Checked)
      → BlocksCheck again
      → BlocksCheck (after_prompt a e again)
  unfolding after_prompt
  after_prompt-Blocks exit e again b = tt
  after_prompt-Blocks retry e again b = b
  after_prompt-Blocks update e again b = tt
  after_prompt-Blocks skip e again b = tt
  after_prompt-Blocks (unknown k) e again b = tt

  check_failed-Blocks :
      (n : ℕ) (again : Option Checked)
      → w.known_incompatible ≡ true
      → BlocksCheck again
      → BlocksCheck (check_failed w n again)
  unfolding check_failed
  check_failed-Blocks n again known b =
      if_intro BlocksCheck (not w.known_incompatible) (λ h. absurd (ground arith))
        (λ _. after_prompt-Blocks _ _ again b)

  check_round-Blocks :
      (n : ℕ) (again : Option Checked) (c : Option Check)
      → w.known_incompatible ≡ true
      → BlocksCheck again
      → BlocksCheck (check_round w n again c)
  unfolding check_round
  check_round-Blocks n again none known b = check_failed-Blocks n again known b
  check_round-Blocks n again (some c) known b =
      if_intro BlocksCheck (w.known_incompatible && is_settled c.decision) {y = some (found c)}
        (λ h. check_failed-Blocks n again known b) (λ open_. ground arith)

  check_loop-Blocks : (fuel n : ℕ) → w.known_incompatible ≡ true → BlocksCheck (check_loop fuel n w)
  unfolding check_loop
  check_loop-Blocks zero n known = tt
  check_loop-Blocks (suc fuel) n known =
      check_round-Blocks n _ (w.check n) known (check_loop-Blocks fuel (suc n) known)

  install_prompt-Blocks :
      (a : Action) (again : Option Outcome) → Blocks again → Blocks (install_prompt a again)
  unfolding install_prompt
  install_prompt-Blocks exit again b = tt
  install_prompt-Blocks retry again b = b
  install_prompt-Blocks update again b = tt
  install_prompt-Blocks skip again b = tt
  install_prompt-Blocks (unknown k) again b = tt

  install_round-Blocks :
      (n : ℕ) (again : Option Outcome) (r : Option InstallResult)
      → Blocks again
      → Blocks (install_round required w n again r)
  unfolding install_round install_failed
  install_round-Blocks n again none b = install_prompt-Blocks _ again b
  install_round-Blocks n again (some r) b =
      if_intro Blocks (w.has_launch && w.launch n r.path) {x = some relaunched} (λ _. tt)
        λ _.
          if_intro Blocks (not r.shared && not (w.rollback n))
            {x = some (exits_with rollback_failed)} (λ _. tt) (λ _. install_prompt-Blocks _ again b)

  install_loop-Blocks : (fuel n : ℕ) → Blocks (install_loop fuel n required w)
  unfolding install_loop
  install_loop-Blocks zero n = tt
  install_loop-Blocks (suc fuel) n =
      install_round-Blocks n _ (w.install n) (install_loop-Blocks fuel (suc n))

  chosen-Blocks : (fuel : ℕ) (a : Action) → Blocks (chosen fuel a required w)
  unfolding chosen
  chosen-Blocks fuel update =
      if_intro Blocks (not w.has_installer) {x = some (exits_with no_installer)} (λ _. tt)
        (λ _. install_loop-Blocks fuel 0)
  chosen-Blocks fuel skip = tt
  chosen-Blocks fuel exit = tt
  chosen-Blocks fuel retry = tt
  chosen-Blocks fuel (unknown k) = tt

  decided-Blocks :
      (fuel : ℕ) (k : Bool) (d : Decision)
      → k ≡ true
      → is_settled d ≡ false
      → Blocks
          (if is_settled (raise k d) then some continue else chosen fuel w.choose (raise k d) w)
  unfolding is_settled raise
  decided-Blocks fuel false d known h = absurd (ground arith)
  decided-Blocks fuel true current known h = absurd (ground arith)
  decided-Blocks fuel true ahead known h = absurd (ground arith)
  decided-Blocks fuel true optional known h = chosen-Blocks fuel w.choose
  decided-Blocks fuel true required known h = chosen-Blocks fuel w.choose

  after_check-Blocks :
      (fuel : ℕ) (c : Option Checked)
      → w.known_incompatible ≡ true
      → BlocksCheck c
      → Blocks (proceed fuel w c)
  unfolding proceed after_check
  after_check-Blocks fuel none known b = tt
  after_check-Blocks fuel (some (stopped o)) known b = b
  after_check-Blocks fuel (some (found c)) known b =
      decided-Blocks fuel w.known_incompatible c.decision known b

  run-Blocks : (fuel : ℕ) → w.known_incompatible ≡ true → Blocks (run fuel w)
  unfolding run
  run-Blocks fuel known =
      if_intro Blocks (not w.is_configured) {x = some (exits_with not_configured)} (λ _. tt)
        (λ _. after_check-Blocks fuel _ known (check_loop-Blocks fuel 0 known))

  -- When the server has said that this client is too old, no answer of the server, of the installation or
  -- of the user makes the client go on with its present version.
  pub run-not-continue : (fuel : ℕ) → w.known_incompatible ≡ true → ¬ (run fuel w ≡ some continue)
  run-not-continue fuel known e = subst Blocks e (run-Blocks fuel known)
