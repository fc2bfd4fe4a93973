-- ===== src/Update/Runner/Ends.antt =====
-- The update loop ends when the user wants it to.
use spacechat.Prelude.{
  ℕ, zero, suc, ◌+◌, ◌<◌, ◌≤◌, ◌≡◌, refl, not, ◌&&◌, ◌⊎◌, Option, none, some, arith, Bool-cases,
  inl, inr, if_intro, subst, ◌==◌,
}
use spacechat.Update.Version.{Decision}
use spacechat.Update.Runner.{
  Setting, Check, Checked, Outcome, Action, RunError, InstallResult, update, skip, retry, exit,
  unknown, found, stopped, continue, relaunched, exits_with, rollback_failed, no_installer,
  bad_action, not_configured, is_settled, is_optional, after_prompt, check_failed, check_round,
  check_loop, install_prompt, install_failed, install_round, install_loop, chosen, raise,
  after_check, proceed, run,
}

abbrev Returns : {A : Type 0} → Option A → Type 0
Returns {A} o = (a : A) × (o ≡ some a)

module _ (w : Setting) where
  after_prompt-Returns :
      (a : Action) (e : RunError) (again : Option Checked)
      → (a ≡ exit) ⊎ Returns again
      → Returns (after_prompt a e again)
  unfolding after_prompt
  after_prompt-Returns exit e again r = (_, refl)
  after_prompt-Returns retry e again (inl h) = cc
  after_prompt-Returns retry e again (inr r) = r
  after_prompt-Returns update e again r = (_, refl)
  after_prompt-Returns skip e again r = (_, refl)
  after_prompt-Returns (unknown k) e again r = (_, refl)

  check_failed-Returns :
      (n : ℕ) (again : Option Checked)
      → (w.choose_check n ≡ exit) ⊎ Returns again
      → Returns (check_failed w n again)
  unfolding check_failed
  check_failed-Returns n again r =
      if_intro Returns (not w.known_incompatible) {x = some (stopped continue)} (λ _. (_, refl))
        (λ _. after_prompt-Returns _ _ again r)

  check_round-Returns :
      (n : ℕ) (again : Option Checked) (c : Option Check)
      → (w.choose_check n ≡ exit) ⊎ Returns again
      → Returns (check_round w n again c)
  unfolding check_round
  check_round-Returns n again none r = check_failed-Returns n again r
  check_round-Returns n again (some c) r =
      if_intro Returns (w.known_incompatible && is_settled c.decision) {y = some (found c)}
        (λ _. check_failed-Returns n again r) (λ _. (_, refl))

  check_loop-Returns :
      (fuel n k : ℕ)
      → w.choose_check k ≡ exit
      → n ≤ k
      → k < n + fuel
      → Returns (check_loop fuel n w)
  unfolding check_loop
  check_loop-Returns zero n k h le lt = absurd (omega arith)
  check_loop-Returns (suc fuel) n k h le lt =
      check_round-Returns n _ (w.check n) (elim (Bool-cases (n == k)) [
        | inl same ↦
            inl (subst (λ x. w.choose_check x ≡ exit) {x = k} {y = n} (ground (arith, same)) h)
        | inr other ↦
            inr (check_loop-Returns fuel (suc n) k h (ground (arith, other)) (omega arith))
      ])

  install_prompt-Returns :
      (a : Action) (again : Option Outcome)
      → (a ≡ exit) ⊎ Returns again
      → Returns (install_prompt a again)
  unfolding install_prompt
  install_prompt-Returns exit again r = (_, refl)
  install_prompt-Returns retry again (inl h) = cc
  install_prompt-Returns retry again (inr r) = r
  install_prompt-Returns update again r = (_, refl)
  install_prompt-Returns skip again r = (_, refl)
  install_prompt-Returns (unknown k) again r = (_, refl)

  install_failed-Returns :
      (d : Decision) (n : ℕ) (again : Option Outcome)
      → (w.choose_install n ≡ exit) ⊎ Returns again
      → Returns (install_failed d w n again)
  unfolding install_failed
  install_failed-Returns d n again r =
      if_intro Returns (is_optional d) {x = some continue} (λ _. (_, refl))
        (λ _. install_prompt-Returns _ again r)

  install_round-Returns :
      (d : Decision) (n : ℕ) (again : Option Outcome) (i : Option InstallResult)
      → (w.choose_install n ≡ exit) ⊎ Returns again
      → Returns (install_round d w n again i)
  unfolding install_round
  install_round-Returns d n again none r = install_failed-Returns d n again r
  install_round-Returns d n again (some i) r =
      if_intro Returns (w.has_launch && w.launch n i.path) {x = some relaunched} (λ _. (_, refl))
        λ _.
          if_intro Returns (not i.shared && not (w.rollback n))
            {x = some (exits_with rollback_failed)} (λ _. (_, refl))
            (λ _. install_failed-Returns d n again r)

  install_loop-Returns :
      (d : Decision) (fuel n k : ℕ)
      → w.choose_install k ≡ exit
      → n ≤ k
      → k < n + fuel
      → Returns (install_loop fuel n d w)
  unfolding install_loop
  install_loop-Returns d zero n k h le lt = absurd (omega arith)
  install_loop-Returns d (suc fuel) n k h le lt =
      install_round-Returns d n _ (w.install n) (elim (Bool-cases (n == k)) [
        | inl same ↦
            inl (subst (λ x. w.choose_install x ≡ exit) {x = k} {y = n} (ground (arith, same)) h)
        | inr other ↦
            inr (install_loop-Returns d fuel (suc n) k h (ground (arith, other)) (omega arith))
      ])

  chosen-Returns :
      (fuel : ℕ) (a : Action) (d : Decision) (k : ℕ)
      → w.choose_install k ≡ exit
      → k < fuel
      → Returns (chosen fuel a d w)
  unfolding chosen
  chosen-Returns fuel update d k h lt =
      if_intro Returns (not w.has_installer) {x = some (exits_with no_installer)} (λ _. (_, refl))
        (λ _. install_loop-Returns d fuel 0 k h (omega arith) (omega arith))
  chosen-Returns fuel skip d k h lt =
      if_intro Returns (is_optional d) {x = some continue} {y = some (exits_with bad_action)}
        (λ _. (_, refl)) (λ _. (_, refl))
  chosen-Returns fuel exit d k h lt = (_, refl)
  chosen-Returns fuel retry d k h lt = (_, refl)
  chosen-Returns fuel (unknown i) d k h lt = (_, refl)

  proceed-Returns :
      (fuel : ℕ) (c : Option Checked) (k : ℕ)
      → Returns c
      → w.choose_install k ≡ exit
      → k < fuel
      → Returns (proceed fuel w c)
  unfolding proceed after_check
  proceed-Returns fuel none k r h lt = cc
  proceed-Returns fuel (some (stopped o)) k r h lt = (_, refl)
  proceed-Returns fuel (some (found c)) k r h lt =
      if_intro Returns (is_settled (raise w.known_incompatible c.decision)) {x = some continue}
        (λ _. (_, refl))
        (λ _. chosen-Returns fuel w.choose (raise w.known_incompatible c.decision) k h lt)

  -- The loop ends, whatever the server and the installation do, when the user at some prompt after a
  -- failed check and at some prompt after a failed installation chooses to leave: as many rounds as come
  -- before these prompts are enough.
  pub run-ends :
      (fuel i k : ℕ)
      → w.choose_check i ≡ exit
      → i < fuel
      → w.choose_install k ≡ exit
      → k < fuel
      → (o : Outcome) × (run fuel w ≡ some o)
  unfolding run
  run-ends fuel i k leaves soon leaves' soon' =
      if_intro Returns (not w.is_configured) {x = some (exits_with not_configured)} (λ _. (_, refl))
        (λ _.
          proceed-Returns fuel _ k (check_loop-Returns fuel 0 i leaves (omega arith) (omega arith))
            leaves' soon')
