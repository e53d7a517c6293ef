-- ===== src/Opmode/Instances.antt =====
-- Which instance an adapter gets, and gives back.
use si91x_rcp_driver.Prelude.{
  ℕ, zero, suc, ◌+◌, ◌≤◌, ◌<◌, ◌≡◌, ◌≢◌, inl, inr, refl, ap, false, Option, none, some, ltb, ◌==◌,
  if◌then◌else◌, update, arith, Bool-cases, ==_iff,
}
use si91x_rcp_driver.Opmode.{
  Build, Verdict, valid, invalid, use_first, rsi_validate_oper_mode, Adapter, Instances,
  max_instances, drv_instance_set, take_instance, try_instance, find_instance,
  rsi_opermode_instances, rsi_91x_deinit, new_adapter, probe,
}

-- An instance was free, is taken, and its number noted.
Taken : Instances → Adapter × Instances → Type 0
Taken s r =
    (0 < r.0.drv_instance_index)
    × (s r.0.drv_instance_index ≡ 0)
    × (r.1 ≡ update s r.0.drv_instance_index r.0.oper_mode)

-- What a call that gives an instance has done.
OnSome : Instances → Option (Adapter × Instances) → Type 0
OnSome s none = Unit {0}
OnSome s (some r) = Taken s r

take_instance-Taken :
    (i : ℕ) (a : Adapter) (s : Instances) → 0 < i → s i ≡ 0 → OnSome s (take_instance i a s)
unfolding take_instance drv_instance_set OnSome Taken
take_instance-Taken i a s pos free = (pos, free, rw (ne i pos) refl)
  where
    ne : (i : ℕ) → 0 < i → (i == 0) ≡ false
    ne i pos = ground arith

module _ (b : Build) where
  try_instance-Taken :
      (i : ℕ) (a : Adapter) (s : Instances) → 0 < i → s i ≡ 0 → OnSome s (try_instance b i a s)
  unfolding try_instance OnSome
  try_instance-Taken i a s pos free = judged (rsi_validate_oper_mode b (a.dev_oper_mode i))
    where
      judged :
          (v : Verdict)
          → OnSome s (elim v [
            | invalid ↦ none
            | valid ↦ take_instance i a s
            | use_first ↦
                take_instance i
                  (record a { dev_oper_mode = update a.dev_oper_mode i (a.dev_oper_mode 1) })
                  s
          ])
      judged valid = take_instance-Taken i a s pos free
      judged invalid = tt
      judged use_first =
          take_instance-Taken i
            (record a { dev_oper_mode = update a.dev_oper_mode i (a.dev_oper_mode 1) }) s pos free

  find_instance-Taken :
      (left i : ℕ) (a : Adapter) (s : Instances) → 0 < i → OnSome s (find_instance b left i a s)
  unfolding find_instance OnSome
  find_instance-Taken zero i a s pos = tt
  find_instance-Taken (suc left) i a s pos = elim (Bool-cases (s i == 0)) [
    | inl free ↦ rw free (try_instance-Taken i a s pos ((==_iff (s i) 0).0 free))
    | inr used ↦ rw used (find_instance-Taken left (i + 1) a s (omega arith))
  ]

  instances-Taken : (a : Adapter) (s : Instances) → OnSome s (rsi_opermode_instances b a s)
  unfolding rsi_opermode_instances OnSome
  instances-Taken a s = elim (Bool-cases (ltb max_instances (a.dev_oper_mode 0))) [
    | inl many ↦ rw many tt
    | inr few ↦ rw few (find_instance-Taken max_instances 1 a s (omega arith))
  ]

  -- An adapter that gets an instance gets one that was free, and `rsi_91x_deinit` of that adapter
  -- leaves every instance as it was before.
  pub rsi_91x_deinit-rsi_opermode_instances :
      (a a' : Adapter) (s s' : Instances)
      → rsi_opermode_instances b a s ≡ some (a', s')
      → (s a'.drv_instance_index ≡ 0) × ((j : ℕ) → rsi_91x_deinit a' s' j ≡ s j)
  unfolding OnSome Taken rsi_91x_deinit drv_instance_set
  rsi_91x_deinit-rsi_opermode_instances a a' s s' h =
      let t : OnSome s (some (a', s')) = rw h at (instances-Taken a s) in
      (t.1, λ j. back a'.drv_instance_index a'.oper_mode j t.0 t.1 t.2)
    where
      back :
          (i m j : ℕ)
          → 0 < i
          → s i ≡ 0
          → s' ≡ update s i m
          → update s' (if i == 0 then 1 else i) 0 j ≡ s j
      back i m j pos free e = rw e (ground arith)

  all_used :
      (left i : ℕ) (a : Adapter) (s : Instances)
      → ((k : ℕ) → i ≤ k → k < i + left → s k ≢ 0)
      → find_instance b left i a s ≡ none
  unfolding find_instance
  all_used zero i a s used = refl
  all_used (suc left) i a s used =
      rw (not_free (s i) (used i (omega arith) (omega arith)))
        (all_used left (i + 1) a s (λ k lo hi. used k (omega arith) (omega arith)))
    where
      not_free : (n : ℕ) → n ≢ 0 → (n == 0) ≡ false
      not_free n ne = ground arith

  full :
      (a : Adapter) (s : Instances)
      → ((i : ℕ) → 1 ≤ i → i ≤ 5 → s i ≢ 0)
      → rsi_opermode_instances b a s ≡ none
  unfolding rsi_opermode_instances
  full a s used = elim (Bool-cases (ltb max_instances (a.dev_oper_mode 0))) [
    | inl many ↦ rw many refl
    | inr few ↦ rw few (all_used max_instances 1 a s (λ k lo hi. used k lo (omega arith)))
  ]

  first_free :
      (a : Adapter) (s : Instances)
      → a.dev_oper_mode 0 ≤ 5
      → s 1 ≡ 0
      → rsi_validate_oper_mode b (a.dev_oper_mode 1) ≡ valid
      → rsi_opermode_instances b a s ≡ take_instance 1 a s
  unfolding rsi_opermode_instances find_instance try_instance
  first_free a s few free ok =
      rw (few_enough (a.dev_oper_mode 0) few) (rw free (rw (ok, try_instance) refl))
    where
      few_enough : (n : ℕ) → n ≤ 5 → ltb max_instances n ≡ false
      few_enough n le = ground arith

  -- What `probe` makes of the answer to its call.
  abbrev probed : (ℕ → ℕ) → Instances → Option (Adapter × Instances) → Option Adapter × Instances
  probed modes s o = elim o [
    | none ↦ (none, rsi_91x_deinit (new_adapter modes) s)
    | some (a', s') ↦ (some a', s')
  ]

  probe_full :
      (modes : ℕ → ℕ) (s : Instances)
      → ((i : ℕ) → 1 ≤ i → i ≤ 5 → s i ≢ 0)
      → probe b modes s ≡ (none, update s 1 0)
  unfolding probe rsi_91x_deinit drv_instance_set
  probe_full modes s used = ap (λ o. probed modes s o) (full (new_adapter modes) s used)

  probe_first :
      (modes : ℕ → ℕ) (s : Instances)
      → modes 0 ≤ 5
      → s 1 ≡ 0
      → rsi_validate_oper_mode b (modes 1) ≡ valid
      → (probe b modes s).0
        ≡ some (record (new_adapter modes) { oper_mode = modes 1; drv_instance_index = 1 })
  unfolding probe take_instance
  probe_first modes s few free ok =
      ap (λ o. (probed modes s o).0) (first_free (new_adapter modes) s few free ok)

  -- With all five instances in use, a probe fails and frees the first one, which goes on being used:
  -- the next probe whose first mode is valid, and which has at most five, gets it as well.
  pub probe_clash :
      (modes modes' : ℕ → ℕ) (s : Instances)
      → ((i : ℕ) → 1 ≤ i → i ≤ 5 → s i ≢ 0)
      → modes' 0 ≤ 5
      → rsi_validate_oper_mode b (modes' 1) ≡ valid
      → ((probe b modes s).0 ≡ none)
        × ((probe b modes s).1 ≡ update s 1 0)
        × ((probe b modes' (probe b modes s).1).0
            ≡ some (record (new_adapter modes') { oper_mode = modes' 1; drv_instance_index = 1 }))
  probe_clash modes modes' s used few ok =
      let gone = probe_full modes s used in
      (
        ap (λ r. r.0) gone,
        ap (λ r. r.1) gone,
        probe_first modes' (probe b modes s).1 few (ap (λ r. r.1 1) gone) ok,
      )
