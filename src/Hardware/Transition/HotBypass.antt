-- ===== src/Hardware/Transition/HotBypass.antt =====
-- `TryArmHotReturnBypass`: when a hot loop is bypassed, and what is watched then.
use vd_trace.Base.{
  ℕ, zero, suc, ◌+◌, ◌%◌, ◌≤◌, ◌<◌, ◌≡◌, ◌≢◌, refl, ap, ◌∙◌, ◌⊎◌, inl, inr, Bool, true, false, not,
  arith, ◌&&◌, ◌↔◌, if◌then◌else◌, Bool-cases, ◌==◌, ltb, u32_mod, contains, take, length, max, ◌↔◌,
}
use vd_trace.Session.{conditional_jump, jump, return, is_every_hit, waiting_for_hot_return, Impl}
use vd_trace.Hardware.{store_observed_addresses_unique}
use vd_trace.Hardware.Observe.{store_observed-StoresUnique}
use vd_trace.Hardware.Transition.{
  resolve_hot_bypass_resume_address, frame_return_of, bypass_addresses, arm_bypass,
  try_arm_hot_return_bypass, next64, should_auto_stop_on_root_return,
  should_auto_stop_on_root_return,
}

abbrev anchor_of : Impl → ℕ → ℕ
anchor_of impl repeated_target =
    if not (frame_return_of impl == 0)
    then frame_return_of impl
    else resolve_hot_bypass_resume_address impl repeated_target

-- A suppressed jump that a bypass can be armed for: the policy and the threshold allow it, and
-- there is an exit to watch, the return address of the frame or the other side of the branch.
pub record CanBypass (impl : Impl) (repeated_target : ℕ) : Type 0 where
  pub first_hit : is_every_hit impl.options.hit_policy ≡ false
  pub target : repeated_target ≢ 0
  pub threshold : impl.options.hot_bypass_threshold ≢ 0
  pub threshold_word : impl.options.hot_bypass_threshold < u32_mod
  pub kind :
      (impl.pending_block.tail_decode.kind ≡ conditional_jump)
      ⊎ (impl.pending_block.tail_decode.kind ≡ jump)
  pub has_exit :
      (frame_return_of impl ≢ 0)
      ⊎ ((resolve_hot_bypass_resume_address impl repeated_target ≢ 0)
          × (resolve_hot_bypass_resume_address impl repeated_target ≢ repeated_target))

module _ (repeated_target call_depth : ℕ) where
  -- The session after `k` suppressed hits of one target at one depth.
  pub after_hits : ℕ → Impl → Impl
  after_hits zero impl = impl
  after_hits (suc k) impl =
      after_hits k (try_arm_hot_return_bypass impl repeated_target call_depth).1

  -- Whether the hit that follows `k` others arms the bypass.
  pub arms_after : ℕ → Impl → Bool
  arms_after k impl = (try_arm_hot_return_bypass (after_hits k impl) repeated_target call_depth).0

stores_exit :
    (s : Impl) (resume_address repeated_target frame_return : ℕ)
    → (frame_return ≢ 0) ⊎ ((resume_address ≢ 0) × (resume_address ≢ repeated_target))
    → let watched = bypass_addresses resume_address repeated_target frame_return in
      (store_observed_addresses_unique s watched (length watched)).0 ≢ 0
unfolding store_observed_addresses_unique
stores_exit s resume_address repeated_target frame_return h = ground arith

arm_bypass-arms :
    (s : Impl) (resume_address repeated_target frame_return call_depth : ℕ)
    → (frame_return ≢ 0) ⊎ ((resume_address ≢ 0) × (resume_address ≢ repeated_target))
    → (arm_bypass s repeated_target resume_address frame_return call_depth).0 ≡ true
unfolding arm_bypass
arm_bypass-arms s resume_address repeated_target frame_return call_depth h =
    ground (arith, stores_exit s resume_address repeated_target frame_return)

module _ (impl : Impl) (repeated_target call_depth : ℕ) (can : CanBypass impl repeated_target) where
  abbrev counting : ℕ → Impl
  counting n = record impl {
    suppressed_hot_anchor = anchor_of impl repeated_target;
    suppressed_frame_depth = call_depth;
    suppressed_transition_streak = n;
  }

  first_hit_counts :
      (impl.suppressed_hot_anchor ≢ anchor_of impl repeated_target)
        ⊎ (impl.suppressed_frame_depth ≢ call_depth)
      → try_arm_hot_return_bypass impl repeated_target call_depth ≡ (false, counting 1)
  unfolding try_arm_hot_return_bypass
  first_hit_counts fresh = ground arith

  next_hit_counts :
      (n : ℕ)
      → n + 1 < impl.options.hot_bypass_threshold
      → try_arm_hot_return_bypass (counting n) repeated_target call_depth
        ≡ (false, counting (n + 1))
  unfolding try_arm_hot_return_bypass resolve_hot_bypass_resume_address
  next_hit_counts n h = ground arith

  last_hit_arms :
      (n : ℕ)
      → n + 1 < u32_mod
      → impl.options.hot_bypass_threshold ≤ n + 1
      → (try_arm_hot_return_bypass (counting n) repeated_target call_depth).0 ≡ true
  unfolding try_arm_hot_return_bypass resolve_hot_bypass_resume_address
  last_hit_arms n w h = ground (
    arith,
    arm_bypass-arms (counting (n + 1)) (resolve_hot_bypass_resume_address impl repeated_target)
        repeated_target (frame_return_of impl) call_depth can.has_exit,
  )

  abbrev pub hits_needed : ℕ
  hits_needed = max 2 impl.options.hot_bypass_threshold

  counting_hits :
      (k n : ℕ)
      → 1 ≤ n
      → n + k < hits_needed
      → after_hits repeated_target call_depth k (counting n) ≡ counting (n + k)
  unfolding after_hits
  counting_hits zero n l h = let e : n ≡ n + 0 = omega arith in ap counting e
  counting_hits (suc k) n l h =
      let e : n + 1 + k ≡ n + suc k = omega arith in
      rw (next_hit_counts n (omega arith))
        (counting_hits k (n + 1) (omega arith) (omega arith) ∙ ap counting e)

  counting_arms :
      (n : ℕ)
      → 1 ≤ n
      → n < hits_needed
      → (try_arm_hot_return_bypass (counting n) repeated_target call_depth).0
        ≡ (n + 1 == hits_needed)
  counting_arms n l h = elim (Bool-cases (ltb (n + 1) impl.options.hot_bypass_threshold)) [
    | inl more ↦ rw (next_hit_counts n (ground arith)) (ground arith)
    | inr last ↦
        rw (last_hit_arms n (ground (arith, can.threshold_word)) (ground arith)) (ground arith)
  ]

  -- From a session whose counted anchor or depth is another one, the bypass of a hot loop is armed
  -- by the suppressed hit number max(2, hot_bypass_threshold) in a row and by none before it.
  -- The hypothesis `CanBypass` says that the policy is the first hit, the target and the
  -- threshold are not 0, the block ends in a jump, and there is an exit to watch.
  pub arms_after-threshold :
      (k : ℕ)
      → (impl.suppressed_hot_anchor ≢ anchor_of impl repeated_target)
        ⊎ (impl.suppressed_frame_depth ≢ call_depth)
      → k < hits_needed
      → arms_after repeated_target call_depth k impl ≡ (k + 1 == hits_needed)
  unfolding arms_after after_hits
  arms_after-threshold zero fresh h = rw (arms_after, first_hit_counts fresh) (ground arith)
  arms_after-threshold (suc k) fresh h =
      let e : 1 + k ≡ suc k = omega arith in
      rw (arms_after, first_hit_counts fresh, counting_hits k 1 (omega arith) (omega arith), e)
        (counting_arms (suc k) (omega arith) h)

-- The return address on top of the stack is an exit of a loop, and so is the other side of its
-- branch, where that is not the repeated target.
abbrev pub IsExit : Impl → ℕ → ℕ → Type 0
IsExit before repeated_target b =
    (b ≢ 0)
    × ((b ≡ frame_return_of before)
        ⊎ ((b ≡ resolve_hot_bypass_resume_address before repeated_target) × (b ≢ repeated_target)))

-- The stop at the root return that an armed bypass remembers.
abbrev pub StopsAtRoot : Impl → ℕ → Type 0
StopsAtRoot before call_depth =
    (frame_return_of before ≢ 0)
    × (before.root_stop_armed ≡ true)
    × (call_depth ≡ before.root_call_depth_base)

-- The session once a bypass is armed.
pub record Armed (before after : Impl) (repeated_target call_depth : ℕ) : Type 0 where
  pub state : after.observation_state ≡ waiting_for_hot_return
  pub watches : after.observed_count ≢ 0
  pub exits :
      (b : ℕ)
      → (contains b (take after.observed_count after.observed_addresses) ≡ true)
        ↔ IsExit before repeated_target b
  pub return_address : after.hot_bypass_return ≡ frame_return_of before
  pub resume_address :
      after.hot_bypass_resume ≡ resolve_hot_bypass_resume_address before repeated_target
  pub depth : after.hot_bypass_call_depth ≡ call_depth
  pub root_stop : (after.hot_bypass_root_stop ≡ true) ↔ StopsAtRoot before call_depth
  pub streak : after.suppressed_transition_streak ≡ 0
  pub no_block : after.pending_block.valid ≡ false
  pub no_resume : after.pending_resume_entry_valid ≡ false
  pub no_override : after.pending_target_override_valid ≡ false
  pub counted : after.hot_bypass_entry_count ≡ next64 before.hot_bypass_entry_count
  pub stack : after.call_return_stack ≡ before.call_return_stack

watched_exits :
    (s : Impl) (repeated_target resume_address frame_return b : ℕ)
    → let watched = bypass_addresses resume_address repeated_target frame_return in
      let t = (store_observed_addresses_unique s watched (length watched)).1 in
      (contains b (take t.observed_count t.observed_addresses) ≡ true)
      ↔ ((b ≢ 0) × ((b ≡ frame_return) ⊎ ((b ≡ resume_address) × (b ≢ repeated_target))))
watched_exits s repeated_target resume_address frame_return b =
    let watched = bypass_addresses resume_address repeated_target frame_return in
    let stored = (store_observed-StoresUnique s watched (length watched)).0.exact b in
    ground (arith, stored)

abbrev with_streak : Impl → ℕ → Impl
with_streak impl n = record impl { suppressed_transition_streak = n }

root_stop_iff :
    (s impl : Impl) (frame_return call_depth : ℕ)
    → s.root_stop_armed ≡ impl.root_stop_armed
    → s.root_call_depth_base ≡ impl.root_call_depth_base
    → ((not (frame_return == 0) && should_auto_stop_on_root_return s return call_depth) ≡ true) ↔ (
        (frame_return ≢ 0)
        × (impl.root_stop_armed ≡ true)
        × (call_depth ≡ impl.root_call_depth_base))
unfolding should_auto_stop_on_root_return
root_stop_iff s impl frame_return call_depth armed base = ground arith

arm_bypass-Armed :
    (impl : Impl) (n repeated_target call_depth : ℕ)
    → let r =
        arm_bypass
          (with_streak impl n)
          repeated_target
          (resolve_hot_bypass_resume_address impl repeated_target)
          (frame_return_of impl)
          call_depth in
      r.0 ≡ true → Armed impl r.1 repeated_target call_depth
unfolding arm_bypass
arm_bypass-Armed impl n repeated_target call_depth =
    let s = with_streak impl n in
    let resume_address = resolve_hot_bypass_resume_address impl repeated_target in
    let frame_return = frame_return_of impl in
    let watched = bypass_addresses resume_address repeated_target frame_return in
    let r = store_observed_addresses_unique s watched (length watched) in
    let stored = store_observed-StoresUnique s watched (length watched) in
    elim (Bool-cases (r.0 == 0)) [
      | inl none' ↦ rw none' (λ h. cc)
      | inr some' ↦ rw some' (λ h. record {
        state = refl;
        watches = ground (arith, stored.1);
        exits = λ b. watched_exits s repeated_target resume_address frame_return b;
        return_address = refl;
        resume_address = refl;
        depth = refl;
        root_stop =
            root_stop_iff r.1 impl frame_return call_depth
              (ap (λ (t : Impl). t.root_stop_armed) stored.2)
              (ap (λ (t : Impl). t.root_call_depth_base) stored.2);
        streak = refl;
        no_block = refl;
        no_resume = refl;
        no_override = refl;
        counted = ap (λ (t : Impl). next64 t.hot_bypass_entry_count) stored.2;
        stack = ap (λ (t : Impl). t.call_return_stack) stored.2;
      })
    ]

-- A call either leaves the bypass unarmed or comes to its end with the streak at the threshold.
try_arm_cases :
    (impl : Impl) (repeated_target call_depth : ℕ)
    → let n = (impl.suppressed_transition_streak + 1) % u32_mod in
      let r = try_arm_hot_return_bypass impl repeated_target call_depth in
      (r.0 ≡ false)
      ⊎ ((r
            ≡ arm_bypass
                (with_streak impl n)
                repeated_target
                (resolve_hot_bypass_resume_address impl repeated_target)
                (frame_return_of impl)
                call_depth)
          × (impl.options.hot_bypass_threshold ≤ n)
          × (impl.suppressed_frame_depth ≡ call_depth))
unfolding try_arm_hot_return_bypass
try_arm_cases impl repeated_target call_depth = ground arith

pub try_arm-Armed :
    (impl : Impl) (repeated_target call_depth : ℕ)
    → let r = try_arm_hot_return_bypass impl repeated_target call_depth in
      r.0 ≡ true
      → Armed impl r.1 repeated_target call_depth
        × (impl.options.hot_bypass_threshold ≤ (impl.suppressed_transition_streak + 1) % u32_mod)
        × (impl.suppressed_frame_depth ≡ call_depth)
try_arm-Armed impl repeated_target call_depth h =
    elim (try_arm_cases impl repeated_target call_depth) [
      | inl unarmed ↦ cc
      | inr (e, t, d) ↦ (
        rw e (
            arm_bypass-Armed impl ((impl.suppressed_transition_streak + 1) % u32_mod)
              repeated_target call_depth (rw e at h)),
        t,
        d,
      )
    ]
