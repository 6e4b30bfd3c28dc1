-- ===== src/Service/Perms/Order.antt =====
-- The order in which a child gives up its rights.
use openharmony_mac_build.Common.{
  ℕ, zero, suc, ◌≡◌, refl, Bool, true, false, Option, none, some, List, [], ◌∷◌, ◌==◌, arith,
  Bool-cases, inl, inr, subst,
}
use openharmony_mac_build.Service.Types.{
  Env, Proc, Result, ok, fails, fault, Trace, setuid, setgid, drop_cap, set_ambient, state_of,
  ◌>>=◌, call, check_call, ekeepcap, enter, run_hook, set_perms_before,
}
use openharmony_mac_build.Service.Caps.{
  drop_caps, drop_capability, get_invalid_caps, cap_words, set_ambients, all_ambient, ambient_end,
  set_all_ambient,
}
use openharmony_mac_build.Service.Perms.{
  set_gids, set_seccomp_policy, set_user, set_cap_words, finish_perms, set_perms, zero_words,
}

abbrev pub has_setgid : Trace → Bool
has_setgid [] = false
has_setgid (setgid g ∷ t) = true
has_setgid (c ∷ t) = has_setgid t

-- In a trace, the newest call first, every change of the user has a change of the group before it.
abbrev pub GroupsFirst : Trace → Type 0
GroupsFirst [] = Unit {0}
GroupsFirst (setuid u ∷ t) = (has_setgid t ≡ true) × GroupsFirst t
GroupsFirst (c ∷ t) = GroupsFirst t

-- What a step keeps once the group is set.
abbrev Ready : Trace → Type 0
Ready t = (has_setgid t ≡ true) × GroupsFirst t

-- However a step ended, the trace is in order.
pub record InOrder (r : Result) : Type 0 where
  pub groups_first : GroupsFirst (state_of r).trace

module _ (env : Env) where
  >>=-InOrder :
      (r : Result) (f : Proc → Result)
      → InOrder r
      → ((q : Proc) → r ≡ ok q → InOrder (f q))
      → InOrder (r >>= f)
  >>=-InOrder (ok p) f h k = k p refl
  >>=-InOrder (fails c p) f h k = record { groups_first = h.groups_first }
  >>=-InOrder (fault p) f h k = record { groups_first = h.groups_first }

  set_gids-GroupsFirst :
      (uid : ℕ) (gs : List ℕ) (p : Proc)
      → GroupsFirst p.trace
      → GroupsFirst (state_of (set_gids env uid gs p)).trace
  unfolding set_gids
  set_gids-GroupsFirst uid [] p h = ground arith
  set_gids-GroupsFirst uid (g ∷ []) p h = ground arith
  set_gids-GroupsFirst uid (g ∷ k ∷ gs) p h = ground arith

  set_gids-Ready :
      (uid : ℕ) (gs : List ℕ) (p q : Proc)
      → GroupsFirst p.trace
      → set_gids env uid gs p ≡ ok q
      → Ready q.trace
  unfolding set_gids
  set_gids-Ready uid [] p q h e = ground arith
  set_gids-Ready uid (g ∷ []) p q h e = ground arith
  set_gids-Ready uid (g ∷ k ∷ gs) p q h e = ground arith

  set_seccomp_policy-Ready :
      (p : Proc) → Ready p.trace → Ready (state_of (set_seccomp_policy env p)).trace
  unfolding set_seccomp_policy
  set_seccomp_policy-Ready p h = ground arith

  drop_caps-GroupsFirst :
      (cs : List ℕ) (p : Proc) → GroupsFirst p.trace → GroupsFirst (drop_caps env cs p).trace
  unfolding drop_caps
  drop_caps-GroupsFirst [] p h = h
  drop_caps-GroupsFirst (c ∷ cs) p h =
      ground (arith, drop_caps-GroupsFirst cs (call (drop_cap c) p))

  set_user-InOrder : (p : Proc) → Ready p.trace → InOrder (set_user env p)
  unfolding set_user drop_capability
  set_user-InOrder p h =
      ground (arith, drop_caps-GroupsFirst (get_invalid_caps env.last_cap p.svc.perm.caps) p)

  set_cap_words-InOrder :
      (p : Proc) (ws : Option (List ℕ)) → GroupsFirst p.trace → InOrder (set_cap_words env p ws)
  unfolding set_cap_words
  set_cap_words-InOrder p none h = record { groups_first = h }
  set_cap_words-InOrder p (some ws) h = ground arith

  set_all_ambient-InOrder :
      (n cap : ℕ) (p : Proc) → GroupsFirst p.trace → InOrder (set_all_ambient env n cap p)
  unfolding set_all_ambient
  set_all_ambient-InOrder zero cap p h = record { groups_first = h }
  set_all_ambient-InOrder (suc n) cap p h =
      ground (arith, set_all_ambient-InOrder n (suc cap) (call (set_ambient cap) p))

  all_ambient-InOrder :
      (p : Proc) → GroupsFirst p.trace → InOrder (finish_perms (all_ambient env p))
  unfolding all_ambient ambient_end finish_perms
  all_ambient-InOrder p h = ground (arith, set_all_ambient-InOrder (suc env.last_cap) 0 p h)

  set_ambients-InOrder :
      (cs : List ℕ) (p : Proc)
      → GroupsFirst p.trace
      → InOrder (finish_perms (set_ambients env cs p))
  unfolding set_ambients finish_perms
  set_ambients-InOrder [] p h = record { groups_first = h }
  set_ambients-InOrder (c ∷ cs) p h = elim (Bool-cases (c == env.full_cap)) [
    | inl e ↦ simp e (all_ambient-InOrder p h)
    | inr e ↦ simp e (elim (Bool-cases (env.step_ok (set_ambient c ∷ p.trace))) [
      | inl d ↦ simp d (set_ambients-InOrder cs (call (set_ambient c) p) h)
      | inr d ↦ simp d (record { groups_first = h })
    ])
  ]

  -- However SetPerms ends, if in the calls made before it every change of the user came after a
  -- change of the group, then this holds of the calls after it too.
  pub set_perms-InOrder : (p : Proc) → GroupsFirst p.trace → InOrder (set_perms env p)
  unfolding set_perms
  set_perms-InOrder p h =
      >>=-InOrder
        (check_call env.step_ok ekeepcap (enter "KeepCapability")
          (call (run_hook set_perms_before) p))
        _ (ground arith)
        λ p1 e1.
          >>=-InOrder (set_gids env p1.svc.perm.uid p1.svc.perm.gids p1) _
            (record {
              groups_first =
                  set_gids-GroupsFirst p1.svc.perm.uid p1.svc.perm.gids p1 (ground arith);
            })
            λ p2 e2.
              let r2 = set_gids-Ready p1.svc.perm.uid p1.svc.perm.gids p1 p2 (ground arith) e2 in
              >>=-InOrder (set_seccomp_policy env p2) _
                (record { groups_first = (set_seccomp_policy-Ready p2 r2).1 })
                λ p3 e3.
                  let r3 =
                    subst (λ r. Ready (state_of r).trace) e3 (set_seccomp_policy-Ready p2 r2) in
                  >>=-InOrder (set_user env p3) _ (set_user-InOrder p3 r3) λ p4 e4.
                    let o4 = subst InOrder e4 (set_user-InOrder p3 r3) in
                    let words = cap_words env p4.svc.perm.caps (zero_words env.cap_num) in
                    >>=-InOrder (set_cap_words env p4 words) _
                      (set_cap_words-InOrder p4 words o4.groups_first)
                      λ p5 e5.
                        let o5 =
                          subst InOrder e5 (set_cap_words-InOrder p4 words o4.groups_first) in
                        set_ambients-InOrder p5.svc.perm.caps p5 o5.groups_first
