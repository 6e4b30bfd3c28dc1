-- ===== src/Service/Perms/Codes.antt =====
-- Which call a code of the child tells of, and that the codes of SetPerms tell of the call that failed.
use openharmony_mac_build.Common.{
  ℕ, ◌≡◌, refl, str_eq, Bool, true, false, Option, none, some, List, [], ◌∷◌, zero, suc, ltb,
  length, if◌then◌else◌, ◌==◌, is_empty, Bool-cases, inl, inr,
}
use openharmony_mac_build.Service.Types.{
  Env, Proc, Result, ok, fails, fault, Code, failure, esocket, efile, econsole, eholder, ekeepcap,
  egidset, eseccomp, euidset, ecap, epriority, eexec, enter, setgid, setgroups, setuid, capset,
  set_ambient, setpriority, execv, Call, Trace, call, check_call, ◌>>=◌, set_perms_before, run_hook,
}
use openharmony_mac_build.Service.Caps.{
  drop_capability, set_all_ambient, all_ambient, ambient_end, invalid_cnt, get_invalid_caps,
  drop_caps, cap_words, set_ambients, Ambient, loop_done, all_set, refused,
}
use openharmony_mac_build.Service.Perms.{
  set_gids, first_arg, set_seccomp_policy, set_user, zero_words, set_cap_words, finish_perms,
  set_perms,
}

-- The calls that a code tells of.
abbrev names : Code → Call → Bool
names esocket (enter s) = str_eq s "CreateSocketForService"
names efile (enter s) = str_eq s "CreateServiceFile"
names econsole (enter s) = str_eq s "OpenConsole"
names ekeepcap (enter s) = str_eq s "KeepCapability"
names egidset (setgid n) = true
names egidset (setgroups ns) = true
names euidset (setuid n) = true
names failure (capset ws) = true
names ecap (set_ambient n) = true
names epriority (setpriority n) = true
names eexec execv = true
names c x = false

abbrev names_last : Code → Trace → Bool
names_last c [] = false
names_last c (x ∷ t) = names c x

-- A code tells of the last call, and that call failed; the two codes of tests that make no call tell of
-- none: the descriptors that are held, and the length of the command for seccomp.
abbrev pub Blames : Env → Code → Trace → Type 0
Blames env eholder t = Unit
Blames env eseccomp t = Unit
Blames env c t = (env.step_ok t ≡ false) × (names_last c t ≡ true)

abbrev Coded : Env → Result → Type 0
Coded env (ok p) = Unit {0}
Coded env (fails c p) = Blames env c p.trace
Coded env (fault p) = Unit {0}

-- If the result is a failure, its code tells of the call that failed.
pub record IsCoded (env : Env) (r : Result) : Type 0 where
  pub tells : Coded env r

module _ (env : Env) where
  pub ok-IsCoded : (p : Proc) → IsCoded env (ok p)
  ok-IsCoded p = record { tells = tt }

  pub >>=-IsCoded :
      (r : Result) (f : Proc → Result)
      → IsCoded env r
      → ((p : Proc) → IsCoded env (f p))
      → IsCoded env (r >>= f)
  >>=-IsCoded (ok p) f h k = k p
  >>=-IsCoded (fails c p) f h k = record { tells = h.tells }
  >>=-IsCoded (fault p) f h k = record { tells = tt }

  pub check_call-IsCoded :
      (c : Code) (x : Call) (p : Proc)
      → (env.step_ok (x ∷ p.trace) ≡ false → Blames env c (x ∷ p.trace))
      → IsCoded env (check_call env.step_ok c x p)
  check_call-IsCoded c x p h = elim (Bool-cases (env.step_ok (x ∷ p.trace))) [
    | inl e ↦ simp e (record { tells = tt })
    | inr e ↦ simp e (record { tells = h e })
  ]

  pub if-IsCoded :
      (b : Bool) (r s : Result) → IsCoded env r → IsCoded env s → IsCoded env (if b then r else s)
  if-IsCoded true r s h k = h
  if-IsCoded false r s h k = k

  set_gids-IsCoded : (uid : ℕ) (gids : List ℕ) (p : Proc) → IsCoded env (set_gids env uid gids p)
  unfolding set_gids
  set_gids-IsCoded uid [] p = check_call-IsCoded egidset (setgid uid) p λ e. (e, refl)
  set_gids-IsCoded uid (g ∷ []) p = check_call-IsCoded egidset (setgid g) p λ e. (e, refl)
  set_gids-IsCoded uid (g ∷ h ∷ gs) p =
      >>=-IsCoded (check_call env.step_ok egidset (setgid g) p) _
        (check_call-IsCoded egidset (setgid g) p λ e. (e, refl))
        λ q. check_call-IsCoded egidset (setgroups (h ∷ gs)) q λ e. (e, refl)

  set_seccomp_policy-IsCoded : (p : Proc) → IsCoded env (set_seccomp_policy env p)
  unfolding set_seccomp_policy
  set_seccomp_policy-IsCoded p =
      if-IsCoded _ _ _
        (if-IsCoded (env.cmd_fits p.svc.name (first_arg p.svc.path_args)) _ _
          (ok-IsCoded (call (enter "SetSeccompPolicy") p)) (record { tells = tt }))
        (ok-IsCoded p)

  drop_capability-IsCoded : (caps : List ℕ) (p : Proc) → IsCoded env (drop_capability env caps p)
  unfolding drop_capability
  drop_capability-IsCoded caps p = if-IsCoded _ _ _ (ok-IsCoded p) (
      if-IsCoded env.alloc_ok _ _
        (if-IsCoded
          (ltb (invalid_cnt env.last_cap caps) (length (get_invalid_caps env.last_cap caps)))
          (fault p) (ok (drop_caps env (get_invalid_caps env.last_cap caps) p))
          (record { tells = tt }) (record { tells = tt }))
        (ok-IsCoded p))

  set_user-IsCoded : (p : Proc) → IsCoded env (set_user env p)
  unfolding set_user
  set_user-IsCoded p =
      if-IsCoded (p.svc.perm.uid == 0) _ _
        (if-IsCoded (is_empty p.svc.perm.caps) _ _ (ok-IsCoded p)
          (drop_capability-IsCoded p.svc.perm.caps p))
        (check_call-IsCoded euidset (setuid p.svc.perm.uid) p λ e. (e, refl))

  set_cap_words-IsCoded : (p : Proc) (o : Option (List ℕ)) → IsCoded env (set_cap_words env p o)
  unfolding set_cap_words
  set_cap_words-IsCoded p none = record { tells = tt }
  set_cap_words-IsCoded p (some ws) = check_call-IsCoded failure (capset ws) p λ e. (e, refl)

  abbrev Told : Ambient → Type 0
  Told (loop_done p) = Unit {0}
  Told (all_set p) = Unit {0}
  Told (refused p) = Blames env ecap p.trace

  abbrev AmbientTold : Result → Type 0
  AmbientTold (ok p) = Unit {0}
  AmbientTold (fails c p) = Blames env ecap p.trace
  AmbientTold (fault p) = Blames env ecap p.trace

  set_all_ambient-Told : (n cap : ℕ) (p : Proc) → AmbientTold (set_all_ambient env n cap p)
  unfolding set_all_ambient
  set_all_ambient-Told zero cap p = tt
  set_all_ambient-Told (suc n) cap p =
      let q = call (set_ambient cap) p in
      elim (Bool-cases (env.step_ok q.trace)) [
        | inl e ↦ simp e (set_all_ambient-Told n (suc cap) q)
        | inr e ↦ simp e (refl, refl)
      ]

  ambient_end-Told : (r : Result) → AmbientTold r → Told (ambient_end r)
  unfolding ambient_end
  ambient_end-Told (ok q) h = tt
  ambient_end-Told (fails c q) h = h
  ambient_end-Told (fault q) h = h

  all_ambient-Told : (p : Proc) → Told (all_ambient env p)
  unfolding all_ambient
  all_ambient-Told p = ambient_end-Told _ (set_all_ambient-Told (suc env.last_cap) 0 p)

  set_ambients-Told : (cs : List ℕ) (p : Proc) → Told (set_ambients env cs p)
  unfolding set_ambients
  set_ambients-Told [] p = tt
  set_ambients-Told (c ∷ cs) p =
      let q = call (set_ambient c) p in
      elim (Bool-cases (c == env.full_cap)) [
        | inl f ↦ simp f (all_ambient-Told p)
        | inr f ↦ elim (Bool-cases (env.step_ok q.trace)) [
          | inl e ↦ simp (f, e) (set_ambients-Told cs q)
          | inr e ↦ simp (f, e) (refl, refl)
        ]
      ]

  finish_perms-IsCoded : (a : Ambient) → Told a → IsCoded env (finish_perms a)
  unfolding finish_perms
  finish_perms-IsCoded (loop_done p) h = record { tells = tt }
  finish_perms-IsCoded (all_set p) h = record { tells = tt }
  finish_perms-IsCoded (refused p) h = record { tells = h }

  pub set_perms-IsCoded : (p : Proc) → IsCoded env (set_perms env p)
  unfolding set_perms
  set_perms-IsCoded p0 =
      >>=-IsCoded
        (check_call env.step_ok ekeepcap (enter "KeepCapability")
          (call (run_hook set_perms_before) p0))
        _
        (check_call-IsCoded ekeepcap (enter "KeepCapability") (call (run_hook set_perms_before) p0)
          λ e. (e, refl))
        λ p1.
          >>=-IsCoded (set_gids env p1.svc.perm.uid p1.svc.perm.gids p1) _
            (set_gids-IsCoded p1.svc.perm.uid p1.svc.perm.gids p1)
            λ p2. >>=-IsCoded (set_seccomp_policy env p2) _ (set_seccomp_policy-IsCoded p2) λ p3.
              >>=-IsCoded (set_user env p3) _ (set_user-IsCoded p3) λ p4.
                >>=-IsCoded
                  (set_cap_words env p4 (cap_words env p4.svc.perm.caps (zero_words env.cap_num))) _
                  (set_cap_words-IsCoded p4
                    (cap_words env p4.svc.perm.caps (zero_words env.cap_num)))
                  λ p5.
                    finish_perms-IsCoded (set_ambients env p5.svc.perm.caps p5)
                      (set_ambients-Told p5.svc.perm.caps p5)
