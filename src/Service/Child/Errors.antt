-- ===== src/Service/Child/Errors.antt =====
-- How a child that was forked ends, and what its exit code tells.
use openharmony_mac_build.Common.{
  ◌≡◌, refl, String, List, ◌∷◌, Bool, true, false, Bool-cases, inl, inr,
}
use openharmony_mac_build.Service.Types.{
  Env, Proc, Result, ok, fails, fault, esocket, efile, econsole, enter, setpriority, execv,
  open_hidebug, Trace, call, check_call, ◌>>=◌,
}
use openharmony_mac_build.Service.Fds.{
  publish_hold_fds, Published, nothing_held, bad_format, out_of_bounds, set_variable,
}
use openharmony_mac_build.Service.Perms.{set_perms}
use openharmony_mac_build.Service.Perms.Codes.{
  Blames, IsCoded, ok-IsCoded, if-IsCoded, check_call-IsCoded, set_perms-IsCoded,
}
use openharmony_mac_build.Service.Child.{
  note_errno, is_zero, set_priority, exec_program, create_socket, prepare, open_console, open_kmsg,
  publish_fds, write_pids, bind_cpu_core, child_end, service_exec, init_service_properties,
  ChildEnd, execs, exits, crashes, set_context, close_others, run_child_process,
}

abbrev is_execv : Trace → Bool
is_execv (execv ∷ t) = true
is_execv t = false

-- The end of a child: it became its program by its last call, or its exit code tells of the last call,
-- which failed. Of a crash nothing is said.
abbrev pub Ends : Env → ChildEnd → Type 0
Ends env (execs p) = (is_execv p.trace ≡ true) × (env.step_ok p.trace ≡ true)
Ends env (exits c p) = Blames env c p.trace
Ends env (crashes p) = Unit

abbrev Noted : Env → Result → Type 0
Noted env (ok p) = Unit {0}
Noted env (fails c p) = Blames env p.svc.last_errno p.trace
Noted env (fault p) = Unit {0}

-- If the result is a failure, `lastErrno` tells of the call that failed, whatever is returned.
record IsNoted (env : Env) (r : Result) : Type 0 where
  tells : Noted env r

module _ (env : Env) where
  note_errno-IsNoted : (r : Result) → IsCoded env r → IsNoted env (note_errno r)
  unfolding note_errno
  note_errno-IsNoted (ok p) h = record { tells = tt }
  note_errno-IsNoted (fails c p) h = record { tells = h.tells }
  note_errno-IsNoted (fault p) h = record { tells = tt }

  >>=-IsNoted :
      (r : Result) (f : Proc → Result)
      → IsNoted env r
      → ((p : Proc) → IsNoted env (f p))
      → IsNoted env (r >>= f)
  >>=-IsNoted (ok p) f h k = k p
  >>=-IsNoted (fails c p) f h k = record { tells = h.tells }
  >>=-IsNoted (fault p) f h k = record { tells = tt }

  >>=-Ends :
      (r : Result) (f : Proc → Result)
      → IsNoted env r
      → ((p : Proc) → Ends env (child_end (f p)))
      → Ends env (child_end (r >>= f))
  unfolding child_end
  >>=-Ends (ok p) f h k = k p
  >>=-Ends (fails c p) f h k = h.tells
  >>=-Ends (fault p) f h k = tt

  create_socket-IsCoded : (p : Proc) → IsCoded env (create_socket env p)
  unfolding create_socket
  create_socket-IsCoded p =
      if-IsCoded env (env.is_on_demand p.svc.attr) _ _ (ok-IsCoded env p)
        (check_call-IsCoded env esocket (enter "CreateSocketForService") p λ e. (e, refl))

  open_console-IsCoded : (p : Proc) → IsCoded env (open_console env p)
  unfolding open_console
  open_console-IsCoded p =
      if-IsCoded env p.svc.attr.console _ _
        (check_call-IsCoded env econsole (enter "OpenConsole") p λ e. (e, refl)) (ok-IsCoded env p)

  publish_fds-IsCoded : (r : Published) (p : Proc) → IsCoded env (publish_fds r p)
  unfolding publish_fds
  publish_fds-IsCoded nothing_held p = ok-IsCoded env p
  publish_fds-IsCoded (bad_format q) p = record { tells = tt }
  publish_fds-IsCoded (out_of_bounds q) p = record { tells = tt }
  publish_fds-IsCoded (set_variable true q) p = ok-IsCoded env q
  publish_fds-IsCoded (set_variable false q) p = record { tells = tt }

  init_service_properties-IsNoted : (p : Proc) → IsNoted env (init_service_properties env p)
  unfolding init_service_properties
  init_service_properties-IsNoted p =
      let start = prepare env p in
      >>=-IsNoted (note_errno (create_socket env start)) _
        (note_errno-IsNoted _ (create_socket-IsCoded start))
        λ p1.
          let q1 = call (enter "SetSocketEnvForService") p1 in
          >>=-IsNoted (note_errno (check_call env.step_ok efile (enter "CreateServiceFile") q1)) _
            (note_errno-IsNoted _
              (check_call-IsCoded env efile (enter "CreateServiceFile") q1 λ e. (e, refl)))
            λ p2.
              >>=-IsNoted (note_errno (open_console env p2)) _
                (note_errno-IsNoted _ (open_console-IsCoded p2))
                λ p3.
                  let q3 = open_kmsg p3 in
                  >>=-IsNoted (note_errno (publish_fds (publish_hold_fds env q3) q3)) _
                    (note_errno-IsNoted _ (publish_fds-IsCoded (publish_hold_fds env q3) q3))
                    λ p4.
                      let q4 = write_pids p4.svc.write_pid_args (bind_cpu_core p4.svc.cpu_set p4) in
                      >>=-IsNoted (note_errno (set_perms env q4)) _
                        (note_errno-IsNoted _ (set_perms-IsCoded env q4))
                        λ p5. record { tells = tt }

  set_priority-IsNoted : (p : Proc) → IsNoted env (set_priority env p)
  unfolding set_priority
  set_priority-IsNoted p =
      let q = call (setpriority p.svc.importance) p in
      elim (Bool-cases (is_zero p.svc.importance)) [
        | inl z ↦ simp z (record { tells = tt })
        | inr z ↦ elim (Bool-cases (env.step_ok q.trace)) [
          | inl e ↦ simp (z, e) (record { tells = tt })
          | inr e ↦ simp (z, e) (record { tells = (e, refl) })
        ]
      ]

  exec_program-Ends : (p : Proc) → Ends env (child_end (exec_program env p))
  unfolding exec_program child_end
  exec_program-Ends p =
      let q = call execv (call open_hidebug p) in
      elim (Bool-cases (env.step_ok q.trace)) [
        | inl e ↦ simp e (refl, refl)
        | inr e ↦ simp e (refl, refl)
      ]

  service_exec-Ends :
      (a : String) (as' : List String) (p : Proc)
      → Ends env (child_end (service_exec env (a ∷ as') p))
  unfolding service_exec
  service_exec-Ends a as' p =
      >>=-Ends (set_priority env p) _ (set_priority-IsNoted p) exec_program-Ends

  -- A child that has a program to run and does not crash: either it becomes the program, by a call of
  -- execv that succeeds, or its exit code tells of the last call that it made, and that call failed:
  -- the socket, the file, the console, the keeping of capabilities, the group, the user, the
  -- capabilities, the priority or execv. Only the codes of the descriptors held and of the command
  -- for seccomp tell of no call. Steps whose failure is only a warning do not end the child, and
  -- their codes are never its exit code.
  pub run_child_process-Ends :
      (a : String) (as' : List String) (p : Proc) → Ends env (run_child_process env (a ∷ as') p)
  unfolding run_child_process
  run_child_process-Ends a as' p =
      let start = close_others env.on_demand_sockets (set_context env p) in
      >>=-Ends (init_service_properties env start) _ (init_service_properties-IsNoted start)
        (service_exec-Ends a as')
