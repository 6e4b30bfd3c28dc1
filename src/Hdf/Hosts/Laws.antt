-- ===== src/Hdf/Hosts/Laws.antt =====
-- What the start of the hosts allocates, frees and lists.
use openharmony_mac_build.Common.{
  ℕ, ◌+◌, ◌≡◌, refl, Bool, true, false, Option, none, some, is_some, ◌&&◌, List, [], ◌∷◌, length,
  length-append, count_if, arith, Option-cases, inl, inr,
}
use openharmony_mac_build.Hdf.Types.{
  Env, Host, HostInfo, HostService, Manager, Trace, Call, failure, new_host, free_host,
}
use openharmony_mac_build.Hdf.Process.{start_host_process, start_host_process_for}
use openharmony_mac_build.Hdf.Token.{find_device_host}
use openharmony_mac_build.Hdf.Hosts.{
  start_device_host, start_each, start_device_hosts, attach_device_host, run_host, insert_host,
}

abbrev is_new : Call → Bool
is_new (new_host i) = true
is_new c = false

abbrev is_free : Call → Bool
is_free (free_host i) = true
is_free c = false

abbrev pub allocated : Trace → ℕ
allocated t = count_if is_new t

abbrev pub freed : Trace → ℕ
freed t = count_if is_free t

-- Between two managers, what was allocated is what was freed and what came into the list.
abbrev pub IsBalanced : Manager → Manager → Type 0
IsBalanced m n =
    allocated n.trace + freed m.trace + length m.hosts
    ≡ allocated m.trace + freed n.trace + length n.hosts

start_host_process-counts :
    (env : Env) (h : Host) (t : Trace)
    → let u = (start_host_process env h false false t).2 in
      (allocated u ≡ allocated t) × (freed u ≡ freed t)
unfolding start_host_process start_host_process_for
start_host_process-counts env h t = ground arith

insert_host-IsBalanced :
    (env : Env) (m : Manager) (h : Host)
    → let n = (insert_host env m h).1 in
      allocated n.trace + freed m.trace + length m.hosts + 1
      ≡ allocated m.trace + freed n.trace + length n.hosts
unfolding insert_host run_host
insert_host-IsBalanced env m h =
    let (code, g, t) = start_host_process env h false false m.trace in
    ground (
      arith,
      start_host_process-counts env h m.trace,
      length-append m.hosts (h ∷ []),
      length-append m.hosts (g ∷ []),
    )

-- If the device list of the host can be read, the host ends up in the list or is freed.
pub start_device_host-IsBalanced :
    (env : Env) (info : HostInfo) (m : Manager)
    → ((h : Host) → is_some (env.device_list h) ≡ true)
    → IsBalanced m (start_device_host env info m).1
unfolding start_device_host
start_device_host-IsBalanced env info m all = elim (Option-cases (env.make_host info)) [
  | inl e ↦ ground (arith, e)
  | inr (h, e) ↦
      let asked = record m { trace = new_host h.host_id ∷ m.trace } in
      elim (Option-cases (env.device_list h)) [
        | inl d ↦ absurd (ground (arith, all h, d))
        | inr (g, d) ↦ ground (arith, e, d, insert_host-IsBalanced env asked g)
      ]
]

start_each-IsBalanced :
    (env : Env) (is' : List HostInfo) (m : Manager)
    → ((h : Host) → is_some (env.device_list h) ≡ true)
    → IsBalanced m (start_each env is' m)
unfolding start_each
start_each-IsBalanced env [] m all = refl
start_each-IsBalanced env (i ∷ is') m all =
    let n = (start_device_host env i m).1 in
    omega (arith, start_device_host-IsBalanced env i m all, start_each-IsBalanced env is' n all)

-- If every device list can be read, then after DevmgrServiceStartDeviceHosts the hosts that were
-- allocated are as many as those freed and those that came into the list, whichever of them failed
-- to start.
pub start_device_hosts-IsBalanced :
    (env : Env) (m : Manager)
    → ((h : Host) → is_some (env.device_list h) ≡ true)
    → IsBalanced m (start_device_hosts env m).1
unfolding start_device_hosts
start_device_hosts-IsBalanced env m all = elim (Option-cases env.host_list) [
  | inl e ↦ ground (arith, e)
  | inr (is', e) ↦ ground (arith, e, start_each-IsBalanced env is' m all)
]

-- A host that is allocated and whose device list cannot be read is neither listed nor freed.
pub start_device_host_leaks :
    (env : Env) (info : HostInfo) (m : Manager) (h : Host)
    → env.make_host info ≡ some h
    → env.device_list h ≡ none
    → let n = (start_device_host env info m).1 in
      (n.hosts ≡ m.hosts)
      × (freed n.trace ≡ freed m.trace)
      × (allocated n.trace ≡ allocated m.trace + 1)
unfolding start_device_host
start_device_host_leaks env info m h e d = ground arith

-- An unknown host, or one with no service to offer, is refused and nothing changes.
pub attach_device_host_refuses :
    (env : Env) (id : ℕ) (svc : Option HostService) (m : Manager)
    → is_some (find_device_host m.hosts id) && is_some svc ≡ false
    → attach_device_host env id svc m ≡ (failure, m)
unfolding attach_device_host
attach_device_host_refuses env id svc m h = ground arith
