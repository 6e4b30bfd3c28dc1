-- ===== src/Hdf/Token/Laws.antt =====
-- Attaching and detaching devices are inverse to each other.
use openharmony_mac_build.Common.{
  ℕ, ◌≡◌, refl, sym, true, false, Option, none, some, List, [], ◌∷◌, ◌++◌, All, arith, subst,
}
use openharmony_mac_build.Hdf.Types.{
  Env, Host, TokenIf, Manager, success, no_device, Split, split_first, put_back,
}
use openharmony_mac_build.Hdf.Split.{split_first-Finds, split_first-append}
use openharmony_mac_build.Hdf.Token.{
  has_id, has_devid, find_device_host, attach_device, detach_device,
}

-- What HdfSListAdd is documented to do: it links the node in somewhere, and keeps the others.
pub record ListAdd (env : Env) : Type 0 where
  pub prefix : Option TokenIf → List (Option TokenIf) → List (Option TokenIf)
  pub suffix : Option TokenIf → List (Option TokenIf) → List (Option TokenIf)
  pub linked :
      (t : Option TokenIf) (ts : List (Option TokenIf))
      → env.list_add t ts ≡ prefix t ts ++ t ∷ suffix t ts
  pub kept : (t : Option TokenIf) (ts : List (Option TokenIf)) → prefix t ts ++ suffix t ts ≡ ts

-- No device of a list has the identifier.
abbrev pub IsFresh : ℕ → List (Option TokenIf) → Type 0
IsFresh d ts = All (λ t. has_devid d t ≡ false) ts

All-prefix :
    (P : Option TokenIf → Type 0) (xs ys : List (Option TokenIf)) → All P (xs ++ ys) → All P xs
All-prefix P [] ys h = tt
All-prefix P (x ∷ xs) ys h = (h.0, All-prefix P xs ys h.1)

added-found :
    (env : Env) (l : ListAdd env) (token : TokenIf) (ts : List (Option TokenIf))
    → IsFresh token.devid ts
    → split_first (has_devid token.devid) (env.list_add (some token) ts)
      ≡ some (record {
        before = l.prefix (some token) ts;
        item = some token;
        after = l.suffix (some token) ts;
      })
added-found env l token ts h = rw (l.linked (some token) ts) (
    split_first-append (has_devid token.devid) (l.prefix (some token) ts) (some token)
      (l.suffix (some token) ts)
      (All-prefix (λ t. has_devid token.devid t ≡ false) (l.prefix (some token) ts)
        (l.suffix (some token) ts) (subst (IsFresh token.devid) (sym (l.kept (some token) ts)) h))
      (ground arith))

found_again :
    (hosts : List Host) (id : ℕ) (s : Split Host) (h : Host)
    → find_device_host hosts id ≡ some s
    → h.host_id ≡ s.item.host_id
    → (find_device_host (put_back s h) id ≡ some (record s { item = h }))
      × (hosts ≡ put_back s s.item)
unfolding find_device_host
found_again hosts id s h e i =
    let f = split_first-Finds (has_id id) hosts s e in
    (split_first-append (has_id id) s.before h s.after f.first (rw i f.passes), f.whole)

fresh-none :
    (d : ℕ) (ts : List (Option TokenIf)) → IsFresh d ts → split_first (has_devid d) ts ≡ none
unfolding split_first
fresh-none d [] h = refl
fresh-none d (t ∷ ts) h = ground (arith, fresh-none d ts h.1)

-- If the host of a device exists and holds no device of its identifier, and there is memory, the
-- device can be attached, and detaching it gives the manager back as it was.
pub detach_device-attach_device :
    (env : Env) (token : TokenIf) (m : Manager) (s : Split Host)
    → ListAdd env
    → find_device_host m.hosts (env.host_of token.devid) ≡ some s
    → IsFresh token.devid s.item.devices
    → env.new_token m.trace ≡ true
    → ((attach_device env (some token) m).0 ≡ success)
      × (detach_device env token.devid (attach_device env (some token) m).1 ≡ (success, m))
unfolding attach_device detach_device
detach_device-attach_device env token m s l e fresh memory =
    let ds = env.list_add (some token) s.item.devices in
    let h = record s.item { devices = ds } in
    let again = found_again m.hosts (env.host_of token.devid) s h e refl in
    ground (
      arith,
      again,
      added-found env l token s.item.devices fresh,
      l.kept (some token) s.item.devices,
    )

-- Detaching what no host has attached is refused, and nothing changes.
pub detach_device_unknown :
    (env : Env) (devid : ℕ) (m : Manager) (s : Split Host)
    → find_device_host m.hosts (env.host_of devid) ≡ some s
    → IsFresh devid s.item.devices
    → detach_device env devid m ≡ (no_device, m)
unfolding detach_device
detach_device_unknown env devid m s e fresh = ground (arith, fresh-none devid s.item.devices fresh)
