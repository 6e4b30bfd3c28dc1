-- ===== src/Hdf/Reply/Parse.antt =====
-- A reader of the reply gets back what the device manager holds.
use openharmony_mac_build.Common.{
  ℕ, zero, suc, ◌≤◌, ◌≡◌, ◌∙◌, refl, ap, sym, String, true, Option, none, some, is_some, List, [],
  ◌∷◌, ◌++◌, length, All, arith,
}
use openharmony_mac_build.Hdf.Types.{Host, TokenIf, Manager, success}
use openharmony_mac_build.Hdf.Reply.{
  Word, text, num, or_empty, Writes, write, write_token, write_tokens, write_head, write_hosts,
  list_all_device,
}

-- What the reply says of a device, and of a host.
pub record DeviceView : Type 0 where
  pub device_name : String
  pub devid : ℕ
  pub serv_name : String

pub record HostView : Type 0 where
  pub host_name : String
  pub host_id : ℕ
  pub devices : List DeviceView

abbrev view_token : Option TokenIf → List DeviceView → List DeviceView
view_token none vs = vs
view_token (some t) vs =
    record {
      device_name = or_empty t.device_name;
      devid = t.devid;
      serv_name = or_empty t.serv_name;
    }
    ∷ vs

abbrev view_tokens : List (Option TokenIf) → List DeviceView
view_tokens [] = []
view_tokens (t ∷ ts) = view_token t (view_tokens ts)

abbrev pub view_hosts : List Host → List HostView
view_hosts [] = []
view_hosts (h ∷ hs) =
    record { host_name = h.host_name; host_id = h.host_id; devices = view_tokens h.devices }
    ∷ view_hosts hs

-- The reader: it takes the count at its word.
abbrev with_device :
    DeviceView → Option (List DeviceView × List Word) → Option (List DeviceView × List Word)
with_device v none = none
with_device v (some (vs, ws)) = some (v ∷ vs, ws)

abbrev pub read_devices : ℕ → List Word → Option (List DeviceView × List Word)
read_devices zero ws = some ([], ws)
read_devices (suc n) (text a ∷ num d ∷ text b ∷ ws) =
    with_device (record { device_name = a; devid = d; serv_name = b }) (read_devices n ws)
read_devices (suc n) _ = none

abbrev with_host :
    String
    → ℕ
    → Option (List DeviceView × List Word)
    → (List Word → Option (List HostView))
    → Option (List HostView)
with_host name id none rest = none
with_host name id (some (vs, ws)) rest = elim (rest ws) [
  | none ↦ none
  | some hs ↦ some (record { host_name = name; host_id = id; devices = vs } ∷ hs)
]

-- At most `fuel` hosts.
pub read_hosts : ℕ → List Word → Option (List HostView)
read_hosts fuel [] = some []
read_hosts (suc fuel) (text name ∷ num id ∷ num n ∷ ws) =
    with_host name id (read_devices n ws) (read_hosts fuel)
read_hosts _ _ = none

-- Every token of every host has its interface.
abbrev pub AllSet : List Host → Type 0
AllSet hosts = All (λ h. All (λ t. is_some t ≡ true) h.devices) hosts

-- What is in a reply where no write fails.
abbrev token_words : List (Option TokenIf) → List Word
token_words [] = []
token_words (none ∷ ts) = token_words ts
token_words (some t ∷ ts) =
    text (or_empty t.device_name) ∷ num t.devid ∷ text (or_empty t.serv_name) ∷ token_words ts

abbrev host_words : List Host → List Word
host_words [] = []
host_words (h ∷ hs) =
    text h.host_name
    ∷ num h.host_id
    ∷ num (length h.devices)
    ∷ (token_words h.devices ++ host_words hs)

append_one : (ws vs : List Word) (w : Word) → (ws ++ w ∷ []) ++ vs ≡ ws ++ w ∷ vs
append_one [] vs w = refl
append_one (u ∷ ws) vs w = ap (λ (l : List Word). u ∷ l) (append_one ws vs w)

append_none : (ws : List Word) → ws ++ [] ≡ ws
append_none [] = refl
append_none (u ∷ ws) = ap (λ (l : List Word). u ∷ l) (append_none ws)

append_all : (us vs ws : List Word) → (us ++ vs) ++ ws ≡ us ++ (vs ++ ws)
append_all [] vs ws = refl
append_all (u ∷ us) vs ws = ap (λ (l : List Word). u ∷ l) (append_all us vs ws)

module _ (ok : Writes) (k : (reply : List Word) (w : Word) → ok reply w ≡ true) where
  write_lem : (w : Word) (reply : List Word) → write ok w reply ≡ reply ++ w ∷ []
  unfolding write
  write_lem w reply = simp (k reply w) refl

  write_three :
      (a b c : Word) (reply ws : List Word)
      → write ok c (write ok b (write ok a reply)) ++ ws ≡ reply ++ (a ∷ b ∷ c ∷ ws)
  write_three a b c reply ws =
      rw
        (
          write_lem a reply,
          write_lem b (reply ++ a ∷ []),
          write_lem c ((reply ++ a ∷ []) ++ b ∷ []),
          append_one ((reply ++ a ∷ []) ++ b ∷ []) ws c,
          append_one (reply ++ a ∷ []) (c ∷ ws) b,
          append_one reply (b ∷ c ∷ ws) a,
        )
        refl

  write_tokens_lem :
      (ts : List (Option TokenIf)) (reply ws : List Word)
      → write_tokens ok ts reply ++ ws ≡ reply ++ (token_words ts ++ ws)
  unfolding write_tokens write_token
  write_tokens_lem [] reply ws = refl
  write_tokens_lem (none ∷ ts) reply ws = write_tokens_lem ts reply ws
  write_tokens_lem (some t ∷ ts) reply ws =
      write_tokens_lem ts (write_token ok t reply) ws
      ∙ write_three (text (or_empty t.device_name)) (num t.devid) (text (or_empty t.serv_name))
          reply (token_words ts ++ ws)

  write_hosts_lem :
      (hs : List Host) (reply : List Word) → write_hosts ok hs reply ≡ reply ++ host_words hs
  unfolding write_hosts write_head
  write_hosts_lem [] reply = sym (append_none reply)
  write_hosts_lem (h ∷ hs) reply =
      write_hosts_lem hs (write_tokens ok h.devices (write_head ok h reply))
      ∙ write_tokens_lem h.devices (write_head ok h reply) (host_words hs)
      ∙ write_three (text h.host_name) (num h.host_id) (num (length h.devices)) reply
          (token_words h.devices ++ host_words hs)

read_devices-token_words :
    (ts : List (Option TokenIf)) (ws : List Word)
    → All (λ t. is_some t ≡ true) ts
    → read_devices (length ts) (token_words ts ++ ws) ≡ some (view_tokens ts, ws)
read_devices-token_words [] ws h = refl
read_devices-token_words (none ∷ ts) ws h = cc (h.0)
read_devices-token_words (some t ∷ ts) ws h = ground (arith, read_devices-token_words ts ws h.1)

read_hosts-host_words :
    (hs : List Host) (fuel : ℕ)
    → length hs ≤ fuel
    → AllSet hs
    → read_hosts fuel (host_words hs) ≡ some (view_hosts hs)
unfolding read_hosts
read_hosts-host_words [] fuel l h = refl
read_hosts-host_words (h ∷ hs) zero l a = elim l [ ]
read_hosts-host_words (h ∷ hs) (suc fuel) l a = ground (
  arith,
  read_devices-token_words h.devices (host_words hs) a.0,
  read_hosts-host_words hs fuel (omega arith) a.1,
)

-- If every write to the reply succeeds and every token has its interface, then ListAllDevice succeeds,
-- and a reader of its reply, with as many rounds as there are hosts, gets back all hosts in their order,
-- with all their devices.
pub read_hosts-list_all_device :
    (ok : Writes) (m : Manager)
    → ((reply : List Word) (w : Word) → ok reply w ≡ true)
    → AllSet m.hosts
    → let r = list_all_device ok m [] in
      (r.0 ≡ success) × (read_hosts (length m.hosts) r.1 ≡ some (view_hosts m.hosts))
unfolding list_all_device
read_hosts-list_all_device ok m k h = (
  refl,
  ap (read_hosts (length m.hosts)) (write_hosts_lem ok k m.hosts [])
      ∙ read_hosts-host_words m.hosts (length m.hosts) (omega arith) h,
)
