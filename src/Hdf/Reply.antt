-- ===== src/Hdf/Reply.antt =====
-- DevmgrServiceListAllDevice: the reply that lists all hosts with their devices.
pub mod Parse
use openharmony_mac_build.Common.{
  ℕ, String, Option, none, some, List, [], ◌∷◌, ◌++◌, length, Bool, if◌then◌else◌,
}
use openharmony_mac_build.Hdf.Types.{Host, TokenIf, Manager, Code, success}

-- One value in the reply: HdfSbufWriteString or HdfSbufWriteUint32.
pub data Word : Type 0 where
  text : String → Word
  num : ℕ → Word

abbrev pub or_empty : Option String → String
or_empty none = ""
or_empty (some s) = s

-- Whether a value can be written after those that are there. Nobody looks at what a write returns.
abbrev pub Writes : Type 0
Writes = List Word → Word → Bool

unfoldable pub write : Writes → Word → List Word → List Word
write ok w reply = if ok reply w then reply ++ (w ∷ []) else reply

write_token : Writes → TokenIf → List Word → List Word
unfolding write
write_token ok t reply =
    write ok (text (or_empty t.serv_name))
      (write ok (num t.devid) (write ok (text (or_empty t.device_name)) reply))

-- The loop over the tokens of a host; one whose `tokenIf` is NULL writes nothing.
unfoldable pub write_tokens : Writes → List (Option TokenIf) → List Word → List Word
unfolding write_token
write_tokens ok [] reply = reply
write_tokens ok (none ∷ ts) reply = write_tokens ok ts reply
write_tokens ok (some t ∷ ts) reply = write_tokens ok ts (write_token ok t reply)

write_head : Writes → Host → List Word → List Word
unfolding write
write_head ok h reply =
    write ok (num (length h.devices)) (write ok (num h.host_id) (write ok (text h.host_name) reply))

unfoldable pub write_hosts : Writes → List Host → List Word → List Word
unfolding write_head write_tokens
write_hosts ok [] reply = reply
write_hosts ok (h ∷ hs) reply =
    write_hosts ok hs (write_tokens ok h.devices (write_head ok h reply))

-- The code that is returned, and the reply.
unfoldable pub list_all_device : Writes → Manager → List Word → Code × List Word
unfolding write_hosts
list_all_device ok m reply = (success, write_hosts ok m.hosts reply)
