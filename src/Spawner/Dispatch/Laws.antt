-- ===== src/Spawner/Dispatch/Laws.antt =====
-- What becomes of each message that ProcessRecvMsg takes.
use openharmony_mac_build.Common.{
  ℕ, pos, ◌≡◌, ◌∙◌, refl, ap, Bool, true, false, some, ◌∷◌, arith, ◌==◌,
}
use openharmony_mac_build.Spawner.State.{
  Env, Server, Message, MsgType, beget_cmd, update_mount_points, Code, Call, Trace, send,
  delete_msg, send_response,
}
use openharmony_mac_build.Spawner.News.{news, is_node, is_answer, is_release, Replies}
use openharmony_mac_build.Spawner.Request.{Asked, over, waits, process_spawn_req_msg}
use openharmony_mac_build.Spawner.Request.Laws.{
  Settles, news-send_response, process_spawn_req_msg-Settles,
}
use openharmony_mac_build.Spawner.Remount.{process_spawn_remount_msg}
use openharmony_mac_build.Spawner.Remount.Laws.{news-process_spawn_remount_msg}
use openharmony_mac_build.Spawner.Dispatch.{
  then_delete, spawn_beget, process_spawn_begetctl_msg, process_beget_cmd_msg, process_msg_type,
}

-- The types whose handlers see to the message themselves: two are left.
abbrev pub is_settling : MsgType → Bool
is_settling beget_cmd = false
is_settling update_mount_points = false
is_settling t = true

-- What the two releases of ProcessBegetCmdMsg leave of the message that was rebuilt.
abbrev pub Twice : Message → Trace → Asked → Type 0
Twice n t (over s) =
    (a : Call) × (r : Call) × (is_answer a ≡ true)
    × (is_release r ≡ true)
    × (news n.node s.trace ≡ delete_msg n ∷ r ∷ a ∷ news n.node t)
Twice n t (waits x s) =
    (is_node n.node x.message ≡ true) × (news n.node s.trace ≡ delete_msg n ∷ news n.node t)

module _ (env : Env) (k : Replies env) where
  -- A request to mount a new web core is answered, and its message is never released.
  pub update_mount_points-never_released :
      (conn : ℕ) (m : Message) (s : Server)
      → (t : Server) × (process_msg_type env conn m s update_mount_points ≡ over t)
        × ((c : Code) × (news m.node t.trace ≡ send m c (pos 0) ∷ news m.node s.trace))
  unfolding process_msg_type
  update_mount_points-never_released conn m s =
      let r = process_spawn_remount_msg env s in
      let e : (m.node == m.node) ≡ true = ground arith in
      (
        send_response env m r.0 (pos 0) r.1,
        refl,
        (
          r.0,
          news-send_response env k m.node m r.0 (pos 0) r.1 e
              ∙ ap (λ (t : Trace). send m r.0 (pos 0) ∷ t)
                  (news-process_spawn_remount_msg env m.node s),
        ),
      )

  then_delete-Twice :
      (n m : Message) (t : Trace) (a : Asked)
      → (m.node == n.node) ≡ false
      → Settles n.node t a
      → Twice n t (then_delete n (then_delete m a))
  unfolding then_delete
  then_delete-Twice n m t (over s) d g =
      (g.answer, g.release, g.answers, g.releases, ground (arith, g.since))
  then_delete-Twice n m t (waits x s) d g = (g.1, ground (arith, g.0))

  -- In developer mode, a command of begetctl is spawned from a message that is rebuilt. If every
  -- answer fits its buffer and the two messages are not the same, the rebuilt one is released once
  -- more after its request was answered and has released it, or while a child is waited for that has
  -- it.
  pub process_beget_cmd_msg-Twice :
      (conn : ℕ) (m n : Message) (s t : Server)
      → env.developer_mode ≡ true
      → process_spawn_begetctl_msg env m s ≡ (some n, t)
      → (m.node == n.node) ≡ false
      → Twice n t.trace (process_beget_cmd_msg env conn m s)
  unfolding process_beget_cmd_msg spawn_beget
  process_beget_cmd_msg-Twice conn m n s t d b f =
      simp (d, b)
        (then_delete-Twice n m t.trace (process_spawn_req_msg env conn n t) f
          (process_spawn_req_msg-Settles env k conn n t))
