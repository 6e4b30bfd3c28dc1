-- ===== src/Spawner/Connection/Laws.antt =====
-- Who may connect, and what is left when a connection closes.
use openharmony_mac_build.Common.{
  ℤ, length, leb, ℕ, ◌≡◌, ◌+◌, ◌%◌, ◌^◌, ◌∙◌, refl, ap, Bool, true, false, not, ◌&&◌, ◌||◌, ◌==◌,
  sym, Option, none, some, List, [], ◌∷◌, if◌then◌else◌, arith, Bool-cases, inl, inr,
}
use openharmony_mac_build.Spawner.State.{
  call, Control, request, Env, Server, Ctx, Message, Trace, delete_ctx, accept_client, close_stream,
}
use openharmony_mac_build.Spawner.Connection.{
  Conn, on_connection_user_check, is_peer_allowed, on_connection, delete_if_any, belongs,
  app_spawning_ctx_on_close, close_contexts, stop_check_timer, on_close, take_fds,
  handle_recv_message,
}

-- The contexts that have been deleted, the newest first.
abbrev pub deleted : Trace → List Ctx
deleted [] = []
deleted (delete_ctx x ∷ t) = x ∷ deleted t
deleted (c ∷ t) = deleted t

-- The contexts of a connection, put before others one by one.
abbrev pub onto : ℕ → List Ctx → List Ctx → List Ctx
onto id [] ys = ys
onto id (x ∷ xs) ys = onto id xs (if belongs id x.message then x ∷ ys else ys)

deleted-app_spawning_ctx_on_close :
    (id : ℕ) (x : Ctx) (s : Server)
    → deleted (app_spawning_ctx_on_close id x s).trace
      ≡ (if belongs id x.message then x ∷ deleted s.trace else deleted s.trace)
unfolding app_spawning_ctx_on_close
deleted-app_spawning_ctx_on_close id x s = ground arith

deleted-close_contexts :
    (id : ℕ) (xs : List Ctx) (s : Server)
    → deleted (close_contexts id xs s).trace ≡ onto id xs (deleted s.trace)
unfolding close_contexts
deleted-close_contexts id [] s = refl
deleted-close_contexts id (x ∷ xs) s =
    deleted-close_contexts id xs (app_spawning_ctx_on_close id x s)
    ∙ ap (onto id xs) (deleted-app_spawning_ctx_on_close id x s)

deleted-delete_if_any :
    (o : Option Message) (s : Server) → deleted (delete_if_any o s).trace ≡ deleted s.trace
unfolding delete_if_any
deleted-delete_if_any none s = refl
deleted-delete_if_any (some m) s = refl

deleted-stop_check_timer :
    (c : Conn) (s : Server)
    → (deleted (stop_check_timer c s).1.trace ≡ deleted s.trace)
      × ((stop_check_timer c s).0.check_timer ≡ none)
unfolding stop_check_timer
deleted-stop_check_timer c s = ground arith

-- When a connection closes, those contexts are deleted, in their order, that are spawned for it, and no
-- others, if the queue holds `xs`; its timer and its incomplete message are gone.
pub on_close-deleted :
    (env : Env) (c : Conn) (s : Server) (xs : List Ctx)
    → ((t : Trace) → env.contexts t ≡ xs)
    → (deleted (on_close env c s).1.trace ≡ onto c.conn_id xs (deleted s.trace))
      × ((on_close env c s).0.check_timer ≡ none)
      × ((on_close env c s).0.incomplete ≡ none)
unfolding on_close
on_close-deleted env c s xs q =
    let r = stop_check_timer c s in
    let t = delete_if_any c.incomplete r.1 in
    let k = deleted-stop_check_timer c s in
    (
      ap (λ (l : List Ctx). deleted (close_contexts c.conn_id l t).trace) (q t.trace)
          ∙ deleted-close_contexts c.conn_id xs t
          ∙ ap (onto c.conn_id xs) (deleted-delete_if_any c.incomplete r.1 ∙ k.0),
      k.1,
      refl,
    )

abbrev pub new_conn : ℕ → Conn
new_conn id = record {
  conn_id = id;
  fds = [];
  fd_count = 0;
  incomplete = none;
  check_timer = none;
  recv_len = 0;
  next_id = 1;
}

abbrev pub is_closed : Trace → Bool
is_closed (close_stream ∷ t) = true
is_closed t = false

abbrev member : ℕ → List ℕ → Bool
member n [] = false
member n (k ∷ ks) = (n == k) || member n ks

-- The users that may connect: root, storage_manager, app_fwk_update and foundation, and the shell in
-- developer mode; a client whose user cannot be told may not.
abbrev pub may_connect : Bool → Option ℕ → Bool
may_connect developer none = false
may_connect developer (some uid) =
    member uid (0 ∷ 1090 ∷ 3350 ∷ 5523 ∷ (if developer then 2000 ∷ [] else []))

on_connection_user_check-may_connect :
    (env : Env) (o : Option ℕ) → is_peer_allowed env o ≡ may_connect env.developer_mode o
unfolding is_peer_allowed on_connection_user_check
on_connection_user_check-may_connect env none = refl
on_connection_user_check-may_connect env (some uid) = ground arith

-- A client gets a connection exactly if it was accepted and its user can be told and is 0, 1090, 3350 or
-- 5523, or 2000 in developer mode. The connection is then empty and has the next number, which goes
-- round at 2^32; else no number is used up. The stream is closed exactly of a client that was accepted
-- and may not connect.
pub on_connection_lem :
    (env : Env) (last : ℕ) (s : Server)
    → let r = on_connection env last s in
      let t = accept_client ∷ s.trace in
      let joins = env.accept_ok t && may_connect env.developer_mode (env.peer_uid t) in
      (r.1 ≡ (if joins then some (new_conn r.0) else none))
      × (r.0 ≡ (if joins then (last + 1) % 2 ^ 32 else last))
      × (is_closed r.2.trace
          ≡ (env.accept_ok t && not (may_connect env.developer_mode (env.peer_uid t))))
unfolding on_connection
on_connection_lem env last s =
    let t = accept_client ∷ s.trace in
    let e = on_connection_user_check-may_connect env (env.peer_uid t) in
    rw (sym e) (elim (Bool-cases (env.accept_ok t)) [
      | inr b ↦ simp b (refl, refl, refl)
      | inl b ↦ elim (Bool-cases (is_peer_allowed env (env.peer_uid t))) [
        | inl d ↦ simp (b, d) (refl, refl, refl)
        | inr d ↦ simp (b, d) (refl, refl, refl)
      ]
    ])

-- The descriptors that a connection counts are those it holds, and they fit its array.
pub record HoldsFds (env : Env) (c : Conn) : Type 0 where
  pub counted : c.fd_count ≡ length c.fds
  pub fits : leb c.fd_count env.app_max_fd_count ≡ true

take_fds-HoldsFds :
    (env : Env) (n : ℤ) (ms : List Control) (c : Conn) (s : Server)
    → HoldsFds env c
    → HoldsFds env (take_fds env n ms c s).1
unfolding take_fds
take_fds-HoldsFds env n [] c s h = h
take_fds-HoldsFds env n (m ∷ ms) c s h =
    let b = leb (length m.passed) env.app_max_fd_count in
    elim (Bool-cases m.is_rights) [
      | inr r ↦ simp r (take_fds-HoldsFds env n ms c s h)
      | inl r ↦ elim (Bool-cases b) [
        | inr e ↦ simp (r, e) h
        | inl e ↦ elim (Bool-cases (env.copy_ok s.trace)) [
          | inr d ↦ simp (r, e, d) h
          | inl d ↦
              simp (r, e, d)
                (take_fds-HoldsFds env n ms
                  (record c { fds = m.passed; fd_count = length m.passed }) s
                  (record { counted = refl; fits = e }))
        ]
      ]
    ]

-- Whatever control messages come, a connection counts the descriptors that it holds, and they fit its
-- array, if this is so before.
pub handle_recv_message-HoldsFds :
    (env : Env) (c : Conn) (s : Server)
    → HoldsFds env c
    → HoldsFds env (handle_recv_message env c s).1
unfolding handle_recv_message
handle_recv_message-HoldsFds env c s h =
    let t = call (request "recvmsg") s in
    take_fds-HoldsFds env (env.recv_msg t.trace).0 (env.recv_msg t.trace).1 c t h
