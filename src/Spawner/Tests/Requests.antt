-- ===== src/Spawner/Tests/Requests.antt =====
-- The theorems on requests and on the children that they are handed.
use openharmony_mac_build.Common.{◌≡◌, refl, true, none, some, pos, [], ◌∷◌, is_positive}
use openharmony_mac_build.Spawner.State.{
  Env, Server, Ctx, done, call, Trace, request, start_timer, create_timer, start_watcher, run_hooks,
  parent_post_fork, parent_pre_fork, spawn, make_pipe, create_ctx, fork_child,
}
use openharmony_mac_build.Spawner.News.{Replies}
use openharmony_mac_build.AppSpawn.Child as Child
use openharmony_mac_build.Spawner.Dispatch.{
  process_beget_cmd_msg, process_spawn_begetctl_msg, beget_app, rebuilt_msg,
}
use openharmony_mac_build.Spawner.Dispatch.Laws.{Twice, process_beget_cmd_msg-Twice}
use openharmony_mac_build.Spawner.Prefork.{process_msg_for_prefork}
use openharmony_mac_build.Spawner.Prefork.Laws.{
  SharesMemory, process_msg_for_prefork_hands_out, process_msg_for_prefork_twice,
}
use openharmony_mac_build.Spawner.Tests.{content, server, ctx, message, env}

abbrev env_replies : Replies env
env_replies = record { fits = λ t. refl }

-- The child that is waited for, and the server that waits for it.
abbrev served : Ctx
served = record ctx {
  pid = pos 90;
  is_spawning = true;
  message = some (record message { connection = some 5 });
  fd_read = pos 10;
  fd_write = pos 11;
  timer = some 600;
  watcher = some 500;
}

abbrev pending_server : Server
pending_server = record {
  content = content;
  trace =
      start_timer 3000
      ∷ create_timer
      ∷ start_watcher
      ∷ run_hooks parent_post_fork
      ∷ spawn (Child.fork ∷ [])
      ∷ make_pipe
      ∷ run_hooks parent_pre_fork
      ∷ create_ctx
      ∷ [];
}

begets :
    process_spawn_begetctl_msg env message server
    ≡ (some (record message { node = 78 }), call (request "RebuildAppSpawnMsgNode") server)
unfolding process_spawn_begetctl_msg beget_app rebuilt_msg
begets = refl

-- The begetctl message of the process 91.
process_beget_cmd_msg-Twice_example :
    Twice
      (record message { node = 78 })
      (request "RebuildAppSpawnMsgNode" ∷ [])
      (process_beget_cmd_msg env 5 message server)
process_beget_cmd_msg-Twice_example =
    process_beget_cmd_msg-Twice env env_replies 5 message (record message { node = 78 }) server
      (call (request "RebuildAppSpawnMsgNode") server) refl begets refl

abbrev shares : SharesMemory env
shares = record { maps = λ t. refl; copies = λ t. refl; unblocks = λ t. refl; tells = λ t. refl }

process_msg_for_prefork_hands_out_example :
    ((process_msg_for_prefork env ctx server).0 ≡ done)
    × ((process_msg_for_prefork env ctx server).1.pid ≡ pos 31)
    × (is_positive (process_msg_for_prefork env ctx server).2.content.reserved_pid ≡ true)
    × ((u : Trace) × ((process_msg_for_prefork env ctx server).2.trace ≡ fork_child ∷ u)
        × ((process_msg_for_prefork env ctx server).2.content.reserved_pid ≡ pos 32))
process_msg_for_prefork_hands_out_example =
    process_msg_for_prefork_hands_out env ctx server shares (λ t. refl) (λ t. refl) refl

abbrev pipeless : Env
pipeless = record env { pipe_fds = λ t. none }

process_msg_for_prefork_twice_example :
    let r = process_msg_for_prefork pipeless ctx server in
    let q = process_msg_for_prefork pipeless ctx r.2 in
    (r.0 ≡ done) × (q.0 ≡ done) × (q.1.pid ≡ r.1.pid)
process_msg_for_prefork_twice_example =
    process_msg_for_prefork_twice pipeless ctx ctx server
      (record { maps = λ t. refl; copies = λ t. refl; unblocks = λ t. refl; tells = λ t. refl })
      (λ t. refl) refl
